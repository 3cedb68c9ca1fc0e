-- ===== src/Fec/Reconstruction.antt =====
-- moonlight-common-go/fec/fec.go: `Reconstruct` gives the missing data shards back.
use moonparty.Base.{
  from_zero, ℕ, zero, suc, ◌+◌, ◌-◌, ◌≤◌, ◌<◌, ◌≡◌, ◌∙◌, sym, ap, inl, inr, Option, none, some,
  List, [], ◌∷◌, map, arith, Bool-cases, Option-cases, ltb, length, get_or,
}
use moonparty.Base.All.{All, length-map}
use moonparty.Base.Places.{get_or-map, eq_of_get_or}
use moonparty.Fec.Scalar.{Gf, gf_zero}
use moonparty.Fec.Matrix.{Cells, invert_matrix}
use moonparty.Fec.Exchange.{dot, Takes}
use moonparty.Fec.Inversion.{dot_congr, invert_matrix_inverse, invert_matrix_singular}
use moonparty.Fec.Bytes.{byte, shard_at}
use moonparty.Fec.Coding.{Sized, code_some_shards_lem}
use moonparty.Fec.Codec.{ReedSolomon, content, outputs_of, copy_rows, code_some_shards}
use moonparty.Fec.Generator.{IsCodec, systematic_row}
use moonparty.Fec.Codewords.{IsCodeword}
use moonparty.Fec.Erasure.{Between, Between-All}
use moonparty.Fec.Outputs.{Replaceable, Outputs, outputs_of-Sized, length-outputs_of, copy_rows_lem}

All_at : (P : ℕ → Type 0) (xs : List ℕ) (q : ℕ) → All P xs → q < length xs → P (get_or xs q 0)
All_at P [] q h p = absurd (omega arith)
All_at P (x ∷ xs) zero (a, h) p = a
All_at P (x ∷ xs) (suc q) (a, h) p = All_at P xs q h (omega arith)

All-of_places :
    (P : ℕ → Type 0) (xs : List ℕ) → ((q : ℕ) → q < length xs → P (get_or xs q 0)) → All P xs
All-of_places P [] h = tt
All-of_places P (x ∷ xs) h =
    (h 0 (omega arith), All-of_places P xs (λ q p. h (suc q) (omega arith)))

Between-item :
    (lo hi : ℕ) (xs : List ℕ) (q : ℕ) → Between lo hi xs → q < length xs → get_or xs q 0 < hi
Between-item lo hi xs q h p = (All_at (λ x. (lo ≤ x) × (x < hi)) xs q (Between-All lo hi xs h) p).1

Outputs_of_places :
    (g : ℕ → List Gf) (missing : List ℕ) (outs : List (List Gf))
    → length outs ≡ length missing
    → ((q : ℕ) → q < length missing → shard_at outs q ≡ g (get_or missing q 0))
    → Outputs g missing outs
Outputs_of_places g [] outs e h = tt
Outputs_of_places g (i ∷ missing) [] e h = absurd (omega arith)
Outputs_of_places g (i ∷ missing) (s ∷ outs) e h = (
  h 0 (omega arith),
  Outputs_of_places g missing outs (omega arith) (λ q p. h (suc q) (omega arith)),
)

-- A codeword, and rows of the matrix that determine its data, with the shards at those rows.
module _ (k m n : ℕ) (rs : ReedSolomon) (codec : IsCodec k m rs) (pos : 0 < k)
    (full : List (List Gf)) (word : IsCodeword k m n rs full) (rows : List ℕ)
    (count : length rows ≡ k) (below : All (λ r. r < k + m) rows)
    (determined : (x : ℕ → Gf)
      → All (λ r. dot k (rs.matrix r) x ≡ gf_zero) rows
      → (j : ℕ) → j < k
      → x j ≡ gf_zero) where
  abbrev pub decode_matrix : Cells
  decode_matrix r c = rs.matrix (get_or rows r 0) c

  -- Each byte of a shard is the product of its row with the bytes of the data shards.
  shard_row :
      (i r : ℕ)
      → r < k + m
      → byte (shard_at full r) i ≡ dot k (rs.matrix r) (λ c. byte (shard_at full c) i)
  shard_row i r p = elim (Bool-cases (ltb r k)) [
    | inl low ↦
        let q : r < k = ground arith in
        sym (systematic_row k m rs codec r (λ c. byte (shard_at full c) i) q)
    | inr high ↦
        let e : k + (r - k) ≡ r = ground arith in rw e at (word.parities (r - k) i (omega arith))
  ]

  decode-Takes :
      (i : ℕ)
      → Takes k decode_matrix
          (λ c. byte (shard_at full c) i)
          (λ q. byte (shard_at full (get_or rows q 0)) i)
  decode-Takes i q p =
      shard_row i (get_or rows q 0) (All_at (λ r. r < k + m) rows q below (omega arith))

  -- The decode matrix is inverted, and the inverse gives the data.
  pub decode_inverted :
      (b : Cells) × (invert_matrix decode_matrix k ≡ some b)
      × ((i c : ℕ)
          → c < k
          → byte (shard_at full c) i ≡ dot k (b c) (λ q. byte (shard_at full (get_or rows q 0)) i))
  decode_inverted = elim (Option-cases (invert_matrix decode_matrix k)) [
    | inl stuck ↦
        let (x, zeros, j, p, ne) = invert_matrix_singular k decode_matrix stuck in
        absurd (
          ne (
            determined x
              (All-of_places (λ r. dot k (rs.matrix r) x ≡ gf_zero) rows
                (λ q l. zeros q (omega arith)))
              j p))
    | inr (b, e) ↦
        (b, e, λ i c p. (invert_matrix_inverse k decode_matrix b _ _ e).0 (decode-Takes i) c p)
  ]

  module _ (shards : List (Option (List Gf)))
      (here : All (λ r. get_or shards r none ≡ some (shard_at full r)) rows) where
    abbrev pub inputs : List (List Gf)
    inputs = map (λ i. content (get_or shards i none)) rows

    input_place : (q : ℕ) → q < k → shard_at inputs q ≡ shard_at full (get_or rows q 0)
    input_place q p =
        get_or-map (λ i. content (get_or shards i none)) 0 [] rows q (omega arith)
        ∙ ap content
            (All_at (λ r. get_or shards r none ≡ some (shard_at full r)) rows q here (omega arith))

    inputs_count : length inputs ≡ k
    inputs_count = omega (arith, length-map (λ i. content (get_or shards i none)) rows)

    inputs_sizes : Sized n inputs
    inputs_sizes q p =
        let l : q < k = omega (arith, inputs_count) in
        ap length (input_place q l)
        ∙ word.sizes (get_or rows q 0)
            (omega (arith, All_at (λ r. r < k + m) rows q below (omega arith), word.count))

    module _ (missing : List ℕ) (low : Between 0 k missing)
        (free : All (λ i. Replaceable n (get_or shards i none)) missing) (b : Cells)
        (inverse : (i c : ℕ)
          → c < k
          → byte (shard_at full c) i
            ≡ dot k (b c) (λ q. byte (shard_at full (get_or rows q 0)) i)) where
      -- The rows of the missing shards, on the inputs, make the missing shards.
      pub coded :
          (outs : List (List Gf)) × (code_some_shards
              (copy_rows 0 missing b)
              0
              inputs
              (outputs_of n shards missing)
            ≡ some outs)
          × Outputs (shard_at full) missing outs
      coded =
          let (outs, e, (c, h)) =
            code_some_shards_lem (copy_rows 0 missing b) n inputs (outputs_of n shards missing)
              (omega (arith, inputs_count)) inputs_sizes (outputs_of-Sized n shards missing free) in
          (
            outs,
            e,
            Outputs_of_places (shard_at full) missing outs (c ∙ length-outputs_of n shards missing)
                (λ q p.
                  let item = Between-item 0 k missing q low p in
                  let (size, bytes) = h q (omega (arith, length-outputs_of n shards missing)) in
                  eq_of_get_or gf_zero (shard_at outs q) (shard_at full (get_or missing q 0))
                    (size ∙ sym (word.sizes (get_or missing q 0) (omega (arith, word.count))))
                    (λ i. bytes i ∙ output_byte q p i ∙ sym (inverse i (get_or missing q 0) item))),
          )
        where
          output_byte :
              (q : ℕ)
              → q < length missing
              → (i : ℕ)
              → dot (length inputs) (copy_rows 0 missing b q) (λ c. byte (shard_at inputs c) i)
                ≡ dot k (b (get_or missing q 0)) (λ c. byte (shard_at full (get_or rows c 0)) i)
          output_byte q p i =
              let copied =
                rw (from_zero q) at (copy_rows_lem 0 0 k missing b q (omega arith) low p) in
              rw (inputs_count, copied)
                (dot_congr k (b (get_or missing q 0)) _ _
                  (λ c l. ap (λ (s : List Gf). byte s i) (input_place c l)))
