-- ===== src/Fec/Codewords.antt =====
-- moonlight-common-go/fec/fec.go: what `Encode` makes.
use moonparty.Base.{
  ℕ, suc, ◌+◌, ◌-◌, ◌≤◌, ◌<◌, ◌≡◌, ◌∙◌, refl, sym, ap, inl, inr, true, false, some, List, [], ◌∷◌,
  ◌++◌, arith, ◌!=◌, Bool-cases, ltb, length, take, drop, length-drop, length-append, eq→==,
}
use moonparty.Base.Places.{
  get_or-take, get_or-drop, get_or-append_left, get_or-append_right, length-take,
}
use moonparty.Fec.Scalar.{Gf}
use moonparty.Fec.Exchange.{dot}
use moonparty.Fec.Sums.{sum_congr}
use moonparty.Fec.Bytes.{byte, shard_at}
use moonparty.Fec.Coding.{Sized, IsBlock, code_some_shards_lem}
use moonparty.Fec.Codec.{ReedSolomon, done, all_of_length, code_some_shards, encode}
use moonparty.Fec.Generator.{IsCodec}

-- Data and parity shards of one size that belong together: each byte of a parity shard is the product
-- of its row with the bytes of the data shards at that place.
pub record IsCodeword (k m n : ℕ) (rs : ReedSolomon) (shards : List (List Gf)) : Type 0 where
  pub count : length shards ≡ k + m
  pub sizes : Sized n shards
  pub parities :
      (j i : ℕ)
      → j < m
      → byte (shard_at shards (k + j)) i
        ≡ dot k (rs.matrix (k + j)) (λ c. byte (shard_at shards c) i)

all_of_length-true :
    (n : ℕ) (shards : List (List Gf)) → Sized n shards → all_of_length n shards ≡ true
unfolding all_of_length
all_of_length-true n [] h = refl
all_of_length-true n (s ∷ shards) h =
    rw (eq→== (length s) n (h 0 (omega arith)))
      (all_of_length-true n shards (λ r p. h (suc r) (omega arith)))

module _ (k m n : ℕ) (rs : ReedSolomon) (codec : IsCodec k m rs) (pos : 0 < k)
    (shards : List (List Gf)) (count : length shards ≡ k + m) (sizes : Sized n shards) where
  take_sizes : Sized n (take k shards)
  take_sizes r p =
      let below : r < k = omega (arith, length-take k shards (omega arith)) in
      ap length (get_or-take [] k shards r below) ∙ sizes r (omega arith)

  drop_sizes : Sized n (drop k shards)
  drop_sizes r p =
      ap length (get_or-drop [] k shards r) ∙ sizes (k + r) (omega (arith, length-drop k shards))

  take_count : length (take k shards) ≡ k
  take_count = length-take k shards (omega arith)

  drop_count : length (drop k shards) ≡ m
  drop_count = omega (arith, length-drop k shards)

  encode_runs :
      (outs : List (List Gf))
      → code_some_shards rs.parity 0 (take k shards) (drop k shards) ≡ some outs
      → encode rs shards ≡ done (take k shards ++ outs)
  unfolding encode
  encode_runs outs e =
      let right : (length shards != k + m) ≡ false = ground arith in
      let first = sizes 0 (omega arith) in
      rw
        (
          codec.data_count,
          codec.total_count,
          right,
          first,
          all_of_length-true n shards sizes,
          e,
          encode,
        )
        (ap (λ t. done (take t shards ++ outs)) codec.data_count)

  module _ (outs : List (List Gf))
      (block : IsBlock n
        (length (drop k shards))
        (λ r i.
          dot (length (take k shards)) (rs.parity r) (λ c. byte (shard_at (take k shards) c) i))
        outs) where
    encoded : List (List Gf)
    encoded = take k shards ++ outs

    data_place : (r : ℕ) → r < k → shard_at encoded r ≡ shard_at shards r
    unfolding encoded
    data_place r p =
        get_or-append_left [] (take k shards) outs r (omega (arith, take_count))
        ∙ get_or-take [] k shards r p

    parity_place : (j : ℕ) → shard_at encoded (k + j) ≡ shard_at outs j
    unfolding encoded
    parity_place j =
        get_or-append_right [] (take k shards) outs (k + j) j (omega (arith, take_count))

    encoded_count : length encoded ≡ k + m
    unfolding encoded
    encoded_count =
        omega (arith, length-append (take k shards) outs, take_count, drop_count, block.0)

    encoded_sizes : Sized n encoded
    encoded_sizes r p = elim (Bool-cases (ltb r k)) [
      | inl low ↦
          let q : r < k = ground arith in
          ap length (data_place r q) ∙ sizes r (omega (arith, encoded_count))
      | inr high ↦
          let q : k ≤ r = ground arith in
          let e : k + (r - k) ≡ r = omega arith in
          ap length (ap (shard_at encoded) (sym e) ∙ parity_place (r - k))
          ∙ (block.1 (r - k) (omega (arith, encoded_count, drop_count))).0
    ]

    encoded_parities :
        (j i : ℕ)
        → j < m
        → byte (shard_at encoded (k + j)) i
          ≡ dot k (rs.matrix (k + j)) (λ c. byte (shard_at encoded c) i)
    encoded_parities j i p =
        ap (λ (s : List Gf). byte s i) (parity_place j)
        ∙ (block.1 j (omega (arith, drop_count))).1 i
        ∙ rw take_count (
            sum_congr k _ _
              (λ c q. rw (codec.parity_rows j c, get_or-take [] k shards c q, ← data_place c q)))

  -- `Encode` keeps the data shards, and makes a codeword with them.
  pub encode_lem :
      (full : List (List Gf)) × (encode rs shards ≡ done full)
      × IsCodeword k m n rs full
      × ((r : ℕ) → r < k → shard_at full r ≡ shard_at shards r)
  unfolding encoded
  encode_lem =
      let (outs, e, block) =
        code_some_shards_lem rs.parity n (take k shards) (drop k shards) (omega (arith, take_count))
          take_sizes drop_sizes in
      (
        encoded outs block,
        encode_runs outs e,
        record {
          count = encoded_count outs block;
          sizes = encoded_sizes outs block;
          parities = encoded_parities outs block;
        },
        data_place outs block,
      )
