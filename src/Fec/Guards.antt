-- ===== src/Fec/Guards.antt =====
-- moonlight-common-go/fec/fec.go: the shards that `Reconstruct` is given, and its guards.
use mathlib.Core.Path.{subst}
use moonparty.Base.{
  ℕ, ◌+◌, ◌-◌, ◌<◌, ◌≡◌, Bool, true, false, Option, none, some, List, map, arith, ◌==◌, ◌!=◌,
  if◌then◌else◌, ltb, length, get_or,
}
use moonparty.Fec.Scalar.{Gf}
use moonparty.Fec.Matrix.{Cells, invert_matrix}
use moonparty.Fec.Bytes.{shard_at}
use moonparty.Fec.Codec.{
  ReedSolomon, done, content, block_size, missing_data, available_parity, kept_data, decode_rows,
  outputs_of, copy_rows, put_outputs, code_some_shards, recover, reconstruct,
}
use moonparty.Fec.Outputs.{Replaceable}

-- The shards after a loss: those present are those of the codeword, and in the place of the others
-- stands nothing, or a buffer of the size.
pub record IsReceived (k m n : ℕ) (full : List (List Gf)) (shards : List (Option (List Gf)))
    (present : List Bool) : Type 0 where
  pub shard_count : length shards ≡ k + m
  pub present_count : length present ≡ k + m
  pub here :
      (r : ℕ)
      → r < k + m
      → get_or present r false ≡ true
      → get_or shards r none ≡ some (shard_at full r)
  pub gone :
      (r : ℕ) → r < k + m → get_or present r false ≡ false → Replaceable n (get_or shards r none)

-- `recover` with what its parts give.
pub recover_runs :
    (k n : ℕ) (rs : ReedSolomon) (shards : List (Option (List Gf))) (missing available : List ℕ)
    (b : Cells) (outs : List (List Gf))
    → rs.data_shards ≡ k
    → invert_matrix
        (λ r c. rs.matrix (get_or (decode_rows k (kept_data k 0 missing) available) r 0) c)
        k
      ≡ some b
    → code_some_shards
        (copy_rows 0 missing b)
        0
        (map
          (λ i. content (get_or shards i none))
          (decode_rows k (kept_data k 0 missing) available))
        (outputs_of n shards missing)
      ≡ some outs
    → recover rs n shards missing available ≡ done (put_outputs shards missing outs)
unfolding recover
recover_runs k n rs shards missing available b outs ek inverted e =
    rw (ek, inverted, ek, e, recover)

not_short : (a b : ℕ) → a ≡ b → ltb a b ≡ false
not_short a b e = ground arith

-- `reconstruct` past its guards, for `k` data and `m` parity shards.
abbrev pub PastGuards : ReedSolomon → ℕ → List (Option (List Gf)) → List Bool → ℕ → ℕ → Type 0
PastGuards rs n shards present k m =
    let missing = missing_data k 0 present in
    let available = available_parity m k k (length missing) present in
    length available ≡ length missing
    → reconstruct rs shards present
      ≡ (if length missing == 0 then done shards else recover rs n shards missing available)

pub past_guards :
    (k m n : ℕ) (rs : ReedSolomon) (shards : List (Option (List Gf))) (present : List Bool)
    → rs.data_shards ≡ k
    → rs.total_shards - rs.data_shards ≡ m
    → length shards ≡ rs.total_shards
    → length present ≡ rs.total_shards
    → 0 < n
    → block_size 0 shards present ≡ some n
    → PastGuards rs n shards present k m
unfolding reconstruct
past_guards k m n rs shards present ek em ls lp pos sized =
    subst (λ t. PastGuards rs n shards present t m) ek
      (subst (λ t. PastGuards rs n shards present rs.data_shards t) em at_fields)
  where
    at_fields : PastGuards rs n shards present rs.data_shards (rs.total_shards - rs.data_shards)
    at_fields enough =
        let right : (length shards != rs.total_shards) ≡ false = ground arith in
        let right' : (length present != rs.total_shards) ≡ false = ground arith in
        let nonempty : (n == 0) ≡ false = ground arith in
        let all = not_short _ _ enough in rw (right, right', sized, nonempty, all, reconstruct)
