-- ===== src/Fec/Losses.antt =====
-- moonlight-common-go/fec/fec.go: `Reconstruct` where too many shards are lost.
use mathlib.Core.Path.{subst}
use moonparty.Base.{
  from_zero, ℕ, zero, suc, ◌+◌, ◌-◌, ◌≤◌, ◌<◌, ◌≡◌, ◌∙◌, refl, sym, inl, inr, Bool, false, Option,
  some, List, [], ◌∷◌, arith, ◌==◌, ◌!=◌, Bool-cases, ltb, lt→ltb, ltb→lt, length, get_or, eq-or-ne,
}
use moonparty.Fec.Scalar.{Gf}
use moonparty.Fec.Codec.{
  ReedSolomon, done, failed, not_enough_shards, block_size, missing_data, available_parity, new,
  reconstruct,
}
use moonparty.Fec.Generator.{new-IsCodec}
use moonparty.Fec.Erasure.{missing_here, missing_gone}
use moonparty.Fec.Decoding.{available_here, available_gone, length-missing_data}
use moonparty.Fec.Outputs.{PresentSized, block_size_lem, some_present}

block_size_none :
    (shards : List (Option (List Gf))) (present : List Bool)
    → ((r : ℕ) → r < length present → get_or present r false ≡ false)
    → block_size 0 shards present ≡ some 0
unfolding block_size
block_size_none [] present h = refl
block_size_none (s ∷ shards) [] h = refl
block_size_none (s ∷ shards) (here ∷ present) h =
    rw (h 0 (omega arith)) (block_size_none shards present (λ r p. h (suc r) (omega arith)))

length-missing-le :
    (present : List Bool) (rounds i : ℕ) → length (missing_data rounds i present) ≤ rounds
unfolding missing_data
length-missing-le present zero i = omega arith
length-missing-le present (suc rounds) i = elim (Bool-cases (get_or present i false)) [
  | inl here ↦ rw here (omega (arith, length-missing-le present rounds (i + 1)))
  | inr gone ↦ rw gone (omega (arith, length-missing-le present rounds (i + 1)))
]

-- Where all are missing, none is present.
none_present :
    (present : List Bool) (rounds i : ℕ)
    → length (missing_data rounds i present) ≡ rounds
    → (r : ℕ) → i ≤ r
    → r < i + rounds
    → get_or present r false ≡ false
none_present present zero i h r lo up = absurd (omega arith)
none_present present (suc rounds) i h r lo up = elim (Bool-cases (get_or present i false)) [
  | inl here ↦
      let h' = rw (missing_here present rounds i here) at h in
      absurd (omega (arith, length-missing-le present rounds (i + 1)))
  | inr gone ↦ elim (eq-or-ne r i) [
    | inl e ↦ rw e gone
    | inr ne ↦
        let h' = rw (missing_gone present rounds i gone) at h in
        none_present present rounds (i + 1) (omega arith) r (omega arith) (omega arith)
  ]
]

length-available-le :
    (present : List Bool) (k rounds i w : ℕ)
    → length (available_parity rounds i k w present) + length (missing_data rounds i present)
      ≤ rounds
unfolding available_parity missing_data
length-available-le present k zero i w = omega arith
length-available-le present k (suc rounds) i zero =
    omega (arith, length-missing-le present (suc rounds) i)
length-available-le present k (suc rounds) i (suc w) = elim (Bool-cases (get_or present i false)) [
  | inl here ↦
      rw (available_here present k rounds i w here, missing_here present rounds i here)
        (omega (arith, length-available-le present k rounds (i + 1) w))
  | inr gone ↦
      rw (available_gone present k rounds i w gone, missing_gone present rounds i gone)
        (omega (arith, length-available-le present k rounds (i + 1) (suc w)))
]

-- The outcome past the test of the counts, where data shards are missing and too few parity shards
-- are at hand.
abbrev Refuses : ReedSolomon → List (Option (List Gf)) → List Bool → ℕ → ℕ → Type 0
Refuses rs shards present k m =
    let missing = missing_data k 0 present in
    0 < length missing
    → length (available_parity m k k (length missing) present) < length missing
    → reconstruct rs shards present ≡ failed not_enough_shards

positive : (a : ℕ) → 0 < a → (a == 0) ≡ false
positive a p = ground arith

refuses :
    (k m size : ℕ) (rs : ReedSolomon) (shards : List (Option (List Gf))) (present : List Bool)
    → rs.data_shards ≡ k
    → rs.total_shards - rs.data_shards ≡ m
    → length shards ≡ rs.total_shards
    → length present ≡ rs.total_shards
    → block_size 0 shards present ≡ some size
    → Refuses rs shards present k m
unfolding reconstruct
refuses k m size rs shards present ek em ls lp sized =
    subst (λ t. Refuses rs shards present t m) ek
      (subst (λ t. Refuses rs shards present rs.data_shards t) em at_fields)
  where
    at_fields : Refuses rs shards present rs.data_shards (rs.total_shards - rs.data_shards)
    at_fields some_missing short =
        let right : (length shards != rs.total_shards) ≡ false = ground arith in
        let right' : (length present != rs.total_shards) ≡ false = ground arith in
        let lacking = positive _ some_missing in
        let few = lt→ltb _ _ short in
        elim (Bool-cases (size == 0)) [
          | inl empty ↦ rw (right, right', sized, empty, reconstruct)
          | inr nonempty ↦ rw (right, right', sized, nonempty, lacking, few, reconstruct)
        ]

-- Where more shards are lost than there are parity shards, and the others have one size that is not
-- 0, `Reconstruct` fails with `ErrNotEnoughShards`, also where no shard is left.
pub reconstruct_too_many_lost :
    (k m n : ℕ) (rs : ReedSolomon) (received : List (Option (List Gf))) (present : List Bool)
    → new k m ≡ done rs
    → 0 < n
    → length received ≡ k + m
    → length present ≡ k + m
    → PresentSized n received present
    → m < length (missing_data (k + m) 0 present)
    → reconstruct rs received present ≡ failed not_enough_shards
reconstruct_too_many_lost k m n rs received present built pos lr lp sized many =
    let codec = new-IsCodec k m rs built in
    let split = rw (from_zero k) at (length-missing_data present k m (k + m) 0 refl) in
    let (size, e) = some_size in
    refuses k m size rs received present codec.data_count
      (omega (arith, codec.total_count, codec.data_count)) (lr ∙ sym codec.total_count)
      (lp ∙ sym codec.total_count) e (omega (arith, length-missing-le present m k))
      (omega (arith, length-available-le present k m k (length (missing_data k 0 present))))
  where
    some_size : (size : ℕ) × (block_size 0 received present ≡ some size)
    some_size = elim (Bool-cases (ltb (length (missing_data (k + m) 0 present)) (k + m))) [
      | inl some_left ↦
          let (r, lo, up, at_hand) = some_present present (k + m) 0 (ltb→lt _ _ some_left) in
          (n, block_size_lem n received present r pos sized (omega arith) at_hand)
      | inr none_left ↦
          let all : length (missing_data (k + m) 0 present) ≡ k + m =
            ground (arith, length-missing-le present (k + m) 0) in
          (
            0,
            block_size_none received present
                (λ r p. none_present present (k + m) 0 all r (omega arith) (omega arith)),
          )
    ]
