-- ===== src/Tests/Fecs.antt =====
-- The inputs at which the theorems on moonlight-common-go/fec/fec.go are applied.
use moonparty.Base.{
  ℕ, zero, suc, ◌+◌, ◌<◌, ◌-◌, ◌≡◌, ◌↔◌, refl, Bool, true, false, Option, none, some, List, [], ◌∷◌,
  arith, get_or, if◌then◌else◌, ◌==◌,
}
use moonparty.Base.Assoc.{update}
use moonparty.Fec.Scalar.{Gf, to_gf, gf_zero, gf_one, ◌⊕◌, ◌⊗◌, inverse}
use moonparty.Fec.Gf.{gf_mul, init_mul_table, gf_exp, gf_tables, modnn, gf_log}
use moonparty.Fec.Polynomial.{polynomial_mul, gf_mul-eq-polynomial_mul}
use moonparty.Fec.Exchange.{Takes}
use moonparty.Fec.Matrix.{Cells, invert_matrix, eliminate, unscramble}
use moonparty.Fec.Inversion.{invert_matrix_inverse}
use moonparty.Fec.Bytes.{shard_at}
use moonparty.Fec.Coding.{Sized}
use moonparty.Fec.Codec.{
  ReedSolomon, done, failed, not_enough_shards, missing_data, new, encode, reconstruct,
}
use moonparty.Fec.Generator.{IsCodec, new_IsCodec}
use moonparty.Fec.Codewords.{encode_lem}
use moonparty.Fec.Outputs.{Replaceable, PresentSized}
use moonparty.Fec.RoundTrip.{reconstruct-encode}
use moonparty.Fec.Losses.{reconstruct_too_many_lost}

abbrev shard : ℕ → ℕ → List Gf
shard a b = to_gf a ∷ to_gf b ∷ []

gf_mul-eq-polynomial_mul_example : gf_mul 87 131 ≡ polynomial_mul 8 87 131
gf_mul-eq-polynomial_mul_example = gf_mul-eq-polynomial_mul 87 131 (omega arith) (omega arith)

-- A matrix with a zero in the first place, and one with two equal rows.
abbrev skew : Cells
skew r c = if r + c == 0 then gf_zero else gf_one

abbrev level : Cells
level r c = gf_one

abbrev skew_inverse : Cells
skew_inverse = elim (invert_matrix skew 2) [ none ↦ skew | some b ↦ b ]

skew_inverted : invert_matrix skew 2 ≡ some skew_inverse
unfolding invert_matrix eliminate unscramble gf_zero gf_one inverse ◌⊗◌ ◌⊕◌ update
skew_inverted = refl

level_singular : invert_matrix level 2 ≡ none
unfolding invert_matrix eliminate unscramble gf_zero gf_one inverse ◌⊗◌ ◌⊕◌ update gf_mul
    init_mul_table gf_exp gf_tables modnn gf_log
level_singular = refl

invert_matrix_inverse_example :
    Takes 2 skew (λ c. to_gf (c + 1)) (λ c. to_gf (2 - c))
    ↔ Takes 2 skew_inverse (λ c. to_gf (2 - c)) (λ c. to_gf (c + 1))
invert_matrix_inverse_example =
    invert_matrix_inverse 2 skew skew_inverse (λ c. to_gf (c + 1)) (λ c. to_gf (2 - c))
      skew_inverted

-- Two inputs and one output of two bytes.
two-Sized : Sized 2 (shard 1 2 ∷ shard 3 4 ∷ [])
two-Sized zero p = refl
two-Sized (suc zero) p = refl
two-Sized (suc (suc r)) p = absurd (omega arith)

one-Sized : Sized 2 (shard 8 8 ∷ [])
one-Sized zero p = refl
one-Sized (suc r) p = absurd (omega arith)

-- A codec for two data shards and two parity shards.
abbrev rs : ReedSolomon
rs = (new_IsCodec 2 2 (omega arith) (omega arith) (omega arith)).0

abbrev rs_built : new 2 2 ≡ done rs
rs_built = (new_IsCodec 2 2 (omega arith) (omega arith) (omega arith)).1

abbrev rs_codec : IsCodec 2 2 rs
rs_codec = (new_IsCodec 2 2 (omega arith) (omega arith) (omega arith)).2

abbrev shards : List (List Gf)
shards = shard 1 2 ∷ shard 3 77 ∷ shard 0 0 ∷ shard 0 0 ∷ []

shards-Sized : Sized 2 shards
shards-Sized zero p = refl
shards-Sized (suc zero) p = refl
shards-Sized (suc (suc zero)) p = refl
shards-Sized (suc (suc (suc zero))) p = refl
shards-Sized (suc (suc (suc (suc r)))) p = absurd (omega arith)

abbrev full : List (List Gf)
full = (encode_lem 2 2 2 rs rs_codec (omega arith) shards refl shards-Sized).0

abbrev coded : encode rs shards ≡ done full
coded = (encode_lem 2 2 2 rs rs_codec (omega arith) shards refl shards-Sized).1

-- The first data shard and the first parity shard are lost; the latter has left its buffer.
abbrev present : List Bool
present = false ∷ true ∷ false ∷ true ∷ []

abbrev received : List (Option (List Gf))
received = none ∷ some (shard_at full 1) ∷ some (shard 9 9) ∷ some (shard_at full 3) ∷ []

differ : {C : Type 0} → false ≡ true → C
differ e = absurd (clash e)
  where
    clash : false ≡ true → ⊥
    clash e = cc

received_here :
    (r : ℕ)
    → r < 4
    → get_or present r false ≡ true
    → get_or received r none ≡ some (shard_at full r)
received_here zero p h = differ h
received_here (suc zero) p h = refl
received_here (suc (suc zero)) p h = differ h
received_here (suc (suc (suc zero))) p h = refl
received_here (suc (suc (suc (suc r)))) p h = absurd (omega arith)

received_gone :
    (r : ℕ) → r < 4 → get_or present r false ≡ false → Replaceable 2 (get_or received r none)
received_gone zero p h = tt
received_gone (suc zero) p h = absurd (clash h)
  where
    clash : true ≡ false → ⊥
    clash e = cc
received_gone (suc (suc zero)) p h = refl
received_gone (suc (suc (suc zero))) p h = absurd (clash h)
  where
    clash : true ≡ false → ⊥
    clash e = cc
received_gone (suc (suc (suc (suc r)))) p h = absurd (omega arith)

reconstruct-encode_example :
    (restored : List (Option (List Gf))) × (reconstruct rs received present ≡ done restored)
    × ((r : ℕ) → r < 2 → get_or restored r none ≡ some (shard_at shards r))
unfolding missing_data
reconstruct-encode_example =
    reconstruct-encode 2 2 2 rs shards full received present rs_built (omega arith) refl
      shards-Sized coded
      (record {
        shard_count = refl;
        present_count = refl;
        here = received_here;
        gone = received_gone;
      })
      (omega arith)

-- Three shards are lost.
abbrev one_left : List Bool
one_left = false ∷ false ∷ true ∷ false ∷ []

abbrev remaining : List (Option (List Gf))
remaining = none ∷ none ∷ some (shard 5 6) ∷ none ∷ []

remaining_sized : PresentSized 2 remaining one_left
remaining_sized zero p h = differ h
remaining_sized (suc zero) p h = differ h
remaining_sized (suc (suc zero)) p h = refl
remaining_sized (suc (suc (suc zero))) p h = differ h
remaining_sized (suc (suc (suc (suc r)))) p h = absurd (omega arith)

reconstruct_too_many_lost_example : reconstruct rs remaining one_left ≡ failed not_enough_shards
unfolding missing_data
reconstruct_too_many_lost_example =
    reconstruct_too_many_lost 2 2 2 rs remaining one_left rs_built (omega arith) refl refl
      remaining_sized (omega arith)
