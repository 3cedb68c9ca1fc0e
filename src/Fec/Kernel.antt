-- ===== src/Fec/Kernel.antt =====
-- moonlight-common-go/fec/fec.go: the decode matrix of `Reconstruct` takes no vector but 0 to 0.
use mathlib.Core.Path.{subst}
use moonparty.Base.{
  from_zero, ℕ, zero, suc, ◌+◌, ◌≤◌, ◌<◌, ◌≡◌, ◌≢◌, ◌∙◌, refl, sym, ap, inl, inr, Bool, true, false,
  List, [], ◌∷◌, ◌++◌, map, arith, Bool-cases, length, get_or, take_all,
}
use moonparty.Base.All.{All, All-and, All-append, All-map, map-All, All-both, length-map}
use moonparty.Fec.Scalar.{Gf, to_gf, gf_zero, ◌⊕◌, ◌⊗◌, inverse, mul-zero, zero-add}
use moonparty.Fec.Sums.{sum, sum_congr}
use moonparty.Fec.Exchange.{dot}
use moonparty.Fec.Coding.{sum_front}
use moonparty.Fec.Cauchy.{Distinct, Column, points, cauchy_sum, cauchy_kernel}
use moonparty.Fec.Codec.{ReedSolomon, missing_data, kept_data, decode_rows}
use moonparty.Fec.Generator.{IsCodec, systematic_row}
use moonparty.Fec.Erasure.{
  Between, Between-All, missing_data-Between, missing_here, missing_gone, missing_data-All,
  kept_data-All, length-kept_data,
}

to_gf_injective : (a b : ℕ) → a < 256 → b < 256 → to_gf a ≡ to_gf b → a ≡ b
unfolding to_gf
to_gf_injective a b p q e = let f = ap (λ t. t.0) e in omega arith

-- Ascending numbers stand for distinct points.
points-Distinct :
    (d lo hi : ℕ) (xs : List ℕ)
    → d + hi ≤ 256
    → Between lo hi xs
    → Distinct (map (λ c. to_gf (d + c)) xs)
points-Distinct d lo hi [] l h = tt
points-Distinct d lo hi (x ∷ xs) l (a, b, h) = (
  map-All (λ c. to_gf (d + c)) (λ b. to_gf (d + x) ≢ b) xs
      (All-and xs
        (λ y r e.
          absurd (apart x y r.0 (to_gf_injective (d + x) (d + y) (omega arith) (omega arith) e)))
        (Between-All (suc x) hi xs h)),
  points-Distinct d (suc x) hi xs l h,
)
  where
    apart : (x y : ℕ) → suc x ≤ y → d + x ≡ d + y → ⊥
    apart x y r e = omega arith

-- The columns of the missing shards, with their unknowns.
abbrev columns : ℕ → (ℕ → Gf) → List ℕ → List Column
columns m x = map (λ c. (to_gf (m + c), x c))

points-columns :
    (m : ℕ) (x : ℕ → Gf) (cs : List ℕ) → points (columns m x cs) ≡ map (λ c. to_gf (m + c)) cs
points-columns m x [] = refl
points-columns m x (c ∷ cs) = ap (◌∷◌ (to_gf (m + c))) (points-columns m x cs)

-- A parity row over the unknowns is a sum over the missing ones, where the others are 0.
sum-missing :
    (present : List Bool) (m : ℕ) (x : ℕ → Gf) (b : Gf) (rounds i : ℕ)
    → ((j : ℕ) → i ≤ j → j < i + rounds → get_or present j false ≡ true → x j ≡ gf_zero)
    → sum rounds (λ q. inverse (to_gf (m + (i + q)) ⊕ b) ⊗ x (i + q))
      ≡ cauchy_sum b (columns m x (missing_data rounds i present))
unfolding missing_data cauchy_sum sum
sum-missing present m x b zero i h = refl
sum-missing present m x b (suc rounds) i h =
    let e : i + 0 ≡ i = omega arith in
    let later =
      sum_congr rounds _ (λ q. inverse (to_gf (m + (i + 1 + q)) ⊕ b) ⊗ x (i + 1 + q))
        (λ q l. ap (λ t. inverse (to_gf (m + t) ⊕ b) ⊗ x t) (shift i q))
      ∙ sum-missing present m x b rounds (i + 1) (λ j u v. h j (omega arith) (omega arith)) in
    sum_front rounds (λ q. inverse (to_gf (m + (i + q)) ⊕ b) ⊗ x (i + q))
    ∙ rw (e, later)
        (elim (Bool-cases (get_or present i false)) [
          | inl here ↦
              rw
                (
                  missing_here present rounds i here,
                  h i (omega arith) (omega arith) here,
                  mul-zero (inverse (to_gf (m + i) ⊕ b)),
                )
                (zero-add _)
          | inr gone ↦ rw (missing_gone present rounds i gone)
        ])
  where
    shift : (i q : ℕ) → i + suc q ≡ i + 1 + q
    shift i q = omega arith

module _ (k m : ℕ) (rs : ReedSolomon) (codec : IsCodec k m rs) (l : k + m ≤ 255)
    (present : List Bool) (available : List ℕ) (low : Between 0 m available)
    (enough : length available ≡ length (missing_data k 0 present)) where
  missing : List ℕ
  missing = missing_data k 0 present

  -- The rows are those of the kept shards, then those of the parity shards.
  pub decode_rows_lem :
      decode_rows k (kept_data k 0 (missing_data k 0 present)) available
      ≡ kept_data k 0 (missing_data k 0 present) ++ map (λ j. k + j) available
  unfolding decode_rows
  decode_rows_lem = ap (◌++◌ (kept_data k 0 (missing_data k 0 present))) (
      take_all _ (map (λ j. k + j) available)
        (omega (arith, length-map (λ j. k + j) available, length-kept_data present k 0)))

  module _ (x : ℕ → Gf)
      (zeros : All
        (λ r. dot k (rs.matrix r) x ≡ gf_zero)
        (decode_rows k (kept_data k 0 (missing_data k 0 present)) available)) where
    parts :
        All (λ r. dot k (rs.matrix r) x ≡ gf_zero) (kept_data k 0 (missing_data k 0 present))
        × All (λ r. dot k (rs.matrix r) x ≡ gf_zero) (map (λ j. k + j) available)
    parts =
        All-append _ (kept_data k 0 (missing_data k 0 present)) (map (λ j. k + j) available)
          (rw decode_rows_lem at zeros)

    -- The unknowns of the kept shards are 0.
    kept_zero : (j : ℕ) → j < k → get_or present j false ≡ true → x j ≡ gf_zero
    kept_zero j p here =
        sym (systematic_row k m rs codec j x p)
        ∙ kept_data-All present (λ r. dot k (rs.matrix r) x ≡ gf_zero) k 0 parts.0 j (omega arith)
            (omega arith) here

    parity_row :
        (j : ℕ)
        → j < m
        → dot k (rs.matrix (k + j)) x ≡ gf_zero
        → cauchy_sum (to_gf (0 + j)) (columns m x missing) ≡ gf_zero
    unfolding missing
    parity_row j p h =
        sym (
          sum-missing present m x (to_gf (0 + j)) k 0
            (λ c lo up here. kept_zero c (omega arith) here))
        ∙ sum_congr k _ _
            (λ c q. rw (from_zero c, from_zero j) (ap (λ t. t ⊗ x c) (sym (codec.cauchy j c p q))))
        ∙ h

    cauchy_rows :
        All (λ b. cauchy_sum b (columns m x missing) ≡ gf_zero) (map (λ j. to_gf (0 + j)) available)
    unfolding missing
    cauchy_rows =
        map-All (λ j. to_gf (0 + j)) _ available
          (All-and available (λ j both. parity_row j both.0.1 both.1)
            (All-both (λ j. (0 ≤ j) × (j < m)) (λ j. dot k (rs.matrix (k + j)) x ≡ gf_zero)
              available (Between-All 0 m available low) (All-map (λ j. k + j) _ available parts.1)))

    missing_low : Between 0 k missing
    unfolding missing
    missing_low = missing_data-Between present k 0 k (omega arith)

    -- The points of the columns are none of those of the rows.
    apart :
        All
          (λ b. All (λ a. a ≢ b) (points (columns m x missing)))
          (map (λ j. to_gf (0 + j)) available)
    apart =
        map-All (λ j. to_gf (0 + j)) _ available
          (All-and available
            (λ j low'. subst (All (λ a. a ≢ to_gf (0 + j))) (sym (points-columns m x missing)) (
              map-All (λ c. to_gf (m + c)) _ missing
                (All-and missing
                  (λ c low'' e.
                    other c j low'.1
                      (to_gf_injective (m + c) (0 + j) (omega arith) (omega arith) e))
                  (Between-All 0 k missing missing_low))))
            (Between-All 0 m available low))
      where
        other : (c j : ℕ) → j < m → m + c ≡ 0 + j → ⊥
        other c j p e = omega arith

    missing_zero : All (λ c. x c ≡ gf_zero) missing
    unfolding missing
    missing_zero =
        All-map (λ c. (to_gf (m + c), x c)) (λ t. t.1 ≡ gf_zero) missing
          (cauchy_kernel (columns m x missing) (map (λ j. to_gf (0 + j)) available)
            (omega (
              arith,
              length-map (λ j. to_gf (0 + j)) available,
              length-map {B = Column} (λ c. (to_gf (m + c), x c)) missing,
            ))
            (subst Distinct (sym (points-columns m x missing))
              (points-Distinct m 0 k missing (omega arith) missing_low))
            (points-Distinct 0 0 m available (omega arith) low) apart cauchy_rows)

    -- Rows of the kept shards and of as many parity shards as are missing determine the data: they
    -- take only the vector 0 to 0.
    pub decode_kernel : (j : ℕ) → j < k → x j ≡ gf_zero
    unfolding missing
    decode_kernel j p = elim (Bool-cases (get_or present j false)) [
      | inl here ↦ kept_zero j p here
      | inr gone ↦
          missing_data-All present (λ c. x c ≡ gf_zero) k 0 missing_zero j (omega arith)
            (omega arith) gone
    ]
