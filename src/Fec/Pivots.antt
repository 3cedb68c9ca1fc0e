-- ===== src/Fec/Pivots.antt =====
-- moonlight-common-go/fec/fec.go: the search for a pivot in `invertMatrix`.
use moonparty.Base.{
  ℕ, zero, suc, ◌+◌, ◌≤◌, ◌<◌, ◌≡◌, ◌≢◌, refl, inl, inr, Bool, true, false, ◌&&◌, none, some, arith,
  ◌==◌, ◌!=◌, not, eq-or-ne, Bool-cases, Option-cases, and_left, and_right, ==→eq, eq→==,
}
use mathlib.Core.Path.{subst}
use mathlib.Core.Option.{some-injective, some-ne-none}
use moonparty.Fec.Scalar.{Gf, gf_zero, ne_of_gf_eq, eq_of_gf_eq}
use moonparty.Fec.Matrix.{Cells, is_zero, find_column, find_pivot, choose_pivot}

-- A column that is not marked and whose cell is not 0.
abbrev pub Fits : (ℕ → ℕ) → (ℕ → Gf) → ℕ → Type 0
Fits ipiv row c = (ipiv c ≡ 0) × (row c ≢ gf_zero)

of_not : {b : Bool} → not b ≡ true → b ≡ false
of_not {b = true} e = cc
of_not {b = false} e = refl

Fits-test :
    (ipiv : ℕ → ℕ) (row : ℕ → Gf) (c : ℕ)
    → (ipiv c == 0 && not (is_zero (row c))) ≡ true
    → Fits ipiv row c
Fits-test ipiv row c h =
    (==→eq (ipiv c) 0 (and_left _ _ h), ne_of_gf_eq (row c) gf_zero (of_not (and_right _ _ h)))

misfit_test :
    (ipiv : ℕ → ℕ) (row : ℕ → Gf) (c : ℕ)
    → (ipiv c == 0 && not (is_zero (row c))) ≡ false
    → ipiv c ≡ 0
    → row c ≡ gf_zero
misfit_test ipiv row c h z = elim (Bool-cases (is_zero (row c))) [
  | inl e ↦ eq_of_gf_eq (row c) gf_zero e
  | inr e ↦ absurd (conflict (rw (eq→== (ipiv c) 0 z, e) at h))
]
  where
    conflict : true ≡ false → ⊥
    conflict e = cc

find_column_found :
    (n ix : ℕ) (ipiv : ℕ → ℕ) (row : ℕ → Gf) (c : ℕ)
    → find_column n ix ipiv row ≡ some c
    → (c < ix + n) × Fits ipiv row c
unfolding find_column
find_column_found zero ix ipiv row c h = absurd (ground arith)
find_column_found (suc n) ix ipiv row c h =
    elim (Bool-cases (ipiv ix == 0 && not (is_zero (row ix)))) [
      | inl fit ↦
          let e = some-injective _ _ (rw fit at h) in
          let here : (ix < ix + suc n) × Fits ipiv row ix =
            (omega arith, Fits-test ipiv row ix fit) in
          subst (λ d. (d < ix + suc n) × Fits ipiv row d) e here
      | inr unfit ↦
          let (l, f) = find_column_found n (ix + 1) ipiv row c (rw unfit at h) in (omega arith, f)
    ]

find_column-none :
    (n ix : ℕ) (ipiv : ℕ → ℕ) (row : ℕ → Gf)
    → find_column n ix ipiv row ≡ none
    → (c : ℕ) → ix ≤ c
    → c < ix + n
    → ipiv c ≡ 0
    → row c ≡ gf_zero
unfolding find_column
find_column-none zero ix ipiv row h c lo hi z = absurd (omega arith)
find_column-none (suc n) ix ipiv row h c lo hi z =
    elim (Bool-cases (ipiv ix == 0 && not (is_zero (row ix)))) [
      | inl fit ↦ absurd (some-ne-none _ (rw fit at h))
      | inr unfit ↦ elim (eq-or-ne c ix) [
        | inl e ↦ rw e (misfit_test ipiv row ix unfit (rw e at z))
        | inr ne ↦
            find_column-none n (ix + 1) ipiv row (rw unfit at h) c (omega arith) (omega arith) z
      ]
    ]

-- A pivot for the next round: a row and a column that are not marked, and a cell that is not 0.
pub record IsPivot (k : ℕ) (ipiv : ℕ → ℕ) (src : Cells) (irow icol : ℕ) : Type 0 where
  pub row_below : irow < k
  pub column_below : icol < k
  pub row_free : ipiv irow ≢ 1
  pub column_free : ipiv icol ≡ 0
  pub cell : src irow icol ≢ gf_zero

find_pivot_found :
    (n row k : ℕ) (ipiv : ℕ → ℕ) (src : Cells) (irow icol : ℕ)
    → row + n ≤ k
    → find_pivot n row k ipiv src ≡ some (irow, icol)
    → IsPivot k ipiv src irow icol
unfolding find_pivot
find_pivot_found zero row k ipiv src irow icol l h = absurd (ground arith)
find_pivot_found (suc n) row k ipiv src irow icol l h = elim (Bool-cases (ipiv row != 1)) [
  | inr marked ↦ find_pivot_found n (row + 1) k ipiv src irow icol (omega arith) (rw marked at h)
  | inl free ↦ elim (Option-cases (find_column k 0 ipiv (src row))) [
    | inl nothing ↦
        find_pivot_found n (row + 1) k ipiv src irow icol (omega arith) (rw (free, nothing) at h)
    | inr (c, found) ↦
        let e = some-injective _ _ (rw (free, found) at h) in
        let (below, fit) = find_column_found k 0 ipiv (src row) c found in
        let pivot : IsPivot k ipiv src row c = record {
          row_below = omega arith;
          column_below = omega arith;
          row_free = λ f. absurd (ground arith);
          column_free = fit.0;
          cell = fit.1;
        } in
        subst (λ (m : ℕ × ℕ). IsPivot k ipiv src m.0 m.1) e pivot
  ]
]

find_pivot-none :
    (n row k : ℕ) (ipiv : ℕ → ℕ) (src : Cells)
    → find_pivot n row k ipiv src ≡ none
    → (r : ℕ) → row ≤ r
    → r < row + n
    → ipiv r ≢ 1
    → (c : ℕ) → c < k
    → ipiv c ≡ 0
    → src r c ≡ gf_zero
unfolding find_pivot
find_pivot-none zero row k ipiv src h r lo hi free c l z = absurd (omega arith)
find_pivot-none (suc n) row k ipiv src h r lo hi free c l z = elim (Bool-cases (ipiv row != 1)) [
  | inr marked ↦ elim (eq-or-ne r row) [
    | inl e ↦ absurd (ground arith)
    | inr ne ↦
        find_pivot-none n (row + 1) k ipiv src (rw marked at h) r (omega arith) (omega arith) free c
          l z
  ]
  | inl unmarked ↦ elim (Option-cases (find_column k 0 ipiv (src row))) [
    | inr (d, found) ↦ absurd (some-ne-none _ (rw (unmarked, found) at h))
    | inl nothing ↦ elim (eq-or-ne r row) [
      | inl e ↦ rw e (find_column-none k 0 ipiv (src row) nothing c (omega arith) (omega arith) z)
      | inr ne ↦
          find_pivot-none n (row + 1) k ipiv src (rw (unmarked, nothing) at h) r (omega arith)
            (omega arith) free c l z
    ]
  ]
]

pub choose_pivot_found :
    (k col : ℕ) (ipiv : ℕ → ℕ) (src : Cells) (irow icol : ℕ)
    → col < k
    → ((i : ℕ) → i < k → ipiv i ≤ 1)
    → choose_pivot k col ipiv src ≡ some (irow, icol)
    → IsPivot k ipiv src irow icol
unfolding choose_pivot
choose_pivot_found k col ipiv src irow icol l marks h =
    elim (Bool-cases (ipiv col != 1 && not (is_zero (src col col)))) [
      | inr other ↦ find_pivot_found k 0 k ipiv src irow icol (omega arith) (rw other at h)
      | inl diagonal ↦
          let e = some-injective _ _ (rw diagonal at h) in
          let unmarked : (ipiv col != 1) ≡ true = and_left _ _ diagonal in
          let bound = marks col l in
          let pivot : IsPivot k ipiv src col col = record {
            row_below = l;
            column_below = l;
            row_free = λ f. absurd (ground arith);
            column_free = ground arith;
            cell = ne_of_gf_eq _ _ (of_not (and_right _ _ diagonal));
          } in
          subst (λ (m : ℕ × ℕ). IsPivot k ipiv src m.0 m.1) e pivot
    ]

-- Without a pivot, the rows and columns that are not marked meet in zeros.
pub choose_pivot-none :
    (k col : ℕ) (ipiv : ℕ → ℕ) (src : Cells)
    → choose_pivot k col ipiv src ≡ none
    → (r c : ℕ) → r < k
    → c < k
    → ipiv r ≢ 1
    → ipiv c ≡ 0
    → src r c ≡ gf_zero
unfolding choose_pivot
choose_pivot-none k col ipiv src h r c p q free z =
    elim (Bool-cases (ipiv col != 1 && not (is_zero (src col col)))) [
      | inr other ↦
          find_pivot-none k 0 k ipiv src (rw other at h) r (omega arith) (omega arith) free c q z
      | inl diagonal ↦ absurd (some-ne-none _ (rw diagonal at h))
    ]
