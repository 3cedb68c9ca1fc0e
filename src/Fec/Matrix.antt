-- ===== src/Fec/Matrix.antt =====
-- moonlight-common-go/fec/fec.go: the matrices and their inversion.
-- A matrix in a slice of `gf` is the function of its row and its column; its size stands beside it,
-- as in the code, which reads and writes no cell outside of it. `idRow` is all 0 between rounds, so
-- its comparison with a pivot row is written with its one 1.
use moonparty.Base.{
  ℕ, zero, suc, ◌+◌, Bool, true, not, ◌&&◌, Option, none, some, ◌==◌, ◌!=◌, if◌then◌else◌,
}
use moonparty.Base.Assoc.{update}
use moonparty.Fec.Scalar.{Gf, gf_zero, gf_one, ◌⊕◌, ◌⊗◌, inverse, gf_eq}
use moonparty.Fec.Sums.{sum, swapped}

abbrev pub Cells : Type 0
Cells = ℕ → ℕ → Gf

abbrev pub is_zero : Gf → Bool
is_zero a = gf_eq a gf_zero

-- `subMatrix`, of the cells from `rmin` and `cmin` on.
unfoldable pub sub_matrix : Cells → ℕ → ℕ → Cells
sub_matrix matrix rmin cmin i j = matrix (rmin + i) (cmin + j)

-- `none` is the `nil` of sizes that do not fit.
unfoldable pub multiply : Cells → ℕ → Cells → ℕ → Option Cells
unfolding sum
multiply a ac b br = if ac == br then some (λ r c. sum ac (λ i. a r i ⊗ b i c)) else none

-- `addmul`, on the rows of a matrix.
unfoldable pub addmul : (ℕ → Gf) → (ℕ → Gf) → Gf → ℕ → Gf
addmul dst src c = if is_zero c then dst else λ i. dst i ⊕ c ⊗ src i

-- The variables of `invertMatrix`.
pub record Elimination : Type 0 where
  pub src : Cells
  pub ipiv : ℕ → ℕ
  pub indxr : ℕ → ℕ
  pub indxc : ℕ → ℕ

-- The inner loop of the search, from the column `ix` on.
unfoldable pub find_column : ℕ → ℕ → (ℕ → ℕ) → (ℕ → Gf) → Option ℕ
find_column zero ix ipiv row = none
find_column (suc rounds) ix ipiv row =
    let rest = find_column rounds (ix + 1) ipiv row in
    if ipiv ix == 0 && not (is_zero (row ix)) then some ix else rest

-- The outer loop, from the row `row` on.
unfoldable pub find_pivot : ℕ → ℕ → ℕ → (ℕ → ℕ) → Cells → Option (ℕ × ℕ)
unfolding find_column
find_pivot zero row k ipiv src = none
find_pivot (suc rounds) row k ipiv src =
    let rest = find_pivot rounds (row + 1) k ipiv src in
    let found = find_column k 0 ipiv (src row) in
    let next : Option (ℕ × ℕ) = elim found [ none ↦ rest | some ix ↦ some (row, ix) ] in
    if ipiv row != 1 then next else rest

unfoldable pub choose_pivot : ℕ → ℕ → (ℕ → ℕ) → Cells → Option (ℕ × ℕ)
unfolding find_pivot
choose_pivot k col ipiv src =
    if ipiv col != 1 && not (is_zero (src col col))
    then some (col, col)
    else find_pivot k 0 k ipiv src

unfoldable pub swap_rows : Cells → ℕ → ℕ → Cells
unfolding swapped
swap_rows src irow icol = if irow != icol then (λ r c. src (swapped irow icol r) c) else src

-- The pivot row with its pivot inverted and multiplied into the others.
unfoldable pub scale_row : (ℕ → Gf) → ℕ → ℕ → Gf
scale_row row icol =
    if gf_eq (row icol) gf_one then row else λ ix. inverse (row icol) ⊗ update row icol gf_one ix

-- `pivotRow` is a row of the identity matrix.
unfoldable pub is_identity_row : ℕ → ℕ → (ℕ → Gf) → Bool
is_identity_row zero icol row = true
is_identity_row (suc k) icol row =
    is_identity_row k icol row && gf_eq (row k) (if k == icol then gf_one else gf_zero)

unfoldable pub reduce_row : (ℕ → Gf) → ℕ → (ℕ → Gf) → ℕ → Gf
unfolding addmul
reduce_row pivot icol p = addmul (update p icol gf_zero) pivot (p icol)

unfoldable pub reduce_others : ℕ → Cells → ℕ → (ℕ → Gf) → Cells
unfolding is_identity_row reduce_row
reduce_others k src icol pivot r =
    if r == icol
    then pivot
    else if is_identity_row k icol pivot
    then src r
    else reduce_row pivot icol (src r)

-- The body of the main loop at `col`, once the pivot is chosen.
unfoldable pub pivot_at : ℕ → ℕ → ℕ → ℕ → Elimination → Option Elimination
unfolding swap_rows scale_row reduce_others
pivot_at k col irow icol e =
    let src = swap_rows e.src irow icol in
    if is_zero (src icol icol)
    then none
    else some (record {
      src = reduce_others k src icol (scale_row (src icol) icol);
      ipiv = update e.ipiv icol (e.ipiv icol + 1);
      indxr = update e.indxr col irow;
      indxc = update e.indxc col icol;
    })

unfoldable pub eliminate_column : ℕ → ℕ → Elimination → Option Elimination
unfolding choose_pivot pivot_at
eliminate_column k col e = elim (choose_pivot k col e.ipiv e.src) [
  | none ↦ none
  | some (irow, icol) ↦ pivot_at k col irow icol e
]

-- The columns from `col` on.
unfoldable pub eliminate : ℕ → ℕ → ℕ → Elimination → Option Elimination
unfolding eliminate_column
eliminate zero k col e = some e
eliminate (suc rounds) k col e = elim (eliminate_column k col e) [
  | none ↦ none
  | some e' ↦ eliminate rounds k (col + 1) e'
]

unfoldable pub unscramble : ℕ → (ℕ → ℕ) → (ℕ → ℕ) → Cells → Cells
unfolding swapped
unscramble zero indxr indxc src = src
unscramble (suc col) indxr indxc src =
    unscramble col indxr indxc
      (if indxr col != indxc col then (λ r c. src r (swapped (indxr col) (indxc col) c)) else src)

-- `none` is the error of a singular matrix.
unfoldable pub invert_matrix : Cells → ℕ → Option Cells
unfolding eliminate unscramble
invert_matrix src k =
    let start : Elimination = record { src = src; ipiv = λ i. 0; indxr = λ i. 0; indxc = λ i. 0 } in
    elim (eliminate k k 0 start) [
      | none ↦ none
      | some e ↦ some (unscramble k e.indxr e.indxc e.src)
    ]
