-- ===== src/Fec/Elimination.antt =====
-- moonlight-common-go/fec/fec.go: the main loop of `invertMatrix`, over all the columns.
use mathlib.Core.Path.{subst}
use moonparty.Base.{
  suc_plus, ℕ, zero, suc, ◌+◌, ◌<◌, ◌≡◌, ◌∙◌, refl, sym, ap, inl, inr, ◌⊎◌, none, some, arith,
  eq-or-ne, lt→ltb, Bool-cases, Option-cases,
}
use moonparty.Base.Assoc.{update, update_self, update_ne}
use moonparty.Fec.Scalar.{Gf, gf_zero, eq_of_gf_eq}
use moonparty.Fec.Sums.{swapped}
use moonparty.Fec.Matrix.{
  Cells, is_zero, Elimination, choose_pivot, swap_rows, pivot_at, eliminate_column, eliminate,
}
use moonparty.Fec.Exchange.{exchanged}
use moonparty.Fec.Pivots.{IsPivot, choose_pivot_found}
use moonparty.Fec.Rounds.{
  mix, permuted, permuted_congr, Takes-congr, Relates, pivot_cell, round_forth, round_back,
  count_marks-update, IsSound,
}

-- The variables after the round at `col` with the pivot at `i` and `j`.
abbrev after : ℕ → ℕ → ℕ → ℕ → Elimination → Elimination
after k col i j e = record {
  src = exchanged k (swap_rows e.src i j) j;
  ipiv = update e.ipiv j (e.ipiv j + 1);
  indxr = update e.indxr col i;
  indxc = update e.indxc col j;
}

pivot_at_lem :
    (k col i j : ℕ) (e : Elimination)
    → IsPivot k e.ipiv e.src i j
    → pivot_at k col i j e ≡ some (after k col i j e)
unfolding pivot_at exchanged
pivot_at_lem k col i j e pivot = elim (Bool-cases (is_zero (swap_rows e.src i j j j))) [
  | inl z ↦
      absurd (pivot_cell k e.src e.ipiv i j pivot (λ c. gf_zero) (λ c. gf_zero) (eq_of_gf_eq _ _ z))
  | inr nz ↦ rw nz
]

permuted_next :
    (n : ℕ) (f g : ℕ → ℕ) (i j c : ℕ)
    → permuted (suc n) (update f n i) (update g n j) c ≡ permuted n f g (swapped i j c)
unfolding permuted
permuted_next n f g i j c =
    rw (update_self f n i, update_self g n j)
      (permuted_congr n (update f n i) (update g n j) f g (swapped i j c)
        (λ m l. update_ne f n i m (omega arith)) (λ m l. update_ne g n j m (omega arith)))

Relates-congr :
    (k : ℕ) (s : Cells) (p : ℕ → ℕ) (x z z' : ℕ → Gf)
    → ((c : ℕ) → z c ≡ z' c)
    → Relates k s p x z
    → Relates k s p x z'
unfolding mix
Relates-congr k s p x z z' e h = Takes-congr k s _ _ _ _ (λ c. rw (e c)) (λ r. rw (e r)) h

after-IsSound :
    (k : ℕ) (a : Cells) (n i j : ℕ) (e : Elimination)
    → IsSound k a n e
    → IsPivot k e.ipiv e.src i j
    → IsSound k a (suc n) (after k n i j e)
after-IsSound k a n i j e v pivot = record {
  marks = λ r l. elim (eq-or-ne r j) [
    | inl f ↦ rw (f, update_self e.ipiv j (e.ipiv j + 1)) (omega (arith, pivot.column_free))
    | inr ne ↦ rw (update_ne e.ipiv j (e.ipiv j + 1) r ne) (v.marks r l)
  ];
  counted =
      count_marks-update k e.ipiv j pivot.column_free
      ∙ rw (lt→ltb j k pivot.column_below) (omega (arith, v.counted));
  rows = λ r l. elim (eq-or-ne r n) [
    | inl f ↦ rw (f, update_self e.indxr n i) pivot.row_below
    | inr ne ↦ rw (update_ne e.indxr n i r ne) (v.rows r (omega arith))
  ];
  columns = λ r l. elim (eq-or-ne r n) [
    | inl f ↦ rw (f, update_self e.indxc n j) pivot.column_below
    | inr ne ↦ rw (update_ne e.indxc n j r ne) (v.columns r (omega arith))
  ];
  forth = λ x y h.
      Relates-congr k (after k n i j e).src (after k n i j e).ipiv x _ _
        (λ c. ap y (sym (permuted_next n e.indxr e.indxc i j c)))
        (round_forth k e.src e.ipiv i j pivot x _ (v.forth x y h));
  back = λ x y h. v.back x y (
      round_back k e.src e.ipiv i j pivot x _ (
        Relates-congr k (after k n i j e).src (after k n i j e).ipiv x _ _
          (λ c. ap y (permuted_next n e.indxr e.indxc i j c)) h));
}

eliminate_column_found :
    (k col i j : ℕ) (e : Elimination)
    → choose_pivot k col e.ipiv e.src ≡ some (i, j)
    → eliminate_column k col e ≡ pivot_at k col i j e
unfolding eliminate_column
eliminate_column_found k col i j e h = rw (h, eliminate_column)

eliminate_column-none :
    (k col : ℕ) (e : Elimination)
    → choose_pivot k col e.ipiv e.src ≡ none
    → eliminate_column k col e ≡ none
unfolding eliminate_column
eliminate_column-none k col e h = rw (h, eliminate_column)

-- A round goes on to a sound state, or finds no pivot.
eliminate_column-cases :
    (k : ℕ) (a : Cells) (col : ℕ) (e : Elimination)
    → col < k
    → IsSound k a col e
    → ((e' : Elimination) × (eliminate_column k col e ≡ some e') × IsSound k a (suc col) e')
      ⊎ ((eliminate_column k col e ≡ none) × (choose_pivot k col e.ipiv e.src ≡ none))
eliminate_column-cases k a col e l v = elim (Option-cases (choose_pivot k col e.ipiv e.src)) [
  | inl nothing ↦ inr (eliminate_column-none k col e nothing, nothing)
  | inr ((i, j), found) ↦
      let pivot = choose_pivot_found k col e.ipiv e.src i j l v.marks found in
      inl (
        after k col i j e,
        eliminate_column_found k col i j e found ∙ pivot_at_lem k col i j e pivot,
        after-IsSound k a col i j e v pivot,
      )
]

-- The loop ends in a sound state, or in one without a pivot.
pub eliminate-cases :
    (rounds k : ℕ) (a : Cells) (col : ℕ) (e : Elimination)
    → col + rounds ≡ k
    → IsSound k a col e
    → ((e' : Elimination) × (eliminate rounds k col e ≡ some e') × IsSound k a k e')
      ⊎ ((eliminate rounds k col e ≡ none)
          × ((n : ℕ) × (e' : Elimination) × (n < k)
              × IsSound k a n e'
              × (choose_pivot k n e'.ipiv e'.src ≡ none)))
unfolding eliminate
eliminate-cases zero k a col e l v = inl (e, refl, subst (λ n. IsSound k a n e) (omega arith) v)
eliminate-cases (suc rounds) k a col e l v =
    elim (eliminate_column-cases k a col e (omega arith) v) [
      | inr (nothing, stuck) ↦ inr (rw (nothing, eliminate), (col, e, omega arith, v, stuck))
      | inl (e', one, v') ↦
          let v'' = subst (λ n. IsSound k a n e') (suc_plus col) v' in
          elim (eliminate-cases rounds k a (col + 1) e' (omega arith) v'') [
            | inl (last, rest, sound) ↦ inl (last, rw (one, eliminate) rest, sound)
            | inr (rest, stuck) ↦ inr (rw (one, eliminate) rest, stuck)
          ]
    ]
