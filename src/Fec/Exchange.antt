-- ===== src/Fec/Exchange.antt =====
-- moonlight-common-go/fec/fec.go: a round of `invertMatrix` exchanges an unknown with a value.
use moonparty.Base.{
  ℕ, zero, suc, ◌<◌, ◌≡◌, ◌≢◌, ◌∙◌, refl, sym, ap, inl, inr, true, arith, ◌==◌, if◌then◌else◌,
  eq-or-ne, Bool-cases, ne→==_false, eq→==, and_left, and_right, ◌⊎◌,
}
use moonparty.Base.Assoc.{update, update_self, update_ne}
use moonparty.Fec.Scalar.{
  Gf, gf_zero, gf_one, ◌⊕◌, ◌⊗◌, inverse, gf_eq, add-mul, mul_assoc, mul_comm, one-mul, mul-one,
  zero-mul, mul-zero, zero-add, add-zero, add_twice, inverse-mul, inverse_one, eq_of_gf_eq,
}
use moonparty.Fec.Sums.{sum, sum_congr, sum-add, mul-sum, sum_off}
use moonparty.Fec.Matrix.{
  Cells, is_zero, addmul, scale_row, is_identity_row, reduce_row, reduce_others,
}

abbrev pub dot : ℕ → (ℕ → Gf) → (ℕ → Gf) → Gf
dot k row w = sum k (λ j. row j ⊗ w j)

-- The matrix takes `w` to `v`.
abbrev pub Takes : ℕ → Cells → (ℕ → Gf) → (ℕ → Gf) → Type 0
Takes k s w v = (r : ℕ) → r < k → v r ≡ dot k (s r) w

pub addmul_lem : (dst src : ℕ → Gf) (c : Gf) (j : ℕ) → addmul dst src c j ≡ dst j ⊕ c ⊗ src j
unfolding addmul
addmul_lem dst src c j = elim (Bool-cases (is_zero c)) [
  | inl z ↦ rw (z, eq_of_gf_eq c gf_zero z) (simp (zero-mul, add-zero))
  | inr nz ↦ rw nz
]

scale_row_lem :
    (row : ℕ → Gf) (i j : ℕ) → scale_row row i j ≡ inverse (row i) ⊗ update row i gf_one j
unfolding scale_row
scale_row_lem row i j = elim (Bool-cases (gf_eq (row i) gf_one)) [
  | inl one ↦
      let e = eq_of_gf_eq (row i) gf_one one in
      rw (one, e, inverse_one, one-mul (update row i gf_one j)) (same e (eq-or-ne j i))
  | inr other ↦ rw other
]
  where
    same : row i ≡ gf_one → (j ≡ i) ⊎ (j ≢ i) → row j ≡ update row i gf_one j
    same e (inl f) = rw (f, update_self row i gf_one) e
    same e (inr ne) = sym (update_ne row i gf_one j ne)

is_identity_row_lem :
    (k icol : ℕ) (row : ℕ → Gf) (j : ℕ)
    → is_identity_row k icol row ≡ true
    → j < k
    → row j ≡ (if j == icol then gf_one else gf_zero)
unfolding is_identity_row
is_identity_row_lem zero icol row j h p = absurd (omega arith)
is_identity_row_lem (suc k) icol row j h p = elim (eq-or-ne j k) [
  | inl e ↦ rw e (eq_of_gf_eq _ _ (and_right _ _ h))
  | inr ne ↦ is_identity_row_lem k icol row j (and_left _ _ h) (omega arith)
]

-- A row is reduced alike whether or not the code skips the work.
reduce_others_lem :
    (k : ℕ) (s : Cells) (i : ℕ) (pivot : ℕ → Gf) (r j : ℕ)
    → j < k
    → r ≢ i
    → reduce_others k s i pivot r j ≡ update (s r) i gf_zero j ⊕ s r i ⊗ pivot j
unfolding reduce_others reduce_row
reduce_others_lem k s i pivot r j p ne = elim (Bool-cases (is_identity_row k i pivot)) [
  | inl unit ↦
      rw (ne→==_false r i ne, unit, is_identity_row_lem k i pivot j unit p)
        (kept (s r) (eq-or-ne j i))
  | inr other ↦ rw (ne→==_false r i ne, other, addmul_lem (update (s r) i gf_zero) pivot (s r i) j)
]
  where
    kept :
        (row : ℕ → Gf)
        → (j ≡ i) ⊎ (j ≢ i)
        → row j ≡ update row i gf_zero j ⊕ row i ⊗ (if j == i then gf_one else gf_zero)
    kept row (inl e) = rw (e, update_self row i gf_zero, eq→== i i refl) (simp (mul-one, zero-add))
    kept row (inr other) =
        rw (update_ne row i gf_zero j other, ne→==_false j i other) (simp (mul-zero, add-zero))

reduce_others_pivot :
    (k : ℕ) (s : Cells) (i : ℕ) (pivot : ℕ → Gf) → reduce_others k s i pivot i ≡ pivot
unfolding reduce_others
reduce_others_pivot k s i pivot = rw (eq→== i i refl)

-- One round on a matrix whose pivot is in its place.
unfoldable pub exchanged : ℕ → Cells → ℕ → Cells
exchanged k s i = reduce_others k s i (scale_row (s i) i)

module _ (k : ℕ) (s : Cells) (i : ℕ) (below : i < k) (w : ℕ → Gf) (a : Gf) where
  -- What the other columns give.
  others : ℕ → Gf
  others r = dot k (update (s r) i gf_zero) w

  dot_before : (r : ℕ) → dot k (s r) w ≡ others r ⊕ s r i ⊗ w i
  unfolding others
  dot_before r =
      sum_off k i (λ j. s r j ⊗ w j) (λ j. update (s r) i gf_zero j ⊗ w j) below
        (λ j p ne. rw (update_ne (s r) i gf_zero j ne))
      ∙ rw (update_self (s r) i gf_zero) (simp (zero-mul, add-zero))

  dot_pivot : dot k (scale_row (s i) i) (update w i a) ≡ inverse (s i i) ⊗ (others i ⊕ a)
  unfolding others
  dot_pivot =
      sum_congr k _ _ (λ j p. rw (scale_row_lem (s i) i j) (mul_assoc (inverse (s i i)) _ _))
      ∙ mul-sum k (inverse (s i i)) _
      ∙ ap (◌⊗◌ (inverse (s i i))) (
          sum_off k i (λ j. update (s i) i gf_one j ⊗ update w i a j)
            (λ j. update (s i) i gf_zero j ⊗ w j) below
            (λ j p ne.
              rw (
                update_ne (s i) i gf_one j ne,
                update_ne (s i) i gf_zero j ne,
                update_ne w i a j ne,
              ))
          ∙ rw (update_self (s i) i gf_one, update_self (s i) i gf_zero, update_self w i a)
              (simp (zero-mul, add-zero, one-mul)))

  other_terms :
      (r j : ℕ) → update (s r) i gf_zero j ⊗ update w i a j ≡ update (s r) i gf_zero j ⊗ w j
  other_terms r j = elim (eq-or-ne j i) [
    | inl e ↦ rw (e, update_self (s r) i gf_zero) (simp (zero-mul))
    | inr ne ↦ rw (update_ne w i a j ne)
  ]

  dot_other :
      (r : ℕ)
      → r ≢ i
      → dot k (exchanged k s i r) (update w i a)
        ≡ others r ⊕ s r i ⊗ dot k (exchanged k s i i) (update w i a)
  unfolding others exchanged
  dot_other r ne = rw (reduce_others_pivot k s i (scale_row (s i) i)) (
      sum_congr k _ _ (λ j p. rw (
        reduce_others_lem k s i (scale_row (s i) i) r j p ne,
        add-mul (update (s r) i gf_zero j) (s r i ⊗ scale_row (s i) i j) (update w i a j),
        other_terms r j,
        mul_assoc (s r i) (scale_row (s i) i j) (update w i a j),
      ))
      ∙ sum-add k _ _
      ∙ ap (◌⊕◌ (others r)) (mul-sum k (s r i) _))

  dot_at_pivot : dot k (exchanged k s i i) (update w i a) ≡ inverse (s i i) ⊗ (others i ⊕ a)
  unfolding exchanged
  dot_at_pivot = rw (reduce_others_pivot k s i (scale_row (s i) i)) dot_pivot

-- The equation of the pivot row, solved for the unknown, and back.
solve : (c t w v : Gf) → c ≢ gf_zero → v ≡ t ⊕ c ⊗ w → w ≡ inverse c ⊗ (t ⊕ v)
solve c t w v ne e =
    sym (one-mul w)
    ∙ ap (λ u. u ⊗ w) (sym (inverse-mul c ne))
    ∙ mul_assoc (inverse c) c w
    ∙ ap (◌⊗◌ (inverse c)) (sym (add_twice t (c ⊗ w)) ∙ ap (◌⊕◌ t) (sym e))

unsolve : (c t w v : Gf) → c ≢ gf_zero → w ≡ inverse c ⊗ (t ⊕ v) → v ≡ t ⊕ c ⊗ w
unsolve c t w v ne e =
    sym (add_twice t v)
    ∙ ap (◌⊕◌ t) (
        sym (one-mul (t ⊕ v))
        ∙ ap (λ u. u ⊗ (t ⊕ v)) (sym (inverse-mul c ne) ∙ mul_comm (inverse c) c)
        ∙ mul_assoc c (inverse c) (t ⊕ v)
        ∙ ap (◌⊗◌ c) (sym e))

module _ (k : ℕ) (s : Cells) (i : ℕ) (below : i < k) (pivot : s i i ≢ gf_zero) (w v : ℕ → Gf) where
  at_pivot : v i ≡ dot k (s i) w → w i ≡ dot k (exchanged k s i i) (update w i (v i))
  at_pivot e =
      solve (s i i) (others k s i below w (v i) i) (w i) (v i) pivot
        (e ∙ dot_before k s i below w (v i) i)
      ∙ sym (dot_at_pivot k s i below w (v i))

  pub exchanged-Takes :
      Takes k s w v → Takes k (exchanged k s i) (update w i (v i)) (update v i (w i))
  exchanged-Takes h r p = elim (eq-or-ne r i) [
    | inl e ↦ rw (e, update_self v i (w i)) (at_pivot (h i below))
    | inr ne ↦
        rw (update_ne v i (w i) r ne, dot_other k s i below w (v i) r ne)
          (h r p
            ∙ dot_before k s i below w (v i) r
            ∙ ap (λ t. others k s i below w (v i) r ⊕ s r i ⊗ t) (at_pivot (h i below)))
  ]

  pub Takes-of_exchanged :
      Takes k (exchanged k s i) (update w i (v i)) (update v i (w i)) → Takes k s w v
  Takes-of_exchanged h r p =
      let solved : w i ≡ dot k (exchanged k s i i) (update w i (v i)) =
        sym (update_self v i (w i)) ∙ h i below in
      elim (eq-or-ne r i) [
        | inl e ↦ rw e (
            unsolve (s i i) (others k s i below w (v i) i) (w i) (v i) pivot
              (solved ∙ dot_at_pivot k s i below w (v i))
            ∙ sym (dot_before k s i below w (v i) i))
        | inr ne ↦
            sym (update_ne v i (w i) r ne)
            ∙ h r p
            ∙ dot_other k s i below w (v i) r ne
            ∙ ap (λ t. others k s i below w (v i) r ⊕ s r i ⊗ t) (sym solved)
            ∙ sym (dot_before k s i below w (v i) r)
      ]
