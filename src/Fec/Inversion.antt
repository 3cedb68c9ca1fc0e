-- ===== src/Fec/Inversion.antt =====
-- moonlight-common-go/fec/fec.go: what `invertMatrix` gives.
use mathlib.Core.Option.{some-injective, some-ne-none}
use mathlib.Core.Path.{subst}
use moonparty.Base.{
  ℕ, zero, suc, ◌≤◌, ◌<◌, ◌≡◌, ◌≢◌, ◌∙◌, ◌↔◌, ◌⊎◌, refl, sym, ap, inl, inr, none, some, arith, ◌==◌,
  ◌!=◌, if◌then◌else◌, eq-or-ne, Bool-cases,
}
use moonparty.Fec.Scalar.{Gf, ◌⊗◌, gf_zero, gf_one, one-ne-zero, zero-mul, mul-zero}
use moonparty.Fec.Sums.{sum_congr, sum-zero, sum-swapped, swapped, swapped_twice, swapped_self}
use moonparty.Fec.Matrix.{Cells, Elimination, choose_pivot, unscramble, invert_matrix}
use moonparty.Fec.Exchange.{Takes, dot}
use moonparty.Fec.Pivots.{choose_pivot-none}
use moonparty.Fec.Rounds.{mix, count_marks, permuted, Relates, IsSound}
use moonparty.Fec.Elimination.{eliminate-cases}

count_marks-le : (k : ℕ) (p : ℕ → ℕ) → count_marks k p ≤ k
unfolding count_marks
count_marks-le zero p = omega arith
count_marks-le (suc k) p = ground (arith, count_marks-le k p)

all_marked : (k : ℕ) (p : ℕ → ℕ) (i : ℕ) → count_marks k p ≡ k → i < k → p i ≡ 1
unfolding count_marks
all_marked zero p i h l = absurd (omega arith)
all_marked (suc k) p i h l = elim (eq-or-ne i k) [
  | inl e ↦ rw e (ground (arith, count_marks-le k p))
  | inr ne ↦ all_marked k p i (ground (arith, count_marks-le k p)) (omega arith)
]

free_place : (k : ℕ) (p : ℕ → ℕ) → count_marks k p < k → (i : ℕ) × (i < k) × (p i ≢ 1)
unfolding count_marks
free_place zero p h = absurd (omega arith)
free_place (suc k) p h = elim (eq-or-ne (p k) 1) [
  | inr ne ↦ (k, omega arith, ne)
  | inl e ↦ let (i, l, ne) = free_place k p (ground arith) in (i, omega arith, ne)
]

mix_marked : (p : ℕ → ℕ) (a b : ℕ → Gf) (r : ℕ) → p r ≡ 1 → mix p a b r ≡ a r
unfolding mix
mix_marked p a b r h = ground arith

mix_free : (p : ℕ → ℕ) (a b : ℕ → Gf) (r : ℕ) → p r ≢ 1 → mix p a b r ≡ b r
unfolding mix
mix_free p a b r h = ground arith

pub dot_congr :
    (k : ℕ) (row w w' : ℕ → Gf) → ((c : ℕ) → c < k → w c ≡ w' c) → dot k row w ≡ dot k row w'
dot_congr k row w w' h = sum_congr k _ _ (λ c l. rw (h c l))

swap_columns :
    (i j : ℕ) (s : Cells)
    → (if i != j then (λ r c. s r (swapped i j c)) else s) ≡ (λ r c. s r (swapped i j c))
swap_columns i j s = elim (Bool-cases (i != j)) [
  | inl differ ↦ rw differ
  | inr same ↦
      let e : i ≡ j = ground arith in rw (same, e) (λ t r c. s r (sym (swapped_self j c) t))
]

unscramble_next :
    (n : ℕ) (f g : ℕ → ℕ) (s : Cells)
    → unscramble (suc n) f g s ≡ unscramble n f g (λ r c. s r (swapped (f n) (g n) c))
unfolding unscramble
unscramble_next n f g s = ap (unscramble n f g) (swap_columns (f n) (g n) s)

-- The columns, back in their order, give the same sums.
unscramble_lem :
    (k n : ℕ) (f g : ℕ → ℕ) (s : Cells) (y : ℕ → Gf) (r : ℕ)
    → ((i : ℕ) → i < n → f i < k)
    → ((i : ℕ) → i < n → g i < k)
    → dot k (s r) (λ c. y (permuted n f g c)) ≡ dot k (unscramble n f g s r) y
unfolding permuted unscramble
unscramble_lem k zero f g s y r hf hg = refl
unscramble_lem k (suc n) f g s y r hf hg =
    sym (
      sum-swapped (f n) (g n) (λ c. s r c ⊗ y (permuted n f g (swapped (f n) (g n) c))) k
        (hf n (omega arith)) (hg n (omega arith)))
    ∙ sum_congr k _ _ (λ c l. rw (swapped_twice (f n) (g n) c))
    ∙ unscramble_lem k n f g (λ r c. s r (swapped (f n) (g n) c)) y r (λ i l. hf i (omega arith))
        (λ i l. hg i (omega arith))
    ∙ ap (λ (m : Cells). dot k (m r) y) (sym (unscramble_next n f g s))

abbrev start : Cells → Elimination
start a = record { src = a; ipiv = λ i. 0; indxr = λ i. 0; indxc = λ i. 0 }

no_marks : (k : ℕ) → count_marks k (λ i. 0) ≡ 0
unfolding count_marks
no_marks zero = refl
no_marks (suc k) = omega (arith, no_marks k)

start-IsSound : (k : ℕ) (a : Cells) → IsSound k a 0 (start a)
unfolding mix permuted
start-IsSound k a = record {
  marks = λ i l. omega arith;
  counted = no_marks k;
  rows = λ i l. absurd (omega arith);
  columns = λ i l. absurd (omega arith);
  forth = λ x y h. h;
  back = λ x y h. h;
}

-- At the end every place is marked.
module _ (k : ℕ) (a : Cells) (e : Elimination) (v : IsSound k a k e) (x y : ℕ → Gf) where
  z : ℕ → Gf
  z c = y (permuted k e.indxr e.indxc c)

  marked : (r : ℕ) → r < k → e.ipiv r ≡ 1
  marked r l = all_marked k e.ipiv r v.counted l

  dot_end :
      (r : ℕ) → dot k (e.src r) (mix e.ipiv z x) ≡ dot k (unscramble k e.indxr e.indxc e.src r) y
  unfolding z
  dot_end r =
      dot_congr k (e.src r) _ _ (λ c l. mix_marked e.ipiv z x c (marked c l))
      ∙ unscramble_lem k k e.indxr e.indxc e.src y r v.rows v.columns

  inverted_forth : Takes k a x y → Takes k (unscramble k e.indxr e.indxc e.src) y x
  unfolding z
  inverted_forth h r l = sym (mix_marked e.ipiv x z r (marked r l)) ∙ v.forth x y h r l ∙ dot_end r

  inverted_back : Takes k (unscramble k e.indxr e.indxc e.src) y x → Takes k a x y
  unfolding z
  inverted_back h =
      v.back x y (λ r l. mix_marked e.ipiv x z r (marked r l) ∙ h r l ∙ sym (dot_end r))

-- Where no pivot is left, some vector other than 0 is taken to 0.
module _ (k : ℕ) (a : Cells) (n : ℕ) (e : Elimination) (l : n < k) (v : IsSound k a n e)
    (stuck : choose_pivot k n e.ipiv e.src ≡ none) (i : ℕ) (below : i < k)
    (free : e.ipiv i ≢ 1) where
  nothing : ℕ → Gf
  nothing c = gf_zero

  unit : ℕ → Gf
  unit c = if c == i then gf_one else gf_zero

  unit_one : unit i ≡ gf_one
  unfolding unit
  unit_one = ground arith

  kernel : ℕ → Gf
  kernel = mix e.ipiv (λ r. dot k (e.src r) (mix e.ipiv nothing unit)) unit

  same_unknowns : (c : ℕ) → mix e.ipiv nothing kernel c ≡ mix e.ipiv nothing unit c
  unfolding kernel mix
  same_unknowns c = ground arith

  free_row : (r : ℕ) → r < k → e.ipiv r ≢ 1 → dot k (e.src r) (mix e.ipiv nothing unit) ≡ gf_zero
  unfolding nothing
  free_row r p ne =
      sum_congr k _ _ (λ c q. elim (eq-or-ne (e.ipiv c) 1) [
        | inl one ↦ rw (mix_marked e.ipiv nothing unit c one) (mul-zero (e.src r c))
        | inr other ↦
            rw (choose_pivot-none k n e.ipiv e.src stuck r c p q ne (omega (arith, v.marks c q)))
              (zero-mul (mix e.ipiv nothing unit c))
      ])
      ∙ sum-zero k

  kernel_equations : Relates k e.src e.ipiv kernel nothing
  unfolding kernel nothing
  kernel_equations r p =
      row (eq-or-ne (e.ipiv r) 1) ∙ dot_congr k (e.src r) _ _ (λ c q. sym (same_unknowns c))
    where
      row :
          (e.ipiv r ≡ 1) ⊎ (e.ipiv r ≢ 1)
          → mix e.ipiv kernel nothing r ≡ dot k (e.src r) (mix e.ipiv nothing unit)
      row (inl one) = mix_marked e.ipiv kernel nothing r one ∙ mix_marked e.ipiv _ unit r one
      row (inr other) = mix_free e.ipiv kernel nothing r other ∙ sym (free_row r p other)

  kernel_of_stuck :
      (x : ℕ → Gf) × ((r : ℕ) → r < k → dot k (a r) x ≡ gf_zero)
      × (j : ℕ) × (j < k)
      × (x j ≢ gf_zero)
  unfolding kernel nothing
  kernel_of_stuck = (
    kernel,
    (λ r p. sym (v.back kernel nothing kernel_equations r p)),
    i,
    below,
    λ f. one-ne-zero (sym (mix_free e.ipiv _ unit i free ∙ unit_one) ∙ f),
  )

eliminate_all :
    (k : ℕ) (a : Cells)
    → ((e : Elimination) × (invert_matrix a k ≡ some (unscramble k e.indxr e.indxc e.src))
        × IsSound k a k e)
      ⊎ ((invert_matrix a k ≡ none)
          × ((n : ℕ) × (e : Elimination) × (n < k)
              × IsSound k a n e
              × (choose_pivot k n e.ipiv e.src ≡ none)))
unfolding invert_matrix
eliminate_all k a = elim (eliminate-cases k k a 0 (start a) (omega arith) (start-IsSound k a)) [
  | inl (e, done, v) ↦ inl (e, rw (done, invert_matrix), v)
  | inr (failed, stuck) ↦ inr (rw (failed, invert_matrix), stuck)
]

-- A matrix that `invertMatrix` gives is the inverse: it takes a vector y to x exactly when the given
-- matrix takes x to y.
pub invert_matrix_inverse :
    (k : ℕ) (a b : Cells) (x y : ℕ → Gf)
    → invert_matrix a k ≡ some b
    → Takes k a x y ↔ Takes k b y x
invert_matrix_inverse k a b x y h = elim (eliminate_all k a) [
  | inr (failed, stuck) ↦ absurd (some-ne-none b (sym h ∙ failed))
  | inl (e, done, v) ↦
      let same = some-injective _ _ (sym done ∙ h) in
      subst (λ (m : Cells). Takes k a x y ↔ Takes k m y x) same
        (inverted_forth k a e v x y, inverted_back k a e v x y)
]

-- `invertMatrix` fails only on a singular matrix: one that takes some vector other than 0 to 0.
pub invert_matrix_singular :
    (k : ℕ) (a : Cells)
    → invert_matrix a k ≡ none
    → (x : ℕ → Gf) × ((r : ℕ) → r < k → dot k (a r) x ≡ gf_zero)
      × (j : ℕ) × (j < k)
      × (x j ≢ gf_zero)
invert_matrix_singular k a h = elim (eliminate_all k a) [
  | inl (e, done, v) ↦ absurd (some-ne-none _ (sym done ∙ h))
  | inr (failed, (n, e, l, v, stuck)) ↦
      let (i, below, free) = free_place k e.ipiv (omega (arith, v.counted)) in
      kernel_of_stuck k a n e l v stuck i below free
]
