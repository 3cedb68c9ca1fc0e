-- ===== src/Fec/Sums.antt =====
-- Finite sums in the field of moonlight-common-go/fec/fec.go.
use moonparty.Base.{
  ℕ, zero, suc, ◌<◌, ◌≡◌, ◌≢◌, ◌∙◌, refl, sym, ap, inl, inr, arith, ◌==◌, if◌then◌else◌, eq-or-ne,
}
use moonparty.Fec.Scalar.{Gf, gf_zero, ◌⊕◌, ◌⊗◌, sums, mul-add, mul-zero, add_self}

-- `var tg gf; for i := 0; i < n; i++ { tg ^= f(i) }`.
unfoldable pub sum : ℕ → (ℕ → Gf) → Gf
sum zero f = gf_zero
sum (suc n) f = sum n f ⊕ f n

pub sum_congr : (n : ℕ) (f g : ℕ → Gf) → ((i : ℕ) → i < n → f i ≡ g i) → sum n f ≡ sum n g
unfolding sum
sum_congr zero f g h = refl
sum_congr (suc n) f g h = rw (sum_congr n f g (λ i p. h i (omega arith)), h n (omega arith))

pub sum-zero : (n : ℕ) → sum n (λ i. gf_zero) ≡ gf_zero
unfolding sum
sum-zero zero = refl
sum-zero (suc n) = rw (sum-zero n) (add_self gf_zero)

pub sum-add : (n : ℕ) (f g : ℕ → Gf) → sum n (λ i. f i ⊕ g i) ≡ sum n f ⊕ sum n g
unfolding sum
sum-add zero f g = sym (add_self gf_zero)
sum-add (suc n) f g = rw (sum-add n f g) (simp sums)

pub mul-sum : (n : ℕ) (a : Gf) (f : ℕ → Gf) → sum n (λ i. a ⊗ f i) ≡ a ⊗ sum n f
unfolding sum
mul-sum zero a f = sym (mul-zero a)
mul-sum (suc n) a f = rw (mul-sum n a f) (sym (mul-add a (sum n f) (f n)))

-- Two functions that agree but at j have sums that differ by their values at j.
pub sum_off :
    (n j : ℕ) (f g : ℕ → Gf)
    → j < n
    → ((i : ℕ) → i < n → i ≢ j → f i ≡ g i)
    → sum n f ≡ sum n g ⊕ (f j ⊕ g j)
unfolding sum
sum_off zero j f g p h = absurd (omega arith)
sum_off (suc n) j f g p h = elim (eq-or-ne j n) [
  | inl e ↦ rw (e, sum_congr n f g (λ i q. h i (omega arith) (omega arith))) (simp sums)
  | inr ne ↦
      rw
        (
          sum_off n j f g (omega arith) (λ i q. h i (omega arith)),
          h n (omega arith) (λ e. ne (sym e)),
        )
        (simp sums)
]

-- A sum with one term that is not zero.
pub sum_single :
    (n j : ℕ) (f : ℕ → Gf) → j < n → ((i : ℕ) → i < n → i ≢ j → f i ≡ gf_zero) → sum n f ≡ f j
sum_single n j f p h = sum_off n j f (λ i. gf_zero) p h ∙ rw (sum-zero n) (simp sums)

-- Two indices change places.
unfoldable pub swapped : ℕ → ℕ → ℕ → ℕ
swapped i j r = if r == i then j else if r == j then i else r

pub swapped-lt : (n i j r : ℕ) → i < n → j < n → r < n → swapped i j r < n
unfolding swapped
swapped-lt n i j r p q h = ground arith

pub swapped_twice : (i j r : ℕ) → swapped i j (swapped i j r) ≡ r
unfolding swapped
swapped_twice i j r = ground arith

pub swapped_self : (i r : ℕ) → swapped i i r ≡ r
unfolding swapped
swapped_self i r = ground arith

swapped_first : (i j : ℕ) → swapped i j i ≡ j
unfolding swapped
swapped_first i j = ground arith

pub swapped_second : (i j : ℕ) → swapped i j j ≡ i
unfolding swapped
swapped_second i j = ground arith

swapped_ne : (i j r : ℕ) → r ≢ i → r ≢ j → swapped i j r ≡ r
unfolding swapped
swapped_ne i j r p q = ground arith

module _ (i j : ℕ) (f : ℕ → Gf) where
  -- The function with its value at i taken for that at j.
  half : ℕ → Gf
  half r = if r == i then f i else f (swapped i j r)

  half_first : half i ≡ f i
  unfolding half
  half_first = ground arith

  half_second : half j ≡ f i
  unfolding half
  half_second = ground (arith, ap f (swapped_second i j))

  half_of_ne_first : (r : ℕ) → r ≢ i → f (swapped i j r) ≡ half r
  unfolding half
  half_of_ne_first r ne = ground arith

  half_of_ne_second : (r : ℕ) → r ≢ j → half r ≡ f r
  half_of_ne_second r ne = elim (eq-or-ne r i) [
    | inl e ↦ rw e half_first
    | inr other ↦ sym (half_of_ne_first r other) ∙ ap f (swapped_ne i j r other ne)
  ]

  pub sum-swapped : (n : ℕ) → i < n → j < n → sum n (λ r. f (swapped i j r)) ≡ sum n f
  sum-swapped n p q =
      sum_off n i (λ r. f (swapped i j r)) half p (λ r h ne. half_of_ne_first r ne)
      ∙ rw
          (
            sum_off n j half f q (λ r h ne. half_of_ne_second r ne),
            swapped_first i j,
            half_first,
            half_second,
          )
          (simp sums)
