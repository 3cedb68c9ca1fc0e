-- ===== src/Fec/Cauchy.antt =====
-- moonlight-common-go/fec/fec.go: the cells of the parity rows, the inverses of sums of points, make a
-- Cauchy matrix, and square parts of such a matrix take no vector but 0 to 0.
use moonparty.Base.{suc, ◌≤◌, ◌≡◌, ◌≢◌, ◌∙◌, refl, sym, ap, List, [], ◌∷◌, arith, length}
use mathlib.Core.Path.{subst, ◌≡⟨◌⟩◌, ◌∎}
use moonparty.Base.All.{All, All-and}
use moonparty.Fec.Scalar.{
  Gf, ◌⊕◌, ◌⊗◌, gf_zero, gf_one, inverse, inverse-mul, sums, products, mul_comm, mul_assoc, mul-add,
  add-mul, one-mul, mul-zero, zero-mul, add_self, zero-add, eq_of_add-zero, eq-zero_of_mul,
  one-ne-zero,
}

-- A column: its point and its unknown.
abbrev pub Column : Type 0
Column = Gf × Gf

-- The row of the point `b`.
unfoldable pub cauchy_sum : Gf → List Column → Gf
cauchy_sum b [] = gf_zero
cauchy_sum b ((a, x) ∷ ts) = inverse (a ⊕ b) ⊗ x ⊕ cauchy_sum b ts

abbrev pub Distinct : List Gf → Type 0
Distinct [] = Unit
Distinct (a ∷ rest) = All (λ b. a ≢ b) rest × Distinct rest

-- The points of the columns.
abbrev pub points : List Column → List Gf
points [] = []
points ((a, x) ∷ ts) = a ∷ points ts

abbrev Apart : Gf → List Column → Type 0
Apart b ts = All (λ a. a ≢ b) (points ts)

add-ne-zero : (a b : Gf) → a ≢ b → a ⊕ b ≢ gf_zero
add-ne-zero a b ne e = ne (eq_of_add-zero a b e)

-- The column of the point `a0` is eliminated by the row of `b0`.
abbrev eliminated : Gf → Gf → Column → Column
eliminated a0 b0 (a, x) = (a, inverse (a ⊕ b0) ⊗ ((a0 ⊕ a) ⊗ x))

eliminate_point : Gf → Gf → List Column → List Column
eliminate_point a0 b0 [] = []
eliminate_point a0 b0 (t ∷ ts) = eliminated a0 b0 t ∷ eliminate_point a0 b0 ts

-- p and q are the inverses of a + b and a + b0.
inverse_sum :
    (a b b0 p q : Gf) → p ⊗ (a ⊕ b) ≡ gf_one → q ⊗ (a ⊕ b0) ≡ gf_one → p ⊕ q ≡ (b ⊕ b0) ⊗ (p ⊗ q)
inverse_sum a b b0 p q ep eq =
    p ⊕ q
    ≡⟨ sym (rw (eq, ep) (simp products)) ⟩ p ⊗ (q ⊗ (a ⊕ b0)) ⊕ q ⊗ (p ⊗ (a ⊕ b))
    ≡⟨ (simp (mul-add, add-mul, products, sums)) ⟩ (b ⊕ b0) ⊗ (p ⊗ q) ∎

point_sum : (a0 a b p x : Gf) → p ⊗ (a ⊕ b) ≡ gf_one → (a0 ⊕ b) ⊗ (p ⊗ x) ≡ p ⊗ ((a0 ⊕ a) ⊗ x) ⊕ x
point_sum a0 a b p x ep =
    (a0 ⊕ b) ⊗ (p ⊗ x)
    ≡⟨ (simp (mul-add, add-mul, products, sums)) ⟩ p ⊗ ((a0 ⊕ a) ⊗ x) ⊕ (p ⊗ (a ⊕ b)) ⊗ x
    ≡⟨ (rw (ep, one-mul x)) ⟩ p ⊗ ((a0 ⊕ a) ⊗ x) ⊕ x ∎

-- A row after the elimination, of the points b, from the rows of b and of b0.
term_sum :
    (a0 a b b0 x : Gf)
    → a ≢ b
    → a ≢ b0
    → (b ⊕ b0) ⊗ (inverse (a ⊕ b) ⊗ (inverse (a ⊕ b0) ⊗ ((a0 ⊕ a) ⊗ x)))
      ≡ (a0 ⊕ b) ⊗ (inverse (a ⊕ b) ⊗ x) ⊕ (a0 ⊕ b0) ⊗ (inverse (a ⊕ b0) ⊗ x)
term_sum a0 a b b0 x ne ne0 =
    let p = inverse (a ⊕ b) in
    let q = inverse (a ⊕ b0) in
    let u = (a0 ⊕ a) ⊗ x in
    let ep = inverse-mul (a ⊕ b) (add-ne-zero a b ne) in
    let eq = inverse-mul (a ⊕ b0) (add-ne-zero a b0 ne0) in
    (b ⊕ b0) ⊗ (p ⊗ (q ⊗ u))
    ≡⟨ (rw (← mul_assoc p q u, ← mul_assoc (b ⊕ b0) (p ⊗ q) u)) ⟩ ((b ⊕ b0) ⊗ (p ⊗ q)) ⊗ u
    ≡⟨ ap (λ t. t ⊗ u) (sym (inverse_sum a b b0 p q ep eq)) ⟩ (p ⊕ q) ⊗ u
    ≡⟨ add-mul p q u ⟩ p ⊗ u ⊕ q ⊗ u
    ≡⟨ cancel (p ⊗ u) (q ⊗ u) x ⟩ (p ⊗ u ⊕ x) ⊕ (q ⊗ u ⊕ x)
    ≡⟨ (rw (point_sum a0 a b p x ep, point_sum a0 a b0 q x eq)) ⟩
      (a0 ⊕ b) ⊗ (p ⊗ x) ⊕ (a0 ⊕ b0) ⊗ (q ⊗ x) ∎
  where
    cancel : (s t r : Gf) → s ⊕ t ≡ (s ⊕ r) ⊕ (t ⊕ r)
    cancel s t r = simp sums

module _ (a0 b b0 : Gf) where
  cauchy_sum-eliminate :
      (ts : List Column)
      → Apart b ts
      → Apart b0 ts
      → (b ⊕ b0) ⊗ cauchy_sum b (eliminate_point a0 b0 ts)
        ≡ (a0 ⊕ b) ⊗ cauchy_sum b ts ⊕ (a0 ⊕ b0) ⊗ cauchy_sum b0 ts
  unfolding cauchy_sum eliminate_point
  cauchy_sum-eliminate [] h h0 = simp (mul-zero, zero-add)
  cauchy_sum-eliminate ((a, x) ∷ ts) (ne, h) (ne0, h0) =
      mul-add (b ⊕ b0) _ _
      ∙ rw (term_sum a0 a b b0 x ne ne0, cauchy_sum-eliminate ts h h0)
          (regroup (a0 ⊕ b) (a0 ⊕ b0) (inverse (a ⊕ b) ⊗ x) (inverse (a ⊕ b0) ⊗ x) _ _)
    where
      regroup : (f g s t u v : Gf) → (f ⊗ s ⊕ g ⊗ t) ⊕ (f ⊗ u ⊕ g ⊗ v) ≡ f ⊗ (s ⊕ u) ⊕ g ⊗ (t ⊕ v)
      regroup f g s t u v = simp (mul-add, sums)

  -- The first unknown from a row of value 0.
  first_unknown :
      (x : Gf) (ts : List Column)
      → a0 ≢ b
      → cauchy_sum b ((a0, x) ∷ ts) ≡ gf_zero
      → x ≡ (a0 ⊕ b) ⊗ cauchy_sum b ts
  unfolding cauchy_sum
  first_unknown x ts ne h =
      sym (one-mul x)
      ∙ ap (λ t. t ⊗ x)
          (sym (inverse-mul (a0 ⊕ b) (add-ne-zero a0 b ne)) ∙ mul_comm (inverse (a0 ⊕ b)) (a0 ⊕ b))
      ∙ mul_assoc (a0 ⊕ b) (inverse (a0 ⊕ b)) x
      ∙ ap (◌⊗◌ (a0 ⊕ b)) (eq_of_add-zero _ _ h)

inverse-ne-zero : (a : Gf) → a ≢ gf_zero → inverse a ≢ gf_zero
inverse-ne-zero a ne e = one-ne-zero (sym (inverse-mul a ne) ∙ ap (λ t. t ⊗ a) e ∙ zero-mul a)

points-eliminate : (a0 b0 : Gf) (ts : List Column) → points (eliminate_point a0 b0 ts) ≡ points ts
unfolding eliminate_point
points-eliminate a0 b0 [] = refl
points-eliminate a0 b0 ((a, x) ∷ ts) = ap (◌∷◌ a) (points-eliminate a0 b0 ts)

length-eliminate : (a0 b0 : Gf) (ts : List Column) → length (eliminate_point a0 b0 ts) ≡ length ts
unfolding eliminate_point
length-eliminate a0 b0 [] = refl
length-eliminate a0 b0 (t ∷ ts) = ap suc (length-eliminate a0 b0 ts)

abbrev AllZero : List Column → Type 0
AllZero = All (λ t. t.1 ≡ gf_zero)

cauchy_sum_zeros : (b : Gf) (ts : List Column) → AllZero ts → cauchy_sum b ts ≡ gf_zero
unfolding cauchy_sum
cauchy_sum_zeros b [] h = refl
cauchy_sum_zeros b ((a, x) ∷ ts) (z, h) =
    rw (z, cauchy_sum_zeros b ts h, mul-zero (inverse (a ⊕ b))) (add_self gf_zero)

AllZero-of_eliminate :
    (a0 b0 : Gf) (ts : List Column)
    → Apart b0 ts
    → All (λ a. a0 ≢ a) (points ts)
    → AllZero (eliminate_point a0 b0 ts)
    → AllZero ts
unfolding eliminate_point
AllZero-of_eliminate a0 b0 [] h d z = tt
AllZero-of_eliminate a0 b0 ((a, x) ∷ ts) (ne, h) (ne', d) (z, zs) = (
  eq-zero_of_mul (a0 ⊕ a) x (add-ne-zero a0 a ne')
      (eq-zero_of_mul (inverse (a ⊕ b0)) _ (inverse-ne-zero (a ⊕ b0) (add-ne-zero a b0 ne)) z),
  AllZero-of_eliminate a0 b0 ts h d zs,
)

-- The rows after the elimination of the first column by the first row have the value 0.
rows_zero :
    (a0 x b0 : Gf) (ts : List Column) (bs : List Gf)
    → All (λ b. b0 ≢ b) bs
    → Apart b0 ((a0, x) ∷ ts)
    → All (λ b. Apart b ((a0, x) ∷ ts)) bs
    → cauchy_sum b0 ((a0, x) ∷ ts) ≡ gf_zero
    → All (λ b. cauchy_sum b ((a0, x) ∷ ts) ≡ gf_zero) bs
    → All (λ b. cauchy_sum b (eliminate_point a0 b0 ts) ≡ gf_zero) bs
rows_zero a0 x b0 ts [] d h0 h z0 z = tt
rows_zero a0 x b0 ts (b ∷ bs) (ne, d) h0 (hb, h) z0 (zb, z) = (
  eq-zero_of_mul (b ⊕ b0) _ (add-ne-zero b b0 (λ e. ne (sym e))) (
      cauchy_sum-eliminate a0 b b0 ts hb.1 h0.1
      ∙ rw (← first_unknown a0 b b0 x ts hb.0 zb)
          (ap (◌⊕◌ x) (sym (first_unknown a0 b0 b0 x ts h0.0 z0)) ∙ add_self x)),
  rows_zero a0 x b0 ts bs d h0 h z0 z,
)

-- Unknowns at distinct points that at least as many rows of other points take to 0 are all 0.
pub cauchy_kernel :
    (ts : List Column) (bs : List Gf)
    → length ts ≤ length bs
    → Distinct (points ts)
    → Distinct bs
    → All (λ b. Apart b ts) bs
    → All (λ b. cauchy_sum b ts ≡ gf_zero) bs
    → All (λ t. t.1 ≡ gf_zero) ts
cauchy_kernel [] bs l d d' h z = tt
cauchy_kernel (t ∷ ts) [] l d d' h z = absurd (omega arith)
cauchy_kernel ((a0, x) ∷ ts) (b0 ∷ bs) l (da, d) (db, d') (h0, h) (z0, z) =
    let same = points-eliminate a0 b0 ts in
    let later =
      cauchy_kernel (eliminate_point a0 b0 ts) bs (omega (arith, length-eliminate a0 b0 ts))
        (subst Distinct (sym same) d) d'
        (All-and bs (λ b p. subst (All (λ a. a ≢ b)) (sym same) p.1) h)
        (rows_zero a0 x b0 ts bs db h0 h z0 z) in
    let zeros = AllZero-of_eliminate a0 b0 ts h0.1 da later in
    (
      first_unknown a0 b0 b0 x ts h0.0 z0 ∙ rw (cauchy_sum_zeros b0 ts zeros) (mul-zero (a0 ⊕ b0)),
      zeros,
    )
