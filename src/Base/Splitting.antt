-- ===== src/Base/Splitting.antt =====
-- Trimming a text, and cutting it where a byte first stands.
use moonparty.Base.Text.{
  Bytes, is_empty, text_eq, is_space, trim_left, trim_right, trim_space, has, cut, split,
  strip_prefix,
}
use moonparty.Base.{
  ℕ, ◌+◌, Bool, true, false, not, ◌&&◌, ◌||◌, none, some, [], ◌∷◌, ◌++◌, ◌≡◌, refl, ap, sym, ◌∙◌,
  arith, inl, inr, ◌==◌, if◌then◌else◌, Bool-cases, Option-cases, length,
}

pub text_eq_refl : (a : Bytes) → text_eq a a ≡ true
unfolding text_eq
text_eq_refl [] = refl
text_eq_refl (x ∷ xs) = ground (arith, text_eq_refl xs)

pub text_eq→eq : (a b : Bytes) → text_eq a b ≡ true → a ≡ b
unfolding text_eq
text_eq→eq (x ∷ a) (y ∷ b) h = ground (arith, text_eq→eq a b)
text_eq→eq _ _ h = ground arith

pub has-append : (c : ℕ) (a b : Bytes) → has c (a ++ b) ≡ (has c a || has c b)
has-append c [] b = refl
has-append c (x ∷ a) b = ground (arith, has-append c a b)

pub has-append_false :
    (c : ℕ) (a b : Bytes) → has c a ≡ false → has c b ≡ false → has c (a ++ b) ≡ false
has-append_false c a b h k = rw (has-append c a b, h) k

pub cut_first : (c : ℕ) (a b : Bytes) → has c a ≡ false → cut c (a ++ c ∷ b) ≡ some (a, b)
unfolding cut
cut_first c [] b h = ground arith
cut_first c (x ∷ a) b h = elim (Bool-cases (x == c)) [
  | inl e ↦ ground arith
  | inr e ↦ rw (e, cut_first c a b (rw e at h)) refl
]

pub split_first : (c : ℕ) (a b : Bytes) → has c a ≡ false → split c (a ++ c ∷ b) ≡ a ∷ split c b
unfolding split
split_first c [] b h = ground arith
split_first c (x ∷ a) b h = elim (Bool-cases (x == c)) [
  | inl e ↦ ground arith
  | inr e ↦ rw (e, split_first c a b (rw e at h)) refl
]

pub split_last : (c : ℕ) (a : Bytes) → has c a ≡ false → split c a ≡ a ∷ []
unfolding split
split_last c [] h = refl
split_last c (x ∷ a) h = elim (Bool-cases (x == c)) [
  | inl e ↦ ground arith
  | inr e ↦ rw (e, split_last c a (rw e at h)) refl
]

pub strip_prefix-append : (p s : Bytes) → strip_prefix p (p ++ s) ≡ some s
unfolding strip_prefix
strip_prefix-append [] s = refl
strip_prefix-append (x ∷ p) s = ground (arith, strip_prefix-append p s)

-- The text is not empty and begins with no space.
abbrev pub starts : Bytes → Bool
starts [] = false
starts (c ∷ s) = not (is_space c)

pub trim_left-append : (a b : Bytes) → starts a ≡ true → trim_left (a ++ b) ≡ a ++ b
unfolding trim_left
trim_left-append [] b h = ground arith
trim_left-append (c ∷ a) b h = ground arith

abbrev all_space : Bytes → Bool
all_space [] = true
all_space (c ∷ s) = is_space c && all_space s

pub trim_right-all_space : (s : Bytes) → all_space s ≡ true → trim_right s ≡ []
unfolding trim_right
trim_right-all_space [] h = refl
trim_right-all_space (c ∷ s) h = elim (Bool-cases (is_space c)) [
  | inl e ↦ rw (trim_right-all_space s (rw e at h), e) refl
  | inr e ↦ ground arith
]

pub trim_right-append_space :
    (a s : Bytes) → all_space s ≡ true → trim_right (a ++ s) ≡ trim_right a
unfolding trim_right
trim_right-append_space [] s h = trim_right-all_space s h
trim_right-append_space (c ∷ a) s h = rw (trim_right-append_space a s h) refl

pub trim_space-append_space :
    (a s : Bytes) → all_space s ≡ true → trim_space (a ++ s) ≡ trim_space a
unfolding trim_space
trim_space-append_space a s h = rw (trim_right-append_space a s h) refl

pub trim_right-append :
    (a : Bytes) (c : ℕ) (b : Bytes)
    → is_space c ≡ false
    → trim_right (a ++ c ∷ b) ≡ a ++ c ∷ trim_right b
unfolding trim_right
trim_right-append [] c b h = rw h refl
trim_right-append (x ∷ []) c b h = rw (trim_right-append [] c b h) (ground arith)
trim_right-append (x ∷ y ∷ a) c b h = rw (trim_right-append (y ∷ a) c b h) (ground arith)

-- Nothing is trimmed from either end of the text.
abbrev pub IsTrimmed : Bytes → Type 0
IsTrimmed s = (trim_left s ≡ s) × (trim_right s ≡ s)

pub trim_space_lem : (s : Bytes) → IsTrimmed s → trim_space s ≡ s
unfolding trim_space
trim_space_lem s (l, r) = rw (r, l) refl

-- Spaces in front of a trimmed text, as behind the colon of a header, are trimmed as well.
trim_right-space :
    (c : ℕ) (v : Bytes) → trim_right (c ∷ v) ≡ c ∷ v → trim_right (b' ' ∷ c ∷ v) ≡ b' ' ∷ c ∷ v
trim_right-space c v r =
    unfold trim_right in ap (λ (rest : Bytes). if is_empty rest then [] else b' ' ∷ rest) r

pub trim_space-value : (v : Bytes) → IsTrimmed v → trim_space (trim_right (b' ' ∷ v)) ≡ v
trim_space-value [] h = unfold trim_space trim_left trim_right in refl
trim_space-value (c ∷ v) (l, r) =
    let back = trim_right-space c v r in
    unfold trim_space in rw (back, back) (unfold trim_left in l)

-- What is cut is shorter by what stands before the place, and the place.
pub length-cut :
    (c : ℕ) (s a b : Bytes) → cut c s ≡ some (a, b) → length s ≡ length a + length b + 1
unfolding cut
length-cut c [] a b h = cc
length-cut c (x ∷ s) a b h = elim (Bool-cases (x == c)) [
  | inl e ↦ ground arith
  | inr e ↦ elim (Option-cases (cut c s)) [
    | inl n ↦ ground arith
    | inr ((p, q), f) ↦ ground (arith, length-cut c s p q f)
  ]
]

pub trim_right-append_starts :
    (a t : Bytes) → starts t ≡ true → trim_right (a ++ t) ≡ a ++ trim_right t
trim_right-append_starts a [] s = absurd (ground arith)
trim_right-append_starts a (c ∷ b) s =
    let solid : is_space c ≡ false = ground arith in
    trim_right-append a c b solid ∙ ap (◌++◌ a) (sym (trim_right-append [] c b solid))

pub trim_space-append :
    (a t : Bytes)
    → starts a ≡ true
    → starts t ≡ true
    → trim_right t ≡ t
    → trim_space (a ++ t) ≡ a ++ t
unfolding trim_space
trim_space-append a t s s' r = rw (trim_right-append_starts a t s', r) (trim_left-append a t s)

pub cut-none : (c : ℕ) (a : Bytes) → has c a ≡ false → cut c a ≡ none
unfolding cut
cut-none c [] h = refl
cut-none c (x ∷ a) h = elim (Bool-cases (x == c)) [
  | inl e ↦ ground arith
  | inr e ↦ rw (e, cut-none c a (rw e at h)) refl
]

pub is_empty-starts : (k : Bytes) → starts k ≡ true → is_empty k ≡ false
is_empty-starts [] s = absurd (ground arith)
is_empty-starts (c ∷ k) s = refl
