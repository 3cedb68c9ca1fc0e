-- ===== src/Base/Numerals.antt =====
-- `strconv.Atoi` reads back what `%d` writes.
use mathlib.Core.List.{append-nil, append_assoc}
use moonparty.Base.Text.{Bytes, trim_right, has, is_digit, scan, atoi, digits, decimal}
use moonparty.Base.Splitting.{
  starts, IsTrimmed, has-append_false, trim_left-append, trim_right-append,
}
use moonparty.Base.{
  ℕ, zero, suc, ◌+◌, ◌/◌, ◌%◌, ◌<◌, true, false, inl, inr, some, [], ◌∷◌, ◌++◌, ◌≡◌, refl, ◌∙◌,
  arith, pos, ltb, Bool-cases,
}

-- The value is not clipped while it fits in 64 bits.
scan-digit :
    (n : ℕ) (s : Bytes) → n < 18446744073709551616 → scan (n / 10) ((b'0' + n % 10) ∷ s) ≡ scan n s
unfolding scan
scan-digit n s h = ground arith

below_ten : (n : ℕ) → ltb n 10 ≡ true → n / 10 ≡ 0
below_ten n e = ground arith

scan_end : (n : ℕ) → scan n [] ≡ some n
unfolding scan
scan_end n = refl

scan-digits :
    (f n : ℕ) (s : Bytes) → n < f → n < 18446744073709551616 → scan 0 (digits f n ++ s) ≡ scan n s
unfolding digits
scan-digits zero n s h b = absurd (omega arith)
scan-digits (suc f) n s h b = elim (Bool-cases (ltb n 10)) [
  | inl e ↦ rw e (rw (below_ten n e) at (scan-digit n s b))
  | inr e ↦
      rw (e, append_assoc (digits f (n / 10)) ((b'0' + n % 10) ∷ []) s)
        (scan-digits f (n / 10) _ (ground arith) (ground arith) ∙ scan-digit n s b)
]

-- A numeral begins with a digit, and holds digits only.
digits_cases :
    (f n : ℕ) → n < f → (c : ℕ) × (s : Bytes) × (digits f n ≡ c ∷ s) × (is_digit c ≡ true)
unfolding digits
digits_cases zero n h = absurd (omega arith)
digits_cases (suc f) n h = elim (Bool-cases (ltb n 10)) [
  | inl e ↦ (b'0' + n % 10, [], rw e refl, ground arith)
  | inr e ↦
      let (c, s, q, d) = digits_cases f (n / 10) (ground arith) in
      (c, s ++ (b'0' + n % 10) ∷ [], rw (e, q) refl, d)
]

has-digits : (c f n : ℕ) → is_digit c ≡ false → has c (digits f n) ≡ false
unfolding digits
has-digits c zero n h = refl
has-digits c (suc f) n h = elim (Bool-cases (ltb n 10)) [
  | inl e ↦ rw e (ground arith)
  | inr e ↦
      rw e (has-append_false c (digits f (n / 10)) _ (has-digits c f (n / 10) h) (ground arith))
]

pub has-decimal : (c n : ℕ) → is_digit c ≡ false → has c (decimal n) ≡ false
unfolding decimal
has-decimal c n h = has-digits c (suc n) n h

pub decimal-starts : (n : ℕ) → starts (decimal n) ≡ true
unfolding decimal
decimal-starts n = let (c, s, q, d) = digits_cases (suc n) n (omega arith) in rw q (ground arith)

trim_right-digits : (f n : ℕ) → trim_right (digits f n) ≡ digits f n
unfolding digits
trim_right-digits zero n = unfold trim_right in refl
trim_right-digits (suc f) n = elim (Bool-cases (ltb n 10)) [
  | inl e ↦
      rw e (trim_right-append [] (b'0' + n % 10) [] (ground arith) ∙ unfold trim_right in refl)
  | inr e ↦ rw e (
      trim_right-append (digits f (n / 10)) (b'0' + n % 10) [] (ground arith)
      ∙ unfold trim_right in refl)
]

pub decimal-IsTrimmed : (n : ℕ) → IsTrimmed (decimal n)
unfolding decimal
decimal-IsTrimmed n = (
  rw (append-nil (decimal n)) at (trim_left-append (decimal n) [] (decimal-starts n)),
  trim_right-digits (suc n) n,
)

atoi-digit :
    (c : ℕ) (s : Bytes) (n : ℕ)
    → is_digit c ≡ true
    → scan 0 (c ∷ s) ≡ some n
    → n < 9223372036854775808
    → atoi (c ∷ s) ≡ (pos n, true)
unfolding atoi
atoi-digit c s n d e h = unfold scan in ground arith

pub atoi-decimal : (n : ℕ) → n < 9223372036854775808 → atoi (decimal n) ≡ (pos n, true)
unfolding decimal
atoi-decimal n h =
    let (c, s, q, d) = digits_cases (suc n) n (omega arith) in
    let read = scan-digits (suc n) n [] (omega arith) (omega arith) ∙ scan_end n in
    rw q (atoi-digit c s n d (rw (append-nil (digits (suc n) n), q) at read) h)
