-- ===== src/Base/Bits.antt =====
-- The laws of `bit_xor`, Go's `^` on unsigned words, from its digits.
use Prim.Native.Nat.{
  ℕ, zero, suc, ◌+◌, ◌*◌, ◌/◌, ◌%◌, ◌≤◌, ◌<◌, bit_xor, digits, differ, bit_xor-bitwise,
}
use mathlib.Core.Path.{◌≡◌, refl}
use mathlib.Core.Bool.{Bool, true, ◌&&◌}
use native.Mathlib.Omega.{arith}
use moonparty.Base.Tests.{◌==◌, ==→eq}

-- Whether a test passes at each number below a bound.
unfoldable pub all_below : ℕ → (ℕ → Bool) → Bool
all_below zero test = true
all_below (suc bound) test = let below = all_below bound test in test bound && below

pub all_below_sound :
    (bound : ℕ) (test : ℕ → Bool) (i : ℕ) → all_below bound test ≡ true → i < bound → test i ≡ true
unfolding all_below
all_below_sound (suc bound) test i passed l = ground (arith, all_below_sound bound test i)
all_below_sound zero test i passed l = absurd (omega arith)

pub all_below_eq :
    (n : ℕ) (f g : ℕ → ℕ) (x : ℕ) → all_below n (λ y. f y == g y) ≡ true → x < n → f x ≡ g x
all_below_eq n f g x h lt = ==→eq _ _ (all_below_sound n (λ y. f y == g y) x h lt)

-- The digits of the sum without carries, with a bound on their number.
abbrev sum_digits : ℕ → ℕ → ℕ → ℕ
sum_digits bound x y = digits (λ d. d) differ bound x y

-- Two bounds that are large enough give one number.
sum_digits_agree : (x y k l : ℕ) → x ≤ k → x ≤ l → sum_digits k x y ≡ sum_digits l x y
sum_digits_agree (suc x) y (suc k) (suc l) low low' =
    let half = sum_digits_agree (suc x / 2) (y / 2) k l (omega arith) (omega arith) in omega arith
sum_digits_agree (suc x) y k zero low low' = absurd (omega arith)
sum_digits_agree (suc x) y zero l low low' = absurd (omega arith)
sum_digits_agree zero y (suc k) (suc l) low low' = refl
sum_digits_agree zero y (suc k) zero low low' = refl
sum_digits_agree zero y zero (suc l) low low' = refl
sum_digits_agree zero y zero zero low low' = refl

differ_digits : (a b : ℕ) → a < 2 → b < 2 → differ a b ≡ (a + b) % 2
differ_digits zero b p q = omega arith
differ_digits (suc zero) zero p q = refl
differ_digits (suc zero) (suc zero) p q = refl
differ_digits (suc zero) (suc (suc b)) p q = absurd (omega arith)
differ_digits (suc (suc a)) b p q = absurd (omega arith)

pub zero-bit_xor : (b : ℕ) → bit_xor 0 b ≡ b
zero-bit_xor b = bit_xor-bitwise 0 b

pub bit_xor_step : (a b : ℕ) → bit_xor a b ≡ bit_xor (a / 2) (b / 2) * 2 + (a + b) % 2
bit_xor_step zero b = omega (arith, zero-bit_xor b, zero-bit_xor (b / 2))
bit_xor_step (suc a) b = omega (
  arith,
  bit_xor-bitwise (suc a) b,
  bit_xor-bitwise (suc a / 2) (b / 2),
  sum_digits_agree (suc a / 2) (b / 2) a (suc a / 2) (omega arith) (omega arith),
  differ_digits (suc a % 2) (b % 2) (omega arith) (omega arith),
)

pub bit_xor_half : (a b : ℕ) → bit_xor a b / 2 ≡ bit_xor (a / 2) (b / 2)
bit_xor_half a b = omega (arith, bit_xor_step a b)

pub bit_xor_parity : (a b : ℕ) → bit_xor a b % 2 ≡ (a + b) % 2
bit_xor_parity a b = omega (arith, bit_xor_step a b)

bit_xor-comm_fuel : (n a b : ℕ) → a ≤ n → b ≤ n → bit_xor a b ≡ bit_xor b a
bit_xor-comm_fuel zero zero zero p q = refl
bit_xor-comm_fuel zero zero (suc b) p q = absurd (omega arith)
bit_xor-comm_fuel zero (suc a) b p q = absurd (omega arith)
bit_xor-comm_fuel (suc n) a b p q = omega (
  arith,
  bit_xor_step a b,
  bit_xor_step b a,
  bit_xor-comm_fuel n (a / 2) (b / 2) (omega arith) (omega arith),
)

pub bit_xor_comm : (a b : ℕ) → bit_xor a b ≡ bit_xor b a
bit_xor_comm a b = bit_xor-comm_fuel (a + b) a b (omega arith) (omega arith)

bit_xor-assoc_fuel :
    (n a b c : ℕ) → a ≤ n → b ≤ n → c ≤ n → bit_xor (bit_xor a b) c ≡ bit_xor a (bit_xor b c)
bit_xor-assoc_fuel zero zero zero zero p q r = refl
bit_xor-assoc_fuel zero zero zero (suc c) p q r = absurd (omega arith)
bit_xor-assoc_fuel zero zero (suc b) c p q r = absurd (omega arith)
bit_xor-assoc_fuel zero (suc a) b c p q r = absurd (omega arith)
bit_xor-assoc_fuel (suc n) a b c p q r =
    rw
      (
        bit_xor_step (bit_xor a b) c,
        bit_xor_step a (bit_xor b c),
        bit_xor_half a b,
        bit_xor_half b c,
      )
      (omega (
        arith,
        bit_xor-assoc_fuel n (a / 2) (b / 2) (c / 2) (omega arith) (omega arith) (omega arith),
        bit_xor_parity a b,
        bit_xor_parity b c,
      ))

pub bit_xor_assoc : (a b c : ℕ) → bit_xor (bit_xor a b) c ≡ bit_xor a (bit_xor b c)
bit_xor_assoc a b c = bit_xor-assoc_fuel (a + b + c) a b c (omega arith) (omega arith) (omega arith)

bit_xor-self_fuel : (n a : ℕ) → a ≤ n → bit_xor a a ≡ 0
bit_xor-self_fuel zero zero p = refl
bit_xor-self_fuel zero (suc a) p = absurd (omega arith)
bit_xor-self_fuel (suc n) a p =
    omega (arith, bit_xor_step a a, bit_xor-self_fuel n (a / 2) (omega arith))

pub bit_xor_self : (a : ℕ) → bit_xor a a ≡ 0
bit_xor_self a = bit_xor-self_fuel a a (omega arith)

abbrev double_times : ℕ → ℕ
double_times zero = 1
double_times (suc k) = double_times k + double_times k

bit_xor-lt_double :
    (k a b : ℕ) → a < double_times k → b < double_times k → bit_xor a b < double_times k
bit_xor-lt_double zero zero zero p q = omega arith
bit_xor-lt_double zero zero (suc b) p q = absurd (omega arith)
bit_xor-lt_double zero (suc a) b p q = absurd (omega arith)
bit_xor-lt_double (suc k) a b p q =
    omega (arith, bit_xor_step a b, bit_xor-lt_double k (a / 2) (b / 2) (omega arith) (omega arith))

pub bit_xor-lt : (a b : ℕ) → a < 256 → b < 256 → bit_xor a b < 256
bit_xor-lt a b = bit_xor-lt_double 8 a b
