-- ===== src/Crypto/Padding.antt =====
-- Padding and unpadding of whole blocks.
use moonparty.Base.{
  ℕ, zero, suc, ◌+◌, ◌-◌, ◌%◌, ◌<◌, ◌≤◌, ◌≡◌, refl, true, List, [], ◌∷◌, ◌++◌, arith, length,
  get_or, replicate, length-append, length-replicate, take-append_self, drop-append_self,
}
use moonparty.Base.Bytes.{u8}
use moonparty.Crypto.{pad, unpad, all_equal}

all_equal-replicate : (x n : ℕ) → all_equal x (replicate n x) ≡ true
unfolding all_equal
all_equal-replicate x zero = refl
all_equal-replicate x (suc n) = ground (arith, all_equal-replicate x n)

get_or-append_replicate :
    (xs : List ℕ) (n x i : ℕ)
    → length xs ≤ i
    → i < length xs + n
    → get_or (xs ++ replicate n x) i 0 ≡ x
get_or-append_replicate [] zero x i low high = absurd (omega arith)
get_or-append_replicate [] (suc n) x zero low high = refl
get_or-append_replicate [] (suc n) x (suc i) low high =
    get_or-append_replicate [] n x i (omega arith) (omega arith)
get_or-append_replicate (y ∷ ys) n x zero low high = absurd (omega arith)
get_or-append_replicate (y ∷ ys) n x (suc i) low high =
    get_or-append_replicate ys n x i (omega arith) (omega arith)

pub remainder_lt : (n b : ℕ) → 0 < b → n % b < b
remainder_lt n b h = grind arith

pub length-pad : (b : ℕ) (p : List ℕ) → 0 < b → length (pad b p) ≡ length p + (b - length p % b)
unfolding pad
length-pad b p h = ground (
  arith,
  length-append p (replicate (b - length p % b) (u8 (b - length p % b))),
  length-replicate (b - length p % b) (u8 (b - length p % b)),
)

round_up : (n b : ℕ) → 0 < b → (n + (b - n % b)) % b ≡ 0
round_up n b h = grind arith

-- The checks of `unpad` on a text that ends in `k` bytes `k`.
unpad-replicate :
    (b k : ℕ) (p : List ℕ) → 0 < k → k ≤ b → b < 256 → unpad b (p ++ replicate k k) ≡ p
unfolding unpad
unpad-replicate b k p low high fits = ground (
  arith,
  length-append p (replicate k k),
  length-replicate k k,
  get_or-append_replicate p k k (length (p ++ replicate k k) - 1)
      (omega (arith, length-append p (replicate k k), length-replicate k k))
      (omega (arith, length-append p (replicate k k), length-replicate k k)),
  drop-append_self p (replicate k k),
  take-append_self p (replicate k k),
  all_equal-replicate k k,
)

pub unpad-pad : (b : ℕ) (p : List ℕ) → 0 < b → b < 256 → unpad b (pad b p) ≡ p
unfolding pad
unpad-pad b p h fits =
    let k = b - length p % b in
    rw (small k (omega arith))
      (unpad-replicate b k p (omega (arith, remainder_lt (length p) b h)) (omega arith) fits)
  where
    small : (k : ℕ) → k < 256 → u8 k ≡ k
    small k lt = omega arith

pub length-pad_whole : (b : ℕ) (p : List ℕ) → 0 < b → length (pad b p) % b ≡ 0
length-pad_whole b p h = rw (length-pad b p h) (round_up (length p) b h)
