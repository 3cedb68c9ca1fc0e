-- ===== src/Base/Text.antt =====
-- Go's strings as lists of byte codes, with what `strings`, `strconv` and `bufio` do on them. The
-- texts are ASCII: of the spaces only those below 128 are trimmed, and only `A` to `Z` are folded.
use Prim.Native.Char.{code}
use Prim.Native.String.{String}
use Prim.Native.Nat.{ℕ, zero, suc, ◌+◌, ◌-◌, ◌*◌, ◌/◌, ◌%◌}
use mathlib.Core.Bool.{Bool, true, false, ◌&&◌, ◌||◌}
use mathlib.Core.Option.{Option, none, some}
use mathlib.Core.List.{List, [], ◌∷◌, ◌++◌, map}
use moonparty.Base.Tests.{ltb, leb, ◌==◌, if◌then◌else◌}
use moonparty.Base.Int.{ℤ, pos, negsuc}

abbrev pub Bytes : Type 0
Bytes = List ℕ

abbrev pub codes : String → Bytes
codes String.[] = []
codes (String.◌∷◌ c s) = code c ∷ codes s

abbrev pub crlf : Bytes
crlf = b'\r' ∷ b'\n' ∷ []

abbrev pub is_empty : Bytes → Bool
is_empty [] = true
is_empty (c ∷ s) = false

-- `a == b` of two strings.
unfoldable pub text_eq : Bytes → Bytes → Bool
text_eq [] [] = true
text_eq (x ∷ xs) (y ∷ ys) = x == y && text_eq xs ys
text_eq _ _ = false

abbrev pub lower : ℕ → ℕ
lower c = if leb b'A' c && leb c b'Z' then c + 32 else c

-- `strings.EqualFold`.
unfoldable pub equal_fold : Bytes → Bytes → Bool
unfolding text_eq
equal_fold a b = text_eq (map lower a) (map lower b)

abbrev pub is_space : ℕ → Bool
is_space c = c == 32 || (leb 9 c && leb c 13)

unfoldable pub trim_left : Bytes → Bytes
trim_left [] = []
trim_left (c ∷ s) = let rest = trim_left s in if is_space c then rest else c ∷ s

unfoldable pub trim_right : Bytes → Bytes
trim_right [] = []
trim_right (c ∷ s) = let rest = trim_right s in if is_space c && is_empty rest then [] else c ∷ rest

-- `strings.TrimSpace`.
unfoldable pub trim_space : Bytes → Bytes
unfolding trim_left trim_right
trim_space s = trim_left (trim_right s)

abbrev pub has : ℕ → Bytes → Bool
has c [] = false
has c (x ∷ s) = x == c || has c s

-- `strings.Index` of one byte, as the text before its first place and the text behind it.
unfoldable pub cut : ℕ → Bytes → Option (Bytes × Bytes)
cut c [] = none
cut c (x ∷ s) =
    let rest = cut c s in
    if x == c then some ([], s) else elim rest [ none ↦ none | some (a, b) ↦ some (x ∷ a, b) ]

abbrev onto_first : ℕ → List Bytes → List Bytes
onto_first x [] = (x ∷ []) ∷ []
onto_first x (p ∷ ps) = (x ∷ p) ∷ ps

-- `strings.Split` at one byte.
unfoldable pub split : ℕ → Bytes → List Bytes
split c [] = [] ∷ []
split c (x ∷ s) = let rest = split c s in if x == c then [] ∷ rest else onto_first x rest

-- `strings.HasPrefix` with `strings.TrimPrefix`: `none` where the prefix is not there.
unfoldable pub strip_prefix : Bytes → Bytes → Option Bytes
strip_prefix [] s = some s
strip_prefix (p ∷ ps) [] = none
strip_prefix (p ∷ ps) (x ∷ s) = let rest = strip_prefix ps s in if p == x then rest else none

abbrev pub is_digit : ℕ → Bool
is_digit c = leb b'0' c && leb c b'9'

-- The loop of `strconv.ParseUint`: `none` is a syntax error, and past 64 bits the value sticks at
-- the greatest one.
unfoldable pub scan : ℕ → Bytes → Option ℕ
scan n [] = some n
scan n (c ∷ s) =
    let next = n * 10 + (c - b'0') in
    let rest = scan next s in
    if is_digit c
    then (if ltb next 18446744073709551616 then rest else some 18446744073709551615)
    else none

-- `strconv.Atoi` for a sign and what follows it: the number, and whether there is no error.
unfoldable pub atoi_from : Bool → Bytes → ℤ × Bool
unfolding scan
atoi_from negative [] = (pos 0, false)
atoi_from negative (c ∷ s) = elim (scan 0 (c ∷ s)) [
  | none ↦ (pos 0, false)
  | some n ↦
      if negative
      then (if ltb 9223372036854775808 n
          then (negsuc 9223372036854775807, false)
          else ((if n == 0 then pos 0 else negsuc (n - 1)), true))
      else (if ltb n 9223372036854775808 then (pos n, true) else (pos 9223372036854775807, false))
]

unfoldable pub atoi : Bytes → ℤ × Bool
unfolding atoi_from
atoi [] = (pos 0, false)
atoi (c ∷ s) =
    if c == b'-'
    then atoi_from true s
    else if c == b'+'
    then atoi_from false s
    else atoi_from false (c ∷ s)

-- A number of `%d`. The fuel is more than the number, so there is enough of it.
unfoldable pub digits : ℕ → ℕ → Bytes
digits zero n = []
digits (suc f) n =
    let front = digits f (n / 10) in
    let last = b'0' + n % 10 in if ltb n 10 then last ∷ [] else front ++ last ∷ []

unfoldable pub decimal : ℕ → Bytes
decimal n = digits (suc n) n

unfoldable pub itoa : ℤ → Bytes
unfolding decimal
itoa (pos n) = decimal n
itoa (negsuc n) = b'-' ∷ decimal (n + 1)
