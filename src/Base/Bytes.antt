-- ===== src/Base/Bytes.antt =====
-- Bytes as numbers below 256, and the fixed-width integers of `encoding/binary`.
use Prim.Native.Nat.{ℕ, ◌+◌, ◌-◌, ◌*◌, ◌/◌, ◌%◌}
use mathlib.Core.List.{List, [], ◌∷◌}
use mathlib.Core.Option.{Option, none, some}
use moonparty.Base.Tests.{leb, if◌then◌else◌}
use moonparty.Base.Lists.{length, get_or, take, drop}

abbrev pub u8 : ℕ → ℕ
u8 n = n % 256

abbrev pub u16 : ℕ → ℕ
u16 n = n % 65536

abbrev pub u32 : ℕ → ℕ
u32 n = n % 4294967296

-- `PutUint16` and `PutUint32`, as the bytes that they write.
abbrev pub le16 : ℕ → List ℕ
le16 n = u8 n ∷ u8 (n / 256) ∷ []

abbrev pub be16 : ℕ → List ℕ
be16 n = u8 (n / 256) ∷ u8 n ∷ []

abbrev pub le32 : ℕ → List ℕ
le32 n = u8 n ∷ u8 (n / 256) ∷ u8 (n / 65536) ∷ u8 (n / 16777216) ∷ []

abbrev pub be32 : ℕ → List ℕ
be32 n = u8 (n / 16777216) ∷ u8 (n / 65536) ∷ u8 (n / 256) ∷ u8 n ∷ []

-- `Uint16` and `Uint32` at an offset. Callers have checked the length: see `slice` where not.
abbrev pub le16_at : List ℕ → ℕ → ℕ
le16_at d i = get_or d i 0 + 256 * get_or d (i + 1) 0

abbrev pub be16_at : List ℕ → ℕ → ℕ
be16_at d i = 256 * get_or d i 0 + get_or d (i + 1) 0

abbrev pub le32_at : List ℕ → ℕ → ℕ
le32_at d i =
    get_or d i 0
    + 256 * get_or d (i + 1) 0
    + 65536 * get_or d (i + 2) 0
    + 16777216 * get_or d (i + 3) 0

abbrev pub be32_at : List ℕ → ℕ → ℕ
be32_at d i =
    16777216 * get_or d i 0
    + 65536 * get_or d (i + 1) 0
    + 256 * get_or d (i + 2) 0
    + get_or d (i + 3) 0

-- `d[low:high]`; `none` is the panic of bounds out of range.
unfoldable pub slice : List ℕ → ℕ → ℕ → Option (List ℕ)
slice d low high =
    if leb high (length d)
    then if leb low high then some (take (high - low) (drop low d)) else none
    else none
