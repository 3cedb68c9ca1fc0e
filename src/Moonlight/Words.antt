-- ===== src/Moonlight/Words.antt =====
-- The state of a gamepad as internal/moonlight/stream.go sends it, and its 16-bit words.
use moonparty.Base.{
  ℕ, ◌+◌, ◌*◌, ◌/◌, ◌%◌, ◌≤◌, ◌<◌, ◌≡◌, arith, ℤ, pos, pos_part, neg_part, i16, u16_of,
}
use moonparty.Input.Packets.{Axes}

pub record Gamepad : Type 0 where
  pub buttons : ℕ
  pub axes : Axes

abbrev pub IsInt16 : ℤ → Type 0
IsInt16 a = (pos_part a ≤ 32767) × (neg_part a ≤ 32768)

pub record IsGamepad (g : Gamepad) : Type 0 where
  pub buttons : g.buttons < 65536
  pub left_stick_x : IsInt16 g.axes.left_stick_x
  pub left_stick_y : IsInt16 g.axes.left_stick_y
  pub right_stick_x : IsInt16 g.axes.right_stick_x
  pub right_stick_y : IsInt16 g.axes.right_stick_y

pub word : (n : ℕ) → n < 65536 → n % 256 + 256 * (n / 256 % 256) ≡ n
word n h = omega arith

i16-u16_of : (a : ℤ) → IsInt16 a → i16 (pos (u16_of a)) ≡ a
i16-u16_of a h = ground arith

u16_of-lt : (a : ℤ) → u16_of a < 65536
u16_of-lt a = ground arith

pub stick : (a : ℤ) → IsInt16 a → i16 (pos (u16_of a % 256 + 256 * (u16_of a / 256 % 256))) ≡ a
stick a h = rw (word (u16_of a) (u16_of-lt a)) (i16-u16_of a h)
