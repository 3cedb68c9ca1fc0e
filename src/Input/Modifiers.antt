-- ===== src/Input/Modifiers.antt =====
-- The modifiers that a key event carries to a server that is not Sunshine.
use moonparty.Base.{ℕ, ◌/◌, ◌≡◌, true, false, arith, ℤ, u8_of}
use moonparty.Input.Send.{fix_modifiers, has_bit}

-- With the code of a left modifier key its bit is set, with that of a right one it is not, and with
-- any code the upper four bits stay as they are.
pub fix_modifiers_bits :
    (key_code : ℤ) (m : ℕ)
    → (u8_of key_code ≡ 0xA0 → has_bit (fix_modifiers key_code m) 1 ≡ true)
      × (u8_of key_code ≡ 0xA1 → has_bit (fix_modifiers key_code m) 1 ≡ false)
      × (u8_of key_code ≡ 0xA2 → has_bit (fix_modifiers key_code m) 2 ≡ true)
      × (u8_of key_code ≡ 0xA3 → has_bit (fix_modifiers key_code m) 2 ≡ false)
      × (u8_of key_code ≡ 0xA4 → has_bit (fix_modifiers key_code m) 4 ≡ true)
      × (u8_of key_code ≡ 0xA5 → has_bit (fix_modifiers key_code m) 4 ≡ false)
      × (fix_modifiers key_code m / 16 ≡ m / 16)
unfolding fix_modifiers
fix_modifiers_bits key_code m = (
  λ e. ground arith,
  λ e. ground arith,
  λ e. ground arith,
  λ e. ground arith,
  λ e. ground arith,
  λ e. ground arith,
  ground arith,
)
