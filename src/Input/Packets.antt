-- ===== src/Input/Packets.antt =====
-- moonlight-common-go/input/input.go: the packets, with the sizes, magic numbers and byte orders of
-- moonlight-common-go/protocol/packets.go.
use moonparty.Base.{
  ℕ, ◌+◌, ◌/◌, Bool, List, [], ◌∷◌, ◌++◌, if◌then◌else◌, length, replicate, ℤ, pos, ltb_ℤ, ◌-ℤ◌,
  i16, u8_of, u16_of,
}
use moonparty.Base.Bytes.{u16, u32, le16, be16, le32, be32}
use moonparty.Input.{Stream}

-- `s.appVersion[0] >= 5`.
abbrev pub is_gen5 : Stream → Bool
is_gen5 s = ltb_ℤ (pos 4) s.app_version.major

unfoldable pub build_rel_mouse_move_packet : Stream → ℤ → ℤ → List ℕ
build_rel_mouse_move_packet s delta_x delta_y =
    be32 8
    ++ le32 (if is_gen5 s then 0x07 else 0x06)
    ++ be16 (u16_of delta_x)
    ++ be16 (u16_of delta_y)

-- The subtraction is of `int16`.
unfoldable pub build_abs_mouse_move_packet : ℤ → ℤ → ℤ → ℤ → List ℕ
build_abs_mouse_move_packet x y width height =
    be32 14
    ++ le32 0x05
    ++ be16 (u16_of x)
    ++ be16 (u16_of y)
    ++ be16 0
    ++ be16 (u16_of (i16 (width -ℤ pos 1)))
    ++ be16 (u16_of (i16 (height -ℤ pos 1)))

unfoldable pub build_mouse_button_packet : Stream → ℕ → ℤ → List ℕ
build_mouse_button_packet s action button =
    be32 5 ++ le32 (if is_gen5 s then action + 1 else action) ++ u8_of button ∷ []

unfoldable pub build_keyboard_packet : Stream → ℤ → ℕ → ℕ → ℕ → List ℕ
build_keyboard_packet s key_code action modifiers flags =
    be32 10
    ++ le32 action
    ++ (if s.is_sunshine then flags else 0) ∷ []
    ++ le16 (u16_of key_code)
    ++ modifiers ∷ 0 ∷ 0 ∷ []

unfoldable pub build_scroll_packet : Stream → ℤ → List ℕ
build_scroll_packet s amount =
    be32 10
    ++ le32 (if is_gen5 s then 0x0A else 0x09)
    ++ be16 (u16_of amount)
    ++ be16 (u16_of amount)
    ++ be16 0

unfoldable pub build_h_scroll_packet : ℤ → List ℕ
build_h_scroll_packet amount = be32 6 ++ le32 0x57 ++ be16 (u16_of amount)

-- The triggers and the sticks of a controller.
pub record Axes : Type 0 where
  pub left_trigger : ℕ
  pub right_trigger : ℕ
  pub left_stick_x : ℤ
  pub left_stick_y : ℤ
  pub right_stick_x : ℤ
  pub right_stick_y : ℤ

-- The button flags are not negative here: see the caller. The size is that of the whole packet.
unfoldable pub build_multi_controller_packet : Stream → ℤ → ℤ → ℕ → Axes → List ℕ
build_multi_controller_packet s controller_number active_gamepad_mask button_flags axes =
    be32 (if s.is_sunshine then 30 else 26)
    ++ le32 (if is_gen5 s then 0x1e else 0x0e)
    ++ le16 0x001c
    ++ le16 (u16_of controller_number)
    ++ le16 (u16_of active_gamepad_mask)
    ++ le16 0x0014
    ++ le16 (u16 button_flags)
    ++ axes.left_trigger ∷ axes.right_trigger ∷ []
    ++ le16 (u16_of axes.left_stick_x)
    ++ le16 (u16_of axes.left_stick_y)
    ++ le16 (u16_of axes.right_stick_x)
    ++ le16 (u16_of axes.right_stick_y)
    ++ le16 0x0000
    ++ (if s.is_sunshine then le16 (u16 (button_flags / 65536)) ++ le16 0x0014 else [])

unfoldable pub build_controller_arrival_packet : ℕ → ℕ → ℕ → ℕ → List ℕ
build_controller_arrival_packet controller_number controller_type capabilities supported_buttons =
    be32 12
    ++ le32 0x5a
    ++ controller_number ∷ controller_type ∷ []
    ++ le16 capabilities
    ++ le32 supported_buttons

-- The position, pressure and contact area of a touch or a pen, as the bits of floats.
pub record Contact : Type 0 where
  pub x : ℕ
  pub y : ℕ
  pub pressure : ℕ
  pub contact_major : ℕ
  pub contact_minor : ℕ

unfoldable pub build_touch_packet : ℕ → ℕ → Contact → ℕ → List ℕ
build_touch_packet event_type pointer_id contact rotation =
    be32 36
    ++ le32 0x58
    ++ event_type ∷ replicate 3 0
    ++ le32 pointer_id
    ++ le32 contact.x
    ++ le32 contact.y
    ++ le32 contact.pressure
    ++ le32 contact.contact_major
    ++ le32 contact.contact_minor
    ++ le16 rotation
    ++ replicate 2 0

unfoldable pub build_pen_packet : ℕ → ℕ → ℕ → Contact → ℕ → ℕ → List ℕ
build_pen_packet event_type tool_type pen_buttons contact rotation tilt =
    be32 40
    ++ le32 0x59
    ++ event_type ∷ tool_type ∷ pen_buttons ∷ 0 ∷ []
    ++ le32 contact.x
    ++ le32 contact.y
    ++ le32 contact.pressure
    ++ le16 rotation
    ++ tilt ∷ 0 ∷ []
    ++ le32 contact.contact_major
    ++ le32 contact.contact_minor
    ++ replicate 8 0

unfoldable pub build_controller_motion_packet : ℕ → ℕ → ℕ → ℕ → ℕ → List ℕ
build_controller_motion_packet controller_number motion_type x y z =
    be32 20
    ++ le32 0x5c
    ++ controller_number ∷ motion_type ∷ replicate 2 0
    ++ le32 x
    ++ le32 y
    ++ le32 z

unfoldable pub build_controller_battery_packet : ℕ → ℕ → ℕ → List ℕ
build_controller_battery_packet controller_number battery_state percentage =
    be32 8 ++ le32 0x5d ++ controller_number ∷ battery_state ∷ percentage ∷ 0 ∷ []

-- The text is its bytes.
unfoldable pub build_utf8_text_packet : List ℕ → List ℕ
build_utf8_text_packet text = be32 (u32 (4 + length text)) ++ le32 0x56 ++ text
