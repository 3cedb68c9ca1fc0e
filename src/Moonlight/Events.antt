-- ===== src/Moonlight/Events.antt =====
-- What a packet of a session's queue asks for, apart from how it is sent.
use moonparty.Base.Bytes.{le16_at}
use moonparty.Base.{
  ℕ, ◌^◌, Bool, List, [], length, get_or, ltb, if◌then◌else◌, ℤ, pos, negsuc, i16, u8_of, ◌≡◌, refl,
  Bool-cases, inl, inr,
}
use moonparty.Input.Packets.{Axes}
use moonparty.Moonlight.Play.{
  int16_at, int8_of, axes_at, send_gamepad_to, send_gamepad_input, send_keyboard_input,
  send_mouse_input, send_mouse_relative_input, send_by_type, send_input,
}
use moonparty.Input.{Stream}
use moonparty.Limelight.Api
use moonparty.Limelight.Api.{Reply}
use moonparty.Limelight.{Client}
use moonparty.Moonlight.{
  Adapter, Handling, handled, panicked, on_client, send_mouse_move_event, send_mouse_button_event,
  send_keyboard_event, send_multi_controller_event,
}
use moonparty.Session.{InputPacket, InputType, keyboard, mouse, mouse_relative, gamepad, touch}

pub data Request : Type 0 where
  controller : ℕ → ℕ → Axes → Request
  key : ℤ → ℕ → ℕ → Request
  button : ℕ → ℕ → Request
  move : ℤ → ℤ → Request

pub data Event : Type 0 where
  ignored bad_slot : Event
  asks : Request → Event

unfoldable pub pad_event : List ℕ → ℤ → Event
pad_event d (pos i) = asks (controller i (le16_at d 0) (axes_at d))
pad_event d (negsuc n) = bad_slot

unfoldable pub read_event : InputType → List ℕ → ℤ → Event
read_event gamepad d slot = if ltb (length d) 14 then ignored else pad_event d slot
read_event keyboard d slot =
    if ltb (length d) 3 then ignored else asks (key (int16_at d 0) (get_or d 2 0) (get_or d 3 0))
read_event mouse d slot =
    if ltb (length d) 2 then ignored else asks (button (get_or d 0 0) (get_or d 1 0))
read_event mouse_relative d slot =
    if ltb (length d) 4 then ignored else asks (move (int16_at d 0) (int16_at d 2))
read_event touch d slot = ignored

unfoldable pub event_of : InputPacket → Event
unfolding read_event pad_event
event_of x = read_event x.type x.payload x.player_slot

-- The call of the client that a request makes.
unfoldable pub call_of : Bool → Request → Client → Stream → Reply
unfolding Api.send_multi_controller Api.send_keyboard Api.send_mouse_button Api.send_mouse_move
call_of succeeds (controller i buttons axes) c s =
    Api.send_multi_controller c s succeeds (i16 (pos i)) (i16 (pos (2 ^ i))) (pos buttons) axes
call_of succeeds (key code action modifiers) c s =
    Api.send_keyboard c s succeeds code (u8_of (int8_of action)) (u8_of (int8_of modifiers))
call_of succeeds (button action number) c s =
    Api.send_mouse_button c s succeeds (u8_of (int8_of action)) (pos number)
call_of succeeds (move x y) c s = Api.send_mouse_move c s succeeds x y

unfoldable pub perform : Adapter → Bool → Event → Handling
unfolding call_of
perform a succeeds ignored = handled a []
perform a succeeds bad_slot = panicked
perform a succeeds (asks r) = on_client a (call_of succeeds r)

send_gamepad_to-perform :
    (a : Adapter) (succeeds : Bool) (d : List ℕ) (slot : ℤ)
    → send_gamepad_to a succeeds d slot ≡ perform a succeeds (pad_event d slot)
unfolding send_gamepad_to send_multi_controller_event perform pad_event
send_gamepad_to-perform a succeeds d (pos i) = refl
send_gamepad_to-perform a succeeds d (negsuc n) = refl

send_by_type-perform :
    (a : Adapter) (succeeds : Bool) (x : InputPacket) (t : InputType)
    → send_by_type a succeeds x t ≡ perform a succeeds (read_event t x.payload x.player_slot)
unfolding send_by_type send_gamepad_input send_keyboard_input send_mouse_input
    send_mouse_relative_input send_keyboard_event send_mouse_button_event send_mouse_move_event
    perform read_event
send_by_type-perform a succeeds x gamepad = elim (Bool-cases (ltb (length x.payload) 14)) [
  | inl e ↦ rw e refl
  | inr e ↦ rw e (send_gamepad_to-perform a succeeds x.payload x.player_slot)
]
send_by_type-perform a succeeds x keyboard = elim (Bool-cases (ltb (length x.payload) 3)) [
  | inl e ↦ rw e refl
  | inr e ↦ rw e refl
]
send_by_type-perform a succeeds x mouse = elim (Bool-cases (ltb (length x.payload) 2)) [
  | inl e ↦ rw e refl
  | inr e ↦ rw e refl
]
send_by_type-perform a succeeds x mouse_relative = elim (Bool-cases (ltb (length x.payload) 4)) [
  | inl e ↦ rw e refl
  | inr e ↦ rw e refl
]
send_by_type-perform a succeeds x touch = refl

pub send_input-perform :
    (a : Adapter) (succeeds : Bool) (x : InputPacket)
    → send_input a succeeds x ≡ perform a succeeds (event_of x)
unfolding send_input event_of
send_input-perform a succeeds x = send_by_type-perform a succeeds x x.type
