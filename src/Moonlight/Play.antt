-- ===== src/Moonlight/Play.antt =====
-- internal/moonlight/stream.go: how a packet of a session's queue becomes an event.
use moonparty.Base.Bytes.{le16_at}
use moonparty.Base.{
  ℕ, ◌-◌, ◌^◌, Bool, List, [], length, get_or, ltb, if◌then◌else◌, ℤ, pos, negsuc, i16,
}
use moonparty.Input.Packets.{Axes}
use moonparty.Moonlight.{
  Adapter, Handling, handled, panicked, send_mouse_move_event, send_mouse_button_event,
  send_keyboard_event, send_multi_controller_event,
}
use moonparty.Session.{InputPacket, InputType, keyboard, mouse, mouse_relative, gamepad, touch}

-- `int16(d[i]) | int16(d[i+1])<<8`, and `int8(d[i])`.
abbrev pub int16_at : List ℕ → ℕ → ℤ
int16_at d i = i16 (pos (le16_at d i))

abbrev pub int8_of : ℕ → ℤ
int8_of n = if ltb n 128 then pos n else negsuc (255 - n)

abbrev pub axes_at : List ℕ → Axes
axes_at d = record {
  left_trigger = get_or d 2 0;
  right_trigger = get_or d 3 0;
  left_stick_x = int16_at d 4;
  left_stick_y = int16_at d 6;
  right_stick_x = int16_at d 8;
  right_stick_y = int16_at d 10;
}

-- A shift by a negative count panics.
unfoldable pub send_gamepad_to : Adapter → Bool → List ℕ → ℤ → Handling
unfolding send_multi_controller_event
send_gamepad_to a succeeds d (pos i) =
    send_multi_controller_event a succeeds (i16 (pos i)) (i16 (pos (2 ^ i))) (pos (le16_at d 0))
      (axes_at d)
send_gamepad_to a succeeds d (negsuc n) = panicked

unfoldable pub send_gamepad_input : Adapter → Bool → InputPacket → Handling
unfolding send_gamepad_to
send_gamepad_input a succeeds packet =
    if ltb (length packet.payload) 14
    then handled a []
    else send_gamepad_to a succeeds packet.payload packet.player_slot

-- With no fourth byte, `get_or` gives the 0 of the source.
unfoldable pub send_keyboard_input : Adapter → Bool → List ℕ → Handling
unfolding send_keyboard_event
send_keyboard_input a succeeds d =
    if ltb (length d) 3
    then handled a []
    else send_keyboard_event a succeeds (int16_at d 0) (int8_of (get_or d 2 0))
        (int8_of (get_or d 3 0))

unfoldable pub send_mouse_input : Adapter → Bool → List ℕ → Handling
unfolding send_mouse_button_event
send_mouse_input a succeeds d =
    if ltb (length d) 2
    then handled a []
    else send_mouse_button_event a succeeds (int8_of (get_or d 0 0)) (pos (get_or d 1 0))

unfoldable pub send_mouse_relative_input : Adapter → Bool → List ℕ → Handling
unfolding send_mouse_move_event
send_mouse_relative_input a succeeds d =
    if ltb (length d) 4
    then handled a []
    else send_mouse_move_event a succeeds (int16_at d 0) (int16_at d 2)

unfoldable pub send_by_type : Adapter → Bool → InputPacket → InputType → Handling
unfolding send_gamepad_input send_keyboard_input send_mouse_input send_mouse_relative_input
send_by_type a succeeds packet gamepad = send_gamepad_input a succeeds packet
send_by_type a succeeds packet keyboard = send_keyboard_input a succeeds packet.payload
send_by_type a succeeds packet mouse = send_mouse_input a succeeds packet.payload
send_by_type a succeeds packet mouse_relative = send_mouse_relative_input a succeeds packet.payload
send_by_type a succeeds packet touch = handled a []

unfoldable pub send_input : Adapter → Bool → InputPacket → Handling
unfolding send_by_type
send_input a succeeds packet = send_by_type a succeeds packet packet.type
