-- ===== src/Limelight/Api.antt =====
-- moonlight-common-go/limelight/client.go: the methods by which a caller sends input. The stream is
-- the one that `inputStream` points to while `has_input` holds.
use moonparty.Base.{ℕ, Bool, if◌then◌else◌, List, ℤ}
use moonparty.Input.Devices
use moonparty.Input.Packets.{Axes}
use moonparty.Input.Send
use moonparty.Input.{Stream, Outcome, new_stream}
use moonparty.Limelight.{Client}

-- The error of a client without an input stream, or what the stream does.
pub data Reply : Type 0 where
  not_connected : Reply
  called : Outcome → Reply

-- The stream that `initInputStream` makes.
abbrev pub input_stream : Client → Stream
input_stream c = new_stream c.app_version c.is_sunshine

abbrev pub on_input : Client → Outcome → Reply
on_input c result = if c.has_input then called result else not_connected

unfoldable pub send_mouse_move : Client → Stream → Bool → ℤ → ℤ → Reply
unfolding Send.send_mouse_move
send_mouse_move c s succeeds delta_x delta_y =
    on_input c (Send.send_mouse_move s succeeds delta_x delta_y)

unfoldable pub send_mouse_position : Client → Stream → Send.Float32 → Bool → ℤ → ℤ → ℤ → ℤ → Reply
unfolding Send.send_mouse_position
send_mouse_position c s f succeeds x y ref_width ref_height =
    on_input c (Send.send_mouse_position s f succeeds x y ref_width ref_height)

unfoldable pub send_mouse_button : Client → Stream → Bool → ℕ → ℤ → Reply
unfolding Send.send_mouse_button
send_mouse_button c s succeeds action button =
    on_input c (Send.send_mouse_button s succeeds action button)

-- The flags are 0.
unfoldable pub send_keyboard : Client → Stream → Bool → ℤ → ℕ → ℕ → Reply
unfolding Send.send_keyboard
send_keyboard c s succeeds key_code key_action modifiers =
    on_input c (Send.send_keyboard s succeeds key_code key_action modifiers 0)

unfoldable pub send_scroll : Client → Stream → (ℕ → Bool) → ℤ → Reply
unfolding Send.send_scroll
send_scroll c s succeeds amount = on_input c (Send.send_scroll s succeeds amount)

unfoldable pub send_controller : Client → Stream → Bool → ℤ → Axes → Reply
unfolding Devices.send_controller
send_controller c s succeeds button_flags axes =
    on_input c (Devices.send_controller s succeeds button_flags axes)

unfoldable pub send_multi_controller : Client → Stream → Bool → ℤ → ℤ → ℤ → Axes → Reply
unfolding Devices.send_multi_controller
send_multi_controller c s succeeds controller_number active_gamepad_mask button_flags axes =
    on_input c (
      Devices.send_multi_controller s succeeds controller_number active_gamepad_mask button_flags
        axes)

unfoldable pub send_utf8_text : Client → Stream → Bool → List ℕ → Reply
unfolding Devices.send_utf8_text
send_utf8_text c s succeeds text = on_input c (Devices.send_utf8_text s succeeds text)
