-- ===== src/Moonlight.antt =====
-- internal/moonlight/limelight/limelight.go: the one connection to the streaming server that the
-- process has, and the calls that it passes on. The callbacks are in Moonlight/Frames, and what a
-- session's queue sends is in Moonlight/Play.
pub mod Life
pub mod Play
pub mod Events
pub mod Players
pub mod Frames
pub mod Forwarding
pub mod Format
pub mod Words
pub mod Wire
use moonparty.Base.Result.{ok, err}
use moonparty.Base.Text.{Bytes}
use moonparty.Base.{ℕ, Bool, true, false, Option, none, some, List, [], ◌∷◌, ◌++◌, ℤ, u8_of}
use moonparty.Input.Packets.{Axes}
use moonparty.Input.{Stream, Packet, returned, blocked}
use moonparty.Limelight.Api
use moonparty.Limelight.Api.{Reply, not_connected, called, input_stream}
use moonparty.Limelight.Start.{start, stop}
use moonparty.Limelight.{Client, Config, System, Try, Failure, panics, new_client}

-- `input` is the input stream of the active client, and `retired` lists the clients to which
-- `activeClient` has pointed before, as they were left. `live` is whether `clientCancel` is set and
-- has not been called.
pub record Adapter : Type 0 where
  pub active_client : Option Client
  pub input : Stream
  pub live : Bool
  pub retired : List Client

-- The parts of `ServerInfo` and `StreamConfig` that the client reads itself.
pub record Target : Type 0 where
  pub address : Bytes
  pub app_version : Bytes
  pub config : Config

abbrev retire : Adapter → Client → Adapter
retire a c = record a { active_client = none; retired = a.retired ++ c ∷ [] }

unfoldable pub stop_active : System → Adapter → Adapter
unfolding stop
stop_active sys a = elim a.active_client [ none ↦ a | some c ↦ retire a (stop sys c) ]

-- After `activeClient.Start`. A panic leaves the client where it is.
unfoldable pub settle : Adapter → Client × Try Unit → Adapter × Try Unit
settle a (c, ok u) =
    (record a { active_client = some c; input = input_stream c; live = true }, ok u)
settle a (c, err panics) =
    (record a { active_client = some c; input = input_stream c; live = true }, err panics)
settle a (c, err e) = (record (retire a c) { live = false }, err e)

unfoldable pub start_connection : System → Target → Adapter → Adapter × Try Unit
unfolding stop_active settle start
start_connection sys t a =
    settle (stop_active sys a) (start sys (new_client t.config t.address t.app_version))

unfoldable pub stop_connection : System → Adapter → Adapter
unfolding stop_active
stop_connection sys a = stop_active sys (record a { live = false })

-- How a call ends that a caller makes without looking at its error: the packets that it has handed
-- to the control stream, and whether it comes back, hangs or panics.
pub data Handling : Type 0 where
  handled : Adapter → List Packet → Handling
  hangs : List Packet → Handling
  panicked : Handling

abbrev pub settled : Adapter → Reply → Handling
settled a not_connected = handled a []
settled a (called (returned s sent error)) = handled (record a { input = s }) sent
settled a (called (blocked sent)) = hangs sent

-- The client of the call, if there is one.
abbrev pub through : Adapter → (Client → Stream → Reply) → Option Client → Handling
through a call none = handled a []
through a call (some c) = settled a (call c a.input)

abbrev pub on_client : Adapter → (Client → Stream → Reply) → Handling
on_client a call = through a call a.active_client

unfoldable pub send_mouse_move_event : Adapter → Bool → ℤ → ℤ → Handling
unfolding Api.send_mouse_move
send_mouse_move_event a succeeds delta_x delta_y =
    on_client a (λ c s. Api.send_mouse_move c s succeeds delta_x delta_y)

-- The action is an `int8`, which the call turns to a `uint8`.
unfoldable pub send_mouse_button_event : Adapter → Bool → ℤ → ℤ → Handling
unfolding Api.send_mouse_button
send_mouse_button_event a succeeds action button =
    on_client a (λ c s. Api.send_mouse_button c s succeeds (u8_of action) button)

unfoldable pub send_keyboard_event : Adapter → Bool → ℤ → ℤ → ℤ → Handling
unfolding Api.send_keyboard
send_keyboard_event a succeeds key_code key_action modifiers =
    on_client a
      (λ c s. Api.send_keyboard c s succeeds key_code (u8_of key_action) (u8_of modifiers))

unfoldable pub send_multi_controller_event : Adapter → Bool → ℤ → ℤ → ℤ → Axes → Handling
unfolding Api.send_multi_controller
send_multi_controller_event a succeeds controller_number active_gamepad_mask button_flags axes =
    on_client a (λ c s.
      Api.send_multi_controller c s succeeds controller_number active_gamepad_mask button_flags
        axes)
