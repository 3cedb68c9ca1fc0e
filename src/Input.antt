-- ===== src/Input.antt =====
-- moonlight-common-go/input/input.go: keyboard, mouse, pen, touch and controller events.
-- A `float32` is its 32 bits; the arithmetic on floats that one method uses is a parameter. The
-- field `locked` is the mutex: a method that is called while it is held never returns.
-- The keys of the encryption and the field `currentGamepadState` are not used by the source.
pub mod Packets
pub mod Send
pub mod Devices
pub mod Framing
pub mod Mouse
pub mod Scroll
pub mod Modifiers
pub mod Controllers
use moonparty.Base.{
  ℕ, Bool, true, false, not, ◌&&◌, Option, none, some, List, [], ◌∷◌, if◌then◌else◌, ℤ, pos,
}
use moonparty.Control.{AppVersion, app_version_at_least}

pub data InputError : Type 0 where
  not_initialized unsupported invalid_parameter send_failed : InputError

-- What `sendFunc` is given; the last argument of every call is false.
pub record Packet : Type 0 where
  pub channel : ℕ
  pub flags : ℕ
  pub bytes : List ℕ

pub record RelativeMouseState : Type 0 where
  pub delta_x : ℤ
  pub delta_y : ℤ
  pub dirty : Bool

pub record AbsoluteMouseState : Type 0 where
  pub x : ℤ
  pub y : ℤ
  pub width : ℤ
  pub height : ℤ
  pub dirty : Bool

pub record SensorState : Type 0 where
  pub x : ℕ
  pub y : ℕ
  pub z : ℕ
  pub dirty : Bool

pub record Stream : Type 0 where
  pub app_version : AppVersion
  pub is_sunshine : Bool
  pub encrypted_ctrl : Bool
  pub current_rel_mouse_state : RelativeMouseState
  pub current_abs_mouse_state : AbsoluteMouseState
  pub gamepad_sensor_state : ℕ → ℕ → SensorState
  pub abs_current_pos_x : ℕ
  pub abs_current_pos_y : ℕ
  pub current_pen_button_state : ℕ
  pub needs_batched_scroll : Bool
  pub batched_scroll_delta : ℤ
  pub initialized : Bool
  pub locked : Bool

-- 0x3F000000 are the bits of 0.5.
unfoldable pub new_stream : AppVersion → Bool → Stream
unfolding app_version_at_least
new_stream v is_sunshine = record {
  app_version = v;
  is_sunshine = is_sunshine;
  encrypted_ctrl = app_version_at_least v (pos 7) (pos 1) (pos 431);
  current_rel_mouse_state = record { delta_x = pos 0; delta_y = pos 0; dirty = false };
  current_abs_mouse_state = record {
    x = pos 0;
    y = pos 0;
    width = pos 0;
    height = pos 0;
    dirty = false;
  };
  gamepad_sensor_state = λ controller motion. record { x = 0; y = 0; z = 0; dirty = false };
  abs_current_pos_x = 0x3F000000;
  abs_current_pos_y = 0x3F000000;
  current_pen_button_state = 0;
  needs_batched_scroll = app_version_at_least v (pos 7) (pos 1) (pos 409) && not is_sunshine;
  batched_scroll_delta = pos 0;
  initialized = true;
  locked = false;
}

-- How a call ends: the state, the packets handed to `sendFunc` and the error; or the packets sent
-- before the call waits for ever.
pub data Outcome : Type 0 where
  returned : Stream → List Packet → Option InputError → Outcome
  blocked : List Packet → Outcome

-- `s.mu.Lock(); defer s.mu.Unlock(); if !s.initialized { return ErrNotInitialized }`.
abbrev pub release : Outcome → Outcome
release (returned s sent err) = returned (record s { locked = false }) sent err
release (blocked sent) = blocked sent

abbrev pub guarded : Stream → (Stream → Outcome) → Outcome
guarded s body =
    if s.locked
    then blocked []
    else if s.initialized
    then release (body (record s { locked = true }))
    else returned s [] (some not_initialized)

-- `return s.sendFunc(...)`, where the argument says whether it succeeds.
abbrev pub send : Stream → Bool → Packet → Outcome
send s succeeds packet = returned s (packet ∷ []) (if succeeds then none else some send_failed)

unfoldable pub close : Stream → Outcome
close s = if s.locked then blocked [] else returned (record s { initialized = false }) [] none
