-- ===== src/Moonlight/Format.antt =====
-- The layout of a gamepad's state that internal/moonlight/stream.go documents, and what is sent of it.
use moonparty.Base.Bytes.{le16, le16_at}
use moonparty.Base.{
  ℕ, Bool, zero, suc, ◌+◌, ◌≤◌, ◌<◌, ◌^◌, true, false, none, some, List, [], ◌∷◌, ◌++◌, length, pos,
  i16, u16_of, ◌≡◌, refl, arith, ltb, le→ltb_false,
}
use moonparty.Input.Packets.{Axes, build_multi_controller_packet}
use moonparty.Input.Devices.{
  limited, limited_mask, fixed_buttons, gamepad_channel, send_multi_controller,
}
use moonparty.Input.Send.{reliable}
use moonparty.Input.{Stream, Packet, returned}
use moonparty.Limelight.{Client}
use moonparty.Moonlight.Events.{
  controller, asks, pad_event, read_event, event_of, call_of, perform, send_input-perform,
}
use moonparty.Moonlight.{Adapter, handled}
use moonparty.Moonlight.Words.{Gamepad, IsGamepad, word, stick}
use moonparty.Moonlight.Wire.{Carries, build_multi_controller_packet-Carries}
use moonparty.Session.{InputPacket, gamepad}
use moonparty.Moonlight.Play.{send_input, axes_at}

-- buttonFlags(2) + leftTrigger(1) + rightTrigger(1) + leftStickX(2) + leftStickY(2) + rightStickX(2) +
-- rightStickY(2).
unfoldable pub format : Gamepad → List ℕ
format g =
    le16 g.buttons
    ++ g.axes.left_trigger ∷ g.axes.right_trigger ∷ []
    ++ le16 (u16_of g.axes.left_stick_x)
    ++ le16 (u16_of g.axes.left_stick_y)
    ++ le16 (u16_of g.axes.right_stick_x)
    ++ le16 (u16_of g.axes.right_stick_y)

axes_at-format : (g : Gamepad) (more : List ℕ) → IsGamepad g → axes_at (format g ++ more) ≡ g.axes
unfolding format
axes_at-format g more v = cc (
  stick g.axes.left_stick_x v.left_stick_x,
  stick g.axes.left_stick_y v.left_stick_y,
  stick g.axes.right_stick_x v.right_stick_x,
  stick g.axes.right_stick_y v.right_stick_y,
)

buttons-format :
    (g : Gamepad) (more : List ℕ) → IsGamepad g → le16_at (format g ++ more) 0 ≡ g.buttons
unfolding format
buttons-format g more v = word g.buttons v.buttons

-- The number and the mask of a slot stand as they are.
slot-limited : (s : Stream) (i : ℕ) → i < 4 → limited s (i16 (pos i)) ≡ pos i
slot-limited s i h = ground arith

mask-limited : (s : Stream) (i : ℕ) → i < 4 → limited_mask s (i16 (pos (2 ^ i))) ≡ pos (2 ^ i)
mask-limited s zero h = ground arith
mask-limited s (suc zero) h = ground arith
mask-limited s (suc (suc zero)) h = ground arith
mask-limited s (suc (suc (suc zero))) h = ground arith
mask-limited s (suc (suc (suc (suc i)))) h = absurd (omega arith)

fixed_buttons-word : (s : Stream) (n : ℕ) → n < 65536 → fixed_buttons s (pos n) ≡ n
fixed_buttons-word s n h = ground arith

channel-slot : (i : ℕ) → i < 4 → gamepad_channel (pos i) ≡ 4 + i
channel-slot i h = ground arith

-- What an open stream sends of a controller.
send_multi_controller-sends :
    (s : Stream) (i n : ℕ) (axes : Axes)
    → s.locked ≡ false
    → s.initialized ≡ true
    → i < 4
    → n < 65536
    → send_multi_controller s true (i16 (pos i)) (i16 (pos (2 ^ i))) (pos n) axes
      ≡ returned
          (record s { locked = false })
          (reliable (4 + i) (build_multi_controller_packet s (pos i) (pos (2 ^ i)) n axes) ∷ [])
          none
unfolding send_multi_controller build_multi_controller_packet
send_multi_controller-sends s i n axes l o low small =
    rw
      (
        l,
        o,
        slot-limited s i low,
        mask-limited s i low,
        fixed_buttons-word s n small,
        channel-slot i low,
      )
      refl

format-long :
    (g : Gamepad) (more : List ℕ) → 2 ≤ length more → ltb (length (format g ++ more)) 14 ≡ false
unfolding format
format-long g more h = le→ltb_false _ 14 (omega arith)

read_event-format :
    (g : Gamepad) (more : List ℕ) (i : ℕ)
    → IsGamepad g
    → 2 ≤ length more
    → read_event gamepad (format g ++ more) (pos i) ≡ asks (controller i g.buttons g.axes)
unfolding read_event pad_event
read_event-format g more i v h =
    rw (format-long g more h, buttons-format g more v, axes_at-format g more v) refl

perform-sends :
    (a : Adapter) (c : Client) (i n : ℕ) (axes : Axes)
    → a.active_client ≡ some c
    → c.has_input ≡ true
    → a.input.locked ≡ false
    → a.input.initialized ≡ true
    → i < 4
    → n < 65536
    → perform a true (asks (controller i n axes))
      ≡ handled
          (record a { input = record a.input { locked = false } })
          (reliable (4 + i) (build_multi_controller_packet a.input (pos i) (pos (2 ^ i)) n axes)
            ∷ [])
unfolding perform call_of
perform-sends a c i n axes act has l o low small =
    rw (act, has, send_multi_controller-sends a.input i n axes l o low small) refl

-- A packet whose content is the state of a gamepad in the documented layout, with two bytes or more
-- behind it, from a player in slot i, 0 to 3, on a connection whose client and input stream are
-- open and write what they are given: SendInput comes back, having sent one packet, on the channel
-- of the controller i. At the offsets of MultiControllerPacket it names the controller i, has the
-- bit i alone in its mask, and holds the buttons, the triggers and the sticks of that state.
pub send_input-format :
    (a : Adapter) (c : Client) (x : InputPacket) (i : ℕ) (g : Gamepad) (more : List ℕ)
    → a.active_client ≡ some c
    → c.has_input ≡ true
    → a.input.locked ≡ false
    → a.input.initialized ≡ true
    → x.type ≡ gamepad
    → x.player_slot ≡ pos i
    → i < 4
    → x.payload ≡ format g ++ more
    → 2 ≤ length more
    → IsGamepad g
    → (b : Adapter) × (p : Packet) × (send_input a true x ≡ handled b (p ∷ [])) × Carries i g p
unfolding event_of
send_input-format a c x i g more act has l o is_pad slot low content behind v = (
  record a { input = record a.input { locked = false } },
  reliable (4 + i) (build_multi_controller_packet a.input (pos i) (pos (2 ^ i)) g.buttons g.axes),
  rw (send_input-perform a true x, is_pad, slot, content, read_event-format g more i v behind)
      (perform-sends a c i g.buttons g.axes act has l o low v.buttons),
  build_multi_controller_packet-Carries a.input i g low v,
)

-- The documented twelve bytes alone are less than SendInput takes: nothing is sent.
pub format_dropped :
    (a : Adapter) (ok : Bool) (x : InputPacket) (g : Gamepad)
    → x.type ≡ gamepad
    → x.payload ≡ format g
    → send_input a ok x ≡ handled a []
unfolding send_input format
format_dropped a ok x g is_pad content = rw (is_pad, send_input, content) refl
