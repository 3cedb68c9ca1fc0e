-- ===== src/Moonlight/Wire.antt =====
-- The packet of a controller as moonlight-common-go/protocol/packets.go lays it out, read at the
-- offsets of its fields and not with the function that writes it.
use moonparty.Base.Bytes.{le16_at}
use moonparty.Base.{ℕ, zero, suc, ◌+◌, ◌*◌, ◌/◌, ◌%◌, ◌<◌, ◌^◌, get_or, ◌≡◌, refl, arith, pos}
use moonparty.Input.Packets.{build_multi_controller_packet}
use moonparty.Input.Send.{ctrl_channel_gamepad_base, reliable}
use moonparty.Input.{Stream, Packet}
use moonparty.Moonlight.Play.{int16_at}
use moonparty.Moonlight.Words.{Gamepad, IsGamepad, stick}

-- The channel of the controller, and its number in the packet.
abbrev pub OnChannel : ℕ → Packet → Type 0
OnChannel i packet =
    (packet.channel ≡ ctrl_channel_gamepad_base + i) × (le16_at packet.bytes 10 ≡ i)

-- The packet is for the controller `i`, which it names and has in its mask, and tells its state.
pub record Carries (i : ℕ) (g : Gamepad) (p : Packet) : Type 0 where
  pub to_controller : OnChannel i p
  pub mask : le16_at p.bytes 12 ≡ 2 ^ i
  pub buttons : le16_at p.bytes 16 ≡ g.buttons
  pub left_trigger : get_or p.bytes 18 0 ≡ g.axes.left_trigger
  pub right_trigger : get_or p.bytes 19 0 ≡ g.axes.right_trigger
  pub left_stick_x : int16_at p.bytes 20 ≡ g.axes.left_stick_x
  pub left_stick_y : int16_at p.bytes 22 ≡ g.axes.left_stick_y
  pub right_stick_x : int16_at p.bytes 24 ≡ g.axes.right_stick_x
  pub right_stick_y : int16_at p.bytes 26 ≡ g.axes.right_stick_y

small_power : (i : ℕ) → i < 4 → 2 ^ i < 65536
small_power zero h = omega arith
small_power (suc zero) h = omega arith
small_power (suc (suc zero)) h = omega arith
small_power (suc (suc (suc zero))) h = omega arith
small_power (suc (suc (suc (suc i)))) h = absurd (omega arith)

wide_word : (n : ℕ) → n < 65536 → n % 65536 % 256 + 256 * (n % 65536 / 256 % 256) ≡ n
wide_word n h = omega arith

pub build_multi_controller_packet-Carries :
    (s : Stream) (i : ℕ) (g : Gamepad)
    → i < 4
    → IsGamepad g
    → Carries i g
        (reliable (4 + i) (build_multi_controller_packet s (pos i) (pos (2 ^ i)) g.buttons g.axes))
unfolding build_multi_controller_packet
build_multi_controller_packet-Carries s i g low v = record {
  to_controller = (refl, wide_word i (omega arith));
  mask = wide_word (2 ^ i) (small_power i low);
  buttons = wide_word g.buttons v.buttons;
  left_trigger = refl;
  right_trigger = refl;
  left_stick_x = stick g.axes.left_stick_x v.left_stick_x;
  left_stick_y = stick g.axes.left_stick_y v.left_stick_y;
  right_stick_x = stick g.axes.right_stick_x v.right_stick_x;
  right_stick_y = stick g.axes.right_stick_y v.right_stick_y;
}
