-- ===== src/Input/Controllers.antt =====
-- Which channel a controller's events take, and the call that never returns.
use moonparty.Base.{
  ℕ, suc, ◌%◌, ◌⊎◌, ◌∙◌, ap, map, if◌then◌else◌, ◌+◌, ◌<◌, ◌≤◌, ◌≡◌, ◌≢◌, Bool, true, false, none,
  List, [], ◌∷◌, arith, ℤ, pos, negsuc,
}
use moonparty.Input.{Stream, Packet, Outcome, returned}
use moonparty.Input.Packets.{Axes}
use moonparty.Input.Devices.{
  send_multi_controller, send_controller_motion, limited, gamepad_channel,
}
use moonparty.Input.Framing.{sent}

abbrev pub limit : Stream → ℕ
limit s = if s.is_sunshine then 16 else 4

abbrev pub channels : Outcome → List ℕ
channels o = map (λ p. p.channel) (sent o)

channel_positive : (s : Stream) (n : ℕ) → gamepad_channel (limited s (pos n)) ≡ 4 + n % limit s
channel_positive s n = ground arith

channel_negative :
    (s : Stream) (n : ℕ)
    → suc n % limit s ≢ 0
    → (gamepad_channel (limited s (negsuc n)) < 4) ⊎ (20 ≤ gamepad_channel (limited s (negsuc n)))
channel_negative s n h = ground arith

multi_controller_channels :
    (s : Stream) (ok : Bool) (number mask buttons : ℤ) (axes : Axes)
    → s.initialized ≡ true
    → s.locked ≡ false
    → channels (send_multi_controller s ok number mask buttons axes)
      ≡ gamepad_channel (limited s number) ∷ []
unfolding send_multi_controller
multi_controller_channels s ok number mask buttons axes i l = ground arith

-- On an open stream an event of the controller `n` takes the channel `n` modulo the limit above the
-- base of the gamepads, where the limit is 16 for Sunshine and else 4. An event with the negative
-- number `-(n + 1)` that the limit does not divide takes a channel that is no gamepad's.
pub send_multi_controller_channel :
    (s : Stream) (ok : Bool) (n : ℕ) (mask buttons : ℤ) (axes : Axes)
    → s.initialized ≡ true
    → s.locked ≡ false
    → (channels (send_multi_controller s ok (pos n) mask buttons axes) ≡ (4 + n % limit s) ∷ [])
      × (suc n % limit s ≢ 0
          → (c : ℕ) × (channels (send_multi_controller s ok (negsuc n) mask buttons axes) ≡ c ∷ [])
            × ((c < 4) ⊎ (20 ≤ c)))
send_multi_controller_channel s ok n mask buttons axes i l = (
  multi_controller_channels s ok (pos n) mask buttons axes i l
      ∙ ap (λ (c : ℕ). c ∷ []) (channel_positive s n),
  λ h. (
    gamepad_channel (limited s (negsuc n)),
    multi_controller_channels s ok (negsuc n) mask buttons axes i l,
    channel_negative s n h,
  ),
)

-- After a motion event that an open Sunshine stream took without error, no later event of the same
-- controller and sensor is sent.
pub send_controller_motion_once :
    (s t : Stream) (ok again : Bool) (n type x y z x' y' z' : ℕ) (packets : List Packet)
    → s.initialized ≡ true
    → send_controller_motion s ok n type x y z ≡ returned t packets none
    → sent (send_controller_motion t again n type x' y' z') ≡ []
unfolding send_controller_motion
send_controller_motion_once s t ok again n type x y z x' y' z' packets i e = ground arith
