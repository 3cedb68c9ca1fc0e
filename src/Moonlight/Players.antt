-- ===== src/Moonlight/Players.antt =====
-- Which controller of the streaming server each player moves, and that every input is handled.
use moonparty.Base.All.{All}
use moonparty.Base.Assoc.{lookup}
use moonparty.Base.{
  ℕ, ◌<◌, ◌^◌, Bool, true, false, Option, none, some, List, [], ℤ, pos, i16, ◌≡◌, ◌≢◌, arith,
  if◌then◌else◌, length, ltb, Bool-cases, inl, inr, ◌≢◌, arith,
}
use moonparty.Input.Devices.{limited, send_multi_controller}
use moonparty.Input.Packets.{Axes, build_multi_controller_packet}
use moonparty.Input.{Stream, Packet, Outcome, returned, blocked}
use moonparty.Limelight.Api.{not_connected, called}
use moonparty.Limelight.{Client}
use moonparty.Moonlight.Events.{
  controller, pad_event, read_event, event_of, call_of, perform, send_input-perform,
}
use moonparty.Moonlight.Play.{send_input, axes_at}
use moonparty.Base.Bytes.{le16_at}
use moonparty.Moonlight.Wire.{OnChannel}
use moonparty.Moonlight.{Adapter, Handling, handled, hangs, panicked, settled, through}
use moonparty.Server.Input.{IsAuthorized}
use moonparty.Session.Invariant.{Inv}
use moonparty.Session.{Session, InputPacket, gamepad}

-- The packets that are handed to the control stream.
abbrev pub sent : Handling → List Packet
sent (handled a packets) = packets
sent (hangs packets) = packets
sent panicked = []

abbrev packets_of : Outcome → List Packet
packets_of (returned s packets error) = packets
packets_of (blocked packets) = packets

limited-slot : (s : Stream) (i : ℕ) → i < 4 → limited s (i16 (pos i)) ≡ pos i
limited-slot s i h = ground arith

send_multi_controller-OnChannel :
    (s : Stream) (ok : Bool) (i : ℕ) (mask flags : ℤ) (axes : Axes)
    → i < 4
    → All (OnChannel i) (packets_of (send_multi_controller s ok (i16 (pos i)) mask flags axes))
unfolding send_multi_controller build_multi_controller_packet
send_multi_controller-OnChannel s ok i mask flags axes h = ground (arith, limited-slot s i h)

-- What a client hands on of what its stream does.
replied-All :
    (P : Packet → Type 0) (a : Adapter) (has : Bool) (o : Outcome)
    → All P (packets_of o)
    → All P (sent (settled a (if has then called o else not_connected)))
replied-All P a true (returned s packets error) h = h
replied-All P a true (blocked packets) h = h
replied-All P a false o h = tt

pad-OnChannel :
    (a : Adapter) (ok : Bool) (i buttons : ℕ) (axes : Axes) (o : Option Client)
    → i < 4
    → All (OnChannel i) (sent (through a (call_of ok (controller i buttons axes)) o))
unfolding call_of
pad-OnChannel a ok i buttons axes none h = tt
pad-OnChannel a ok i buttons axes (some c) h =
    replied-All (OnChannel i) a c.has_input
      (send_multi_controller a.input ok (i16 (pos i)) (i16 (pos (2 ^ i))) (pos buttons) axes)
      (send_multi_controller-OnChannel a.input ok i (i16 (pos (2 ^ i))) (pos buttons) axes h)

gamepad-OnChannel :
    (a : Adapter) (ok : Bool) (d : List ℕ) (i : ℕ)
    → i < 4
    → All (OnChannel i) (sent (perform a ok (read_event gamepad d (pos i))))
unfolding perform read_event pad_event
gamepad-OnChannel a ok d i h = elim (Bool-cases (ltb (length d) 14)) [
  | inl e ↦ rw e tt
  | inr e ↦ rw e (pad-OnChannel a ok i (le16_at d 0) (axes_at d) a.active_client h)
]

owner_unique :
    (s : Session) (id id' p q i j : ℕ)
    → Inv s
    → lookup id s.peers ≡ some p
    → lookup id' s.peers ≡ some q
    → s.player_slot i ≡ some p
    → s.player_slot j ≡ some q
    → i ≡ j
    → id ≡ id'
owner_unique s id id' p q i j v here there sits sits' same =
    ground (arith, v.allocated id p, v.allocated id' q)

-- Gamepad input goes to the channel of the controller with the number of the packet's slot.
pub send_input-OnChannel :
    (a : Adapter) (ok : Bool) (x : InputPacket) (i : ℕ)
    → x.type ≡ gamepad
    → x.player_slot ≡ pos i
    → i < 4
    → All (OnChannel i) (sent (send_input a ok x))
unfolding event_of
send_input-OnChannel a ok x i is_pad slot h =
    rw (send_input-perform a ok x, is_pad, slot) (gamepad-OnChannel a ok x.payload i h)

-- A peer has a slot, as the session's slots and the peer's own field tell it.
abbrev pub SitsIn : Session → ℕ → ℕ → Type 0
SitsIn s id i =
    (p : ℕ) × (lookup id s.peers ≡ some p)
    × (s.player_slot i ≡ some p)
    × ((s.store p).player_slot ≡ pos i)

-- The gamepad packets that a well-formed session takes from two different peers, who were authorized
-- to send them, go to two different controllers, each to the one with the number of its peer's slot:
-- all that is sent for a packet goes to the channel of that controller, and names it. It does not
-- matter what the connections are in when they are sent.
pub send_input_apart :
    (s : Session) (id id' : ℕ) (x y : InputPacket) (a b : Adapter) (ok ok' : Bool)
    → Inv s
    → id ≢ id'
    → IsAuthorized s id x
    → IsAuthorized s id' y
    → x.type ≡ gamepad
    → y.type ≡ gamepad
    → (i j : ℕ) × (i < 4)
      × (j < 4)
      × (i ≢ j)
      × SitsIn s id i
      × SitsIn s id' j
      × All (OnChannel i) (sent (send_input a ok x))
      × All (OnChannel j) (sent (send_input b ok' y))
send_input_apart s id id' x y a b ok ok' v ne (p, i, here, _, slot, low, sits, _, _)
      (q, j, there, _, slot', low', sits', _, _) is_pad is_pad' =
    (
      i,
      j,
      low,
      low',
      λ same. ne (owner_unique s id id' p q i j v here there sits sits' same),
      (p, here, sits, (v.seated i p sits).1),
      (q, there, sits', (v.seated j q sits').1),
      send_input-OnChannel a ok x i is_pad slot low,
      send_input-OnChannel b ok' y j is_pad' slot' low',
    )
