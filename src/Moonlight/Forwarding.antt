-- ===== src/Moonlight/Forwarding.antt =====
-- internal/server/server.go: the case of the streaming loop that takes a packet from the session's
-- queue and gives it to SendInput.
use moonparty.Base.All.{All}
use moonparty.Base.{
  ℕ, ◌+◌, ◌^◌, ◌≢◌, i16, u8_of, Bool, true, false, Option, none, some, List, [], ◌∷◌, ◌++◌, ℤ, pos,
  ◌≡◌, refl, arith, if◌then◌else◌,
}
use moonparty.Input.Devices
use moonparty.Input.Packets.{Axes}
use moonparty.Input.Send
use moonparty.Input.{Stream, Packet, Outcome, returned, blocked}
use moonparty.Limelight.Api.{not_connected, called}
use moonparty.Limelight.{Client}
use moonparty.Moonlight.Events.{
  Request, controller, key, button, move, Event, ignored, bad_slot, asks, pad_event, read_event,
  event_of, call_of, perform, send_input-perform,
}
use moonparty.Moonlight.Play.{send_input, int8_of}
use moonparty.Moonlight.{Adapter, Handling, handled, hangs, panicked, settled, through}
use moonparty.Server.Input.{IsAuthorized}
use moonparty.Session.Invariant.{Inv}
use moonparty.Session.{
  Session, InputPacket, InputType, keyboard, mouse, mouse_relative, gamepad, touch,
}

-- The loop over what waits in the queue, oldest first, and the packets that it sends; `none` where a
-- call hangs or panics. `oks k` is whether the control stream takes what the turn `k` sends.
unfoldable pub forward_all :
    Adapter → (ℕ → Bool) → ℕ → List InputPacket → Option (Adapter × List Packet)
forward_all a oks k [] = some (a, [])
forward_all a oks k (x ∷ rest) = elim (send_input a (oks k) x) [
  | hangs packets ↦ none
  | panicked ↦ none
  | handled b packets ↦ elim (forward_all b oks (k + 1) rest) [
    | none ↦ none
    | some (c, later) ↦ some (c, packets ++ later)
  ]
]

-- A call that comes back, with the mutex free.
abbrev IsFree : Outcome → Type 0
IsFree (returned s packets error) = s.locked ≡ false
IsFree (blocked packets) = ⊥

send_multi_controller-IsFree :
    (s : Stream) (ok : Bool) (n m b : ℤ) (axes : Axes)
    → s.locked ≡ false
    → IsFree (Devices.send_multi_controller s ok n m b axes)
unfolding Devices.send_multi_controller
send_multi_controller-IsFree s ok n m b axes l = ground arith

send_keyboard-IsFree :
    (s : Stream) (ok : Bool) (k : ℤ) (a m : ℕ)
    → s.locked ≡ false
    → IsFree (Send.send_keyboard s ok k a m 0)
unfolding Send.send_keyboard
send_keyboard-IsFree s ok k a m l = ground arith

send_mouse_button-IsFree :
    (s : Stream) (ok : Bool) (a : ℕ) (b : ℤ)
    → s.locked ≡ false
    → IsFree (Send.send_mouse_button s ok a b)
unfolding Send.send_mouse_button
send_mouse_button-IsFree s ok a b l = ground arith

send_mouse_move-IsFree :
    (s : Stream) (ok : Bool) (x y : ℤ) → s.locked ≡ false → IsFree (Send.send_mouse_move s ok x y)
unfolding Send.send_mouse_move
send_mouse_move-IsFree s ok x y l = ground arith

abbrev Comes : Handling → Type 0
Comes (handled b packets) = b.input.locked ≡ false
Comes (hangs packets) = ⊥
Comes panicked = ⊥

replied-Comes :
    (a : Adapter) (has : Bool) (o : Outcome)
    → a.input.locked ≡ false
    → IsFree o
    → Comes (settled a (if has then called o else not_connected))
replied-Comes a true (returned s packets error) l h = h
replied-Comes a true (blocked packets) l h = absurd h
replied-Comes a false o l h = l

through-Comes :
    (a : Adapter) (ok : Bool) (r : Request) (o : Option Client)
    → a.input.locked ≡ false
    → Comes (through a (call_of ok r) o)
unfolding call_of
through-Comes a ok r none l = l
through-Comes a ok (controller i n axes) (some c) l =
    replied-Comes a c.has_input _ l
      (send_multi_controller-IsFree a.input ok (i16 (pos i)) (i16 (pos (2 ^ i))) (pos n) axes l)
through-Comes a ok (key code action modifiers) (some c) l =
    replied-Comes a c.has_input _ l
      (send_keyboard-IsFree a.input ok code (u8_of (int8_of action)) (u8_of (int8_of modifiers)) l)
through-Comes a ok (button action number) (some c) l =
    replied-Comes a c.has_input _ l
      (send_mouse_button-IsFree a.input ok (u8_of (int8_of action)) (pos number) l)
through-Comes a ok (move x y) (some c) l =
    replied-Comes a c.has_input _ l (send_mouse_move-IsFree a.input ok x y l)

perform-Comes :
    (a : Adapter) (ok : Bool) (e : Event)
    → e ≢ bad_slot
    → a.input.locked ≡ false
    → Comes (perform a ok e)
unfolding perform
perform-Comes a ok ignored n l = l
perform-Comes a ok bad_slot n l = absurd (n refl)
perform-Comes a ok (asks r) n l = through-Comes a ok r a.active_client l

-- A packet that names a slot asks for no shift by a negative count.
read_event-slot : (t : InputType) (d : List ℕ) (i : ℕ) → read_event t d (pos i) ≢ bad_slot
unfolding read_event pad_event
read_event-slot gamepad d i = ground arith
read_event-slot keyboard d i = ground arith
read_event-slot mouse d i = ground arith
read_event-slot mouse_relative d i = ground arith
read_event-slot touch d i = ground arith

send_input-Comes :
    (a : Adapter) (ok : Bool) (x : InputPacket) (i : ℕ)
    → x.player_slot ≡ pos i
    → a.input.locked ≡ false
    → Comes (send_input a ok x)
unfolding event_of
send_input-Comes a ok x i slot l =
    rw (send_input-perform a ok x, slot)
      (perform-Comes a ok (read_event x.type x.payload (pos i)) (read_event-slot x.type x.payload i)
        l)

Comes-handled :
    (r : Handling)
    → Comes r
    → (b : Adapter) × (packets : List Packet) × (r ≡ handled b packets) × (b.input.locked ≡ false)
Comes-handled (handled b packets) c = (b, packets, refl, c)
Comes-handled (hangs packets) c = absurd c
Comes-handled panicked c = absurd c

forward_all-step :
    (a b d : Adapter) (oks : ℕ → Bool) (k : ℕ) (x : InputPacket) (rest : List InputPacket)
    (packets later : List Packet)
    → send_input a (oks k) x ≡ handled b packets
    → forward_all b oks (k + 1) rest ≡ some (d, later)
    → forward_all a oks k (x ∷ rest) ≡ some (d, packets ++ later)
unfolding forward_all
forward_all-step a b d oks k x rest packets later e f = rw (e, forward_all, f) refl

-- That a packet was put into the queue by a peer who was authorized, in a well-formed session.
abbrev pub WasAuthorized : InputPacket → Type 0
WasAuthorized x = (s : Session) × (id : ℕ) × Inv s × IsAuthorized s id x

-- Whatever packets wait in the queue, each put there by a peer who was authorized at the time, and
-- whatever the connection is and the control stream does, on an input stream whose mutex is free the
-- streaming loop takes them all: no call hangs or panics, and the mutex is free in the end.
pub forward_all_lem :
    (a : Adapter) (oks : ℕ → Bool) (k : ℕ) (queue : List InputPacket)
    → All WasAuthorized queue
    → a.input.locked ≡ false
    → (b : Adapter) × (packets : List Packet) × (forward_all a oks k queue ≡ some (b, packets))
      × (b.input.locked ≡ false)
unfolding forward_all
forward_all_lem a oks k [] h l = (a, [], refl, l)
forward_all_lem a oks k (x ∷ rest) ((s, id, v, (p, i, here, owner, slot, _, _, _, _)), h) l =
    let (b, packets, e, c) =
      Comes-handled (send_input a (oks k) x) (send_input-Comes a (oks k) x i slot l) in
    let (d, later, f, m) = forward_all_lem b oks (k + 1) rest h c in
    (d, packets ++ later, forward_all-step a b d oks k x rest packets later e f, m)
