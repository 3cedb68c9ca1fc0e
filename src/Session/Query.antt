-- ===== src/Session/Query.antt =====
-- internal/session/session.go: the methods that read the session, and the input queue.
use moonparty.Base.{
  ℕ, zero, suc, ◌+◌, Bool, true, false, ◌||◌, Option, none, some, List, [], ◌∷◌, ◌++◌, map, ltb,
  if◌then◌else◌, length, ℤ, negsuc,
}
use moonparty.Base.Assoc.{lookup}
use moonparty.Session.{
  Session, Peer, InputPacket, InputType, keyboard, mouse, mouse_relative, gamepad, touch, is_host,
  is_player, is_spectator, input_capacity,
}

-- `none` is the nil pointer.
unfoldable pub get_peer : Session → ℕ → Option ℕ
unfolding lookup
get_peer s id = lookup id s.peers

unfoldable pub get_host : Session → Option ℕ
get_host s = s.host

-- The loop over the first `n` slots, from the last one down.
unfoldable pub seated_below : ℕ → (ℕ → Option ℕ) → List ℕ
seated_below zero slots = []
seated_below (suc n) slots =
    let rest = seated_below n slots in elim (slots n) [ none ↦ rest | some p ↦ rest ++ p ∷ [] ]

unfoldable pub get_players : Session → List ℕ
unfolding seated_below
get_players s = seated_below 4 s.player_slot

unfoldable pub count_below : ℕ → (ℕ → Option ℕ) → ℕ
count_below zero slots = 0
count_below (suc n) slots =
    let rest = count_below n slots in elim (slots n) [ none ↦ rest | some _ ↦ rest + 1 ]

unfoldable pub get_player_count : Session → ℕ
unfolding count_below
get_player_count s = count_below 4 s.player_slot

unfoldable pub count_spectators : (ℕ → Peer) → List (ℕ × ℕ) → ℕ
count_spectators store [] = 0
count_spectators store ((_, p) ∷ ps) =
    let rest = count_spectators store ps in if is_spectator (store p).role then rest + 1 else rest

unfoldable pub get_spectator_count : Session → ℕ
unfolding count_spectators
get_spectator_count s = count_spectators s.store s.peers

-- Go visits a map in no fixed order; this is one of the orders.
unfoldable pub get_all_peers : Session → List ℕ
get_all_peers s = map (λ e. e.1) s.peers

unfoldable pub get_player_slot : Session → ℕ → ℤ
unfolding lookup
get_player_slot s id = elim (lookup id s.peers) [
  | none ↦ negsuc 0
  | some p ↦ (s.store p).player_slot
]

abbrev pub type_allowed : Peer → InputType → Bool
type_allowed peer keyboard = is_host peer.role || peer.keyboard_enabled
type_allowed peer mouse = is_host peer.role || peer.keyboard_enabled
type_allowed peer mouse_relative = is_host peer.role || peer.keyboard_enabled
type_allowed peer gamepad = is_player peer.role
type_allowed peer touch = false

unfoldable pub can_send_input : Session → ℕ → InputType → Bool
unfolding lookup
can_send_input s id t = elim (lookup id s.peers) [
  | none ↦ false
  | some p ↦ if is_spectator (s.store p).role then false else type_allowed (s.store p) t
]

-- `none` is the panic of a send on a closed channel. A full buffer drops the packet.
unfoldable pub send_input : Session → InputPacket → Option Session
send_input s packet =
    if s.input_closed
    then none
    else if ltb (length s.input_chan) input_capacity
    then some (record s { input_chan = s.input_chan ++ packet ∷ [] })
    else some s

-- What a receive from `InputChannel()` takes: the oldest packet, if there is one.
unfoldable pub receive_input : Session → Option (InputPacket × Session)
receive_input s = elim s.input_chan [
  | [] ↦ none
  | packet ∷ rest ↦ some (packet, record s { input_chan = rest })
]

unfoldable pub set_cancel_func : Session → Session
set_cancel_func s = record s { has_cancel_func = true }

-- `none` is the panic of a second `close(s.inputChan)`.
unfoldable pub close : Session → Option Session
close s =
    if s.input_closed
    then none
    else some (record s {
      cancelled = if s.has_cancel_func then s.cancelled + 1 else s.cancelled;
      input_closed = true;
    })
