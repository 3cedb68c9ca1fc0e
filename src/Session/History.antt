-- ===== src/Session/History.antt =====
-- Every history of a session: the calls of its methods, in any order and by any clients.
use Prim.Native.String.{String}
use moonparty.Base.{ℕ, ◌≡◌, refl, ◌∙◌, Bool, some, arith, ℤ}
use moonparty.Session.{
  Session, InputPacket, new_session, add_host, add_spectator, promote_to_player,
  demote_to_spectator, remove_peer, set_keyboard_enabled,
}
use moonparty.Session.Query.{send_input, receive_input, set_cancel_func, close}
use moonparty.Session.Invariant.{Inv, IsFresh, new_session-Inv, add_host-Inv, add_spectator-Inv}
use moonparty.Session.Preservation.{
  promote_to_player-Inv, demote_to_spectator-Inv, remove_peer-Inv, set_keyboard_enabled-Inv,
}

-- One call. The uuids that the library draws are new; a call that panics has no next state.
pub data Step (s : Session) : Session → Type 0 where
  hosts : (uuid now : ℕ) (name : String) → IsFresh s uuid → Step s (add_host s uuid now name).0
  watches :
      (uuid now : ℕ) (name : String) → IsFresh s uuid → Step s (add_spectator s uuid now name).0
  promotes : (id : ℕ) → Step s (promote_to_player s id).0
  demotes : (id : ℕ) → Step s (demote_to_spectator s id).0
  removes : (id : ℕ) → Step s (remove_peer s id)
  allows : (id : ℕ) (enabled : Bool) → Step s (set_keyboard_enabled s id enabled)
  sends : (packet : InputPacket) {t : Session} → send_input s packet ≡ some t → Step s t
  receives : {packet : InputPacket} {t : Session} → receive_input s ≡ some (packet, t) → Step s t
  cancels : Step s (set_cancel_func s)
  closes : {t : Session} → close s ≡ some t → Step s t

pub data Reach (s : Session) : Session → Type 0 where
  start : Reach s s
  next : {t u : Session} → Reach s t → Step t u → Reach s u

-- The fields that the well-formedness of a session speaks of.
abbrev pub SameRoster : Session → Session → Type 0
SameRoster s t =
    (t.peers ≡ s.peers)
    × (t.player_slot ≡ s.player_slot)
    × (t.host ≡ s.host)
    × (t.max_players ≡ s.max_players)
    × (t.store ≡ s.store)
    × (t.next_ptr ≡ s.next_ptr)

pub Inv-SameRoster : (s t : Session) → SameRoster s t → Inv s → Inv t
Inv-SameRoster s t e v = record {
  allocated = λ k p h. ground (arith, v.allocated k p);
  placed = λ k p h. ground (arith, v.placed k p);
  seated = λ i p h. ground (arith, v.seated i p);
  host_kept = λ p h. ground (arith, v.host_kept p);
  host_only = λ k p h r. ground (arith, v.host_only k p);
  host_first = λ p h. ground (arith, v.host_first p);
}

send_input-SameRoster :
    (s : Session) (packet : InputPacket) (t : Session)
    → send_input s packet ≡ some t
    → SameRoster s t
unfolding send_input
send_input-SameRoster s packet t h = ground arith

receive_input-SameRoster :
    (s : Session) (packet : InputPacket) (t : Session)
    → receive_input s ≡ some (packet, t)
    → SameRoster s t
unfolding receive_input
receive_input-SameRoster s packet t h = ground arith

set_cancel_func-SameRoster : (s : Session) → SameRoster s (set_cancel_func s)
unfolding set_cancel_func
set_cancel_func-SameRoster s = (refl, refl, refl, refl, refl, refl)

close-SameRoster : (s t : Session) → close s ≡ some t → SameRoster s t
unfolding close
close-SameRoster s t h = ground arith

pub Step-Inv : (s : Session) {t : Session} → Inv s → Step s t → Inv t
Step-Inv s v (hosts uuid now name fresh) = add_host-Inv s uuid now name v fresh
Step-Inv s v (watches uuid now name fresh) = add_spectator-Inv s uuid now name v fresh
Step-Inv s v (promotes id) = promote_to_player-Inv s id v
Step-Inv s v (demotes id) = demote_to_spectator-Inv s id v
Step-Inv s v (removes id) = remove_peer-Inv s id v
Step-Inv s v (allows id enabled) = set_keyboard_enabled-Inv s id v enabled
Step-Inv s v (sends packet {t = t} e) = Inv-SameRoster s t (send_input-SameRoster s packet t e) v
Step-Inv s v (receives {packet = packet} {t = t} e) =
    Inv-SameRoster s t (receive_input-SameRoster s packet t e) v
Step-Inv s v cancels = Inv-SameRoster s (set_cancel_func s) (set_cancel_func-SameRoster s) v
Step-Inv s v (closes {t = t} e) = Inv-SameRoster s t (close-SameRoster s t e) v

pub Reach-Inv : (s : Session) {t : Session} → Inv s → Reach s t → Inv t
Reach-Inv s v start = v
Reach-Inv s v (next {t = t} r st) = Step-Inv t (Reach-Inv s v r) st

-- Every session that any calls of its methods, in any order, make of a new one is well formed:
-- a peer that is not a spectator sits in the slot that it names, an occupied slot holds a peer of
-- the map that names it, slot 0 is the host's, and the others are below the limit.
pub new_session-Reach-Inv :
    (id now : ℕ) (m : ℤ) (s : Session) → Reach (new_session id now m) s → Inv s
new_session-Reach-Inv id now m s r = Reach-Inv (new_session id now m) (new_session-Inv id now m) r

Step-max_players : (s : Session) {t : Session} → Step s t → t.max_players ≡ s.max_players
unfolding add_host add_spectator promote_to_player demote_to_spectator remove_peer
    set_keyboard_enabled
Step-max_players s (hosts uuid now name fresh) = ground arith
Step-max_players s (watches uuid now name fresh) = refl
Step-max_players s (promotes id) = ground arith
Step-max_players s (demotes id) = ground arith
Step-max_players s (removes id) = ground arith
Step-max_players s (allows id enabled) = ground arith
Step-max_players s (sends packet {t = t} e) = (send_input-SameRoster s packet t e).3
Step-max_players s (receives {packet = packet} {t = t} e) =
    (receive_input-SameRoster s packet t e).3
Step-max_players s cancels = (set_cancel_func-SameRoster s).3
Step-max_players s (closes {t = t} e) = (close-SameRoster s t e).3

pub Reach-max_players : (s : Session) {t : Session} → Reach s t → t.max_players ≡ s.max_players
Reach-max_players s start = refl
Reach-max_players s (next {t = t} r st) = Step-max_players t st ∙ Reach-max_players s r

-- No call takes the host's place away or gives it to another: also after the host was removed.
Step-host : (s : Session) (p : ℕ) {t : Session} → s.host ≡ some p → Step s t → t.host ≡ some p
unfolding add_host add_spectator promote_to_player demote_to_spectator remove_peer
    set_keyboard_enabled
Step-host s p h (hosts uuid now name fresh) = ground arith
Step-host s p h (watches uuid now name fresh) = h
Step-host s p h (promotes id) = ground arith
Step-host s p h (demotes id) = ground arith
Step-host s p h (removes id) = ground arith
Step-host s p h (allows id enabled) = ground arith
Step-host s p h (sends packet {t = t} e) = (send_input-SameRoster s packet t e).2 ∙ h
Step-host s p h (receives {packet = packet} {t = t} e) =
    (receive_input-SameRoster s packet t e).2 ∙ h
Step-host s p h cancels = (set_cancel_func-SameRoster s).2 ∙ h
Step-host s p h (closes {t = t} e) = (close-SameRoster s t e).2 ∙ h

pub Reach-host : (s : Session) (p : ℕ) {t : Session} → s.host ≡ some p → Reach s t → t.host ≡ some p
Reach-host s p h start = h
Reach-host s p h (next {t = t} r st) = Step-host t p (Reach-host s p h r) st
