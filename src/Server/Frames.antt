-- ===== src/Server/Frames.antt =====
-- The methods of a session leave its identifier, its host and the state of its channel alone, so a
-- handler that runs one keeps the manager well formed.
use Prim.Native.String.{String}
use moonparty.Base.{ℕ, ◌<◌, ◌≡◌, refl, sym, Bool, some, arith}
use mathlib.Core.Path.{subst}
use moonparty.Session.{
  Session, InputPacket, add_spectator, promote_to_player, remove_peer, set_keyboard_enabled,
}
use moonparty.Session.Query.{send_input, receive_input, set_cancel_func}
use moonparty.Session.Invariant.{Inv, IsFresh}
use moonparty.Session.History.{
  Step, watches, promotes, removes, allows, sends, receives, cancels, Step-Inv,
}
use moonparty.Manager.{Manager}
use moonparty.Manager.Invariant.{IsValid, IsSameSession, update-IsValid}
use moonparty.Server.{store_session}

same_add_spectator :
    (s : Session) (uuid now : ℕ) (name : String) → IsSameSession s (add_spectator s uuid now name).0
unfolding add_spectator
same_add_spectator s uuid now name = (refl, refl, refl)

same_promote_to_player : (s : Session) (id : ℕ) → IsSameSession s (promote_to_player s id).0
unfolding promote_to_player
same_promote_to_player s id = ground arith

same_remove_peer : (s : Session) (id : ℕ) → IsSameSession s (remove_peer s id)
unfolding remove_peer
same_remove_peer s id = ground arith

same_set_keyboard_enabled :
    (s : Session) (id : ℕ) (b : Bool) → IsSameSession s (set_keyboard_enabled s id b)
unfolding set_keyboard_enabled
same_set_keyboard_enabled s id b = ground arith

same_send_input :
    (s t : Session) (packet : InputPacket) → send_input s packet ≡ some t → IsSameSession s t
unfolding send_input
same_send_input s t packet h = ground arith

same_receive_input :
    (s t : Session) (packet : InputPacket) → receive_input s ≡ some (packet, t) → IsSameSession s t
unfolding receive_input
same_receive_input s t packet h = ground arith

same_set_cancel_func : (s : Session) → IsSameSession s (set_cancel_func s)
unfolding set_cancel_func
same_set_cancel_func s = (refl, refl, refl)

module _ (m : Manager) (v : IsValid m) (a : ℕ) (known : a < m.next_ptr) where
  keep :
      (t : Session)
      → IsSameSession (m.store a) t
      → Step (m.store a) t
      → IsValid (store_session m a t)
  keep t same st = update-IsValid m v a t same (Step-Inv (m.store a) (v.members a known) st)

  pub keep_same : (t : Session) → t ≡ m.store a → IsValid (store_session m a t)
  keep_same t e = update-IsValid m v a t (ground arith) (subst Inv (sym e) (v.members a known))

  pub keep_add_spectator :
      (uuid now : ℕ) (name : String)
      → IsFresh (m.store a) uuid
      → IsValid (store_session m a (add_spectator (m.store a) uuid now name).0)
  keep_add_spectator uuid now name fresh =
      keep _ (same_add_spectator (m.store a) uuid now name) (watches uuid now name fresh)

  pub keep_promote_to_player :
      (id : ℕ) → IsValid (store_session m a (promote_to_player (m.store a) id).0)
  keep_promote_to_player id = keep _ (same_promote_to_player (m.store a) id) (promotes id)

  pub keep_remove_peer : (id : ℕ) → IsValid (store_session m a (remove_peer (m.store a) id))
  keep_remove_peer id = keep _ (same_remove_peer (m.store a) id) (removes id)

  pub keep_set_keyboard_enabled :
      (id : ℕ) (b : Bool) → IsValid (store_session m a (set_keyboard_enabled (m.store a) id b))
  keep_set_keyboard_enabled id b = keep _ (same_set_keyboard_enabled (m.store a) id b) (allows id b)

  pub keep_send_input :
      (packet : InputPacket) (t : Session)
      → send_input (m.store a) packet ≡ some t
      → IsValid (store_session m a t)
  keep_send_input packet t h = keep t (same_send_input (m.store a) t packet h) (sends packet h)

  pub keep_receive_input :
      (packet : InputPacket) (t : Session)
      → receive_input (m.store a) ≡ some (packet, t)
      → IsValid (store_session m a t)
  keep_receive_input packet t h = keep t (same_receive_input (m.store a) t packet h) (receives h)

  pub keep_set_cancel_func : IsValid (store_session m a (set_cancel_func (m.store a)))
  keep_set_cancel_func = keep _ (same_set_cancel_func (m.store a)) cancels
