-- ===== src/Server/History.antt =====
-- Every history of the server: requests and messages handled one after another.
use Prim.Native.String.{String}
use mathlib.Core.Path.{subst}
use moonparty.Base.{
  ℕ, ◌<◌, ◌≡◌, ◌≢◌, refl, inl, inr, Bool, true, false, Option, none, some, arith, ℤ, Option-cases,
}
use moonparty.Session.{
  Session, SessionError, InputPacket, add_spectator, promote_to_player, remove_peer,
}
use moonparty.Session.Query.{receive_input, set_cancel_func}
use moonparty.Manager.{Manager, create_session, new_manager}
use moonparty.Manager.Invariant.{IsValid, new_manager-IsValid, create_session_lem}
use moonparty.Server.{Webrtc, handle_web_socket, store_session}
use moonparty.Server.Http.{
  Response, ClientMessage, input, join_as_player, leave, other, handle_start_session,
  handle_join_session, handle_leave_session, handle_promote_player, handle_toggle_keyboard,
  handle_message, end_connection, name_or_anonymous,
}
use moonparty.Server.Frames
use moonparty.Server.Handlers.{
  IsNew, active-known, handle_peer_input-IsValid, handle_leave_session-IsValid,
  handle_web_socket-IsValid,
}

module _ (m : Manager) (v : IsValid m) where
  join_active :
      (body : Option String) (uuid now a : ℕ)
      → m.active ≡ some a
      → (handle_join_session m true body uuid now).0
        ≡ store_session m a (add_spectator (m.store a) uuid now (name_or_anonymous body)).0
  unfolding handle_join_session
  join_active body uuid now a e = ground arith

  handle_join_session-IsValid :
      (is_post : Bool) (body : Option String) (uuid now : ℕ)
      → IsNew m uuid
      → IsValid (handle_join_session m is_post body uuid now).0
  unfolding handle_join_session
  handle_join_session-IsValid false body uuid now new = v
  handle_join_session-IsValid true body uuid now new = elim (Option-cases m.active) [
    | inl e ↦ rw (e, handle_join_session) v
    | inr (a, e) ↦
        let known = active-known m a v e in
        rw (join_active body uuid now a e)
          (Frames.keep_add_spectator m v a known uuid now (name_or_anonymous body) (new a known))
  ]

  start_idle :
      (uuid host_uuid now : ℕ)
      → m.active ≡ none
      → (handle_start_session m true uuid host_uuid now).0 ≡ (
          let m' = (create_session m uuid host_uuid now).0 in
          store_session m' m.next_ptr (set_cancel_func (m'.store m.next_ptr)))
  unfolding handle_start_session
  start_idle uuid host_uuid now e = ground arith

  handle_start_session-IsValid :
      (is_post : Bool) (uuid host_uuid now : ℕ)
      → IsValid (handle_start_session m is_post uuid host_uuid now).0
  unfolding handle_start_session
  handle_start_session-IsValid false uuid host_uuid now = v
  handle_start_session-IsValid true uuid host_uuid now = elim (Option-cases m.active) [
    | inr (a, e) ↦ rw (e, handle_start_session) v
    | inl e ↦
        let (valid, made, _) = create_session_lem m v uuid host_uuid now in
        let m' : Manager = (create_session m uuid host_uuid now).0 in
        rw (start_idle uuid host_uuid now e) (
          Frames.keep_set_cancel_func m' valid m.next_ptr
            (active-known m' m.next_ptr valid (made e).0))
  ]

  promote_active :
      (id a : ℕ)
      → m.active ≡ some a
      → (handle_promote_player m true (some id)).0
        ≡ store_session m a (promote_to_player (m.store a) id).0
  unfolding handle_promote_player
  promote_active id a e = ground arith

  handle_promote_player-IsValid :
      (is_post : Bool) (body : Option ℕ) → IsValid (handle_promote_player m is_post body).0
  unfolding handle_promote_player
  handle_promote_player-IsValid false body = v
  handle_promote_player-IsValid true none = v
  handle_promote_player-IsValid true (some id) = elim (Option-cases m.active) [
    | inl e ↦ rw (e, handle_promote_player) v
    | inr (a, e) ↦
        rw (promote_active id a e) (Frames.keep_promote_to_player m v a (active-known m a v e) id)
  ]

  handle_toggle_keyboard-IsValid :
      (is_post : Bool) (body : Option (ℕ × Bool))
      → IsValid (handle_toggle_keyboard m is_post body).0
  unfolding handle_toggle_keyboard
  handle_toggle_keyboard-IsValid false body = v
  handle_toggle_keyboard-IsValid true none = v
  handle_toggle_keyboard-IsValid true (some (id, enabled)) = elim (Option-cases m.active) [
    | inl e ↦ rw (e, handle_toggle_keyboard) v
    | inr (a, e) ↦
        rw (e, handle_toggle_keyboard)
          (Frames.keep_set_keyboard_enabled m v a (active-known m a v e) id enabled)
  ]

  end_connection-IsValid : (id : ℕ) → IsValid (end_connection m id)
  unfolding end_connection
  end_connection-IsValid id = elim (Option-cases m.active) [
    | inl e ↦ rw (e, end_connection) v
    | inr (a, e) ↦ rw (e, end_connection) (Frames.keep_remove_peer m v a (active-known m a v e) id)
  ]

  -- A client's messages, where it was admitted to a session object of the server.
  handle_message-IsValid :
      (a id : ℕ) (msg : ClientMessage)
      → a < m.next_ptr
      → (t : Manager) × (r : Option (ℤ × Option SessionError)) × (handle_message m a id msg
          ≡ some (t, r))
        × IsValid t
  unfolding handle_message
  handle_message-IsValid a id (input type payload) known =
      let (t, e, valid) = handle_peer_input-IsValid m id type payload v in
      (t, none, ground arith, valid)
  handle_message-IsValid a id join_as_player known = (
    store_session m a (promote_to_player (m.store a) id).0,
    some ((promote_to_player (m.store a) id).1, (promote_to_player (m.store a) id).2),
    refl,
    Frames.keep_promote_to_player m v a known id,
  )
  handle_message-IsValid a id leave known = (
    store_session m a (remove_peer (m.store a) id),
    none,
    refl,
    Frames.keep_remove_peer m v a known id,
  )
  handle_message-IsValid a id other known = (m, none, refl, v)

-- One request, message or event. The uuids that the library draws are new; a client speaks for a
-- session object of the server; the streaming goroutine takes packets from a queue.
pub data Serve (m : Manager) : Manager → Type 0 where
  connects :
      (w : Webrtc) (sess_uuid host_uuid uuid now : ℕ) (name : String)
      → IsNew m uuid
      → uuid ≢ host_uuid
      → Serve m (handle_web_socket m w sess_uuid host_uuid uuid now name).0
  starts :
      (is_post : Bool) (uuid host_uuid now : ℕ)
      → Serve m (handle_start_session m is_post uuid host_uuid now).0
  joins :
      (is_post : Bool) (body : Option String) (uuid now : ℕ)
      → IsNew m uuid
      → Serve m (handle_join_session m is_post body uuid now).0
  leaves :
      (is_post : Bool) (body : Option ℕ) {t : Manager} {r : Response}
      → handle_leave_session m is_post body ≡ some (t, r)
      → Serve m t
  promotes : (is_post : Bool) (body : Option ℕ) → Serve m (handle_promote_player m is_post body).0
  toggles :
      (is_post : Bool) (body : Option (ℕ × Bool))
      → Serve m (handle_toggle_keyboard m is_post body).0
  tells :
      (a id : ℕ) (msg : ClientMessage) {t : Manager} {r : Option (ℤ × Option SessionError)}
      → a < m.next_ptr
      → handle_message m a id msg ≡ some (t, r)
      → Serve m t
  ends : (id : ℕ) → Serve m (end_connection m id)
  forwards :
      (a : ℕ) {packet : InputPacket} {sess : Session}
      → a < m.next_ptr
      → receive_input (m.store a) ≡ some (packet, sess)
      → Serve m (store_session m a sess)

pub data Reach (m : Manager) : Manager → Type 0 where
  start : Reach m m
  next : {t u : Manager} → Reach m t → Serve t u → Reach m u

some-pair {ℓ κ} :
    {A : Type ℓ} {B : Type κ} (o : Option (A × B)) (a b : A) (x y : B)
    → o ≡ some (a, x)
    → o ≡ some (b, y)
    → a ≡ b
some-pair o a b x y h k = cc

Serve-IsValid : (m : Manager) {t : Manager} → IsValid m → Serve m t → IsValid t
Serve-IsValid m v (connects w sess_uuid host_uuid uuid now name new ne) =
    handle_web_socket-IsValid m w sess_uuid host_uuid uuid now name v new ne
Serve-IsValid m v (starts is_post uuid host_uuid now) =
    handle_start_session-IsValid m v is_post uuid host_uuid now
Serve-IsValid m v (joins is_post body uuid now new) =
    handle_join_session-IsValid m v is_post body uuid now new
Serve-IsValid m v (leaves is_post body {t = t} {r = r} e) =
    let (t', r', e', valid) = handle_leave_session-IsValid m is_post body v in
    subst IsValid (some-pair _ t' t r' r e' e) valid
Serve-IsValid m v (promotes is_post body) = handle_promote_player-IsValid m v is_post body
Serve-IsValid m v (toggles is_post body) = handle_toggle_keyboard-IsValid m v is_post body
Serve-IsValid m v (tells a id msg {t = t} {r = r} known e) =
    let (t', r', e', valid) = handle_message-IsValid m v a id msg known in
    subst IsValid (some-pair _ t' t r' r e' e) valid
Serve-IsValid m v (ends id) = end_connection-IsValid m v id
Serve-IsValid m v (forwards a {packet = packet} {sess = sess} known e) =
    Frames.keep_receive_input m v a known packet sess e

Reach-IsValid : (m : Manager) {t : Manager} → IsValid m → Reach m t → IsValid t
Reach-IsValid m v start = v
Reach-IsValid m v (next {t = t} r st) = Serve-IsValid t (Reach-IsValid m v r) st

-- A server that starts without sessions stays well formed under any requests, messages and events
-- that are handled one after another; so one session at most is listed, the active one, with an
-- open input channel, and every session object is well formed and has a host.
pub new_manager-Reach-IsValid : (n : ℤ) (m : Manager) → Reach (new_manager n) m → IsValid m
new_manager-Reach-IsValid n m r = Reach-IsValid (new_manager n) (new_manager-IsValid n) r

-- In a server that requests, messages and events, handled one after another, have made of an empty
-- one, no message of a client and no request to leave panics.
pub Reach-no_panic :
    (n : ℤ) (m : Manager)
    → Reach (new_manager n) m
    → ((a id : ℕ) (msg : ClientMessage) → a < m.next_ptr → handle_message m a id msg ≢ none)
      × ((is_post : Bool) (body : Option ℕ) → handle_leave_session m is_post body ≢ none)
Reach-no_panic n m r =
    let v = new_manager-Reach-IsValid n m r in
    (
      λ a id msg known e. let (t, x, f, _) = handle_message-IsValid m v a id msg known in cc,
      λ is_post body e. let (t, x, f, _) = handle_leave_session-IsValid m is_post body v in cc,
    )
