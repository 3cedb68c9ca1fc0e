-- ===== src/Server/Departure.antt =====
-- What a request to leave does to the active session.
use moonparty.Base.{ℕ, ◌≡◌, refl, true, some, none, arith}
use moonparty.Base.Assoc.{lookup, update, lookup-delete}
use moonparty.Session.{remove_peer}
use moonparty.Manager.{Manager, close_session}
use moonparty.Manager.Invariant.{IsValid, closed, close_session_listed}
use moonparty.Server.{store_session}
use moonparty.Server.Frames
use moonparty.Server.Handlers.{active-known}
use moonparty.Server.Http.{left, handle_leave_session}

leave_host :
    (m t : Manager) (a h id : ℕ)
    → m.active ≡ some a
    → (m.store a).host ≡ some h
    → ((m.store a).store h).id ≡ id
    → close_session (store_session m a (remove_peer (m.store a) id)) (m.store a).id ≡ some t
    → handle_leave_session m true (some id) ≡ some (t, left)
unfolding handle_leave_session
leave_host m t a h id e hosted names closes = ground arith

remove_peer-id :
    (m : Manager) (a id : ℕ)
    → ((store_session m a (remove_peer (m.store a) id)).store a).id ≡ (m.store a).id
unfolding remove_peer update
remove_peer-id m a id = ground arith

shut_closed :
    (m : Manager) (v : IsValid m) (id a : ℕ) → ((closed m v id a).store a).input_closed ≡ true
unfolding update
shut_closed m v id a = ground arith

-- In a well-formed server with an active session, a request to leave that names the session's host
-- ends the session: no session is active afterwards, the session is no longer listed and its input
-- channel is closed.
pub handle_leave_session_host :
    (m : Manager) (a h id : ℕ)
    → IsValid m
    → m.active ≡ some a
    → (m.store a).host ≡ some h
    → ((m.store a).store h).id ≡ id
    → (t : Manager) × (handle_leave_session m true (some id) ≡ some (t, left))
      × (t.active ≡ none)
      × (lookup (m.store a).id t.sessions ≡ none)
      × ((t.store a).input_closed ≡ true)
handle_leave_session_host m a h id v e hosted names =
    let m' : Manager = store_session m a (remove_peer (m.store a) id) in
    let kept = Frames.keep_remove_peer m v a (active-known m a v e) id in
    let listed : lookup (m.store a).id m.sessions ≡ some a = v.active_listed a e in
    let t : Manager = closed m' kept (m.store a).id a in
    (
      t,
      leave_host m t a h id e hosted names (close_session_listed m' kept (m.store a).id a listed),
      refl,
      ground (arith, lookup-delete (m.store a).id (m.store a).id m.sessions),
      shut_closed m' kept (m.store a).id a,
    )
