-- ===== src/Server/Http.antt =====
-- internal/server/server.go: the HTTP handlers that act on sessions, and the messages of a client's
-- WebSocket that do. A request is its decoded body, or nothing if it does not decode.
use Prim.Native.String.{String}
use moonparty.Base.{ℕ, Bool, true, Option, none, some, List, if◌then◌else◌, ℤ, ◌==◌}
use moonparty.Base.Assoc.{update}
use moonparty.Session.{
  Session, SessionError, add_spectator, promote_to_player, remove_peer, set_keyboard_enabled,
}
use moonparty.Session.Query.{
  get_host, get_players, get_player_count, get_spectator_count, set_cancel_func,
}
use moonparty.Manager.{
  Manager, create_session, close_session, get_active_session, has_active_session,
}
use moonparty.Server.{store_session, handle_peer_input}

pub data Response : Type 0 where
  method_not_allowed bad_request no_active_session internal_error : Response
  promotion_refused : SessionError → Response
  existing : ℕ → ℕ → ℕ → Response
  created : ℕ → Response
  joined : ℕ → ℕ → ℕ → ℕ → Response
  inactive : Response
  status : ℕ → List ℕ → ℕ → Option ℕ → Response
  left : Response
  promoted : ℤ → Response
  updated : Bool → Response

unfoldable pub handle_start_session : Manager → Bool → ℕ → ℕ → ℕ → Manager × Response
unfolding create_session set_cancel_func has_active_session get_active_session update
handle_start_session m is_post uuid host_uuid now =
    if is_post
    then elim (get_active_session m) [
      | some a ↦ (
        m,
        existing (m.store a).id (get_player_count (m.store a)) (get_spectator_count (m.store a)),
      )
      | none ↦
          let (m', sess, err) = create_session m uuid host_uuid now in
          elim err [
            | some e ↦ (m', internal_error)
            | none ↦ elim sess [
              | none ↦ (m', internal_error)
              | some a ↦
                  (store_session m' a (set_cancel_func (m'.store a)), created (m'.store a).id)
            ]
          ]
    ]
    else (m, method_not_allowed)

-- A body that does not decode joins under the name "Anonymous".
abbrev pub name_or_anonymous : Option String → String
name_or_anonymous none = "Anonymous"
name_or_anonymous (some name) = name

unfoldable pub handle_join_session : Manager → Bool → Option String → ℕ → ℕ → Manager × Response
unfolding get_active_session add_spectator update
handle_join_session m is_post body uuid now =
    if is_post
    then elim (get_active_session m) [
      | none ↦ (m, no_active_session)
      | some a ↦
          let (sess, peer, err) = add_spectator (m.store a) uuid now (name_or_anonymous body) in
          elim peer [
            | none ↦ (store_session m a sess, internal_error)
            | some p ↦ (
              store_session m a sess,
              joined sess.id (sess.store p).id (get_player_count sess) (get_spectator_count sess),
            )
          ]
    ]
    else (m, method_not_allowed)

unfoldable pub handle_session_status : Manager → Response
unfolding get_active_session
handle_session_status m = elim (get_active_session m) [
  | none ↦ inactive
  | some a ↦
      status (m.store a).id (get_players (m.store a)) (get_spectator_count (m.store a))
        (get_host (m.store a))
]

-- `sess.GetHost() == nil || sess.GetHost().ID == req.PeerID`.
abbrev pub host_left : Session → ℕ → Bool
host_left s id = elim s.host [ none ↦ true | some p ↦ (s.store p).id == id ]

-- `none` is the panic of closing a session twice.
unfoldable pub handle_leave_session : Manager → Bool → Option ℕ → Option (Manager × Response)
unfolding get_active_session remove_peer get_host close_session update
handle_leave_session m is_post body =
    if is_post
    then elim body [
      | none ↦ some (m, bad_request)
      | some id ↦ elim (get_active_session m) [
        | none ↦ some (m, no_active_session)
        | some a ↦
            let m' = store_session m a (remove_peer (m.store a) id) in
            if host_left (m'.store a) id
            then elim (close_session m' (m'.store a).id) [
              | none ↦ none
              | some m'' ↦ some (m'', left)
            ]
            else some (m', left)
      ]
    ]
    else some (m, method_not_allowed)

unfoldable pub handle_promote_player : Manager → Bool → Option ℕ → Manager × Response
unfolding get_active_session promote_to_player update
handle_promote_player m is_post body =
    if is_post
    then elim body [
      | none ↦ (m, bad_request)
      | some id ↦ elim (get_active_session m) [
        | none ↦ (m, no_active_session)
        | some a ↦
            let (sess, slot, err) = promote_to_player (m.store a) id in
            elim err [
              | none ↦ (store_session m a sess, promoted slot)
              | some e ↦ (store_session m a sess, promotion_refused e)
            ]
      ]
    ]
    else (m, method_not_allowed)

unfoldable pub handle_toggle_keyboard : Manager → Bool → Option (ℕ × Bool) → Manager × Response
unfolding get_active_session set_keyboard_enabled update
handle_toggle_keyboard m is_post body =
    if is_post
    then elim body [
      | none ↦ (m, bad_request)
      | some (id, enabled) ↦ elim (get_active_session m) [
        | none ↦ (m, no_active_session)
        | some a ↦
            (store_session m a (set_keyboard_enabled (m.store a) id enabled), updated enabled)
      ]
    ]
    else (m, method_not_allowed)

-- The messages that act on a session. The others go to the WebRTC library or are ignored.
pub data ClientMessage : Type 0 where
  input : String → List ℕ → ClientMessage
  join_as_player leave other : ClientMessage

-- `handleMessage`, for the client of the peer `id` that was admitted to the session object `a`: the
-- input goes to the active session, and the rest to the client's own. `none` is a panic; the second
-- part is the answer to `join_as_player`.
unfoldable pub handle_message :
    Manager → ℕ → ℕ → ClientMessage → Option (Manager × Option (ℤ × Option SessionError))
unfolding handle_peer_input promote_to_player remove_peer update
handle_message m a id (input input_type payload) =
    elim (handle_peer_input m id input_type payload) [ none ↦ none | some m' ↦ some (m', none) ]
handle_message m a id join_as_player =
    let (sess, slot, err) = promote_to_player (m.store a) id in
    some (store_session m a sess, some (slot, err))
handle_message m a id leave = some (store_session m a (remove_peer (m.store a) id), none)
handle_message m a id other = some (m, none)

-- What `readPump` does when its connection ends.
unfoldable pub end_connection : Manager → ℕ → Manager
unfolding get_active_session remove_peer update
end_connection m id = elim (get_active_session m) [
  | none ↦ m
  | some a ↦ store_session m a (remove_peer (m.store a) id)
]
