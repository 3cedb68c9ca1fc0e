-- ===== src/Server.antt =====
-- internal/server/websocket.go and server.go: the handlers of WebSocket and HTTP requests, as far
-- as they act on sessions. Marshalling, WebRTC and the network are arguments: a decoded request,
-- and whether each call of the WebRTC library succeeds.
pub mod Http
pub mod Frames
pub mod Handlers
pub mod History
pub mod Admission
pub mod Input
pub mod Departure
use Prim.Native.String.{String}
use text.Mathlib.Text.{◌==◌ as str_eq}
use moonparty.Base.{
  ℕ, Bool, true, false, ◌&&◌, Option, none, some, List, if◌then◌else◌, ℤ, pos, negsuc, ltb_ℤ, ◌==◌,
}
use moonparty.Base.Assoc.{update}
use moonparty.Session.{
  Session, SessionError, Peer, InputType, keyboard, mouse, mouse_relative, gamepad, add_spectator,
  promote_to_player, remove_peer, set_keyboard_enabled,
}
use moonparty.Session.Query.{get_host, get_player_slot, can_send_input, send_input, set_cancel_func}
use moonparty.Manager.{
  Manager, ManagerError, create_session, close_session, get_active_session, has_active_session,
}

-- Writes back a session object that a method has changed.
abbrev pub store_session : Manager → ℕ → Session → Manager
store_session m a sess = record m { store = update m.store a sess }

unfoldable pub parse_input_type : String → Option InputType
parse_input_type s =
    if str_eq s "keyboard"
    then some keyboard
    else if str_eq s "mouse"
    then some mouse
    else if str_eq s "mouse_rel"
    then some mouse_relative
    else if str_eq s "gamepad"
    then some gamepad
    else if str_eq s "input"
    then some gamepad
    else none

-- `none` is a panic. The session is the one that `GetActiveSession` returned.
unfoldable pub queue_peer_input : Session → ℕ → InputType → List ℕ → Option Session
unfolding can_send_input get_player_slot send_input
queue_peer_input sess id t payload =
    if can_send_input sess id t
    then (let slot = get_player_slot sess id in
        if ltb_ℤ slot (pos 0)
        then some sess
        else send_input sess
            (record { type = t; peer_id = id; player_slot = slot; payload = payload }))
    else some sess

unfoldable pub handle_peer_input : Manager → ℕ → String → List ℕ → Option Manager
unfolding get_active_session parse_input_type queue_peer_input update
handle_peer_input m id input_type payload = elim (get_active_session m) [
  | none ↦ some m
  | some a ↦ elim (parse_input_type input_type) [
    | none ↦ some m
    | some t ↦ elim (queue_peer_input (m.store a) id t payload) [
      | none ↦ none
      | some sess ↦ some (store_session m a sess)
    ]
  ]
]

-- Whether `CreatePeerConnection`, `SetupTracks` and `SetupDataChannels` succeed.
pub record Webrtc : Type 0 where
  pub creates : Bool
  pub has_tracks : Bool
  pub has_channels : Bool

abbrev pub is_ready : Webrtc → Bool
is_ready w = w.creates && w.has_tracks && w.has_channels

-- How a connection attempt ends. Where the set-up fails the peer is not told.
pub data Connection : Type 0 where
  refused_by_manager : ManagerError → Connection
  refused_by_session : SessionError → Connection
  no_peer : Connection
  dropped : ℕ → Connection
  serving : ℕ → ℕ → Connection

-- The name of a client that gives none.
abbrev pub name_or_player : String → String
name_or_player name = if str_eq name "" then "Player" else name

-- The peer that the connection gets in the session object `a`.
unfoldable pub admit : Manager → ℕ → Webrtc → ℕ → ℕ → String → Manager × Connection
unfolding get_host add_spectator update
admit m a w uuid now name = elim (get_host (m.store a)) [
  | some _ ↦
      let (sess, peer, err) = add_spectator (m.store a) uuid now (name_or_player name) in
      elim err [
        | some e ↦ (store_session m a sess, refused_by_session e)
        | none ↦ elim peer [
          | none ↦ (store_session m a sess, no_peer)
          | some p ↦ (store_session m a sess, if is_ready w then serving a p else dropped p)
        ]
      ]
  | none ↦ (m, no_peer)
]

-- `handleWebSocket` after the upgrade. The first two uuids are drawn if a session is created.
unfoldable pub handle_web_socket : Manager → Webrtc → ℕ → ℕ → ℕ → ℕ → String → Manager × Connection
unfolding get_active_session create_session admit
handle_web_socket m w sess_uuid host_uuid uuid now name = elim (get_active_session m) [
  | some a ↦ admit m a w uuid now name
  | none ↦
      let (m', created, err) = create_session m sess_uuid host_uuid now in
      elim err [
        | some e ↦ (m', refused_by_manager e)
        | none ↦ elim created [ none ↦ (m', no_peer) | some a ↦ admit m' a w uuid now name ]
      ]
]
