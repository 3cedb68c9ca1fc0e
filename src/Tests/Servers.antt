-- ===== src/Tests/Servers.antt =====
-- A server whose first client creates the session, and its later requests.
use moonparty.Base.{
  ℕ, ◌<◌, ◌⊎◌, ◌++◌, length, ◌≡◌, ◌≢◌, refl, true, false, none, some, arith, [], ◌∷◌, pos,
}
use moonparty.Session.{Session, InputPacket, input_capacity, gamepad, spectator}
use moonparty.Session.Query.{close, can_send_input}
use moonparty.Session.Invariant.{Inv}
use moonparty.Manager.{Manager, new_manager}
use moonparty.Manager.Invariant.{IsValid}
use moonparty.Server.{Webrtc, dropped, handle_web_socket, queue_peer_input}
use moonparty.Server.Http.{handle_leave_session, handle_promote_player}
use moonparty.Server.Handlers.{IsNew}
use moonparty.Server.History.{
  Reach, start, next, connects, promotes, new_manager-Reach-IsValid, Reach-no_panic,
}
use moonparty.Server.Admission.{
  IsNewSpectator, handle_web_socket_spectator, handle_web_socket_dropped,
}
use moonparty.Server.Input.{IsAuthorized, queue_peer_input-IsAuthorized, queue_peer_input-close}

abbrev empty : Manager
empty = new_manager (pos 4)

abbrev working : Webrtc
working = record { creates = true; has_tracks = true; has_channels = true }

abbrev broken : Webrtc
broken = record { creates = true; has_tracks = false; has_channels = true }

abbrev served : Manager
served = (handle_web_socket empty working 50 1 2 100 "Bob").0

abbrev promoted : Manager
promoted = (handle_promote_player served true (some 2)).0

IsNew-2 : IsNew empty 2
unfolding new_manager
IsNew-2 a h = absurd (omega arith)

Reach-served : Reach empty served
Reach-served = next start (connects working 50 1 2 100 "Bob" IsNew-2 (omega arith))

Reach-promoted : Reach empty promoted
Reach-promoted = next Reach-served (promotes true (some 2))

promoted-IsValid : IsValid promoted
promoted-IsValid = new_manager-Reach-IsValid (pos 4) promoted Reach-promoted

new_manager-Reach-IsValid_example : IsValid promoted
new_manager-Reach-IsValid_example = new_manager-Reach-IsValid (pos 4) promoted Reach-promoted

Reach-no_panic_example : handle_leave_session promoted true (some 2) ≢ none
Reach-no_panic_example = (Reach-no_panic (pos 4) promoted Reach-promoted).1 true (some 2)

handle_web_socket_spectator_example : ((served.store 0).store 1).role ≡ spectator
unfolding handle_web_socket new_manager
handle_web_socket_spectator_example =
    (handle_web_socket_spectator empty served working 50 1 2 100 0 1 "Bob" refl).0

handle_web_socket_dropped_example :
    let (t, o) = handle_web_socket promoted broken 50 1 3 100 "Carol" in
    (a p : ℕ) × (o ≡ dropped p) × (t.active ≡ some a) × IsNewSpectator t a p 3
handle_web_socket_dropped_example =
    handle_web_socket_dropped promoted broken 50 1 3 100 "Carol" promoted-IsValid refl

abbrev bobs : Session
bobs = promoted.store 0

bobs-Inv : Inv bobs
unfolding handle_promote_player handle_web_socket new_manager
bobs-Inv = promoted-IsValid.members 0 (omega arith)

abbrev bobs_queued : Session
bobs_queued = record bobs {
  input_chan = record { type = gamepad; peer_id = 2; player_slot = pos 1; payload = 17 ∷ [] } ∷ [];
}

queue_peer_input-IsAuthorized_example :
    (bobs_queued ≡ bobs)
    ⊎ ((packet : InputPacket) × (bobs_queued
          ≡ record bobs { input_chan = bobs.input_chan ++ packet ∷ [] })
        × (length bobs.input_chan < input_capacity)
        × (packet.type ≡ gamepad)
        × (packet.payload ≡ 17 ∷ [])
        × IsAuthorized bobs 2 packet)
unfolding handle_promote_player handle_web_socket new_manager queue_peer_input
queue_peer_input-IsAuthorized_example =
    queue_peer_input-IsAuthorized bobs bobs_queued 2 gamepad (17 ∷ []) bobs-Inv refl

-- The queue of a player whose session has been closed.
queue_peer_input-close_example :
    queue_peer_input (record bobs { input_closed = true }) 2 gamepad (17 ∷ []) ≡ none
unfolding handle_promote_player handle_web_socket new_manager can_send_input close
queue_peer_input-close_example =
    queue_peer_input-close bobs (record bobs { input_closed = true }) 2 gamepad (17 ∷ []) bobs-Inv
      refl refl
