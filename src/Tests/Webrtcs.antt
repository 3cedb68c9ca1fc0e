-- ===== src/Tests/Webrtcs.antt =====
-- The WebRTC manager on concrete peers.
use moonparty.Base.Text.{codes, text_eq}
use moonparty.Base.{true, false, none, [], ◌∷◌, ◌+◌, ◌≡◌, refl}
use moonparty.Webrtc.Invariant.{IsValid, Reach, begins, then_step, creates, removes, Reach-IsValid}
use moonparty.Webrtc.Reconnect.{reconnected, on_connection_state_change_stale}
use moonparty.Webrtc.{
  Manager, new_connection, new_manager, ice_servers_of, ice_server, create_peer_connection,
  remove_peer_connection, get_peer_connection, on_connection_state_change, connection_failed,
}

abbrev fresh_manager : Manager
fresh_manager = record {
  ice_servers =
      record { url = codes "turn:a"; username = codes "u"; credential = codes "p" }
      ∷ record { url = codes "stun:b"; username = []; credential = [] }
      ∷ [];
  connections = [];
  conns = new_connection;
  made = 0;
}

fresh_manager-Reach : Reach fresh_manager
unfolding new_manager ice_servers_of ice_server text_eq
fresh_manager-Reach = begins (codes "turn:a" ∷ codes "stun:b" ∷ []) (codes "u") (codes "p") refl

Reach-IsValid_example :
    IsValid (remove_peer_connection (create_peer_connection fresh_manager 7 true).0 7)
Reach-IsValid_example =
    Reach-IsValid (remove_peer_connection (create_peer_connection fresh_manager 7 true).0 7)
      (then_step (then_step fresh_manager-Reach (creates 7 true)) (removes 7))

on_connection_state_change_stale_example :
    let after = on_connection_state_change (reconnected fresh_manager 7) 7 connection_failed in
    (get_peer_connection after 7 ≡ none)
    × (((after.conns (0 + 1)).closed ≡ true) × ((after.conns 0).closed ≡ false))
on_connection_state_change_stale_example = on_connection_state_change_stale fresh_manager 7
