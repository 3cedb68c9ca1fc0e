-- ===== src/Webrtc/Reconnect.antt =====
-- A peer that connects again while its first connection is still listed.
use mathlib.Core.Path.{subst}
use moonparty.Base.Assoc.{lookup, insert, update, lookup-insert, lookup-delete}
use moonparty.Base.{ℕ, ◌+◌, true, false, none, some, ◌≡◌, sym, arith}
use moonparty.Webrtc.Invariant.{remove_listed}
use moonparty.Webrtc.{
  Manager, create_peer_connection, get_peer_connection, close, on_connection_state_change,
  connection_failed,
}

-- The second call for the peer.
abbrev pub reconnected : Manager → ℕ → Manager
reconnected m peer = (create_peer_connection (create_peer_connection m peer true).0 peer true).0

-- The second connection is the one that is found; nothing has closed the first.
pub get_peer_connection-reconnected :
    (m : Manager) (peer : ℕ)
    → (get_peer_connection (reconnected m peer) peer ≡ some (m.made + 1))
      × (((reconnected m peer).conns m.made).closed ≡ false)
unfolding create_peer_connection get_peer_connection update
get_peer_connection-reconnected m peer = (
  ground (arith, lookup-insert peer peer (m.made + 1) (insert peer m.made m.connections)),
  ground arith,
)

-- When the first connection of a peer fails after the peer has connected again, its callback closes
-- the second connection and takes it off the map, and leaves the first as it was, not closed.
pub on_connection_state_change_stale :
    (m : Manager) (peer : ℕ)
    → let after = on_connection_state_change (reconnected m peer) peer connection_failed in
      (get_peer_connection after peer ≡ none)
      × (((after.conns (m.made + 1)).closed ≡ true) × ((after.conns m.made).closed ≡ false))
unfolding on_connection_state_change get_peer_connection close update
on_connection_state_change_stale m peer =
    let n = reconnected m peer in
    let (found, kept) = get_peer_connection-reconnected m peer in
    subst
      (λ (x : Manager).
        (lookup peer x.connections ≡ none)
        × (((x.conns (m.made + 1)).closed ≡ true) × ((x.conns m.made).closed ≡ false)))
      (sym (remove_listed n peer (m.made + 1) found))
      (ground (arith, lookup-delete peer peer n.connections), (ground arith, ground arith))
