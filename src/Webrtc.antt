-- ===== src/Webrtc.antt =====
-- internal/webrtc/manager.go: the WebRTC connections of the peers. The library beneath is a
-- parameter: which of its calls succeed. A connection is a number, by which it is kept in a store,
-- because a peer's callback and the map refer to the same one; peers are numbers as well.
pub mod Invariant
pub mod Reconnect
use moonparty.Base.Assoc.{lookup, insert, delete, update}
use moonparty.Base.Text.{Bytes, codes, is_empty, text_eq}
use moonparty.Base.{
  ℕ, suc, ◌+◌, Bool, true, false, not, ◌&&◌, ◌||◌, Option, none, some, List, [], ◌∷◌, ◌++◌, ltb,
  length, take, if◌then◌else◌,
}

-- A track holds what was written to it; a channel whether it is open, and what was sent.
pub record DataChannel : Type 0 where
  pub is_open : Bool
  pub sent : List (List ℕ)

pub record PeerConnection : Type 0 where
  pub id : ℕ
  pub closed : Bool
  pub video_track : Option (List (List ℕ))
  pub audio_track : Option (List (List ℕ))
  pub control_channel : Option DataChannel
  pub input_channel : Option DataChannel

pub record IceServer : Type 0 where
  pub url : Bytes
  pub username : Bytes
  pub credential : Bytes

-- `made` is the number of connections ever made, and the next one's.
pub record Manager : Type 0 where
  pub ice_servers : List IceServer
  pub connections : List (ℕ × ℕ)
  pub conns : ℕ → PeerConnection
  pub made : ℕ

-- The credentials go to the TURN servers, if there is a user name.
unfoldable pub ice_server : Bytes → Bytes → Bytes → IceServer
ice_server username credential url =
    if not (is_empty username) && (ltb 4 (length url) && text_eq (take 4 url) (codes "turn"))
    then record { url = url; username = username; credential = credential }
    else record { url = url; username = []; credential = [] }

unfoldable pub ice_servers_of : Bytes → Bytes → List Bytes → List IceServer
ice_servers_of username credential [] = []
ice_servers_of username credential (url ∷ urls) =
    ice_server username credential url ∷ ice_servers_of username credential urls

abbrev pub new_connection : ℕ → PeerConnection
new_connection peer = record {
  id = peer;
  closed = false;
  video_track = none;
  audio_track = none;
  control_channel = none;
  input_channel = none;
}

-- The flags are whether the two codecs are registered.
unfoldable pub new_manager : List Bytes → Bytes → Bytes → Bool → Bool → Option Manager
new_manager urls username credential video audio =
    if video && audio
    then some (record {
      ice_servers = ice_servers_of username credential urls;
      connections = [];
      conns = new_connection;
      made = 0;
    })
    else none

-- The flag is whether the library makes a connection. The result is that connection.
unfoldable pub create_peer_connection : Manager → ℕ → Bool → Manager × Option ℕ
create_peer_connection m peer succeeds =
    if succeeds
    then (
      record m {
        connections = insert peer m.made m.connections;
        conns = update m.conns m.made (new_connection peer);
        made = m.made + 1;
      },
      some m.made,
    )
    else (m, none)

unfoldable pub get_peer_connection : Manager → ℕ → Option ℕ
get_peer_connection m peer = lookup peer m.connections

unfoldable pub close : PeerConnection → PeerConnection
close p = record p { closed = true }

unfoldable pub remove_peer_connection : Manager → ℕ → Manager
remove_peer_connection m peer = elim (lookup peer m.connections) [
  | none ↦ m
  | some c ↦ record m {
    conns = update m.conns c (close (m.conns c));
    connections = delete peer m.connections;
  }
]

-- The states that the callback tells apart.
pub data ConnectionState : Type 0 where
  connection_failed connection_closed connection_other : ConnectionState

-- The callback that `CreatePeerConnection` sets, for the peer that it was given. The library calls
-- it in a goroutine of its own.
unfoldable pub on_connection_state_change : Manager → ℕ → ConnectionState → Manager
on_connection_state_change m peer connection_failed = remove_peer_connection m peer
on_connection_state_change m peer connection_closed = remove_peer_connection m peer
on_connection_state_change m peer connection_other = m

-- The loop over the map, on the connections that are its values.
unfoldable pub for_each :
    (PeerConnection → PeerConnection) → List (ℕ × ℕ) → (ℕ → PeerConnection) → ℕ → PeerConnection
for_each f [] conns = conns
for_each f ((peer, c) ∷ rest) conns = for_each f rest (update conns c (f (conns c)))

unfoldable pub close_all : Manager → Manager
close_all m = record m { conns = for_each close m.connections m.conns; connections = [] }

abbrev written : List ℕ → Option (List (List ℕ)) → Option (List (List ℕ))
written d none = none
written d (some sent) = some (sent ++ d ∷ [])

-- With no track, nothing is sent. The errors of `Write` are not looked at by the broadcasts.
unfoldable pub send_video : List ℕ → PeerConnection → PeerConnection
send_video d p = record p { video_track = written d p.video_track }

unfoldable pub send_audio : List ℕ → PeerConnection → PeerConnection
send_audio d p = record p { audio_track = written d p.audio_track }

unfoldable pub broadcast_video : Manager → List ℕ → Manager
broadcast_video m d = record m { conns = for_each (send_video d) m.connections m.conns }

unfoldable pub broadcast_audio : Manager → List ℕ → Manager
broadcast_audio m d = record m { conns = for_each (send_audio d) m.connections m.conns }

-- The flags are whether each track is made and added; the result's is whether there is no error.
unfoldable pub setup_tracks : Bool → Bool → Bool → Bool → PeerConnection → PeerConnection × Bool
setup_tracks makes_video adds_video makes_audio adds_audio p =
    let with_video : PeerConnection = record p { video_track = some [] } in
    if makes_video && adds_video
    then (if makes_audio && adds_audio
        then (record with_video { audio_track = some [] }, true)
        else (with_video, false))
    else (p, false)

abbrev channel : Option DataChannel
channel = some (record { is_open = false; sent = [] })

unfoldable pub setup_data_channels : Bool → Bool → PeerConnection → PeerConnection × Bool
setup_data_channels control input p =
    let cleared : PeerConnection = record p { control_channel = none; input_channel = none } in
    let with_control : PeerConnection = record cleared { control_channel = channel } in
    if control
    then (if input
        then (record with_control { input_channel = channel }, true)
        else (with_control, false))
    else (cleared, false)

unfoldable pub send_control : List ℕ → PeerConnection → PeerConnection
send_control d p = elim p.control_channel [
  | none ↦ p
  | some dc ↦
      if dc.is_open
      then record p { control_channel = some (record dc { sent = dc.sent ++ d ∷ [] }) }
      else p
]
