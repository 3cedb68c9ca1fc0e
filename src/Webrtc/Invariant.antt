-- ===== src/Webrtc/Invariant.antt =====
-- What holds of the WebRTC manager after any calls.
use mathlib.Core.Path.{subst}
use moonparty.Base.Assoc.{
  lookup, delete, update, lookup-insert, lookup-delete, update_self, update_ne,
}
use moonparty.Base.Text.{Bytes}
use moonparty.Base.{
  ℕ, ◌<◌, ◌≢◌, Bool, true, false, inl, inr, Option, none, some, List, [], ◌∷◌, ◌≡◌, refl, ap, sym,
  ◌∙◌, arith, Option-cases, eq-or-ne,
}
use moonparty.Webrtc.{
  PeerConnection, Manager, new_manager, create_peer_connection, close, remove_peer_connection,
  on_connection_state_change, for_each, close_all, send_video, send_audio, broadcast_video,
  broadcast_audio, ConnectionState, connection_failed, connection_closed, connection_other,
  setup_tracks, setup_data_channels, send_control,
}

-- A connection that the map lists was made, for the peer it is listed under, and nothing has closed
-- it.
pub record IsValid (m : Manager) : Type 0 where
  pub was_made : (peer c : ℕ) → lookup peer m.connections ≡ some c → c < m.made
  pub is_peers : (peer c : ℕ) → lookup peer m.connections ≡ some c → (m.conns c).id ≡ peer
  pub is_open : (peer c : ℕ) → lookup peer m.connections ≡ some c → (m.conns c).closed ≡ false

-- No two peers have one connection.
pub distinct :
    (m : Manager) (p q c : ℕ)
    → IsValid m
    → lookup p m.connections ≡ some c
    → lookup q m.connections ≡ some c
    → p ≡ q
distinct m p q c v h k = sym (v.is_peers p c h) ∙ v.is_peers q c k

create_peer_connection-IsValid :
    (m : Manager) (peer : ℕ) (succeeds : Bool)
    → IsValid m
    → IsValid (create_peer_connection m peer succeeds).0
unfolding create_peer_connection update
create_peer_connection-IsValid m peer false v = v
create_peer_connection-IsValid m peer true v = record {
  was_made = λ p c h. ground (arith, lookup-insert peer p m.made m.connections, v.was_made p c);
  is_peers = λ p c h.
      ground (arith, lookup-insert peer p m.made m.connections, v.was_made p c, v.is_peers p c);
  is_open = λ p c h.
      ground (arith, lookup-insert peer p m.made m.connections, v.was_made p c, v.is_open p c);
}

remove_listed-IsValid :
    (m : Manager) (peer d : ℕ)
    → IsValid m
    → lookup peer m.connections ≡ some d
    → IsValid (record m {
      conns = update m.conns d (close (m.conns d));
      connections = delete peer m.connections;
    })
unfolding update close
remove_listed-IsValid m peer d v e = record {
  was_made = λ p c h. ground (arith, lookup-delete peer p m.connections, v.was_made p c);
  is_peers = λ p c h. ground (arith, lookup-delete peer p m.connections, v.is_peers p c);
  is_open = λ p c h.
      ground (
        arith,
        lookup-delete peer p m.connections,
        v.is_open p c,
        v.is_peers p c,
        v.is_peers peer d,
      );
}

pub remove_listed :
    (m : Manager) (peer d : ℕ)
    → lookup peer m.connections ≡ some d
    → remove_peer_connection m peer ≡ record m {
      conns = update m.conns d (close (m.conns d));
      connections = delete peer m.connections;
    }
unfolding remove_peer_connection
remove_listed m peer d e = rw (e, remove_peer_connection) refl

empty-IsValid : (m : Manager) → m.connections ≡ [] → IsValid m
unfolding lookup
empty-IsValid m e = record {
  was_made = λ p c h. absurd (none_listed p c (rw e at h));
  is_peers = λ p c h. absurd (none_listed p c (rw e at h));
  is_open = λ p c h. absurd (none_listed p c (rw e at h));
}
  where
    none_listed : (p c : ℕ) → lookup p [] ≢ some c
    none_listed p c q = cc

remove_peer_connection-IsValid :
    (m : Manager) (peer : ℕ) → IsValid m → IsValid (remove_peer_connection m peer)
unfolding remove_peer_connection
remove_peer_connection-IsValid m peer v = elim (Option-cases (lookup peer m.connections)) [
  | inl e ↦ rw (e, remove_peer_connection) v
  | inr (d, e) ↦ subst IsValid (sym (remove_listed m peer d e)) (remove_listed-IsValid m peer d v e)
]

-- What a step on each connection does not change, the loop over them does not.
for_each-keeps :
    {A : Type 0} (g : PeerConnection → A) (f : PeerConnection → PeerConnection)
    (list : List (ℕ × ℕ)) (conns : ℕ → PeerConnection) (c : ℕ)
    → ((p : PeerConnection) → g (f p) ≡ g p)
    → g (for_each f list conns c) ≡ g (conns c)
unfolding for_each
for_each-keeps g f [] conns c k = refl
for_each-keeps g f ((peer, d) ∷ rest) conns c k =
    for_each-keeps g f rest (update conns d (f (conns d))) c k ∙ elim (eq-or-ne c d) [
      | inl e ↦ rw (e, update_self conns d (f (conns d))) (k (conns d))
      | inr ne ↦ ap g (update_ne conns d (f (conns d)) c ne)
    ]

broadcast-IsValid :
    (m : Manager) (f : PeerConnection → PeerConnection)
    → ((p : PeerConnection) → (f p).id ≡ p.id)
    → ((p : PeerConnection) → (f p).closed ≡ p.closed)
    → IsValid m
    → IsValid (record m { conns = for_each f m.connections m.conns })
broadcast-IsValid m f i o v = record {
  was_made = v.was_made;
  is_peers = λ p c h. for_each-keeps (λ p. p.id) f m.connections m.conns c i ∙ v.is_peers p c h;
  is_open = λ p c h. for_each-keeps (λ p. p.closed) f m.connections m.conns c o ∙ v.is_open p c h;
}

-- One call on the manager, or on one of its connections that closes nothing.
pub data Step : Manager → Manager → Type 0 where
  creates :
      {m : Manager} (peer : ℕ) (succeeds : Bool) → Step m (create_peer_connection m peer succeeds).0
  removes : {m : Manager} (peer : ℕ) → Step m (remove_peer_connection m peer)
  changes :
      {m : Manager} (peer : ℕ) (s : ConnectionState) → Step m (on_connection_state_change m peer s)
  closes_all : {m : Manager} → Step m (close_all m)
  shows : {m : Manager} (d : List ℕ) → Step m (broadcast_video m d)
  plays : {m : Manager} (d : List ℕ) → Step m (broadcast_audio m d)
  sets_up :
      {m : Manager} (c : ℕ) (makes_video adds_video makes_audio adds_audio : Bool)
      → Step m (record m {
        conns =
            update m.conns c
              (setup_tracks makes_video adds_video makes_audio adds_audio (m.conns c)).0;
      })
  opens_channels :
      {m : Manager} (c : ℕ) (control input : Bool)
      → Step m
          (record m { conns = update m.conns c (setup_data_channels control input (m.conns c)).0 })
  sends :
      {m : Manager} (c : ℕ) (d : List ℕ)
      → Step m (record m { conns = update m.conns c (send_control d (m.conns c)) })

pub data Reach : Manager → Type 0 where
  begins :
      {m : Manager} (urls : List Bytes) (username credential : Bytes)
      → new_manager urls username credential true true ≡ some m
      → Reach m
  then_step : {m n : Manager} → Reach m → Step m n → Reach n

update-IsValid :
    (m : Manager) (d : ℕ) (p : PeerConnection)
    → p.id ≡ (m.conns d).id
    → p.closed ≡ (m.conns d).closed
    → IsValid m
    → IsValid (record m { conns = update m.conns d p })
unfolding update
update-IsValid m d p i o v = record {
  was_made = v.was_made;
  is_peers = λ q c h. ground (arith, v.is_peers q c);
  is_open = λ q c h. ground (arith, v.is_open q c);
}

setup_tracks_same :
    (a b c d : Bool) (p : PeerConnection)
    → ((setup_tracks a b c d p).0.id ≡ p.id) × ((setup_tracks a b c d p).0.closed ≡ p.closed)
unfolding setup_tracks
setup_tracks_same a b c d p = (ground arith, ground arith)

setup_data_channels_same :
    (a b : Bool) (p : PeerConnection)
    → ((setup_data_channels a b p).0.id ≡ p.id) × ((setup_data_channels a b p).0.closed ≡ p.closed)
unfolding setup_data_channels
setup_data_channels_same a b p = (ground arith, ground arith)

send_control_same :
    (d : List ℕ) (p : PeerConnection)
    → ((send_control d p).id ≡ p.id) × ((send_control d p).closed ≡ p.closed)
unfolding send_control
send_control_same d p = (ground arith, ground arith)

Step-IsValid : (m n : Manager) → Step m n → IsValid m → IsValid n
unfolding send_video send_audio broadcast_video broadcast_audio close_all on_connection_state_change
Step-IsValid m n (creates peer s) v = create_peer_connection-IsValid m peer s v
Step-IsValid m n (removes peer) v = remove_peer_connection-IsValid m peer v
Step-IsValid m n (changes peer connection_failed) v = remove_peer_connection-IsValid m peer v
Step-IsValid m n (changes peer connection_closed) v = remove_peer_connection-IsValid m peer v
Step-IsValid m n (changes peer connection_other) v = v
Step-IsValid m n closes_all v = empty-IsValid _ refl
Step-IsValid m n (shows d) v = broadcast-IsValid m (send_video d) (λ p. refl) (λ p. refl) v
Step-IsValid m n (plays d) v = broadcast-IsValid m (send_audio d) (λ p. refl) (λ p. refl) v
Step-IsValid m n (sets_up c a b x y) v =
    let (i, o) = setup_tracks_same a b x y (m.conns c) in update-IsValid m c _ i o v
Step-IsValid m n (opens_channels c a b) v =
    let (i, o) = setup_data_channels_same a b (m.conns c) in update-IsValid m c _ i o v
Step-IsValid m n (sends c d) v =
    let (i, o) = send_control_same d (m.conns c) in update-IsValid m c _ i o v

listed : Option Manager → List (ℕ × ℕ)
listed none = []
listed (some m) = m.connections

new_manager-IsValid :
    (m : Manager) (urls : List Bytes) (username credential : Bytes)
    → new_manager urls username credential true true ≡ some m
    → IsValid m
unfolding new_manager listed
new_manager-IsValid m urls username credential e = empty-IsValid m (sym (ap listed e))

-- After any calls from a new manager on: each connection in the map was made for the peer it is
-- listed under, and none of those was closed by it.
pub Reach-IsValid : (m : Manager) → Reach m → IsValid m
Reach-IsValid m (begins urls username credential e) =
    new_manager-IsValid m urls username credential e
Reach-IsValid m (then_step {m = l} r s) = Step-IsValid l m s (Reach-IsValid l r)
