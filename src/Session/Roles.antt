-- ===== src/Session/Roles.antt =====
-- Changes of role that follow one another, departures, and the host's place.
use Prim.Native.String.{String}
use moonparty.Base.{ℕ, ◌≡◌, ◌≢◌, refl, false, none, some, arith, pos}
use moonparty.Base.Assoc.{lookup, update, lookup-delete}
use moonparty.Session.{
  Session, already_has_host, player, spectator, add_host, promote_to_player, demote_to_spectator,
  remove_peer, free_slot, seat, unseat,
}
use moonparty.Session.Invariant.{Inv}
use moonparty.Session.Slots.{promote_to_player_found, promote_to_player_success}
use moonparty.Session.History.{Reach, Reach-host}

demote_to_spectator-player :
    (s : Session) (id p : ℕ)
    → lookup id s.peers ≡ some p
    → (s.store p).role ≡ player
    → demote_to_spectator s id ≡ (unseat s p, none)
unfolding demote_to_spectator
demote_to_spectator-player s id p here r = rw (here, r, demote_to_spectator)

-- In a well-formed session, a spectator without the keyboard that is promoted and then demoted is
-- as before: the map, every slot and every object are those of the start.
pub demote_to_spectator-promote_to_player :
    (s t : Session) (id p i : ℕ)
    → Inv s
    → lookup id s.peers ≡ some p
    → (s.store p).role ≡ spectator
    → (s.store p).keyboard_enabled ≡ false
    → promote_to_player s id ≡ (t, pos i, none)
    → ((demote_to_spectator t id).1 ≡ none)
      × ((demote_to_spectator t id).0.peers ≡ s.peers)
      × ((k : ℕ) → (demote_to_spectator t id).0.player_slot k ≡ s.player_slot k)
      × ((q : ℕ) → (demote_to_spectator t id).0.store q ≡ s.store q)
unfolding update free_slot
demote_to_spectator-promote_to_player s t id p i v here out off h =
    let (e, f) = promote_to_player_found s t id p i here out h in
    let found = promote_to_player_success s t id p i here out h in
    let back = demote_to_spectator-player (seat s p i) id p here (ground arith) in
    rw (← e, back)
      (refl, refl, λ k. ground (arith, found.1, found.3), λ q. ground (arith, v.placed id p))

-- A peer that leaves a well-formed session is gone from the map and from the slots. The other
-- peers of the map, the slots that it did not hold and all objects stay as they are.
pub remove_peer_frees :
    (s : Session) (id p : ℕ)
    → Inv s
    → lookup id s.peers ≡ some p
    → (lookup id (remove_peer s id).peers ≡ none)
      × ((i : ℕ) → (remove_peer s id).player_slot i ≢ some p)
      × ((k : ℕ) → k ≢ id → lookup k (remove_peer s id).peers ≡ lookup k s.peers)
      × ((i : ℕ) → s.player_slot i ≢ some p → (remove_peer s id).player_slot i ≡ s.player_slot i)
      × ((remove_peer s id).store ≡ s.store)
unfolding remove_peer free_slot update
remove_peer_frees s id p v here =
    rw (here, remove_peer)
      (
        ground (arith, lookup-delete id id s.peers),
        λ i h. ground (arith, v.seated i p, v.placed id p),
        λ k ne. ground (arith, lookup-delete id k s.peers),
        λ i ne. ground (arith, v.placed id p),
        refl,
      )

-- Once a session has a host, the field `host` keeps pointing to that object whatever calls follow,
-- also when the host is removed, and no other host can be added.
pub host_permanent :
    (s t : Session) (p uuid now : ℕ) (name : String)
    → s.host ≡ some p
    → Reach s t
    → (t.host ≡ some p) × (add_host t uuid now name ≡ (t, none, some already_has_host))
unfolding add_host
host_permanent s t p uuid now name h r = let e = Reach-host s p h r in (e, ground arith)
