-- ===== src/Session/Invariant.antt =====
-- The well-formedness of a session, what the methods that add a peer do to it, and a new session.
use Prim.Native.String.{String}
use moonparty.Base.{
  ℕ, ◌<◌, ◌≡◌, ◌⊎◌, inl, inr, ◌≢◌, true, some, arith, ℤ, pos, negsuc, ltb_ℤ, Option-cases,
}
use moonparty.Base.Assoc.{lookup, update, lookup-insert}
use moonparty.Session.{Session, host, spectator, is_player, new_session, add_host, add_spectator}

-- A peer of the map is a spectator without a slot, or sits in the slot that it names.
abbrev pub IsPlaced : Session → ℕ → Type 0
IsPlaced s p =
    (((s.store p).role ≡ spectator) × ((s.store p).player_slot ≡ negsuc 0))
    ⊎ ((i : ℕ) × (is_player (s.store p).role ≡ true)
        × ((s.store p).player_slot ≡ pos i)
        × (s.player_slot i ≡ some p))

-- The object in a slot is a peer of the map that names the slot. Slot 0 is the host's, and the
-- others are below the limit.
abbrev pub IsSeated : Session → ℕ → ℕ → Type 0
IsSeated s i p =
    (i < 4)
    × ((s.store p).player_slot ≡ pos i)
    × (is_player (s.store p).role ≡ true)
    × (lookup (s.store p).id s.peers ≡ some p)
    × ((i ≡ 0) ⊎ (ltb_ℤ (pos i) s.max_players ≡ true))

abbrev pub IsHost : Session → ℕ → Type 0
IsHost s p = (p < s.next_ptr) × ((s.store p).role ≡ host) × ((s.store p).player_slot ≡ pos 0)

pub record Inv (s : Session) : Type 0 where
  pub allocated : (k p : ℕ) → lookup k s.peers ≡ some p → (p < s.next_ptr) × ((s.store p).id ≡ k)
  pub placed : (k p : ℕ) → lookup k s.peers ≡ some p → IsPlaced s p
  pub seated : (i p : ℕ) → s.player_slot i ≡ some p → IsSeated s i p
  pub host_kept : (p : ℕ) → s.host ≡ some p → IsHost s p
  pub host_only : (k p : ℕ) → lookup k s.peers ≡ some p → (s.store p).role ≡ host → s.host ≡ some p
  pub host_first : (p : ℕ) → s.player_slot 0 ≡ some p → s.host ≡ some p

-- A uuid that no object of the session has had.
abbrev pub IsFresh : Session → ℕ → Type 0
IsFresh s uuid = (p : ℕ) → p < s.next_ptr → (s.store p).id ≢ uuid

pub new_session-Inv : (id now : ℕ) (m : ℤ) → Inv (new_session id now m)
unfolding new_session lookup
new_session-Inv id now m = record {
  allocated = λ k p h. ground arith;
  placed = λ k p h. ground arith;
  seated = λ i p h. ground arith;
  host_kept = λ p h. ground arith;
  host_only = λ k p h r. ground arith;
  host_first = λ p h. ground arith;
}

module _ (s : Session) (uuid now : ℕ) (name : String) (v : Inv s) (fresh : IsFresh s uuid) where
  pub add_spectator-Inv : Inv (add_spectator s uuid now name).0
  unfolding add_spectator update
  add_spectator-Inv = record {
    allocated = λ k p h. ground (arith, lookup-insert uuid k s.next_ptr s.peers, v.allocated k p);
    placed = λ k p h.
        ground (arith, lookup-insert uuid k s.next_ptr s.peers, v.allocated k p, v.placed k p);
    seated = λ i p h. ground (
      arith,
      v.seated i p,
      v.allocated (s.store p).id p,
      lookup-insert uuid (s.store p).id s.next_ptr s.peers,
      fresh p,
    );
    host_kept = λ p h. ground (arith, v.host_kept p);
    host_only = λ k p h r.
        ground (arith, lookup-insert uuid k s.next_ptr s.peers, v.allocated k p, v.host_only k p);
    host_first = λ p h. ground (arith, v.host_first p);
  }

  pub add_host-Inv : Inv (add_host s uuid now name).0
  unfolding add_host update
  add_host-Inv = elim (Option-cases s.host) [
    | inr (q, e) ↦ rw (e, add_host) v
    | inl e ↦
        rw (e, add_host)
          (record {
            allocated =
                λ k p h. ground (arith, lookup-insert uuid k s.next_ptr s.peers, v.allocated k p);
            placed = λ k p h. ground (
              arith,
              lookup-insert uuid k s.next_ptr s.peers,
              v.allocated k p,
              v.placed k p,
              v.host_first p,
            );
            seated = λ i p h. ground (
              arith,
              v.seated i p,
              v.allocated (s.store p).id p,
              lookup-insert uuid (s.store p).id s.next_ptr s.peers,
              lookup-insert uuid uuid s.next_ptr s.peers,
              fresh p,
            );
            host_kept = λ p h. ground arith;
            host_only = λ k p h r.
                ground (
                  arith,
                  lookup-insert uuid k s.next_ptr s.peers,
                  v.allocated k p,
                  v.host_only k p,
                );
            host_first = λ p h. ground arith;
          })
  ]
