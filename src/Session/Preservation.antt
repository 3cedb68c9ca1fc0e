-- ===== src/Session/Preservation.antt =====
-- The methods that change a peer's role, its place or its permission keep a session well formed.
use moonparty.Base.{
  ℕ, zero, suc, ◌+◌, ◌≤◌, ◌<◌, ◌≡◌, refl, inl, inr, List, Bool, true, false, Option, none, some,
  arith, ℤ, pos, negsuc, ltb_ℤ, Option-cases, Bool-cases,
}
use moonparty.Base.Assoc.{lookup, delete, update, lookup-delete}
use moonparty.Session.{
  Session, Notice, Role, host, player, spectator, is_host, is_player, promote_to_player,
  demote_to_spectator, remove_peer, set_keyboard_enabled, free_slot, available_slot, find_slot,
  seat, unseat,
}
use moonparty.Session.Invariant.{Inv}

module _ (s : Session) (id p₀ : ℕ) (v : Inv s) (here : lookup id s.peers ≡ some p₀) where
  seat-Inv :
      (i₀ : ℕ)
      → is_player (s.store p₀).role ≡ false
      → 0 < i₀
      → i₀ < 4
      → ltb_ℤ (pos i₀) s.max_players ≡ true
      → s.player_slot i₀ ≡ none
      → Inv (seat s p₀ i₀)
  unfolding update
  seat-Inv i₀ out low high limit free = record {
    allocated = λ k p h. ground (arith, v.allocated k p);
    placed = λ k p h. ground (arith, v.placed k p);
    seated = λ i p h. ground (arith, v.seated i p, v.allocated id p₀);
    host_kept = λ p h. ground (arith, v.host_kept p);
    host_only = λ k p h r. ground (arith, v.host_only k p);
    host_first = λ p h. ground (arith, v.host_first p);
  }

  unseat-Inv : (s.store p₀).role ≡ player → Inv (unseat s p₀)
  unfolding update free_slot
  unseat-Inv seated = record {
    allocated = λ k p h. ground (arith, v.allocated k p);
    placed = λ k p h. ground (arith, v.placed k p, v.placed id p₀);
    seated = λ i p h. ground (arith, v.seated i p, v.placed id p₀);
    host_kept = λ p h. ground (arith, v.host_kept p);
    host_only = λ k p h r. ground (arith, v.host_only k p);
    host_first = λ p h. ground (arith, v.host_first p, v.placed id p₀);
  }

  rekey-Inv :
      (b : Bool)
      → Inv (record s { store = update s.store p₀ (record (s.store p₀) { keyboard_enabled = b }) })
  unfolding update
  rekey-Inv b = record {
    allocated = λ k p h. ground (arith, v.allocated k p);
    placed = λ k p h. ground (arith, v.placed k p);
    seated = λ i p h. ground (arith, v.seated i p);
    host_kept = λ p h. ground (arith, v.host_kept p);
    host_only = λ k p h r. ground (arith, v.host_only k p);
    host_first = λ p h. ground (arith, v.host_first p);
  }

  leave-Inv :
      (ns : List Notice)
      → Inv (record s {
        player_slot = free_slot s.player_slot (s.store p₀).player_slot;
        peers = delete id s.peers;
        notices = ns;
      })
  unfolding update free_slot
  leave-Inv ns = record {
    allocated = λ k p h. ground (arith, v.allocated k p, lookup-delete id k s.peers);
    placed = λ k p h. ground (
      arith,
      v.placed k p,
      v.placed id p₀,
      v.allocated k p,
      v.allocated id p₀,
      lookup-delete id k s.peers,
    );
    seated = λ i p h. ground (
      arith,
      v.seated i p,
      v.placed id p₀,
      v.allocated id p₀,
      lookup-delete id (s.store p).id s.peers,
    );
    host_kept = λ p h. ground (arith, v.host_kept p);
    host_only = λ k p h r. ground (arith, v.host_only k p, lookup-delete id k s.peers);
    host_first = λ p h. ground (arith, v.host_first p, v.placed id p₀);
  }

-- A slot that the search returns is within the limits, empty, and the first such.
pub find_slot_lem :
    (n i : ℕ) (slots : ℕ → Option ℕ) (m : ℤ) (j : ℕ)
    → find_slot n i slots m ≡ pos j
    → (i ≤ j) × (j < 4) × (ltb_ℤ (pos j) m ≡ true) × (slots j ≡ none)
unfolding find_slot
find_slot_lem zero i slots m j h = cc
find_slot_lem (suc n) i slots m j h = ground (arith, find_slot_lem n (i + 1) slots m j)

module _ (s : Session) (id : ℕ) (v : Inv s) where
  pub promote_to_player-Inv : Inv (promote_to_player s id).0
  unfolding promote_to_player
  promote_to_player-Inv = elim (Option-cases (lookup id s.peers)) [
    | inl e ↦ rw (e, promote_to_player) v
    | inr (p, e) ↦ elim (Bool-cases (is_player (s.store p).role)) [
      | inl old ↦ rw (e, old, promote_to_player) v
      | inr out ↦ search_slot p e out (available_slot s) refl
    ]
  ]
    where
      search_slot :
          (p : ℕ)
          → lookup id s.peers ≡ some p
          → is_player (s.store p).role ≡ false
          → (z : ℤ) → available_slot s ≡ z
          → Inv (promote_to_player s id).0
      search_slot p e out (negsuc n) f = rw (e, out, f, promote_to_player) v
      search_slot p e out (pos i) f =
          let (low, high, limit, free) = find_slot_lem 3 1 s.player_slot s.max_players i f in
          rw (e, out, f, promote_to_player) (seat-Inv s id p v e i out low high limit free)

  pub demote_to_spectator-Inv : Inv (demote_to_spectator s id).0
  unfolding demote_to_spectator
  demote_to_spectator-Inv = elim (Option-cases (lookup id s.peers)) [
    | inl e ↦ rw (e, demote_to_spectator) v
    | inr (p, e) ↦ by_role p e (s.store p).role refl
  ]
    where
      by_role :
          (p : ℕ)
          → lookup id s.peers ≡ some p
          → (r : Role) → (s.store p).role ≡ r
          → Inv (demote_to_spectator s id).0
      by_role p e host f = rw (e, f, demote_to_spectator) v
      by_role p e spectator f = rw (e, f, demote_to_spectator) v
      by_role p e player f = rw (e, f, demote_to_spectator) (unseat-Inv s id p v e f)

  pub remove_peer-Inv : Inv (remove_peer s id)
  unfolding remove_peer
  remove_peer-Inv = elim (Option-cases (lookup id s.peers)) [
    | inl e ↦ rw (e, remove_peer) v
    | inr (p, e) ↦ rw (e, remove_peer) (leave-Inv s id p v e _)
  ]

  pub set_keyboard_enabled-Inv : (b : Bool) → Inv (set_keyboard_enabled s id b)
  unfolding set_keyboard_enabled
  set_keyboard_enabled-Inv b = elim (Option-cases (lookup id s.peers)) [
    | inl e ↦ rw (e, set_keyboard_enabled) v
    | inr (p, e) ↦ elim (Bool-cases (is_host (s.store p).role)) [
      | inl h ↦ rw (e, h, set_keyboard_enabled) v
      | inr h ↦ rw (e, h, set_keyboard_enabled) (rekey-Inv s id p v e b)
    ]
  ]
