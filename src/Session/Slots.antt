-- ===== src/Session/Slots.antt =====
-- Who holds which of the four player slots.
use moonparty.Base.{
  ℕ, zero, suc, ◌+◌, ◌≤◌, ◌<◌, ◌≡◌, ◌≢◌, ◌↔◌, refl, ap, inl, inr, true, Option, none, some, arith,
  ℤ, pos, negsuc, ltb_ℤ, Option-cases,
}
use moonparty.Base.Assoc.{lookup, update}
use moonparty.Session.{
  Session, SessionError, no_player_slots, player, spectator, is_player, new_session,
  promote_to_player, find_slot, available_slot, seat,
}
use moonparty.Session.Invariant.{Inv}
use moonparty.Session.Preservation.{find_slot_lem}
use moonparty.Session.History.{Reach, new_session-Reach-Inv}

-- In a session reached by any calls, two connected peers with the same slot number, a slot that is
-- not -1, are the same peer and the same object.
pub slot_exclusive :
    (id now : ℕ) (m : ℤ) (s : Session) (a b p q i : ℕ)
    → Reach (new_session id now m) s
    → lookup a s.peers ≡ some p
    → lookup b s.peers ≡ some q
    → (s.store p).player_slot ≡ pos i
    → (s.store q).player_slot ≡ pos i
    → (p ≡ q) × (a ≡ b)
slot_exclusive id now m s a b p q i r ha hb hp hq =
    let v = new_session-Reach-Inv id now m s r in
    ground (arith, v.placed a p, v.placed b q, v.allocated a p, v.allocated b q)

slot_above :
    (s : Session) (k i : ℕ) → Inv s → s.max_players ≡ pos k → 0 < i → k ≤ i → s.player_slot i ≡ none
slot_above s k i v e low high = elim (Option-cases (s.player_slot i)) [
  | inl free ↦ free
  | inr (p, taken) ↦ ground (arith, v.seated i p)
]

find_slot_first :
    (n i : ℕ) (slots : ℕ → Option ℕ) (m : ℤ) (j k : ℕ)
    → find_slot n i slots m ≡ pos j
    → i ≤ k
    → k < j
    → (p : ℕ) × (slots k ≡ some p)
unfolding find_slot
find_slot_first zero i slots m j k h low high = cc
find_slot_first (suc n) i slots m j k h low high = elim (Option-cases (slots k)) [
  | inr taken ↦ taken
  | inl free ↦ ground (arith, find_slot_first n (i + 1) slots m j k)
]

find_slot_none :
    (n i : ℕ) (slots : ℕ → Option ℕ) (m : ℤ) (e k : ℕ)
    → find_slot n i slots m ≡ negsuc e
    → i ≤ k
    → k < i + n
    → k < 4
    → ltb_ℤ (pos k) m ≡ true
    → (p : ℕ) × (slots k ≡ some p)
unfolding find_slot
find_slot_none zero i slots m e k h low high four limit = absurd (omega arith)
find_slot_none (suc n) i slots m e k h low high four limit = elim (Option-cases (slots k)) [
  | inr taken ↦ taken
  | inl free ↦ ground (arith, find_slot_none n (i + 1) slots m e k)
]

-- The two outcomes for a spectator of the map, by the slot that the search found.
abbrev outcome : Session → ℕ → ℤ → Session × ℤ × Option SessionError
outcome s p (negsuc _) = (s, negsuc 0, some no_player_slots)
outcome s p (pos i) = (seat s p i, pos i, none)

promote_to_player-outcome :
    (s : Session) (id p : ℕ) (z : ℤ)
    → lookup id s.peers ≡ some p
    → (s.store p).role ≡ spectator
    → available_slot s ≡ z
    → promote_to_player s id ≡ outcome s p z
unfolding promote_to_player
promote_to_player-outcome s id p (negsuc n) here out e = rw (here, out, e, promote_to_player)
promote_to_player-outcome s id p (pos i) here out e =
    rw (here, ap is_player out, e, promote_to_player)

found_at :
    (s t : Session) (id p i : ℕ) (z : ℤ)
    → lookup id s.peers ≡ some p
    → (s.store p).role ≡ spectator
    → available_slot s ≡ z
    → promote_to_player s id ≡ (t, pos i, none)
    → (seat s p i ≡ t) × (available_slot s ≡ pos i)
found_at s t id p i (negsuc n) here out e h =
    let f = promote_to_player-outcome s id p (negsuc n) here out e in cc
found_at s t id p i (pos j) here out e h =
    let f = promote_to_player-outcome s id p (pos j) here out e in ground (arith, f)

pub promote_to_player_found :
    (s t : Session) (id p i : ℕ)
    → lookup id s.peers ≡ some p
    → (s.store p).role ≡ spectator
    → promote_to_player s id ≡ (t, pos i, none)
    → (seat s p i ≡ t) × (available_slot s ≡ pos i)
promote_to_player_found s t id p i here out h =
    found_at s t id p i (available_slot s) here out refl h

promote_to_player_refused :
    (s : Session) (id p : ℕ) (z : ℤ)
    → lookup id s.peers ≡ some p
    → (s.store p).role ≡ spectator
    → available_slot s ≡ z
    → promote_to_player s id ≡ (s, negsuc 0, some no_player_slots)
    → (e : ℕ) × (available_slot s ≡ negsuc e)
promote_to_player_refused s id p (negsuc n) here out e h = (n, e)
promote_to_player_refused s id p (pos j) here out e h =
    let f = promote_to_player-outcome s id p (pos j) here out e in absurd (cc)

available_slot_none :
    (s : Session) (z : ℤ)
    → available_slot s ≡ z
    → ((k : ℕ)
        → 1 ≤ k
        → k < 4
        → ltb_ℤ (pos k) s.max_players ≡ true
        → (q : ℕ) × (s.player_slot k ≡ some q))
    → (e : ℕ) × (available_slot s ≡ negsuc e)
unfolding available_slot
available_slot_none s (negsuc n) e full = (n, e)
available_slot_none s (pos j) e full =
    let (low, high, limit, free) = find_slot_lem 3 1 s.player_slot s.max_players j e in
    absurd (ground (arith, full j low high limit))

-- A spectator of the map that is promoted gets a slot from 1 to 3 below the player limit that was
-- free, where every slot from 1 up to it was taken. It is seated there as a player, and every
-- other slot and every other object is as it was.
pub promote_to_player_success :
    (s t : Session) (id p i : ℕ)
    → lookup id s.peers ≡ some p
    → (s.store p).role ≡ spectator
    → promote_to_player s id ≡ (t, pos i, none)
    → (1 ≤ i)
      × (i < 4)
      × (ltb_ℤ (pos i) s.max_players ≡ true)
      × (s.player_slot i ≡ none)
      × ((k : ℕ) → 1 ≤ k → k < i → (q : ℕ) × (s.player_slot k ≡ some q))
      × ((t.store p).role ≡ player)
      × ((t.store p).player_slot ≡ pos i)
      × (t.player_slot i ≡ some p)
      × ((k : ℕ) → k ≢ i → t.player_slot k ≡ s.player_slot k)
      × ((q : ℕ) → q ≢ p → t.store q ≡ s.store q)
unfolding update available_slot
promote_to_player_success s t id p i here out h =
    let (e, f) = promote_to_player_found s t id p i here out h in
    let (low, high, limit, free) = find_slot_lem 3 1 s.player_slot s.max_players i f in
    (
      low,
      high,
      limit,
      free,
      λ k hk hi. find_slot_first 3 1 s.player_slot s.max_players i k f hk hi,
      rw (← e) (ground arith),
      rw (← e) (ground arith),
      rw (← e) (ground arith),
      λ k ne. rw (← e) (ground arith),
      λ q ne. rw (← e) (ground arith),
    )

-- A spectator of the map is refused, with -1 and nothing changed, exactly when every slot from 1 to
-- 3 below the player limit is taken.
pub promote_to_player_full :
    (s : Session) (id p : ℕ)
    → lookup id s.peers ≡ some p
    → (s.store p).role ≡ spectator
    → (promote_to_player s id ≡ (s, negsuc 0, some no_player_slots)) ↔ (
        (k : ℕ)
        → 1 ≤ k
        → k < 4
        → ltb_ℤ (pos k) s.max_players ≡ true
        → (q : ℕ) × (s.player_slot k ≡ some q))
unfolding available_slot
promote_to_player_full s id p here out = (
  λ h k low high limit.
      let (e, f) = promote_to_player_refused s id p (available_slot s) here out refl h in
      find_slot_none 3 1 s.player_slot s.max_players e k f low high high limit,
  λ full.
      let (e, f) = available_slot_none s (available_slot s) refl full in
      promote_to_player-outcome s id p (negsuc e) here out f,
)
