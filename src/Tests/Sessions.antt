-- ===== src/Tests/Sessions.antt =====
-- A session for three players with a host, a promoted player and a spectator.
use moonparty.Base.{ℕ, ◌≡◌, refl, none, arith, pos}
use moonparty.Base.Assoc.{lookup, update, insert, delete}
use moonparty.Session.{
  Session, new_session, add_host, add_spectator, promote_to_player, demote_to_spectator, find_slot,
  available_slot,
}
use moonparty.Session.Invariant.{Inv, IsFresh}
use moonparty.Session.History.{Reach, start, next, hosts, watches, promotes, new_session-Reach-Inv}
use moonparty.Session.Slots.{slot_exclusive, promote_to_player_success}
use moonparty.Session.Roles.{demote_to_spectator-promote_to_player}

abbrev bob : ℕ
bob = 2

abbrev bob_ptr : ℕ
bob_ptr = 1

abbrev pub with_host : Session
with_host = (add_host (new_session 7 100 (pos 3)) 1 101 "Ann").0

abbrev pub with_two : Session
with_two = (add_spectator with_host 2 102 "Bob").0

abbrev pub seated_two : Session
seated_two = (promote_to_player with_two 2).0

abbrev pub with_three : Session
with_three = (add_spectator seated_two 3 103 "Cy").0

IsFresh-1 : IsFresh (new_session 7 100 (pos 3)) 1
unfolding new_session
IsFresh-1 p h = absurd (omega arith)

IsFresh-2 : IsFresh with_host 2
unfolding new_session add_host update
IsFresh-2 p h = ground arith

IsFresh-3 : IsFresh seated_two 3
unfolding new_session add_host add_spectator promote_to_player update available_slot find_slot
    lookup insert
IsFresh-3 p h = ground arith

Reach-two : Reach (new_session 7 100 (pos 3)) with_two
Reach-two = next (next start (hosts 1 101 "Ann" IsFresh-1)) (watches 2 102 "Bob" IsFresh-2)

Reach-three : Reach (new_session 7 100 (pos 3)) with_three
Reach-three = next (next Reach-two (promotes 2)) (watches 3 103 "Cy" IsFresh-3)

pub three_Inv : Inv with_three
three_Inv = new_session-Reach-Inv 7 100 (pos 3) with_three Reach-three

new_session-Reach-Inv_example : Inv with_three
new_session-Reach-Inv_example = new_session-Reach-Inv 7 100 (pos 3) with_three Reach-three

slot_exclusive_example : (bob_ptr ≡ bob_ptr) × (bob ≡ bob)
unfolding new_session add_host add_spectator promote_to_player update available_slot find_slot
    lookup insert delete
slot_exclusive_example =
    slot_exclusive 7 100 (pos 3) with_three bob bob bob_ptr bob_ptr 1 Reach-three refl refl refl
      refl

promote_to_player_success_example : with_two.player_slot 1 ≡ none
unfolding new_session add_host add_spectator promote_to_player update available_slot find_slot
    lookup insert
promote_to_player_success_example =
    (promote_to_player_success with_two seated_two bob bob_ptr 1 refl refl refl).3

abbrev small : Session
small = (add_spectator (add_host (new_session 7 100 (pos 1)) 1 101 "Ann").0 2 102 "Bob").0

two_Inv : Inv with_two
two_Inv = new_session-Reach-Inv 7 100 (pos 3) with_two Reach-two

demote_to_spectator-promote_to_player_example :
    (demote_to_spectator seated_two 2).0.peers ≡ with_two.peers
unfolding new_session add_host add_spectator promote_to_player update available_slot find_slot
    lookup insert
demote_to_spectator-promote_to_player_example =
    (demote_to_spectator-promote_to_player with_two seated_two bob bob_ptr 1 two_Inv refl refl refl
      refl).1
