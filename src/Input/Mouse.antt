-- ===== src/Input/Mouse.antt =====
-- The relative mouse: what is sent of a sequence of moves.
use moonparty.Base.{
  ◌≡◌, refl, Bool, true, false, ◌&&◌, Option, none, some, List, [], ◌∷◌, ◌++◌, arith, ℤ, ◌+ℤ◌,
  eq_of_parts, Bool-cases, inl, inr,
}
use moonparty.Input.{Stream, Packet, returned, blocked, InputError}
use moonparty.Input.Packets.{build_rel_mouse_move_packet}
use moonparty.Input.Send.{
  send_mouse_move, is_zero, reliable, ctrl_channel_mouse, Float32, send_mouse_position,
}
use moonparty.Input.Framing.{sent}

-- The state and the packets after relative moves in a row, where every call of `sendFunc` succeeds.
pub move_all : Stream → List (ℤ × ℤ) → Option (Stream × List Packet)
move_all s [] = some (s, [])
move_all s ((x, y) ∷ moves) = elim (send_mouse_move s true x y) [
  | blocked sent ↦ none
  | returned t sent err ↦ elim (move_all t moves) [
    | none ↦ none
    | some (u, later) ↦ some (u, sent ++ later)
  ]
]

-- The sums of the moves, on top of what has been accumulated.
pub total : ℤ → ℤ → List (ℤ × ℤ) → ℤ × ℤ
total dx dy [] = (dx, dy)
total dx dy ((x, y) ∷ moves) = total (dx +ℤ x) (dy +ℤ y) moves

add_zero : (a x : ℤ) → is_zero x ≡ true → a +ℤ x ≡ a
add_zero a x h = eq_of_parts (a +ℤ x) a (ground arith)

move_dirty :
    (s : Stream) (x y : ℤ)
    → s.initialized ≡ true
    → s.locked ≡ false
    → s.current_rel_mouse_state.dirty ≡ true
    → send_mouse_move s true x y
      ≡ returned
          (record s {
            current_rel_mouse_state = record {
              delta_x = s.current_rel_mouse_state.delta_x +ℤ x;
              delta_y = s.current_rel_mouse_state.delta_y +ℤ y;
              dirty = true;
            };
          })
          []
          none
unfolding send_mouse_move
move_dirty s x y i l d = elim (Bool-cases (is_zero x && is_zero y)) [
  | inl e ↦ ground (
    arith,
    add_zero s.current_rel_mouse_state.delta_x x,
    add_zero s.current_rel_mouse_state.delta_y y,
  )
  | inr e ↦ ground arith
]

move_all_step :
    (s t u : Stream) (x y : ℤ) (moves : List (ℤ × ℤ)) (now later : List Packet)
    → send_mouse_move s true x y ≡ returned t now none
    → move_all t moves ≡ some (u, later)
    → move_all s ((x, y) ∷ moves) ≡ some (u, now ++ later)
unfolding move_all
move_all_step s t u x y moves now later h k = ground arith

-- The stream with its relative mouse at the given sums, waiting to be sent.
abbrev moved : Stream → ℤ × ℤ → Stream
moved s sums = record s {
  current_rel_mouse_state = record { delta_x = sums.0; delta_y = sums.1; dirty = true };
}

move_all_dirty :
    (s : Stream) (moves : List (ℤ × ℤ)) (dx dy : ℤ)
    → s.initialized ≡ true
    → s.locked ≡ false
    → move_all (moved s (dx, dy)) moves ≡ some (moved s (total dx dy moves), [])
unfolding move_all total
move_all_dirty s [] dx dy i l = refl
move_all_dirty s ((x, y) ∷ moves) dx dy i l =
    move_all_step (moved s (dx, dy)) (moved s (dx +ℤ x, dy +ℤ y)) _ x y moves [] []
      (move_dirty (moved s (dx, dy)) x y i l refl) (move_all_dirty s moves (dx +ℤ x) (dy +ℤ y) i l)

move_first :
    (s : Stream) (x y : ℤ)
    → s.initialized ≡ true
    → s.locked ≡ false
    → s.current_rel_mouse_state.dirty ≡ false
    → (is_zero x && is_zero y) ≡ false
    → send_mouse_move s true x y
      ≡ returned
          (moved s (s.current_rel_mouse_state.delta_x +ℤ x, s.current_rel_mouse_state.delta_y +ℤ y))
          (reliable ctrl_channel_mouse (build_rel_mouse_move_packet s x y) ∷ [])
          none
unfolding send_mouse_move
move_first s x y i l d nz = ground arith

-- Of relative moves in a row, on an open stream that has sent none, only the first is sent, if it is
-- not (0, 0), however many follow and although every write succeeds. The others are added to the sums of
-- the state and never leave it.
pub move_all_first :
    (s : Stream) (x y : ℤ) (moves : List (ℤ × ℤ))
    → s.initialized ≡ true
    → s.locked ≡ false
    → s.current_rel_mouse_state.dirty ≡ false
    → (is_zero x && is_zero y) ≡ false
    → (t : Stream) × (move_all s ((x, y) ∷ moves)
        ≡ some (t, reliable ctrl_channel_mouse (build_rel_mouse_move_packet s x y) ∷ []))
      × ((t.current_rel_mouse_state.delta_x, t.current_rel_mouse_state.delta_y)
          ≡ total s.current_rel_mouse_state.delta_x s.current_rel_mouse_state.delta_y
              ((x, y) ∷ moves))
unfolding move_all total
move_all_first s x y moves i l d nz =
    let dx = s.current_rel_mouse_state.delta_x +ℤ x in
    let dy = s.current_rel_mouse_state.delta_y +ℤ y in
    (
      moved s (total dx dy moves),
      move_all_step s (moved s (dx, dy)) _ x y moves _ [] (move_first s x y i l d nz)
          (move_all_dirty s moves dx dy i l),
      refl,
    )

-- After an absolute position on an open stream, sent or not, no later one is sent.
pub send_mouse_position_once :
    (s t : Stream) (f : Float32) (ok again : Bool) (x y w h x' y' w' h' : ℤ) (packets : List Packet)
    (err : Option InputError)
    → s.initialized ≡ true
    → send_mouse_position s f ok x y w h ≡ returned t packets err
    → sent (send_mouse_position t f again x' y' w' h') ≡ []
unfolding send_mouse_position
send_mouse_position_once s t f ok again x y w h x' y' w' h' packets err i e = ground arith
