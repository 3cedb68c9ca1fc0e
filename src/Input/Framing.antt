-- ===== src/Input/Framing.antt =====
-- Every event of the input stream, and the size that each of its packets states.
use moonparty.Base.{
  ◌-ℤ◌, pos_part, neg_part, ℕ, zero, suc, ◌+◌, ◌<◌, ◌≡◌, refl, Bool, true, ◌&&◌, ◌==◌, eq→==, List,
  [], ◌∷◌, arith, length, ℤ,
}
use moonparty.Base.Bytes.{be32_at}
use moonparty.Input.{Stream, Packet, Outcome, returned, blocked}
use moonparty.Input.Packets.{
  Axes, Contact, build_rel_mouse_move_packet, build_mouse_button_packet, build_keyboard_packet,
  build_scroll_packet, build_multi_controller_packet, build_utf8_text_packet,
}
use moonparty.Input.Send.{
  notch, batched, Float32, send_mouse_move, send_mouse_position, send_mouse_button, send_keyboard,
  send_scroll, send_h_scroll, scroll_loop, send_batched_scroll,
}
use moonparty.Input.Devices.{
  limited, limited_mask, fixed_buttons, send_multi_controller, send_controller_arrival, send_touch,
  send_pen, send_controller_motion, send_controller_battery, send_utf8_text,
}

-- A packet states the length of what follows its first four bytes.
abbrev pub is_framed : List ℕ → Bool
is_framed bytes = be32_at bytes 0 + 4 == length bytes

pub all_framed : List Packet → Bool
all_framed [] = true
all_framed (p ∷ ps) = let rest = all_framed ps in is_framed p.bytes && rest

-- The packets that a call hands to `sendFunc`.
abbrev pub sent : Outcome → List Packet
sent (returned s packets err) = packets
sent (blocked packets) = packets

module _ (s : Stream) where
  rel_mouse_move_framed : (x y : ℤ) → is_framed (build_rel_mouse_move_packet s x y) ≡ true
  unfolding build_rel_mouse_move_packet
  rel_mouse_move_framed x y = refl

  mouse_button_framed : (a : ℕ) (b : ℤ) → is_framed (build_mouse_button_packet s a b) ≡ true
  unfolding build_mouse_button_packet
  mouse_button_framed a b = refl

  keyboard_framed : (k : ℤ) (a m f : ℕ) → is_framed (build_keyboard_packet s k a m f) ≡ true
  unfolding build_keyboard_packet
  keyboard_framed k a m f = refl

  scroll_framed : (a : ℤ) → is_framed (build_scroll_packet s a) ≡ true
  unfolding build_scroll_packet
  scroll_framed a = refl

  multi_controller_framed :
      (n m : ℤ) (b : ℕ) (a : Axes) → is_framed (build_multi_controller_packet s n m b a) ≡ true
  unfolding build_multi_controller_packet
  multi_controller_framed n m b a = ground arith

utf8_text_framed :
    (text : List ℕ) → length text < 4294967292 → is_framed (build_utf8_text_packet text) ≡ true
unfolding build_utf8_text_packet
utf8_text_framed text h = eq→== _ _ (omega arith)

-- A call of a method, with its arguments.
pub data Event : Type 0 where
  mouse_move : Bool → ℤ → ℤ → Event
  mouse_position : Float32 → Bool → ℤ → ℤ → ℤ → ℤ → Event
  mouse_button : Bool → ℕ → ℤ → Event
  keyboard : Bool → ℤ → ℕ → ℕ → ℕ → Event
  scroll : (ℕ → Bool) → ℤ → Event
  h_scroll : Bool → ℤ → Event
  multi_controller : Bool → ℤ → ℤ → ℤ → Axes → Event
  controller_arrival : Bool → Bool → ℕ → ℕ → ℕ → ℕ → ℕ → Event
  touch : Bool → ℕ → ℕ → Contact → ℕ → Event
  pen : Bool → ℕ → ℕ → ℕ → Contact → ℕ → ℕ → Event
  controller_motion : Bool → ℕ → ℕ → ℕ → ℕ → ℕ → Event
  controller_battery : Bool → ℕ → ℕ → ℕ → Event
  utf8_text : Bool → List ℕ → Event

unfoldable pub handle : Stream → Event → Outcome
handle s (mouse_move ok x y) = send_mouse_move s ok x y
handle s (mouse_position f ok x y w h) = send_mouse_position s f ok x y w h
handle s (mouse_button ok action button) = send_mouse_button s ok action button
handle s (keyboard ok key action modifiers flags) = send_keyboard s ok key action modifiers flags
handle s (scroll ok amount) = send_scroll s ok amount
handle s (h_scroll ok amount) = send_h_scroll s ok amount
handle s (multi_controller ok n mask buttons axes) = send_multi_controller s ok n mask buttons axes
handle s (controller_arrival ok second n mask type buttons capabilities) =
    send_controller_arrival s ok second n mask type buttons capabilities
handle s (touch ok type id contact rotation) = send_touch s ok type id contact rotation
handle s (pen ok type tool buttons contact rotation tilt) =
    send_pen s ok type tool buttons contact rotation tilt
handle s (controller_motion ok n type x y z) = send_controller_motion s ok n type x y z
handle s (controller_battery ok n state percentage) =
    send_controller_battery s ok n state percentage
handle s (utf8_text ok text) = send_utf8_text s ok text

scroll_loop_framed :
    (n : ℕ) (s : Stream) (ok : ℕ → Bool) (k : ℕ) → all_framed (sent (scroll_loop n s ok k)) ≡ true
unfolding scroll_loop all_framed
scroll_loop_framed zero s ok k = refl
scroll_loop_framed (suc n) s ok k = ground (
  arith,
  scroll_framed s (notch s.batched_scroll_delta),
  scroll_loop_framed n
      (record s { batched_scroll_delta = s.batched_scroll_delta -ℤ notch s.batched_scroll_delta })
      ok (k + 1),
)

send_batched_scroll_framed :
    (s : Stream) (ok : ℕ → Bool) (a : ℤ) → all_framed (sent (send_batched_scroll s ok a)) ≡ true
unfolding send_batched_scroll
send_batched_scroll_framed s ok a =
    let delta = batched s.batched_scroll_delta a in
    scroll_loop_framed (pos_part delta + neg_part delta) (record s { batched_scroll_delta = delta })
      ok 0

send_scroll_framed :
    (s : Stream) (ok : ℕ → Bool) (a : ℤ) → all_framed (sent (send_scroll s ok a)) ≡ true
unfolding send_scroll all_framed
send_scroll_framed s ok a = ground (
  arith,
  send_batched_scroll_framed (record s { locked = true }) ok a,
  scroll_framed (record s { locked = true }) a,
)

-- A text whose size fits its field.
abbrev pub IsShort : Event → Type 0
IsShort (utf8_text ok text) = length text < 4294967292
IsShort _ = 0 < 1

-- Every packet of every event states in its first four bytes the number of bytes that follow them,
-- where the event is a text, if that number fits the field.
pub handle_framed : (s : Stream) (e : Event) → IsShort e → all_framed (sent (handle s e)) ≡ true
unfolding handle all_framed send_mouse_move send_mouse_position send_mouse_button send_keyboard
    send_h_scroll send_multi_controller send_controller_arrival send_touch send_pen
    send_controller_motion send_controller_battery send_utf8_text
handle_framed s (mouse_move ok x y) h = ground (arith, rel_mouse_move_framed s x y)
handle_framed s (mouse_position f ok x y w k) h = ground arith
handle_framed s (mouse_button ok action button) h = ground arith
handle_framed s (keyboard ok key action modifiers flags) h = ground arith
handle_framed s (scroll ok amount) h = send_scroll_framed s ok amount
handle_framed s (h_scroll ok amount) h = ground arith
handle_framed s (multi_controller ok n mask buttons axes) h = ground (
  arith,
  multi_controller_framed (record s { locked = true }) (limited s n) (limited_mask s mask)
      (fixed_buttons s buttons) axes,
)
handle_framed s (controller_arrival ok second n mask type buttons capabilities) h = ground arith
handle_framed s (touch ok type id contact rotation) h = ground arith
handle_framed s (pen ok type tool buttons contact rotation tilt) h = ground arith
handle_framed s (controller_motion ok n type x y z) h = ground arith
handle_framed s (controller_battery ok n state percentage) h = ground arith
handle_framed s (utf8_text ok text) h = ground (arith, utf8_text_framed text h)
