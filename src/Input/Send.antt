-- ===== src/Input/Send.antt =====
-- moonlight-common-go/input/input.go: the methods that send events. Each takes whether `sendFunc`
-- succeeds, and where it calls it in a loop, whether each of the calls does.
use moonparty.Base.{
  ℕ, zero, suc, ◌+◌, ◌-◌, ◌/◌, ◌%◌, Bool, true, not, ◌&&◌, ◌||◌, none, some, List, [], ◌∷◌, ltb,
  leb, ◌==◌, if◌then◌else◌, ℤ, pos, negsuc, ltb_ℤ, ◌+ℤ◌, ◌-ℤ◌, pos_part, neg_part, i16, u8_of,
}
use moonparty.Input.{
  Stream, Packet, Outcome, returned, blocked, RelativeMouseState, unsupported, send_failed, guarded,
  send,
}
use moonparty.Input.Packets.{
  build_rel_mouse_move_packet, build_abs_mouse_move_packet, build_mouse_button_packet,
  build_keyboard_packet, build_scroll_packet, build_h_scroll_packet,
}

-- The channels of `protocol`, and its flag for reliable delivery.
abbrev pub ctrl_channel_keyboard : ℕ
ctrl_channel_keyboard = 2

abbrev pub ctrl_channel_mouse : ℕ
ctrl_channel_mouse = 3

abbrev pub ctrl_channel_gamepad_base : ℕ
ctrl_channel_gamepad_base = 4

abbrev pub ctrl_channel_sensor_base : ℕ
ctrl_channel_sensor_base = 20

abbrev pub reliable : ℕ → List ℕ → Packet
reliable channel bytes = record { channel = channel; flags = 1; bytes = bytes }

abbrev pub is_zero : ℤ → Bool
is_zero a = (pos_part a == 0) && (neg_part a == 0)

unfoldable pub send_mouse_move : Stream → Bool → ℤ → ℤ → Outcome
unfolding build_rel_mouse_move_packet
send_mouse_move s succeeds delta_x delta_y = guarded s (λ s.
    let state : RelativeMouseState = record {
      delta_x = s.current_rel_mouse_state.delta_x +ℤ delta_x;
      delta_y = s.current_rel_mouse_state.delta_y +ℤ delta_y;
      dirty = true;
    } in
    if is_zero delta_x && is_zero delta_y
    then returned s [] none
    else if s.current_rel_mouse_state.dirty
    then returned (record s { current_rel_mouse_state = state }) [] none
    else send (record s { current_rel_mouse_state = state }) succeeds
        (reliable ctrl_channel_mouse (build_rel_mouse_move_packet s delta_x delta_y)))

-- The float arithmetic of `SendMousePosition`: the quotient of two integers as floats, and `<`.
pub record Float32 : Type 0 where
  pub ratio : ℤ → ℤ → ℕ
  pub less : ℕ → ℕ → Bool

unfoldable pub clamp_float : Float32 → ℕ → ℕ → ℕ → ℕ
clamp_float f value min max =
    if f.less value min then min else if f.less max value then max else value

-- 0x3F800000 are the bits of 1.
abbrev pub virtual_position : Float32 → ℤ → ℤ → ℕ
virtual_position f a size = clamp_float f (f.ratio a (i16 (size -ℤ pos 1))) 0 0x3F800000

unfoldable pub send_mouse_position : Stream → Float32 → Bool → ℤ → ℤ → ℤ → ℤ → Outcome
unfolding build_abs_mouse_move_packet clamp_float
send_mouse_position s f succeeds x y ref_width ref_height = guarded s (λ s.
    let s' : Stream = record s {
      current_abs_mouse_state = record {
        x = x;
        y = y;
        width = ref_width;
        height = ref_height;
        dirty = true;
      };
    } in
    if s.current_abs_mouse_state.dirty
    then returned
        (record s' {
          abs_current_pos_x = virtual_position f x ref_width;
          abs_current_pos_y = virtual_position f y ref_height;
        })
        [] none
    else send s' succeeds
        (reliable ctrl_channel_mouse (build_abs_mouse_move_packet x y ref_width ref_height)))

unfoldable pub send_mouse_button : Stream → Bool → ℕ → ℤ → Outcome
unfolding build_mouse_button_packet
send_mouse_button s succeeds action button =
    guarded s (λ s.
      send s succeeds (reliable ctrl_channel_mouse (build_mouse_button_packet s action button)))

-- `m |= b` and `m &^= b`, for a power of two `b`.
abbrev pub has_bit : ℕ → ℕ → Bool
has_bit m b = m / b % 2 == 1

abbrev pub set_bit : ℕ → ℕ → ℕ
set_bit m b = if has_bit m b then m else m + b

abbrev pub clear_bit : ℕ → ℕ → ℕ
clear_bit m b = if has_bit m b then m - b else m

-- The new modifiers; the key code is returned as it is. The bits are shift 1, ctrl 2, alt 4, meta 8.
unfoldable pub fix_modifiers : ℤ → ℕ → ℕ
fix_modifiers key_code modifiers =
    let key = u8_of key_code in
    if (key == 0x5B) || (key == 0x5C)
    then clear_bit modifiers 8
    else if key == 0xA0
    then set_bit modifiers 1
    else if key == 0xA1
    then clear_bit modifiers 1
    else if key == 0xA2
    then set_bit modifiers 2
    else if key == 0xA3
    then clear_bit modifiers 2
    else if key == 0xA4
    then set_bit modifiers 4
    else if key == 0xA5
    then clear_bit modifiers 4
    else modifiers

unfoldable pub send_keyboard : Stream → Bool → ℤ → ℕ → ℕ → ℕ → Outcome
unfolding build_keyboard_packet fix_modifiers
send_keyboard s succeeds key_code key_action modifiers flags = guarded s (λ s.
    let fixed = if s.is_sunshine then modifiers else fix_modifiers key_code modifiers in
    send s succeeds
      (reliable ctrl_channel_keyboard (build_keyboard_packet s key_code key_action fixed flags)))

-- `abs(s.batchedScrollDelta) >= protocol.WheelDelta`.
abbrev pub is_notch : ℤ → Bool
is_notch delta = leb 120 (pos_part delta + neg_part delta)

abbrev pub is_negative : ℤ → Bool
is_negative a = ltb 0 (neg_part a)

abbrev pub notch : ℤ → ℤ
notch delta = if is_negative delta then negsuc 119 else pos 120

abbrev pub prefix : Packet → Outcome → Outcome
prefix packet (returned t sent err) = returned t (packet ∷ sent) err
prefix packet (blocked sent) = blocked (packet ∷ sent)

-- The loop of `sendBatchedScroll`, from its call number `k` on. Every round takes 120 off the
-- distance to 0, so the distance is enough fuel.
unfoldable pub scroll_loop : ℕ → Stream → (ℕ → Bool) → ℕ → Outcome
unfolding build_scroll_packet
scroll_loop zero s succeeds k = returned s [] none
scroll_loop (suc n) s succeeds k =
    let amount = notch s.batched_scroll_delta in
    let rest =
      scroll_loop n (record s { batched_scroll_delta = s.batched_scroll_delta -ℤ amount }) succeeds
        (k + 1) in
    let packet = reliable ctrl_channel_mouse (build_scroll_packet s amount) in
    if is_notch s.batched_scroll_delta
    then (if succeeds k then prefix packet rest else returned s (packet ∷ []) (some send_failed))
    else returned s [] none

-- The sum that is batched: a change of direction starts again from 0.
abbrev pub batched : ℤ → ℤ → ℤ
batched delta amount =
    if (is_negative delta && ltb_ℤ (pos 0) amount) || (ltb_ℤ (pos 0) delta && is_negative amount)
    then amount
    else delta +ℤ amount

unfoldable pub send_batched_scroll : Stream → (ℕ → Bool) → ℤ → Outcome
unfolding scroll_loop
send_batched_scroll s succeeds amount =
    let delta = batched s.batched_scroll_delta amount in
    scroll_loop (pos_part delta + neg_part delta) (record s { batched_scroll_delta = delta })
      succeeds 0

unfoldable pub send_scroll : Stream → (ℕ → Bool) → ℤ → Outcome
unfolding send_batched_scroll build_scroll_packet
send_scroll s succeeds amount = guarded s (λ s.
    if is_zero amount
    then returned s [] none
    else if s.needs_batched_scroll
    then send_batched_scroll s succeeds amount
    else send s (succeeds 0) (reliable ctrl_channel_mouse (build_scroll_packet s amount)))

unfoldable pub send_h_scroll : Stream → Bool → ℤ → Outcome
unfolding build_h_scroll_packet
send_h_scroll s succeeds amount = guarded s (λ s.
    if not s.is_sunshine
    then returned s [] (some unsupported)
    else if is_zero amount
    then returned s [] none
    else send s succeeds (reliable ctrl_channel_mouse (build_h_scroll_packet amount)))
