-- ===== src/Input/Devices.antt =====
-- moonlight-common-go/input/input.go: the methods for controllers, touch screens, pens and text.
use moonparty.Base.{
  ℕ, ◌+◌, ◌-◌, ◌%◌, Bool, true, false, not, ◌&&◌, ◌||◌, none, some, List, [], ◌∷◌, ◌++◌, ltb, ◌==◌,
  if◌then◌else◌, ℤ, pos, negsuc, ◌+ℤ◌, u8_of, u16_of, rem_ℤ,
}
use moonparty.Input.{
  Stream, Packet, Outcome, returned, blocked, SensorState, unsupported, invalid_parameter, guarded,
  send,
}
use moonparty.Input.Packets.{
  Axes, Contact, build_multi_controller_packet, build_controller_arrival_packet, build_touch_packet,
  build_pen_packet, build_controller_motion_packet, build_controller_battery_packet,
  build_utf8_text_packet,
}
use moonparty.Input.Send.{
  ctrl_channel_gamepad_base, ctrl_channel_sensor_base, reliable, has_bit, set_bit,
}

-- The limits on the controller number and the mask, which differ with the server.
abbrev pub limited : Stream → ℤ → ℤ
limited s controller_number =
    if s.is_sunshine then rem_ℤ controller_number 16 else rem_ℤ controller_number 4

abbrev pub limited_mask : Stream → ℤ → ℤ
limited_mask s mask = if s.is_sunshine then mask else pos (u16_of mask % 16)

-- Negative flags lose their upper bits, and the button MISC (bit 16) also sets HOME (bit 10) for
-- servers that are not Sunshine.
abbrev pub fixed_buttons : Stream → ℤ → ℕ
fixed_buttons s button_flags =
    let flags : ℕ = elim button_flags [ pos n ↦ n | negsuc n ↦ u16_of (negsuc n) ] in
    if s.is_sunshine then flags else if has_bit flags 65536 then set_bit flags 1024 else flags

-- `uint8(protocol.CtrlChannelGamepadBase + controllerNumber)`.
abbrev pub gamepad_channel : ℤ → ℕ
gamepad_channel controller_number = u8_of (pos ctrl_channel_gamepad_base +ℤ controller_number)

unfoldable pub send_multi_controller : Stream → Bool → ℤ → ℤ → ℤ → Axes → Outcome
unfolding build_multi_controller_packet
send_multi_controller s succeeds controller_number active_gamepad_mask button_flags axes =
    guarded s (λ s.
      let number = limited s controller_number in
      send s succeeds (
        reliable (gamepad_channel number) (
          build_multi_controller_packet s number (limited_mask s active_gamepad_mask)
            (fixed_buttons s button_flags) axes)))

unfoldable pub send_controller : Stream → Bool → ℤ → Axes → Outcome
unfolding send_multi_controller
send_controller s succeeds button_flags axes =
    send_multi_controller s succeeds (pos 0) (pos 1) button_flags axes

abbrev pub rest_axes : Axes
rest_axes = record {
  left_trigger = 0;
  right_trigger = 0;
  left_stick_x = pos 0;
  left_stick_y = pos 0;
  right_stick_x = pos 0;
  right_stick_y = pos 0;
}

-- The packets of a first call and how the call ends that follows it.
abbrev pub after : List Packet → Outcome → Outcome
after first (returned s sent err) = returned s (first ++ sent) err
after first (blocked sent) = blocked (first ++ sent)

-- `int16(activeGamepadMask)` of a `uint16`.
abbrev pub int16_of : ℕ → ℤ
int16_of n = if ltb n 32768 then pos n else negsuc (65535 - n)

-- The second call is made with the mutex held. The two flags are the success of the two sends.
unfoldable pub send_controller_arrival : Stream → Bool → Bool → ℕ → ℕ → ℕ → ℕ → ℕ → Outcome
unfolding build_controller_arrival_packet send_multi_controller
send_controller_arrival s succeeds second controller_number active_gamepad_mask controller_type
      supported_buttons capabilities =
    guarded s (λ s.
      let number = controller_number % 16 in
      let again =
        send_multi_controller s second (pos number) (int16_of active_gamepad_mask) (pos 0)
          rest_axes in
      let packet =
        reliable (ctrl_channel_gamepad_base + number)
          (build_controller_arrival_packet number controller_type capabilities supported_buttons) in
      if s.is_sunshine
      then (if succeeds then after (packet ∷ []) again else send s false packet)
      else again)

-- Hover events are 0 and move events are 3.
abbrev pub is_droppable : ℕ → Bool
is_droppable event_type = (event_type == 0) || (event_type == 3)

unfoldable pub send_touch : Stream → Bool → ℕ → ℕ → Contact → ℕ → Outcome
unfolding build_touch_packet
send_touch s succeeds event_type pointer_id contact rotation = guarded s (λ s.
    if not s.is_sunshine
    then returned s [] (some unsupported)
    else send s succeeds (record {
      channel = 36;
      flags = if is_droppable event_type then 0 else 1;
      bytes = build_touch_packet event_type pointer_id contact rotation;
    }))

unfoldable pub send_pen : Stream → Bool → ℕ → ℕ → ℕ → Contact → ℕ → ℕ → Outcome
unfolding build_pen_packet
send_pen s succeeds event_type tool_type pen_buttons contact rotation tilt = guarded s (λ s.
    if not s.is_sunshine
    then returned s [] (some unsupported)
    else send (record s { current_pen_button_state = pen_buttons }) succeeds
        (record {
          channel = 37;
          flags =
              if is_droppable event_type && (pen_buttons == s.current_pen_button_state)
              then 0
              else 1;
          bytes = build_pen_packet event_type tool_type pen_buttons contact rotation tilt;
        }))

-- One sensor of one controller changed.
abbrev pub set_sensor : (ℕ → ℕ → SensorState) → ℕ → ℕ → SensorState → ℕ → ℕ → SensorState
set_sensor sensors i j state k l = if (k == i) && (l == j) then state else sensors k l

unfoldable pub send_controller_motion : Stream → Bool → ℕ → ℕ → ℕ → ℕ → ℕ → Outcome
unfolding build_controller_motion_packet
send_controller_motion s succeeds controller_number motion_type x y z = guarded s (λ s.
    let number = controller_number % 16 in
    let old = s.gamepad_sensor_state number (motion_type - 1) in
    let s' : Stream = record s {
      gamepad_sensor_state =
          set_sensor s.gamepad_sensor_state number (motion_type - 1)
            (record { x = x; y = y; z = z; dirty = true });
    } in
    if not s.is_sunshine
    then returned s [] (some unsupported)
    else if ltb motion_type 1 || ltb 2 motion_type
    then returned s [] (some invalid_parameter)
    else if old.dirty
    then returned s' [] none
    else send s' succeeds (
        reliable (ctrl_channel_sensor_base + number)
          (build_controller_motion_packet number motion_type x y z)))

unfoldable pub send_controller_battery : Stream → Bool → ℕ → ℕ → ℕ → Outcome
unfolding build_controller_battery_packet
send_controller_battery s succeeds controller_number battery_state percentage = guarded s (λ s.
    let number = controller_number % 16 in
    if not s.is_sunshine
    then returned s [] (some unsupported)
    else send s succeeds (
        reliable (ctrl_channel_gamepad_base + number)
          (build_controller_battery_packet number battery_state percentage)))

unfoldable pub send_utf8_text : Stream → Bool → List ℕ → Outcome
unfolding build_utf8_text_packet
send_utf8_text s succeeds text =
    guarded s (λ s. send s succeeds (reliable 38 (build_utf8_text_packet text)))
