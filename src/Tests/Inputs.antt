-- ===== src/Tests/Inputs.antt =====
-- Input events to a Sunshine server and to one that is not.
use moonparty.Base.{◌≡◌, refl, true, false, none, some, [], ◌∷◌, arith, pos, negsuc}
use moonparty.Control.{AppVersion}
use moonparty.Input.{Stream, returned, new_stream}
use moonparty.Input.Packets.{build_rel_mouse_move_packet, build_scroll_packet}
use moonparty.Input.Send.{send_batched_scroll, reliable}
use moonparty.Input.Framing.{utf8_text, handle, handle_framed, all_framed, sent}
use moonparty.Input.Mouse.{move_all, move_all_first}
use moonparty.Input.Scroll.{send_batched_scroll_lem, with_delta, scroll_packet}

abbrev version : AppVersion
version = record { major = pos 7; minor = pos 1; build = pos 431; patch = pos 0 }

abbrev sunshine : Stream
sunshine = new_stream version true

abbrev geforce : Stream
geforce = new_stream version false

-- A word of two letters.
handle_framed_example : all_framed (sent (handle sunshine (utf8_text true (72 ∷ 105 ∷ [])))) ≡ true
handle_framed_example = handle_framed sunshine (utf8_text true (72 ∷ 105 ∷ [])) (omega arith)

-- Of three moves one is sent.
move_all_first_example :
    (t : Stream) × (move_all sunshine ((pos 3, pos 4) ∷ (pos 5, negsuc 0) ∷ (pos 1, pos 1) ∷ [])
      ≡ some (t, reliable 3 (build_rel_mouse_move_packet sunshine (pos 3) (pos 4)) ∷ []))
unfolding new_stream
move_all_first_example =
    let (t, e, _) =
      move_all_first sunshine (pos 3) (pos 4) ((pos 5, negsuc 0) ∷ (pos 1, pos 1) ∷ []) refl refl
        refl refl in
    (t, e)

-- 100 units are kept; 150 more make two notches and leave 10.
send_batched_scroll_lem_example :
    send_batched_scroll (with_delta geforce (pos 100)) (λ i. true) (pos 150)
    ≡ returned
        (with_delta geforce (pos 10))
        (scroll_packet geforce (pos 120) ∷ scroll_packet geforce (pos 120) ∷ [])
        none
unfolding new_stream build_scroll_packet
send_batched_scroll_lem_example =
    send_batched_scroll_lem (with_delta geforce (pos 100)) (λ i. true) (λ i. refl) (pos 150)
