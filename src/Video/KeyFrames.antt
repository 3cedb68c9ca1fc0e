-- ===== src/Video/KeyFrames.antt =====
-- Waiting for a key frame.
use moonparty.Base.{
  ◌≤◌, ap, if◌then◌else◌, ◌≡◌, refl, ◌∙◌, Bool, true, false, none, some, List, [], ◌∷◌, arith,
}
use moonparty.Base.Bytes.{le32_at}
use moonparty.Video.{
  Stream, RtpPacket, is_idr_packet, is_end_of_frame, payload_length, contents, add_packet,
  new_frame, process_packet, request_idr_frame,
}

pub process_all : Stream → List RtpPacket → Stream
process_all s [] = s
process_all s (p ∷ ps) = process_all (process_packet s p) ps

unfoldable pub no_idr : List RtpPacket → Bool
no_idr [] = true
no_idr (p ∷ ps) = let rest = no_idr ps in if is_idr_packet p then false else rest

process_waiting :
    (s : Stream) (p : RtpPacket)
    → s.waiting_for_idr ≡ true
    → is_idr_packet p ≡ false
    → process_packet s p ≡ s
unfolding process_packet
process_waiting s p w n = ground arith

process_all_waiting :
    (s : Stream) (ps : List RtpPacket)
    → s.waiting_for_idr ≡ true
    → no_idr ps ≡ true
    → process_all s ps ≡ s
unfolding process_all no_idr
process_all_waiting s [] w n = refl
process_all_waiting s (p ∷ ps) w n =
    ap (λ (t : Stream). process_all t ps) (process_waiting s p w (ground arith))
    ∙ process_all_waiting s ps w (ground arith)

idr_starts :
    (s : Stream) (p : RtpPacket)
    → s.current_frame ≡ none
    → is_idr_packet p ≡ true
    → is_end_of_frame p ≡ false
    → 4 ≤ payload_length p.payload
    → let t = process_packet s p in
      (t.waiting_for_idr ≡ false)
      × (t.current_frame
          ≡ some (add_packet (new_frame (le32_at (contents s.buffer p.payload) 0) true) p))
unfolding process_packet
idr_starts s p e i n h = ground arith

-- After a request for a key frame, packets of other frames change nothing: none is submitted,
-- queued or kept. The first packet of a key frame, of four bytes or more, that is not its last
-- ends the waiting and starts a frame with that packet alone.
pub process_all-request_idr_frame :
    (s : Stream) (ps : List RtpPacket) (p : RtpPacket)
    → no_idr ps ≡ true
    → is_idr_packet p ≡ true
    → is_end_of_frame p ≡ false
    → 4 ≤ payload_length p.payload
    → let s' = request_idr_frame s in
      let t = process_packet (process_all s' ps) p in
      (process_all s' ps ≡ s')
      × (t.waiting_for_idr ≡ false)
      × (t.current_frame
          ≡ some (add_packet (new_frame (le32_at (contents s.buffer p.payload) 0) true) p))
unfolding request_idr_frame
process_all-request_idr_frame s ps p n i e h =
    let same = process_all_waiting (request_idr_frame s) ps refl n in
    let (over, begun) = idr_starts (request_idr_frame s) p refl i e h in
    (same, rw same over, rw same begun)
