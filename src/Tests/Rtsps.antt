-- ===== src/Tests/Rtsps.antt =====
-- The RTSP client on concrete texts.
use moonparty.Base.All.{All}
use moonparty.Base.Result.{ok, err}
use moonparty.Base.Text.{
  Bytes, codes, crlf, text_eq, equal_fold, trim_left, trim_right, trim_space, cut, strip_prefix,
  atoi,
}
use moonparty.Base.{false, some, List, [], ◌∷◌, ◌++◌, ◌≡◌, refl, arith, pos}
use moonparty.Rtsp.Offer.{parse_sdp-build_sdp}
use moonparty.Rtsp.Printing.{AreFields, IsPhrase, print_response}
use moonparty.Rtsp.Reading.{read_response, read_string, split_3, parse_transport_port}
use moonparty.Rtsp.RoundTrip.{read_response-print_response, headers_of}
use moonparty.Rtsp.Sdp.{attributes, build_sdp, parse_sdp}
use moonparty.Rtsp.Transport.{IsOther, join_parts, port_text, after_text, parse_transport_port_lem}
use moonparty.Rtsp
use moonparty.Rtsp.{out_of_fuel}

abbrev reply_fields : List (Bytes × Bytes)
reply_fields = (codes "CSeq", codes "3") ∷ (codes "Session", codes "DEADBEEFCAFE;timeout = 90") ∷ []

reply_fields-AreFields : AreFields reply_fields
unfolding trim_left trim_right equal_fold text_eq
reply_fields-AreFields = (
  record {
    key_starts = refl;
    key_trimmed = (refl, refl);
    key_one_line = refl;
    key_no_colon = refl;
    value_trimmed = (refl, refl);
    value_one_line = refl;
    no_length = refl;
  },
  (
    record {
      key_starts = refl;
      key_trimmed = (refl, refl);
      key_one_line = refl;
      key_no_colon = refl;
      value_trimmed = (refl, refl);
      value_one_line = refl;
      no_length = refl;
    },
    tt,
  ),
)

reply-IsPhrase : IsPhrase (codes "OK")
unfolding trim_left trim_right
reply-IsPhrase = record {
  phrase_starts = refl;
  phrase_trimmed = (refl, refl);
  phrase_one_line = refl;
}

read_response-print_response_example :
    read_response (print_response 200 (codes "OK") reply_fields (codes "a=b:c") ++ codes "more")
    ≡ ok (record {
      status_code = pos 200;
      status_text = codes "OK";
      headers = headers_of reply_fields (codes "a=b:c");
      body = codes "a=b:c";
    })
read_response-print_response_example =
    read_response-print_response 200 (codes "OK") reply_fields (codes "a=b:c") (codes "more")
      (omega arith) reply-IsPhrase reply_fields-AreFields (omega arith)

parse_sdp-build_sdp_example :
    parse_sdp (build_sdp (pos 1920) (pos 1080) (pos 60) (pos 1392))
    ≡ attributes (pos 1920) (pos 1080) (pos 60) (pos 1392)
parse_sdp-build_sdp_example = parse_sdp-build_sdp (pos 1920) (pos 1080) (pos 60) (pos 1392)

abbrev transport_parts : List Bytes
transport_parts = codes "RTP/AVP/UDP" ∷ codes "unicast" ∷ []

transport_parts-IsOther : All IsOther transport_parts
unfolding trim_space trim_left trim_right strip_prefix
transport_parts-IsOther = ((refl, refl), ((refl, refl), tt))

parse_transport_port_lem_example :
    parse_transport_port (
      join_parts transport_parts
        (port_text 48000 (some 48001) ++ after_text (some (codes "ttl=1"))))
    ≡ pos 48000
parse_transport_port_lem_example =
    parse_transport_port_lem transport_parts 48000 (some 48001) (some (codes "ttl=1"))
      transport_parts-IsOther (omega arith)

-- A numeral past 64 bits is clipped to the greatest number, with an error.
atoi_large : atoi (codes "99999999999999999999") ≡ (pos 9223372036854775807, false)
unfolding atoi
atoi_large = refl

-- A response with no phrase behind its status is refused.
no_phrase :
    read_response (codes "RTSP/1.0 200" ++ crlf ++ crlf)
    ≡ err (moonparty.Rtsp.invalid_response (codes "RTSP/1.0 200"))
unfolding read_response read_string split_3 cut trim_space trim_left trim_right
no_phrase = refl
