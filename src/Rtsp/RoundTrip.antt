-- ===== src/Rtsp/RoundTrip.antt =====
-- `readResponse` gives back the response that a server has written.
use mathlib.Core.List.{append_assoc}
use moonparty.Base.Dict.{put, put_all}
use moonparty.Base.Numerals.{has-decimal, decimal-IsTrimmed, atoi-decimal}
use moonparty.Base.Splitting.{
  IsTrimmed, has-append_false, cut_first, trim_space-append, trim_space-append_space, text_eq_refl,
}
use moonparty.Base.Text.{
  Bytes, codes, crlf, equal_fold, lower, trim_left, trim_right, trim_space, has, strip_prefix, cut,
  decimal,
}
use moonparty.Base.{
  ℕ, suc, ◌+◌, ◌<◌, true, false, some, List, [], ◌∷◌, map, ◌++◌, ◌≡◌, refl, ◌∙◌, arith, ℤ, pos,
  length, take-append_self, suc_plus, length-append,
}
use moonparty.Rtsp.Headers.{
  note_all, read_string-line, read_headers_fuel, read_headers-header, read_headers-header_lines,
}
use moonparty.Rtsp.Printing.{AreFields, IsPhrase, print_response}
use moonparty.Rtsp.Reading.{
  Head, read_string, split_3, read_headers, read_body, read_rest, read_response,
}
use moonparty.Rtsp.Requests.{header_line, header_lines}
use moonparty.Base.Result.{ok}

read_body-append : (body rest : Bytes) → read_body (pos (length body)) (body ++ rest) ≡ ok body
unfolding read_body
read_body-append [] rest = refl
read_body-append (c ∷ b) rest =
    rw (← suc_plus (length b), length-append b rest, take-append_self b rest) (ground arith)

note_all_lem :
    (fields : List (Bytes × Bytes)) (h : Head)
    → note_all fields h ≡ record h { fields = put_all fields h.fields }
note_all_lem [] h = refl
note_all_lem ((k, v) ∷ fields) h = note_all_lem fields _

abbrev status_line : ℕ → Bytes → Bytes
status_line code text = codes "RTSP/1.0 " ++ decimal code ++ b' ' ∷ text

split_3-status_line :
    (code : ℕ) (text : Bytes)
    → split_3 (status_line code text) ≡ some (codes "RTSP/1.0", (decimal code, text))
unfolding split_3
split_3-status_line code text =
    let more : Bytes = decimal code ++ b' ' ∷ text in
    let first : cut b' ' (status_line code text) ≡ some (codes "RTSP/1.0", more) =
      cut_first b' ' (codes "RTSP/1.0") more refl in
    rw (first, split_3, cut_first b' ' (decimal code) text (has-decimal b' ' code refl)) refl

trim_space-status_line :
    (code : ℕ) (text : Bytes)
    → IsPhrase text
    → trim_space (status_line code text ++ crlf) ≡ status_line code text
trim_space-status_line code text h =
    let front : Bytes = codes "RTSP/1.0 " ++ decimal code ++ b' ' ∷ [] in
    trim_space-append_space (status_line code text) crlf refl
    ∙ rw (append_assoc (codes "RTSP/1.0 " ++ decimal code) (b' ' ∷ []) text) at
        (trim_space-append front text refl h.phrase_starts h.phrase_trimmed.1)

has-status_line :
    (code : ℕ) (text : Bytes) → IsPhrase text → has b'\n' (status_line code text) ≡ false
has-status_line code text h =
    has-append_false b'\n' (codes "RTSP/1.0 " ++ decimal code) (b' ' ∷ text)
      (has-append_false b'\n' (codes "RTSP/1.0 ") (decimal code) refl (has-decimal b'\n' code refl))
      h.phrase_one_line

length_field : equal_fold (codes "Content-Length") (codes "Content-Length") ≡ true
unfolding equal_fold
length_field = text_eq_refl (map lower (codes "Content-Length"))

length-IsTrimmed : IsTrimmed (codes "Content-Length")
length-IsTrimmed = unfold trim_left trim_right in (refl, refl)

-- The headers that are read: those written, and the length.
abbrev pub headers_of : List (Bytes × Bytes) → Bytes → List (Bytes × Bytes)
headers_of fields body = put (codes "Content-Length") (decimal (length body)) (put_all fields [])

abbrev rest_of : List (Bytes × Bytes) → Bytes → Bytes → Bytes
rest_of fields body rest =
    header_lines fields
    ++ (header_line (codes "Content-Length") (decimal (length body)) ++ (crlf ++ (body ++ rest)))

abbrev start : Head
start = record { fields = []; content_length = pos 0 }

read_headers_blank :
    (n : ℕ) (rest : Bytes) (h : Head) → read_headers (suc n) (crlf ++ rest) h ≡ ok (h, rest)
unfolding read_headers read_string cut trim_space trim_right trim_left
read_headers_blank n rest h = refl

read_headers-rest_of :
    (fields : List (Bytes × Bytes)) (body rest : Bytes)
    → AreFields fields
    → length body < 9223372036854775808
    → read_headers (length (rest_of fields body rest) + 1) (rest_of fields body rest) start
      ≡ ok (
        record { fields = headers_of fields body; content_length = pos (length body) },
        body ++ rest,
      )
read_headers-rest_of fields body rest f b =
    let s : Bytes = rest_of fields body rest in
    let k : Bytes = codes "Content-Length" in
    read_headers_fuel (length s + 1) (length fields + suc (suc (length s))) s start (omega arith)
      (omega arith)
    ∙ read_headers-header_lines fields (suc (suc (length s))) _ start f
    ∙ read_headers-header (suc (length s)) k (decimal (length body)) (crlf ++ (body ++ rest))
        (note_all fields start) refl length-IsTrimmed refl refl (decimal-IsTrimmed (length body))
        (has-decimal b'\n' (length body) refl)
    ∙ read_headers_blank (length s) (body ++ rest) _
    ∙ rw (length_field, note_all_lem fields start, atoi-decimal (length body) b) refl

read_rest-rest_of :
    (code : ℤ) (text : Bytes) (fields : List (Bytes × Bytes)) (body rest : Bytes)
    → AreFields fields
    → length body < 9223372036854775808
    → read_rest code text (rest_of fields body rest)
      ≡ ok (record {
        status_code = code;
        status_text = text;
        headers = headers_of fields body;
        body = body;
      })
unfolding read_rest
read_rest-rest_of code text fields body rest f b =
    rw (read_headers-rest_of fields body rest f b, read_body-append body rest) refl

-- A response that a server writes, with a phrase that is not empty and any bytes behind it, is read as
-- it was meant: its status, its phrase, its body, and its headers in their order, the last of two
-- with one key.
pub read_response-print_response :
    (code : ℕ) (text : Bytes) (fields : List (Bytes × Bytes)) (body rest : Bytes)
    → code < 9223372036854775808
    → IsPhrase text
    → AreFields fields
    → length body < 9223372036854775808
    → read_response (print_response code text fields body ++ rest)
      ≡ ok (record {
        status_code = pos code;
        status_text = text;
        headers = headers_of fields body;
        body = body;
      })
unfolding read_response
read_response-print_response code text fields body rest c p f b =
    let l : Bytes = status_line code text in
    let shape : print_response code text fields body ++ rest
        ≡ l ++ (b'\r' ∷ b'\n' ∷ rest_of fields body rest) =
      simp append_assoc in
    rw
      (
        shape,
        read_string-line l (rest_of fields body rest) (has-status_line code text p),
        read_response,
        trim_space-status_line code text p,
        split_3-status_line code text,
        atoi-decimal code c,
      )
      (unfold strip_prefix in read_rest-rest_of (pos code) text fields body rest f b)
