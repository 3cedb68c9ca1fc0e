-- ===== src/Rtsp/Reading.antt =====
-- moonlight-common-go/rtsp/rtsp.go: `readResponse` and `parseTransportPort`.
use moonparty.Base.Dict.{put}
use moonparty.Base.Text.{
  Bytes, codes, is_empty, equal_fold, trim_space, cut, split, strip_prefix, atoi,
}
use moonparty.Base.{
  ℕ, zero, suc, ◌+◌, Bool, true, false, Option, none, some, List, [], ◌∷◌, ◌++◌, ℤ, pos, leb,
  length, take, if◌then◌else◌,
}
use moonparty.Base.Result.{ok, err, ◌>>=◌}
use moonparty.Rtsp.{
  Response, Reply, status_line_failed, header_failed, body_failed, invalid_response, out_of_fuel,
}

-- `reader.ReadString('\n')`, with what is left to read.
unfoldable pub read_string : Bytes → Option (Bytes × Bytes)
read_string s = elim (cut b'\n' s) [
  | none ↦ none
  | some (line, rest) ↦ some (line ++ b'\n' ∷ [], rest)
]

-- `strings.SplitN(line, " ", 3)`, where it has three parts.
unfoldable pub split_3 : Bytes → Option (Bytes × (Bytes × Bytes))
split_3 line = elim (cut b' ' line) [
  | none ↦ none
  | some (a, more) ↦ elim (cut b' ' more) [ none ↦ none | some (b, c) ↦ some (a, (b, c)) ]
]

abbrev pub has_prefix : Bytes → Bytes → Bool
has_prefix p s = elim (strip_prefix p s) [ none ↦ false | some rest ↦ true ]

-- The headers read so far, and the length of the body.
pub record Head : Type 0 where
  pub fields : List (Bytes × Bytes)
  pub content_length : ℤ

-- The body of the loop over the headers, on a line that is not blank.
unfoldable pub read_header : Bytes → Head → Head
read_header line h = elim (cut b':' line) [
  | none ↦ h
  | some (before, after) ↦
      let key = trim_space before in
      let value = trim_space after in
      if is_empty before then h else record {
        fields = put key value h.fields;
        content_length =
            if equal_fold key (codes "Content-Length") then (atoi value).0 else h.content_length;
      }
]

-- The loop itself. Every turn takes a line, so that a turn for each byte is enough fuel.
unfoldable pub read_headers : ℕ → Bytes → Head → Reply (Head × Bytes)
read_headers zero s h = err out_of_fuel
read_headers (suc n) s h = elim (read_string s) [
  | none ↦ err header_failed
  | some (raw, rest) ↦
      let line = trim_space raw in
      elim (is_empty line) [
        | true ↦ ok (h, rest)
        | false ↦ read_headers n rest (read_header line h)
      ]
]

-- The memory for the body is taken to be there. For a length that `make` cannot allocate, at which the
-- source panics or the process ends, this gives the error of a body that is not there.
unfoldable pub read_body : ℤ → Bytes → Reply Bytes
read_body (pos (suc n)) s = if leb (n + 1) (length s) then ok (take (n + 1) s) else err body_failed
read_body _ s = ok []

-- What follows the status line.
unfoldable pub read_rest : ℤ → Bytes → Bytes → Reply Response
read_rest code text s = do
  let start : Head = record { fields = []; content_length = pos 0 }
  (head, rest) ← read_headers (length s + 1) s start
  body ← read_body head.content_length rest
  ok (record { status_code = code; status_text = text; headers = head.fields; body = body })

unfoldable pub read_response : Bytes → Reply Response
read_response s = elim (read_string s) [
  | none ↦ err status_line_failed
  | some (raw, rest) ↦
      let line = trim_space raw in
      elim (split_3 line) [
        | none ↦ err (invalid_response line)
        | some (protocol, (code, text)) ↦
            if has_prefix (codes "RTSP/") protocol
            then read_rest (atoi code).0 text rest
            else err (invalid_response line)
      ]
]

-- The text in front of the first `-`, if there is one and it is not at the start.
abbrev pub first_of_range : Bytes → Bytes
first_of_range s = elim (cut b'-' s) [
  | none ↦ s
  | some (before, after) ↦ if is_empty before then s else before
]

unfoldable pub port_of_parts : List Bytes → ℤ
port_of_parts [] = pos 0
port_of_parts (p ∷ ps) = elim (strip_prefix (codes "server_port=") (trim_space p)) [
  | none ↦ port_of_parts ps
  | some port ↦ (atoi (first_of_range port)).0
]

unfoldable pub parse_transport_port : Bytes → ℤ
unfolding port_of_parts
parse_transport_port transport = port_of_parts (split b';' transport)
