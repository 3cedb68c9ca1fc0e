-- ===== src/Rtsp/Headers.antt =====
-- The loop over the headers: it has enough fuel, and reads the lines that a server writes.
use mathlib.Core.List.{append_assoc}
use moonparty.Base.Dict.{put}
use moonparty.Base.Splitting.{
  starts, IsTrimmed, has-append_false, cut_first, trim_left-append, trim_right-append,
  trim_space-append_space, trim_space_lem, trim_space-value, length-cut, is_empty-starts,
}
use moonparty.Base.Text.{
  Bytes, codes, crlf, is_empty, equal_fold, trim_right, trim_space, has, cut, atoi,
}
use moonparty.Base.{
  ℕ, zero, suc, ◌+◌, ◌<◌, ◌≢◌, true, false, inl, inr, some, List, [], ◌∷◌, ◌++◌, ◌≡◌, refl, ap, ◌∙◌,
  from_zero, arith, length, if◌then◌else◌, Bool-cases, Option-cases,
}
use moonparty.Rtsp.Printing.{AreFields}
use moonparty.Rtsp.Reading.{Head, read_string, read_header, read_headers}
use moonparty.Rtsp.Requests.{header_line, header_lines}
use moonparty.Base.Result.{err}
use moonparty.Rtsp.{out_of_fuel}

length-read_string :
    (s line rest : Bytes) → read_string s ≡ some (line, rest) → length rest < length s
unfolding read_string
length-read_string s line rest h = elim (Option-cases (cut b'\n' s)) [
  | inl n ↦ ground arith
  | inr ((a, b), e) ↦ ground (arith, length-cut b'\n' s a b e)
]

-- With more fuel than there are bytes, the fuel does not matter.
pub read_headers_fuel :
    (n m : ℕ) (s : Bytes) (h : Head)
    → length s < n
    → length s < m
    → read_headers n s h ≡ read_headers m s h
unfolding read_headers
read_headers_fuel zero m s h l k = absurd (omega arith)
read_headers_fuel (suc n) zero s h l k = absurd (omega arith)
read_headers_fuel (suc n) (suc m) s h l k = elim (Option-cases (read_string s)) [
  | inl e ↦ rw (e, read_headers) refl
  | inr ((raw, rest), e) ↦
      let shorter = length-read_string s raw rest e in
      elim (Bool-cases (is_empty (trim_space raw))) [
        | inl f ↦ rw (e, read_headers, f) refl
        | inr f ↦
            rw (e, read_headers, f)
              (read_headers_fuel n m rest (read_header (trim_space raw) h) (omega arith)
                (omega arith))
      ]
]

pub read_headers-terminates :
    (n : ℕ) (s : Bytes) (h : Head) → length s < n → read_headers n s h ≢ err out_of_fuel
unfolding read_headers
read_headers-terminates zero s h l = absurd (omega arith)
read_headers-terminates (suc n) s h l = elim (Option-cases (read_string s)) [
  | inl e ↦ rw (e, read_headers) (λ q. cc)
  | inr ((raw, rest), e) ↦
      let shorter = length-read_string s raw rest e in
      elim (Bool-cases (is_empty (trim_space raw))) [
        | inl f ↦ rw (e, read_headers, f) (λ q. cc)
        | inr f ↦
            rw (e, read_headers, f)
              (read_headers-terminates n rest (read_header (trim_space raw) h) (omega arith))
      ]
]

pub read_string-line :
    (l rest : Bytes)
    → has b'\n' l ≡ false
    → read_string (l ++ (b'\r' ∷ b'\n' ∷ rest)) ≡ some (l ++ crlf, rest)
unfolding read_string
read_string-line l rest h =
    let cr : Bytes = b'\r' ∷ [] in
    let found = cut_first b'\n' (l ++ cr) rest (has-append_false b'\n' l cr h refl) in
    let place : cut b'\n' (l ++ (b'\r' ∷ b'\n' ∷ rest)) ≡ some (l ++ cr, rest) =
      rw (append_assoc l cr (b'\n' ∷ rest)) at found in
    rw (place, read_string, append_assoc l cr (b'\n' ∷ [])) refl

trim_header :
    (k v : Bytes)
    → starts k ≡ true
    → trim_space (header_line k v) ≡ k ++ b':' ∷ trim_right (b' ' ∷ v)
trim_header k v h =
    (trim_space-append_space (k ++ b':' ∷ b' ' ∷ v) crlf refl
      ∙ unfold trim_space in
        rw (trim_right-append k b':' (b' ' ∷ v) refl)
          (trim_left-append k (b':' ∷ trim_right (b' ' ∷ v)) h))

is_empty-append : (k w : Bytes) → is_empty k ≡ false → is_empty (k ++ w) ≡ false
is_empty-append [] w h = ground arith
is_empty-append (c ∷ k) w h = refl

-- What a header line adds to the headers read.
abbrev pub note : Bytes → Bytes → Head → Head
note k v h = record h { fields = put k v h.fields }

abbrev pub note_all : List (Bytes × Bytes) → Head → Head
note_all [] h = h
note_all ((k, v) ∷ fields) h = note_all fields (note k v h)

read_header-parts :
    (k w v : Bytes) (h : Head)
    → starts k ≡ true
    → IsTrimmed k
    → has b':' k ≡ false
    → trim_space w ≡ v
    → read_header (k ++ b':' ∷ w) h ≡ record {
      fields = put k v h.fields;
      content_length =
          if equal_fold k (codes "Content-Length") then (atoi v).0 else h.content_length;
    }
unfolding read_header
read_header-parts k w v h s t n e =
    rw (cut_first b':' k w n, read_header, is_empty-starts k s, trim_space_lem k t, e) refl

read_headers-line :
    (n : ℕ) (l rest : Bytes) (h : Head)
    → has b'\n' l ≡ false
    → is_empty (trim_space (l ++ crlf)) ≡ false
    → read_headers (suc n) (l ++ (b'\r' ∷ b'\n' ∷ rest)) h
      ≡ read_headers n rest (read_header (trim_space (l ++ crlf)) h)
unfolding read_headers
read_headers-line n l rest h o e =
    rw (read_string-line l rest o, read_headers, e, read_headers) refl

-- One turn of the loop reads one header.
pub read_headers-header :
    (n : ℕ) (k v rest : Bytes) (h : Head)
    → starts k ≡ true
    → IsTrimmed k
    → has b':' k ≡ false
    → has b'\n' k ≡ false
    → IsTrimmed v
    → has b'\n' v ≡ false
    → read_headers (suc n) (header_line k v ++ rest) h
      ≡ read_headers n rest (record {
        fields = put k v h.fields;
        content_length =
            if equal_fold k (codes "Content-Length") then (atoi v).0 else h.content_length;
      })
read_headers-header n k v rest h s t colon o tv ov =
    let l : Bytes = k ++ b':' ∷ b' ' ∷ v in
    let trimmed = trim_header k v s in
    let blank : is_empty (trim_space (l ++ crlf)) ≡ false =
      rw trimmed (is_empty-append k _ (is_empty-starts k s)) in
    rw (append_assoc l crlf rest) (
      read_headers-line n l rest h (has-append_false b'\n' k (b':' ∷ b' ' ∷ v) o ov) blank
      ∙ ap (read_headers n rest) (
          ap (λ (x : Bytes). read_header x h) trimmed
          ∙ read_header-parts k (trim_right (b' ' ∷ v)) v h s t colon (trim_space-value v tv)))

-- As many turns as there are headers read them all, whatever follows.
pub read_headers-header_lines :
    (fields : List (Bytes × Bytes)) (n : ℕ) (rest : Bytes) (h : Head)
    → AreFields fields
    → read_headers (length fields + n) (header_lines fields ++ rest) h
      ≡ read_headers n rest (note_all fields h)
read_headers-header_lines [] n rest h f = rw (from_zero n) refl
read_headers-header_lines ((k, v) ∷ fields) n rest h (f, fs) =
    let turn : suc (length fields) + n ≡ suc (length fields + n) = omega arith in
    rw (turn, append_assoc (header_line k v) (header_lines fields) rest)
      (read_headers-header (length fields + n) k v (header_lines fields ++ rest) h f.key_starts
          f.key_trimmed f.key_no_colon f.key_one_line f.value_trimmed f.value_one_line
        ∙ rw f.no_length (read_headers-header_lines fields n rest (note k v h) fs))
