-- ===== src/Rtsp/Transport.antt =====
-- The port that `parseTransportPort` finds in a transport header.
use mathlib.Core.List.{append-nil, append_assoc}
use moonparty.Base.All.{All}
use moonparty.Base.Numerals.{has-decimal, decimal-starts, decimal-IsTrimmed, atoi-decimal}
use moonparty.Base.Splitting.{
  has-append_false, cut_first, cut-none, split_first, split_last, strip_prefix-append,
  trim_space-append, is_empty-starts,
}
use moonparty.Base.Text.{
  Bytes, codes, is_empty, has, cut, split, strip_prefix, trim_space, atoi, decimal,
}
use moonparty.Base.{
  ℕ, ◌<◌, false, Option, none, some, List, [], ◌∷◌, ◌++◌, ◌≡◌, refl, ap, sym, ◌∙◌, pos,
}
use moonparty.Rtsp.Reading.{first_of_range, port_of_parts, parse_transport_port}

-- A part that is not the server's port.
abbrev pub IsOther : Bytes → Type 0
IsOther p = (has b';' p ≡ false) × (strip_prefix (codes "server_port=") (trim_space p) ≡ none)

-- The parts, and a text behind them.
abbrev pub join_parts : List Bytes → Bytes → Bytes
join_parts [] last = last
join_parts (p ∷ ps) last = p ++ b';' ∷ join_parts ps last

-- The second port of a range, and the parts that follow.
abbrev pub range_text : Option ℕ → Bytes
range_text none = []
range_text (some m) = b'-' ∷ decimal m

abbrev pub after_text : Option Bytes → Bytes
after_text none = []
after_text (some rest) = b';' ∷ rest

abbrev pub port_text : ℕ → Option ℕ → Bytes
port_text n r = codes "server_port=" ++ (decimal n ++ range_text r)

has-port_text : (n : ℕ) (r : Option ℕ) → has b';' (port_text n r) ≡ false
has-port_text n none = has-append_false b';' (decimal n) [] (has-decimal b';' n refl) refl
has-port_text n (some m) =
    has-append_false b';' (decimal n) _ (has-decimal b';' n refl) (has-decimal b';' m refl)

trim_space-port_text : (n : ℕ) (r : Option ℕ) → trim_space (port_text n r) ≡ port_text n r
trim_space-port_text n none = rw (append-nil (decimal n)) (
    trim_space-append (codes "server_port=") (decimal n) refl (decimal-starts n)
      (decimal-IsTrimmed n).1)
trim_space-port_text n (some m) =
    let front : Bytes = codes "server_port=" ++ (decimal n ++ b'-' ∷ []) in
    let shape : port_text n (some m) ≡ front ++ decimal m = simp append_assoc in
    ap trim_space shape
    ∙ trim_space-append front (decimal m) refl (decimal-starts m) (decimal-IsTrimmed m).1
    ∙ sym shape

first_of_range-cut : (n : ℕ) → first_of_range (decimal n) ≡ decimal n
first_of_range-cut n = rw (cut-none b'-' (decimal n) (has-decimal b'-' n refl), first_of_range) refl

first_of_range_before :
    (s a b : Bytes) → cut b'-' s ≡ some (a, b) → is_empty a ≡ false → first_of_range s ≡ a
first_of_range_before s a b c e = rw (c, first_of_range, e) refl

first_of_range-port :
    (n : ℕ) (r : Option ℕ) → first_of_range (decimal n ++ range_text r) ≡ decimal n
first_of_range-port n none = ap first_of_range (append-nil (decimal n)) ∙ first_of_range-cut n
first_of_range-port n (some m) =
    first_of_range_before (decimal n ++ b'-' ∷ decimal m) (decimal n) (decimal m)
      (cut_first b'-' (decimal n) (decimal m) (has-decimal b'-' n refl))
      (is_empty-starts (decimal n) (decimal-starts n))

port_of_parts-strip_prefix :
    (p port : Bytes) (ps : List Bytes)
    → strip_prefix (codes "server_port=") (trim_space p) ≡ some port
    → port_of_parts (p ∷ ps) ≡ (atoi (first_of_range port)).0
unfolding port_of_parts
port_of_parts-strip_prefix p port ps e = rw (e, port_of_parts) refl

port_of_parts-port :
    (n : ℕ) (r : Option ℕ) (ps : List Bytes)
    → n < 9223372036854775808
    → port_of_parts (port_text n r ∷ ps) ≡ pos n
port_of_parts-port n r ps b =
    let port : Bytes = decimal n ++ range_text r in
    port_of_parts-strip_prefix (port_text n r) port ps (
      ap (strip_prefix (codes "server_port=")) (trim_space-port_text n r)
      ∙ strip_prefix-append (codes "server_port=") port)
    ∙ rw (first_of_range-port n r, atoi-decimal n b) refl

port_of_parts-others :
    (before : List Bytes) (last : Bytes)
    → All IsOther before
    → port_of_parts (split b';' (join_parts before last)) ≡ port_of_parts (split b';' last)
unfolding port_of_parts
port_of_parts-others [] last h = refl
port_of_parts-others (p ∷ ps) last ((o, n), h) =
    rw (split_first b';' p (join_parts ps last) o, port_of_parts, n)
      (port_of_parts-others ps last h)

split-port_text :
    (n : ℕ) (r : Option ℕ) (a : Option Bytes)
    → (ps : List Bytes) × (split b';' (port_text n r ++ after_text a) ≡ port_text n r ∷ ps)
split-port_text n r none = (
  [],
  ap (split b';') (append-nil (port_text n r))
      ∙ split_last b';' (port_text n r) (has-port_text n r),
)
split-port_text n r (some rest) =
    (split b';' rest, split_first b';' (port_text n r) rest (has-port_text n r))

-- The port is found behind any other parts, in front of any, alone or as the first of a range.
pub parse_transport_port_lem :
    (before : List Bytes) (n : ℕ) (r : Option ℕ) (a : Option Bytes)
    → All IsOther before
    → n < 9223372036854775808
    → parse_transport_port (join_parts before (port_text n r ++ after_text a)) ≡ pos n
unfolding parse_transport_port
parse_transport_port_lem before n r a h b =
    let (ps, e) = split-port_text n r a in
    port_of_parts-others before (port_text n r ++ after_text a) h
    ∙ ap port_of_parts e
    ∙ port_of_parts-port n r ps b
