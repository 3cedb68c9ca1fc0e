-- ===== src/Rtsp/Offer.antt =====
-- `ParseSDP` reads back the attributes that `BuildSDP` writes.
use mathlib.Core.List.{append_assoc}
use moonparty.Base.All.{All}
use moonparty.Base.Dict.{put, put_all}
use moonparty.Base.Numerals.{has-decimal, decimal-starts, decimal-IsTrimmed}
use moonparty.Base.Splitting.{
  starts, has-append_false, cut_first, split_first, strip_prefix-append, trim_right-append_starts,
  trim_space-append, trim_space-append_space, text_eq→eq,
}
use moonparty.Base.Text.{
  Bytes, codes, is_empty, trim_left, trim_right, trim_space, text_eq, has, cut, split, strip_prefix,
  itoa, decimal,
}
use moonparty.Base.{
  ◌+◌, Bool, true, false, some, List, [], ◌∷◌, ◌++◌, ◌≡◌, refl, ap, ◌∙◌, arith, ℤ, pos, negsuc, not,
  ◌&&◌, ◌||◌, and_left, and_right,
}
use moonparty.Rtsp.Sdp.{
  attribute_line, attribute_lines, preamble, fixed_attributes, attributes, build_sdp,
  read_attribute, read_attributes, parse_sdp,
}

-- A key and a value that one line can hold. The value is not empty.
record IsAttribute (k v : Bytes) : Type 0 where
  key_starts : is_empty k ≡ false
  key_one_line : has b'\n' k ≡ false
  key_no_colon : has b':' k ≡ false
  value_starts : starts v ≡ true
  value_trimmed : trim_right v ≡ v
  value_one_line : has b'\n' v ≡ false

abbrev AreAttributes : List (Bytes × Bytes) → Type 0
AreAttributes = All (λ (f : Bytes × Bytes). IsAttribute f.0 f.1)

read_attribute-attr :
    (line attr k v : Bytes) (m : List (Bytes × Bytes))
    → trim_space line ≡ codes "a=" ++ attr
    → cut b':' attr ≡ some (k, v)
    → is_empty k ≡ false
    → read_attribute line m ≡ put k v m
unfolding read_attribute
read_attribute-attr line attr k v m e c f =
    rw (e, read_attribute, strip_prefix-append (codes "a=") attr, c, f) refl

-- A line without its newline, as `Split` gives it.
abbrev raw_line : Bytes → Bytes → Bytes
raw_line k v = codes "a=" ++ (k ++ (b':' ∷ (v ++ b'\r' ∷ [])))

trim_space-raw_line :
    (k v : Bytes) → IsAttribute k v → trim_space (raw_line k v) ≡ codes "a=" ++ (k ++ b':' ∷ v)
trim_space-raw_line k v h =
    let front : Bytes = codes "a=" ++ (k ++ b':' ∷ []) in
    let shape : raw_line k v ≡ (front ++ v) ++ b'\r' ∷ [] = simp append_assoc in
    ap trim_space shape
    ∙ trim_space-append_space (front ++ v) (b'\r' ∷ []) refl
    ∙ trim_space-append front v refl h.value_starts h.value_trimmed
    ∙ simp append_assoc

read_attribute-line :
    (k v : Bytes) (m : List (Bytes × Bytes))
    → IsAttribute k v
    → read_attribute (raw_line k v) m ≡ put k v m
read_attribute-line k v m h =
    read_attribute-attr (raw_line k v) (k ++ b':' ∷ v) k v m (trim_space-raw_line k v h)
      (cut_first b':' k v h.key_no_colon) h.key_starts

has-raw_line : (k v : Bytes) → IsAttribute k v → has b'\n' (raw_line k v) ≡ false
has-raw_line k v h =
    has-append_false b'\n' k _ h.key_one_line
      (has-append_false b'\n' v (b'\r' ∷ []) h.value_one_line refl)

split-attribute_line :
    (k v rest : Bytes)
    → IsAttribute k v
    → split b'\n' (attribute_line k v ++ rest) ≡ raw_line k v ∷ split b'\n' rest
split-attribute_line k v rest h =
    let shape : attribute_line k v ++ rest ≡ raw_line k v ++ b'\n' ∷ rest = simp append_assoc in
    ap (split b'\n') shape ∙ split_first b'\n' (raw_line k v) rest (has-raw_line k v h)

read_attributes-lines :
    (fields m : List (Bytes × Bytes))
    → AreAttributes fields
    → read_attributes (split b'\n' (attribute_lines fields)) m ≡ put_all fields m
unfolding read_attributes
read_attributes-lines [] m h =
    unfold split read_attribute trim_space trim_left trim_right strip_prefix in refl
read_attributes-lines ((k, v) ∷ fields) m (h, hs) =
    rw
      (
        split-attribute_line k v (attribute_lines fields) h,
        read_attributes,
        read_attribute-line k v m h,
      )
      (read_attributes-lines fields (put k v m) hs)

itoa-IsAttribute :
    (k : Bytes) (n : ℤ)
    → is_empty k ≡ false
    → has b'\n' k ≡ false
    → has b':' k ≡ false
    → IsAttribute k (itoa n)
unfolding itoa
itoa-IsAttribute k (pos n) e l c = record {
  key_starts = e;
  key_one_line = l;
  key_no_colon = c;
  value_starts = decimal-starts n;
  value_trimmed = (decimal-IsTrimmed n).1;
  value_one_line = has-decimal b'\n' n refl;
}
itoa-IsAttribute k (negsuc n) e l c = record {
  key_starts = e;
  key_one_line = l;
  key_no_colon = c;
  value_starts = refl;
  value_trimmed =
      trim_right-append_starts (b'-' ∷ []) (decimal (n + 1)) (decimal-starts (n + 1))
      ∙ ap (◌∷◌ b'-') (decimal-IsTrimmed (n + 1)).1;
  value_one_line = has-decimal b'\n' (n + 1) refl;
}

-- The same by computation, for the attributes that are constants.
is_plain : Bytes → Bytes → Bool
is_plain k v =
    not (is_empty k || has b'\n' k || has b':' k || has b'\n' v)
    && (starts v && text_eq (trim_right v) v)

all_plain : List (Bytes × Bytes) → Bool
all_plain [] = true
all_plain ((k, v) ∷ fields) = is_plain k v && all_plain fields

is_plain-IsAttribute : (k v : Bytes) → is_plain k v ≡ true → IsAttribute k v
unfolding is_plain
is_plain-IsAttribute k v h = record {
  key_starts = ground arith;
  key_one_line = ground arith;
  key_no_colon = ground arith;
  value_starts = ground arith;
  value_trimmed = text_eq→eq (trim_right v) v (ground arith);
  value_one_line = ground arith;
}

all_plain-AreAttributes :
    (fields : List (Bytes × Bytes)) → all_plain fields ≡ true → AreAttributes fields
unfolding all_plain
all_plain-AreAttributes [] h = tt
all_plain-AreAttributes ((k, v) ∷ fields) h = (
  is_plain-IsAttribute k v (and_left (is_plain k v) (all_plain fields) h),
  all_plain-AreAttributes fields (and_right (is_plain k v) (all_plain fields) h),
)

attributes-AreAttributes : (w h f p : ℤ) → AreAttributes (attributes w h f p)
unfolding attributes all_plain is_plain trim_right text_eq
attributes-AreAttributes w h f p = (
  itoa-IsAttribute _ w refl refl refl,
  (
    itoa-IsAttribute _ h refl refl refl,
    (
      itoa-IsAttribute _ f refl refl refl,
      (
        is_plain-IsAttribute _ _ refl,
        (itoa-IsAttribute _ p refl refl refl, all_plain-AreAttributes fixed_attributes refl),
      ),
    ),
  ),
)

skip_preamble : (rest : Bytes) → parse_sdp (preamble ++ rest) ≡ parse_sdp rest
unfolding parse_sdp split read_attributes read_attribute trim_space trim_left trim_right
    strip_prefix
skip_preamble rest = refl

-- `ParseSDP` of the offer gives exactly the attributes that were written, in their order: each key
-- is written once, and the numbers are the caller's.
pub parse_sdp-build_sdp :
    (width height fps packet_size : ℤ)
    → parse_sdp (build_sdp width height fps packet_size) ≡ attributes width height fps packet_size
unfolding build_sdp
parse_sdp-build_sdp w h f p =
    skip_preamble (attribute_lines (attributes w h f p))
    ∙ unfold parse_sdp in
      read_attributes-lines (attributes w h f p) [] (attributes-AreAttributes w h f p)
      ∙ unfold attributes put text_eq in refl
