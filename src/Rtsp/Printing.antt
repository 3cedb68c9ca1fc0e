-- ===== src/Rtsp/Printing.antt =====
-- The text of a response, as a server writes it: the reference that `readResponse` is read against.
use moonparty.Base.Splitting.{starts, IsTrimmed}
use moonparty.Base.Text.{Bytes, codes, crlf, equal_fold, has, decimal}
use moonparty.Base.{ℕ, true, false, List, ◌++◌, ◌∷◌, ◌≡◌, length}
use moonparty.Base.All.{All}
use moonparty.Rtsp.Requests.{header_line, header_lines}

-- A header that a line can hold: its key is no text of spaces, neither part has spaces around it
-- or a newline, and the key has no colon. The length of the body is a header by itself.
pub record IsField (k v : Bytes) : Type 0 where
  pub key_starts : starts k ≡ true
  pub key_trimmed : IsTrimmed k
  pub key_one_line : has b'\n' k ≡ false
  pub key_no_colon : has b':' k ≡ false
  pub value_trimmed : IsTrimmed v
  pub value_one_line : has b'\n' v ≡ false
  pub no_length : equal_fold k (codes "Content-Length") ≡ false

abbrev pub AreFields : List (Bytes × Bytes) → Type 0
AreFields = All (λ (f : Bytes × Bytes). IsField f.0 f.1)

-- The phrase behind the status. One that is empty cannot be read.
pub record IsPhrase (text : Bytes) : Type 0 where
  pub phrase_starts : starts text ≡ true
  pub phrase_trimmed : IsTrimmed text
  pub phrase_one_line : has b'\n' text ≡ false

abbrev pub print_status : ℕ → Bytes → Bytes
print_status code text = codes "RTSP/1.0 " ++ decimal code ++ b' ' ∷ text ++ crlf

abbrev pub print_response : ℕ → Bytes → List (Bytes × Bytes) → Bytes → Bytes
print_response code text fields body =
    print_status code text
    ++ (header_lines fields
        ++ (header_line (codes "Content-Length") (decimal (length body)) ++ (crlf ++ body)))
