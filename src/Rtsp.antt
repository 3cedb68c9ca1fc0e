-- ===== src/Rtsp.antt =====
-- moonlight-common-go/rtsp/rtsp.go: the client, its connection, and what it can fail with. The
-- network is a parameter: which dials and writes succeed, and what the server answers.
pub mod Reading
pub mod Printing
pub mod Headers
pub mod RoundTrip
pub mod Sdp
pub mod Offer
pub mod Transport
pub mod Connections
pub mod Termination
pub mod Requests
pub mod Setup
use moonparty.Base.Result.{Result}
use moonparty.Base.Text.{Bytes}
use moonparty.Base.{
  ℕ, ◌+◌, Bool, true, false, List, [], ◌∷◌, ◌++◌, ℤ, pos, ◌==◌, ◌⊎◌, inl, inr, ◌≡◌, refl,
  if◌then◌else◌,
}

-- One for each error that the package makes.
pub data RtspError : Type 0 where
  connect_failed send_failed status_line_failed header_failed body_failed : RtspError
  invalid_response : Bytes → RtspError
  setup_failed : Bytes → ℤ → Bytes → RtspError
  out_of_fuel : RtspError

abbrev pub Reply {ℓ} : Type ℓ → Type ℓ
Reply A = Result RtspError A

pub record Response : Type 0 where
  pub status_code : ℤ
  pub status_text : Bytes
  pub headers : List (Bytes × Bytes)
  pub body : Bytes

pub record StreamPorts : Type 0 where
  pub video_port : ℤ
  pub audio_port : ℤ
  pub control_port : ℤ
  pub ping_payload : Bytes

-- What the client does on the network.
pub data Event : Type 0 where
  dialled : Event
  hung_up : Event
  sent : Bytes → Event

-- The n-th dial of the client and the connection it opens, and the order in which Go runs over a
-- map.
pub record Network : Type 0 where
  pub dial : ℕ → Bool
  pub accepts : ℕ → Bytes → Bool
  pub answer : ℕ → Bytes → Bytes
  pub range : List (Bytes × Bytes) → List (Bytes × Bytes)

-- `has_conn` is `conn != nil`. The reader holds the answer to the request just written, and
-- nothing reads it later. `dials` and `events` record what was done.
pub record Client : Type 0 where
  pub has_conn : Bool
  pub cseq : ℕ
  pub session_id : Bytes
  pub server_ip : Bytes
  pub server_port : ℤ
  pub dials : ℕ
  pub events : List Event

abbrev pub default_port : ℤ
default_port = pos 48010

abbrev is_zero : ℤ → Bool
is_zero (pos n) = n == 0
is_zero _ = false

unfoldable pub new_client : Bytes → ℤ → Client
new_client ip port = record {
  has_conn = false;
  cseq = 0;
  session_id = [];
  server_ip = ip;
  server_port = if is_zero port then default_port else port;
  dials = 0;
  events = [];
}

-- The flag is whether there is no error.
unfoldable pub connect : Network → Client → Client × Bool
connect net c =
    let tried : Client = record c { dials = c.dials + 1 } in
    if net.dial c.dials
    then (record tried { has_conn = true; events = c.events ++ dialled ∷ [] }, true)
    else (tried, false)

unfoldable pub close : Client → Client
close c = if c.has_conn then record c { has_conn = false; events = c.events ++ hung_up ∷ [] } else c
