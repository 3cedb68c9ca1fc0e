-- ===== src/Tests/Limelights.antt =====
-- The streaming client with a server that answers every request alike, but DESCRIBE by a body.
use moonparty.Base.Dict.{find}
use moonparty.Base.Result.{ok, err}
use moonparty.Base.Text.{
  Bytes, codes, text_eq, trim_left, trim_right, trim_space, cut, split, strip_prefix, atoi,
}
use moonparty.Base.{
  ◌≢◌, ◌<◌, Bool, true, false, none, some, List, [], ◌∷◌, ◌++◌, ℤ, pos, ◌≡◌, ◌⊎◌, refl, arith,
  length, if◌then◌else◌,
}
use moonparty.Limelight.Handshake
use moonparty.Limelight.Order.{Unheard, Told, all_stages, start-IsStaged}
use moonparty.Limelight.Outcomes.{start-connects, start-panics}
use moonparty.Limelight.Machine.{Phase, running, stop_with, Step, Represents, act, act-Represents}
use moonparty.Limelight.Phases.{Running}
use moonparty.Limelight.Connecting.{IsUp}
use moonparty.Limelight.Serving.{Serves}
use moonparty.Limelight.Shape.{Shape}
use moonparty.Limelight.Start.{start, stop}
use moonparty.Limelight.{Client, Config, System, new_client, panics}
use moonparty.Rtsp.Printing.{IsPhrase, print_response}
use moonparty.Rtsp.RoundTrip.{read_response-print_response, headers_of}
use moonparty.Rtsp.Reading.{has_prefix}
use moonparty.Rtsp.Sdp.{parse_sdp, read_attributes, read_attribute}
use moonparty.Rtsp.{Network, Response}

abbrev body_of_zero : Bytes
body_of_zero = codes "a=x-nv-audio.packetDuration:0"

-- The body of an answer, which only that to DESCRIBE has.
abbrev body_for : Bytes → Bytes → Bytes
body_for body request = if has_prefix (codes "DESCRIBE") request then body else []

abbrev pub network : Bytes → Network
network body = record {
  dial = λ n. true;
  accepts = λ n request. true;
  answer = λ n request. print_response 200 (codes "OK") [] (body_for body request) ++ [];
  range = λ m. m;
}

phrase : IsPhrase (codes "OK")
unfolding trim_left trim_right
phrase = record { phrase_starts = refl; phrase_trimmed = (refl, refl); phrase_one_line = refl }

abbrev answer_of : Bytes → Response
answer_of body = record {
  status_code = pos 200;
  status_text = codes "OK";
  headers = headers_of [] body;
  body = body;
}

body_for-small :
    (body request : Bytes)
    → length body < 100
    → length (body_for body request) < 9223372036854775808
body_for-small body request h = ground arith

no_duration :
    (b : Bool)
    → moonparty.Limelight.Handshake.duration_of
        (find (codes "x-nv-audio.packetDuration") (parse_sdp (if b then [] else [])))
      ≡ pos 5
unfolding find parse_sdp split read_attributes read_attribute trim_space trim_left trim_right
    strip_prefix
no_duration true = refl
no_duration false = refl

network-Serves : Serves (pos 5) (network [])
network-Serves = record {
  dials = λ n. refl;
  takes = λ n request. refl;
  answers = λ n request. (
    answer_of (body_for [] request),
    (
      read_response-print_response 200 (codes "OK") [] (body_for [] request) [] (omega arith) phrase
          tt (body_for-small [] request (omega arith)),
      record {
        status = refl;
        duration = λ asked. no_duration (has_prefix (codes "DESCRIBE") request);
      },
    ),
  );
}

zero_duration :
    moonparty.Limelight.Handshake.duration_of
      (find (codes "x-nv-audio.packetDuration") (parse_sdp body_of_zero))
    ≡ pos 0
unfolding find parse_sdp split read_attributes read_attribute trim_space trim_left trim_right
    strip_prefix text_eq cut atoi moonparty.Base.Dict.put
zero_duration = refl

network_zero-Serves : Serves (pos 0) (network body_of_zero)
network_zero-Serves = record {
  dials = λ n. refl;
  takes = λ n request. refl;
  answers = λ n request. (
    answer_of (body_for body_of_zero request),
    (
      read_response-print_response 200 (codes "OK") [] (body_for body_of_zero request) []
          (omega arith) phrase tt (body_for-small body_of_zero request (omega arith)),
      record { status = refl; duration = λ asked. rw asked zero_duration },
    ),
  );
}

abbrev pub system : Bytes → System
system body = record {
  net = network body;
  lookup_ip = λ host. codes "192.168.1.2" ∷ [];
  dials_control = true;
  writes_start_a = true;
  writes_start_b = true;
  listens_video = true;
  sets_up_video = true;
  listens_audio = true;
  inits_audio = true;
}

system-IsUp : (body : Bytes) → IsUp (system body)
system-IsUp body = record {
  resolves = λ host. (codes "192.168.1.2", ([], refl));
  dials_control = refl;
  writes_start_a = refl;
  writes_start_b = refl;
  listens_video = refl;
  sets_up_video = refl;
  listens_audio = refl;
}

abbrev pub config : Config
config = record {
  width = pos 1920;
  height = pos 1080;
  fps = pos 60;
  packet_size = pos 1392;
  supported_video_formats = 0x0101;
}

abbrev pub client : Client
client = new_client config (codes "game.local:47989") (codes "7.1.431.-1")

client-Shape : Shape false false false false false client
unfolding new_client
client-Shape = (refl, (refl, (refl, (refl, refl))))

start-connects_example :
    ((start (system []) client).1 ≡ ok tt) × Running (start (system []) client).0
start-connects_example =
    start-connects (system []) (pos 5) client client-Shape network-Serves refl (system-IsUp []) refl

pub client-connects : (start (system []) client).1 ≡ ok tt
client-connects =
    (start-connects (system []) (pos 5) client client-Shape network-Serves refl (system-IsUp [])
      refl).0

start-panics_example :
    ((start (system body_of_zero) client).1 ≡ err panics)
    × (Shape true true true false false (start (system body_of_zero) client).0
        × (stop (system []) (start (system body_of_zero) client).0
            ≡ (start (system body_of_zero) client).0))
start-panics_example =
    start-panics (system body_of_zero) (system []) client client-Shape network_zero-Serves
      (system-IsUp body_of_zero)

connected-Running : Running (start (system []) client).0
connected-Running =
    (start-connects (system []) (pos 5) client client-Shape network-Serves refl (system-IsUp [])
      refl).1

act-Represents_example :
    (q : Phase) × (Step running (stop_with (system [])) true q
      × Represents q (act (stop_with (system [])) (start (system []) client).0))
act-Represents_example =
    act-Represents running (stop_with (system [])) (start (system []) client).0 connected-Running tt

start-IsStaged_example :
    Unheard client (start (system body_of_zero) client)
    ⊎ Told all_stages client (start (system body_of_zero) client)
start-IsStaged_example = start-IsStaged (system body_of_zero) client (unfold new_client in refl)
