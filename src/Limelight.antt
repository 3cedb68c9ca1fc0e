-- ===== src/Limelight.antt =====
-- moonlight-common-go/limelight/client.go, and the stages of moonlight-common-go/types/types.go: the
-- client that brings the streams up and down. Names and sockets of the system are parameters.
pub mod Address
pub mod Handshake
pub mod Start
pub mod Shape
pub mod Shaking
pub mod Phases
pub mod Machine
pub mod Stages
pub mod Telling
pub mod Order
pub mod Serving
pub mod Connecting
pub mod Outcomes
pub mod Api
use moonparty.Base.Result.{Result}
use moonparty.Base.Text.{Bytes}
use moonparty.Base.{ℕ, Bool, true, false, Option, none, List, [], ◌∷◌, ◌++◌, ℤ, pos}
use moonparty.Control.{AppVersion}
use moonparty.Rtsp
use moonparty.Rtsp.{RtspError, Network}

pub data Stage : Type 0 where
  stage_none platform_init rtsp_handshake control_stream_init video_stream_init : Stage
  audio_stream_init input_stream_init control_stream_start video_stream_start : Stage
  audio_stream_start input_stream_start stage_complete : Stage

-- The calls of `types.ConnectionCallbacks` that the client makes, and the streams it stops.
pub data Notice : Type 0 where
  starting complete failed : Stage → Notice
  connection_started cancelled : Notice
  input_closed audio_stopped video_stopped control_stopped rtsp_closed : Notice

-- What ends a `Start`. `panics` is no error that it returns, but a panic that leaves it.
pub data Failure : Type 0 where
  already_connected unresolved panics : Failure
  rtsp_error : RtspError → Failure
  step_failed : Bytes → RtspError → Failure
  bad_status : Bytes → ℤ → Bytes → Failure
  stream_failed : Stage → Failure

abbrev pub Try : Type 0 → Type 0
Try A = Result Failure A

-- The fields of `StreamConfiguration` that the client reads itself.
pub record Config : Type 0 where
  pub width : ℤ
  pub height : ℤ
  pub fps : ℤ
  pub packet_size : ℤ
  pub supported_video_formats : ℕ

pub record OpusConfig : Type 0 where
  pub sample_rate : ℤ
  pub channel_count : ℤ
  pub streams : ℤ
  pub coupled_streams : ℤ
  pub samples_per_frame : ℤ
  pub channel_mapping : List ℕ

-- `lookup_ip` is `net.LookupIP`, with an empty list for its error. The other fields are whether the
-- socket of a stream opens, whether the two startup messages are written, and whether the decoder
-- is set up.
pub record System : Type 0 where
  pub net : Network
  pub lookup_ip : Bytes → List Bytes
  pub dials_control : Bool
  pub writes_start_a : Bool
  pub writes_start_b : Bool
  pub listens_video : Bool
  pub sets_up_video : Bool
  pub listens_audio : Bool
  pub inits_audio : Bool

-- A stream is a `Bool` here: whether the pointer is set. `rtsp` is what `rtspClient` points to while
-- `has_rtsp` holds, and after that the client that was closed last. `has_context` is
-- `cancel != nil`.
pub record Client : Type 0 where
  pub config : Config
  pub address : Bytes
  pub app_version_text : Bytes
  pub has_context : Bool
  pub stage : Stage
  pub connected : Bool
  pub app_version : AppVersion
  pub is_sunshine : Bool
  pub remote_ip : Bytes
  pub remote_port : ℤ
  pub has_rtsp : Bool
  pub rtsp : moonparty.Rtsp.Client
  pub has_control : Bool
  pub has_video : Bool
  pub has_audio : Bool
  pub has_input : Bool
  pub video_format : ℕ
  pub opus_config : Option OpusConfig
  pub audio_packet_duration : ℤ
  pub video_port : ℤ
  pub audio_port : ℤ
  pub control_port : ℤ
  pub ping_payload : Bytes
  pub notices : List Notice

unfoldable pub new_client : Config → Bytes → Bytes → Client
new_client config address app_version_text = record {
  config = config;
  address = address;
  app_version_text = app_version_text;
  has_context = false;
  stage = stage_none;
  connected = false;
  app_version = record { major = pos 0; minor = pos 0; build = pos 0; patch = pos 0 };
  is_sunshine = false;
  remote_ip = [];
  remote_port = pos 0;
  has_rtsp = false;
  rtsp = moonparty.Rtsp.new_client [] (pos 0);
  has_control = false;
  has_video = false;
  has_audio = false;
  has_input = false;
  video_format = 0;
  opus_config = none;
  audio_packet_duration = pos 0;
  video_port = pos 0;
  audio_port = pos 0;
  control_port = pos 0;
  ping_payload = [];
  notices = [];
}

abbrev pub notify : Notice → Client → Client
notify n c = record c { notices = c.notices ++ n ∷ [] }
