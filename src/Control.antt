-- ===== src/Control.antt =====
-- moonlight-common-go/control/stream.go: the control stream to the streaming server.
-- The socket is an argument: whether a write succeeds. Times are in milliseconds.
pub mod Message
pub mod Receive
pub mod Framing
pub mod Status
use moonparty.Base.{
  ℕ, zero, suc, ◌+◌, ◌-◌, ◌*◌, ◌/◌, ◌%◌, Bool, true, false, not, ◌&&◌, Option, none, some, List, [],
  ◌∷◌, ◌++◌, ltb, leb, ◌==◌, ◌!=◌, if◌then◌else◌, length, drop, replicate, ℤ, pos, negsuc, ltb_ℤ,
  sub_ℕ,
}
use moonparty.Base.Bytes.{u16, u32, le16, le32, le16_at, le32_at, be32_at, slice}

pub record AppVersion : Type 0 where
  pub major : ℤ
  pub minor : ℤ
  pub build : ℤ
  pub patch : ℤ

unfoldable pub app_version_at_least : AppVersion → ℤ → ℤ → ℤ → Bool
app_version_at_least v major minor build =
    if ltb_ℤ major v.major
    then true
    else if ltb_ℤ v.major major
    then false
    else if ltb_ℤ minor v.minor
    then true
    else if ltb_ℤ v.minor minor
    then false
    else not (ltb_ℤ v.build build)

-- The keys of `protocol.PacketTypesGen7Enc`, and its values.
pub data PacketKind : Type 0 where
  request_idr start_b invalidate_ref_frames loss_stats frame_stats input_data rumble_data :
      PacketKind
  termination hdr_mode rumble_triggers set_motion_event set_rgb_led : PacketKind
  set_adaptive_triggers : PacketKind

abbrev pub packet_types_gen7_enc : PacketKind → ℕ
packet_types_gen7_enc request_idr = 0x0302
packet_types_gen7_enc start_b = 0x0307
packet_types_gen7_enc invalidate_ref_frames = 0x0301
packet_types_gen7_enc loss_stats = 0x0201
packet_types_gen7_enc frame_stats = 0x0204
packet_types_gen7_enc input_data = 0x0206
packet_types_gen7_enc rumble_data = 0x010b
packet_types_gen7_enc termination = 0x0109
packet_types_gen7_enc hdr_mode = 0x010e
packet_types_gen7_enc rumble_triggers = 0x5500
packet_types_gen7_enc set_motion_event = 0x5501
packet_types_gen7_enc set_rgb_led = 0x5502
packet_types_gen7_enc set_adaptive_triggers = 0x5503

pub data ConnectionStatus : Type 0 where
  okay poor : ConnectionStatus

pub record Chromaticity : Type 0 where
  pub x : ℕ
  pub y : ℕ

-- The fields of `types.HDRMetadata` that the stream writes.
pub record HdrMetadata : Type 0 where
  pub red : Chromaticity
  pub green : Chromaticity
  pub blue : Chromaticity
  pub white_point : Chromaticity
  pub max_display_luminance : ℕ
  pub min_display_luminance : ℕ

pub record Stream : Type 0 where
  pub app_version : AppVersion
  pub is_sunshine : Bool
  pub has_conn : Bool
  pub encrypted : Bool
  pub current_seq : ℕ
  pub last_good_frame : ℕ
  pub last_seen_frame : ℕ
  pub idr_requested : Bool
  pub interval_good_count : ℕ
  pub interval_total_count : ℕ
  pub interval_start_time : Option ℕ
  pub last_loss_percent : ℤ
  pub last_conn_status : ConnectionStatus
  pub hdr_enabled : Bool
  pub hdr_metadata : HdrMetadata
  pub has_packet_types : Bool

-- `s.packetTypes[kind]`: a nil map gives 0.
abbrev pub packet_type : Stream → PacketKind → ℕ
packet_type s kind = if s.has_packet_types then packet_types_gen7_enc kind else 0

abbrev zero_point : Chromaticity
zero_point = record { x = 0; y = 0 }

unfoldable pub new_stream : AppVersion → Bool → Stream
unfolding app_version_at_least
new_stream v is_sunshine = record {
  app_version = v;
  is_sunshine = is_sunshine;
  has_conn = false;
  encrypted = app_version_at_least v (pos 7) (pos 1) (pos 431);
  current_seq = 0;
  last_good_frame = 0;
  last_seen_frame = 0;
  idr_requested = false;
  interval_good_count = 0;
  interval_total_count = 0;
  interval_start_time = none;
  last_loss_percent = pos 0;
  last_conn_status = okay;
  hdr_enabled = false;
  hdr_metadata = record {
    red = zero_point;
    green = zero_point;
    blue = zero_point;
    white_point = zero_point;
    max_display_luminance = 0;
    min_display_luminance = 0;
  };
  has_packet_types = app_version_at_least v (pos 7) (pos 1) (pos 431);
}
