-- ===== src/Rtsp/Sdp.antt =====
-- moonlight-common-go/rtsp/rtsp.go: `BuildSDP` and `ParseSDP`.
use moonparty.Base.Dict.{put}
use moonparty.Base.Text.{Bytes, codes, crlf, is_empty, trim_space, cut, split, strip_prefix, itoa}
use moonparty.Base.{none, some, List, [], ◌∷◌, ◌++◌, ℤ, if◌then◌else◌}

-- `a=<key>:<value>`.
abbrev pub attribute_line : Bytes → Bytes → Bytes
attribute_line k v = codes "a=" ++ (k ++ (b':' ∷ (v ++ crlf)))

abbrev pub attribute_lines : List (Bytes × Bytes) → Bytes
attribute_lines [] = []
attribute_lines ((k, v) ∷ attributes) = attribute_line k v ++ attribute_lines attributes

abbrev pub preamble : Bytes
preamble =
    codes "v=0"
    ++ crlf
    ++ codes "o=- 0 0 IN IP4 0.0.0.0"
    ++ crlf
    ++ codes "s=NVIDIA Streaming Client"
    ++ crlf

abbrev pub fixed_attributes : List (Bytes × Bytes)
fixed_attributes =
    (codes "x-nv-video[0].rateControlMode", codes "4")
    ∷ (codes "x-nv-video[0].timeoutLengthMs", codes "7000")
    ∷ (codes "x-nv-video[0].framesWithInvalidRefThreshold", codes "0")
    ∷ (codes "x-nv-vqos[0].bitStreamFormat", codes "0")
    ∷ (codes "x-nv-video[0].encoderCscMode", codes "0")
    ∷ (codes "x-nv-video[0].maxNumReferenceFrames", codes "1")
    ∷ (codes "x-nv-video[0].videoEncoderSlicesPerFrame", codes "1")
    ∷ (codes "x-nv-audio.surround.numChannels", codes "2")
    ∷ (codes "x-nv-audio.surround.channelMask", codes "3")
    ∷ (codes "x-nv-audio.surround.enable", codes "0")
    ∷ (codes "x-nv-audio.surround.AudioQuality", codes "0")
    ∷ (codes "x-nv-aqos.packetDuration", codes "5")
    ∷ (codes "x-nv-general.useReliableUdp", codes "1")
    ∷ (codes "x-nv-vqos[0].fec.minRequiredFecPackets", codes "0")
    ∷ (codes "x-nv-general.featureFlags", codes "135")
    ∷ (codes "x-ml-general.featureFlags", codes "3")
    ∷ (codes "x-nv-vqos[0].qosTrafficType", codes "5")
    ∷ (codes "x-nv-aqos.qosTrafficType", codes "4")
    ∷ (codes "x-ml-video.configuredBitrateKbps", codes "0")
    ∷ []

-- In the order in which they are written. The other arguments of `BuildSDP` are not used there.
unfoldable pub attributes : ℤ → ℤ → ℤ → ℤ → List (Bytes × Bytes)
attributes width height fps packet_size =
    (codes "x-nv-video[0].clientViewportWd", itoa width)
    ∷ (codes "x-nv-video[0].clientViewportHt", itoa height)
    ∷ (codes "x-nv-video[0].maxFPS", itoa fps)
    ∷ (codes "x-nv-vqos[0].bw.maximumBitrateKbps", codes "20000")
    ∷ (codes "x-nv-video[0].packetSize", itoa packet_size)
    ∷ fixed_attributes

unfoldable pub build_sdp : ℤ → ℤ → ℤ → ℤ → Bytes
build_sdp width height fps packet_size =
    preamble ++ attribute_lines (attributes width height fps packet_size)

-- The body of the loop over the lines.
unfoldable pub read_attribute : Bytes → List (Bytes × Bytes) → List (Bytes × Bytes)
read_attribute line m = elim (strip_prefix (codes "a=") (trim_space line)) [
  | none ↦ m
  | some attr ↦ elim (cut b':' attr) [
    | none ↦ m
    | some (key, value) ↦ if is_empty key then m else put key value m
  ]
]

unfoldable pub read_attributes : List Bytes → List (Bytes × Bytes) → List (Bytes × Bytes)
read_attributes [] m = m
read_attributes (line ∷ lines) m = read_attributes lines (read_attribute line m)

unfoldable pub parse_sdp : Bytes → List (Bytes × Bytes)
parse_sdp sdp = read_attributes (split b'\n' sdp) []
