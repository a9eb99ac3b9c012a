-- ===== src/Lumberjack/Frame/Wire.antt =====
-- crates/ferro-lumberjack/src/frame.rs: the frames, their errors and their encoders.
use ferro_protocols.Prelude.{ℕ, ◌*◌, ◌∷◌, ◌++◌, Bytes, length, ltb, leb, if◌then◌else◌}
use ferro_protocols.Prelude.Result.{Result, ok, err}
use ferro_protocols.Prelude.Words.{u32_max, to_be_bytes}
use ferro_protocols.Lumberjack.Zlib.{Zlib}

-- `PROTOCOL_VERSION` and the `FRAME_TYPE_*` constants
abbrev pub protocol_version : ℕ
protocol_version = b'2'

abbrev pub frame_type_window : ℕ
frame_type_window = b'W'

abbrev pub frame_type_json : ℕ
frame_type_json = b'J'

abbrev pub frame_type_compressed : ℕ
frame_type_compressed = b'C'

abbrev pub frame_type_ack : ℕ
frame_type_ack = b'A'

abbrev pub frame_type_data_legacy : ℕ
frame_type_data_legacy = b'D'

abbrev pub default_max_frame_payload : ℕ
default_max_frame_payload = 64 * 1024 * 1024

pub data FrameError : Type 0 where
  unsupported_version : ℕ → FrameError
  unknown_frame_type : ℕ → FrameError
  -- requested, limit
  payload_too_large : ℕ → ℕ → FrameError
  decompression : Bytes → FrameError
  decompressed_too_large : ℕ → FrameError
  compression : Bytes → FrameError

pub data Frame : Type 0 where
  -- count
  window : ℕ → Frame
  -- seq, payload
  json : ℕ → Bytes → Frame
  -- decompressed
  compressed : Bytes → Frame
  -- seq
  ack : ℕ → Frame
  -- frame_type, raw
  unknown : ℕ → Bytes → Frame

unfoldable pub encode_window : ℕ → Bytes
encode_window count = protocol_version ∷ frame_type_window ∷ to_be_bytes count

unfoldable pub encode_ack : ℕ → Bytes
encode_ack seq = protocol_version ∷ frame_type_ack ∷ to_be_bytes seq

-- `u32::try_from(n).unwrap_or(u32::MAX)`
abbrev pub u32_or_max : ℕ → ℕ
u32_or_max n = if leb n u32_max then n else u32_max

unfoldable pub encode_json_frame : ℕ → Bytes → Bytes
encode_json_frame seq payload =
    protocol_version
    ∷ frame_type_json
    ∷ (to_be_bytes seq ++ (to_be_bytes (u32_or_max (length payload)) ++ payload))

unfoldable pub encode_compressed : Zlib → ℕ → Bytes → Result FrameError Bytes
encode_compressed z level inner_frames = elim (z.deflate level inner_frames) [
  | err e ↦ err (compression e)
  | ok c ↦
      if ltb u32_max (length c)
      then err (payload_too_large (length c) u32_max)
      else ok (protocol_version ∷ frame_type_compressed ∷ (to_be_bytes (length c) ++ c))
]
