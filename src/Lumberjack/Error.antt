-- ===== src/Lumberjack/Error.antt =====
-- crates/ferro-lumberjack/src/error.rs: `ProtocolError`, over the codec's `FrameError`.
use ferro_protocols.Prelude.{ℕ}
use ferro_protocols.Lumberjack.Frame.{FrameError}

-- The kinds of `std::io::Error` that the crate tells apart.
pub data IoError : Type 0 where
  unexpected_eof : IoError
  other : IoError

-- The texts of `Timeout`.
pub data Operation : Type 0 where
  connect write flush ack_read : Operation

-- The texts of `WindowTooLarge`.
pub data Kind : Type 0 where
  event_count byte_total : Kind

pub data ProtocolError : Type 0 where
  io : IoError → ProtocolError
  codec : FrameError → ProtocolError
  timeout : Operation → ProtocolError
  -- version, frame_type, acked_seq, expected_seq
  unexpected_ack : ℕ → ℕ → ℕ → ℕ → ProtocolError
  -- acked, sent
  partial_ack : ℕ → ℕ → ProtocolError
  no_hosts_configured : ProtocolError
  all_hosts_failed : ProtocolError → ProtocolError
  -- kind, requested, limit
  window_too_large : Kind → ℕ → ℕ → ProtocolError
