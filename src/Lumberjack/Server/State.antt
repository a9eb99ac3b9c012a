-- ===== src/Lumberjack/Server/State.antt =====
-- The state of `read_window` of crates/ferro-lumberjack/src/server.rs, and its helpers.
use ferro_protocols.Prelude.{
  ℕ, ◌+◌, ◌-◌, Bytes, List, [], ◌∷◌, ◌++◌, length, ltb, leb, ◌==◌, Option, none, some,
  if◌then◌else◌,
}
use ferro_protocols.Prelude.Result.{Result, ok, err}
use ferro_protocols.Prelude.Words.{saturating_add}
use ferro_protocols.Lumberjack.Frame.{unknown_frame_type}
use ferro_protocols.Lumberjack.Error.{
  ProtocolError, codec, window_too_large, event_count, byte_total,
}

pub record JsonEvent : Type 0 where
  pub seq : ℕ
  pub payload : Bytes

pub record Window : Type 0 where
  pub events : List JsonEvent
  pub last_seq : ℕ

-- The caps of a `ServerConnection`.
pub record Limits : Type 0 where
  pub max_frame_payload : ℕ
  pub max_window_events : ℕ
  pub max_window_bytes : ℕ

-- The local variables of `read_window`.
pub record Progress : Type 0 where
  pub events : List JsonEvent
  pub window_remaining : Option ℕ
  pub last_seq : ℕ
  pub accumulated_bytes : ℕ

abbrev pub start : Progress
start = record { events = []; window_remaining = none; last_seq = 0; accumulated_bytes = 0 }

-- How a call ends but by a value: an error of the crate, a panic, the end of the fuel, or a wait for
-- bytes that never come.
pub data Fault : Type 0 where
  protocol : ProtocolError → Fault
  panicked : Fault
  out_of_fuel : Fault
  blocked : Fault

unfoldable pub check_declared_window : ℕ → ℕ → Result Fault (Unit {0})
check_declared_window count max_events =
    if ltb max_events count
    then err (protocol (window_too_large event_count count max_events))
    else ok tt

-- The pushes and the writes of the last lines of `record_event`.
abbrev pub accept : Progress → ℕ → ℕ → Bytes → ℕ → Progress
accept p remaining seq payload next_bytes = record {
  events = p.events ++ record { seq = seq; payload = payload } ∷ [];
  window_remaining = some (remaining - 1);
  last_seq = seq;
  accumulated_bytes = next_bytes;
}

unfoldable pub record_event : Limits → ℕ → Bytes → Progress → Result Fault Progress
record_event lim seq payload p = elim p.window_remaining [
  | none ↦ err (protocol (codec (unknown_frame_type b'J')))
  | some remaining ↦
      let next_bytes = saturating_add p.accumulated_bytes (length payload) in
      if remaining == 0
      then err (protocol (codec (unknown_frame_type b'J')))
      else if leb lim.max_window_events (length p.events)
      then err (protocol (window_too_large event_count (length p.events + 1) lim.max_window_events))
      else if ltb lim.max_window_bytes next_bytes
      then err (protocol (window_too_large byte_total next_bytes lim.max_window_bytes))
      else ok (accept p remaining seq payload next_bytes)
]

unfoldable pub consume_slot : Progress → Result Fault Progress
consume_slot p = elim p.window_remaining [
  | none ↦ err (protocol (codec (unknown_frame_type b'D')))
  | some remaining ↦
      if remaining == 0
      then err (protocol (codec (unknown_frame_type b'D')))
      else ok (record p { window_remaining = some (remaining - 1) })
]
