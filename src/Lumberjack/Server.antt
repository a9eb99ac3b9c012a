-- ===== src/Lumberjack/Server.antt =====
-- crates/ferro-lumberjack/src/server.rs: reading one window of events from a connection. What the
-- socket returns is a list of reads; the loops over buffered frames have fuel.
pub mod State
pub mod Ends
pub mod Caps
use ferro_protocols.Prelude.{
  ℕ, zero, suc, ◌+◌, ◌-◌, ◌*◌, Bytes, List, [], ◌∷◌, ◌++◌, length, ltb, leb, ◌==◌, Option, none,
  some, Bool, true, false, if◌then◌else◌,
}
use ferro_protocols.Prelude.Result.{Result, ok, err, ◌>>=◌}
use ferro_protocols.Lumberjack.Zlib.{Zlib}
use ferro_protocols.Lumberjack.Frame.{
  Frame, FrameDecoder, Outcome, ok_some, ok_none, error, panic, window, json, compressed, ack,
  unknown, unknown_frame_type, with_max_frame_payload, feed, pending, next_frame, encode_ack,
}
use ferro_protocols.Lumberjack.Error.{
  ProtocolError, io, codec, window_too_large, unexpected_eof, other, event_count,
}
use ferro_protocols.Lumberjack.Server.State.{
  JsonEvent, Window, Limits, Progress, Fault, protocol, panicked, out_of_fuel, blocked, start,
  check_declared_window, record_event, consume_slot,
}

-- `while let Some(f) = inner.next_frame()? { match f { … } }`: the frames of a C frame.
abbrev pub inner_frame : Limits → Frame → Progress → Result Fault Progress
inner_frame lim (json seq payload) p = record_event lim seq payload p
inner_frame lim (unknown _ _) p = consume_slot p
inner_frame lim _ p = err (protocol (codec (unknown_frame_type 0)))

abbrev pub after_inner :
    Limits
    → (FrameDecoder → Progress → Result Fault Progress)
    → Progress
    → Outcome Frame × FrameDecoder
    → Result Fault Progress
after_inner lim k p (ok_some f, d) = do p' ← inner_frame lim f p; k d p'
after_inner lim k p (ok_none, d) = ok p
after_inner lim k p (error e, d) = err (protocol (codec e))
after_inner lim k p (panic, d) = err panicked

unfoldable pub inner_loop : Zlib → Limits → ℕ → FrameDecoder → Progress → Result Fault Progress
inner_loop z lim zero d p = err out_of_fuel
inner_loop z lim (suc fuel) d p = after_inner lim (inner_loop z lim fuel) p (next_frame z d)

-- A handled frame ends the window, or the loop goes on.
pub data Next : Type 0 where
  complete : Window → Next
  go_on : Progress → Next

-- `if window_remaining == Some(0) { return Ok(Some(Window { events, last_seq })); }`
unfoldable pub finish : Progress → Next
finish p = elim p.window_remaining [
  | none ↦ go_on p
  | some r ↦
      if r == 0 then complete (record { events = p.events; last_seq = p.last_seq }) else go_on p
]

unfoldable pub on_window : Limits → ℕ → Progress → Result Fault Next
on_window lim count p = elim p.window_remaining [
  | some _ ↦ err (protocol (codec (unknown_frame_type b'W')))
  | none ↦ (do
    _ ← check_declared_window count lim.max_window_events
    if count == 0
        then ok (complete (record { events = p.events; last_seq = 0 }))
        else ok (go_on (record p { window_remaining = some count })))
]

-- The `match frame` of `read_window`.
unfoldable pub on_frame : Zlib → Limits → Frame → Progress → Result Fault Next
on_frame z lim (window count) p = on_window lim count p
on_frame z lim (json seq payload) p = do p' ← record_event lim seq payload p; ok (finish p')
on_frame z lim (compressed decompressed) p = do
  let inner = feed (with_max_frame_payload lim.max_frame_payload) decompressed
  p' ← inner_loop z lim (suc (pending inner)) inner p
  ok (finish p')
on_frame z lim (unknown _ _) p = do p' ← consume_slot p; ok (finish p')
on_frame z lim (ack _) p = err (protocol (codec (unknown_frame_type b'A')))

-- What the loop over the buffered frames comes to.
pub data Drained : Type 0 where
  returned : Window → FrameDecoder → Drained
  more_bytes : Progress → FrameDecoder → Drained
  faulted : Fault → FrameDecoder → Drained

abbrev pub after_next :
    (FrameDecoder → Progress → Drained) → FrameDecoder → Result Fault Next → Drained
after_next k d (ok (complete w)) = returned w d
after_next k d (ok (go_on p)) = k d p
after_next k d (err e) = faulted e d

abbrev pub after_outer :
    Zlib
    → Limits
    → (FrameDecoder → Progress → Drained)
    → Progress
    → Outcome Frame × FrameDecoder
    → Drained
after_outer z lim k p (ok_some f, d) = after_next k d (on_frame z lim f p)
after_outer z lim k p (ok_none, d) = more_bytes p d
after_outer z lim k p (error e, d) = faulted (protocol (codec e)) d
after_outer z lim k p (panic, d) = faulted panicked d

-- "Drain anything currently buffered."
unfoldable pub outer_loop : Zlib → Limits → ℕ → FrameDecoder → Progress → Drained
outer_loop z lim zero d p = faulted out_of_fuel d
outer_loop z lim (suc fuel) d p = after_outer z lim (outer_loop z lim fuel) p (next_frame z d)

-- What a read of the socket returns: bytes, none at the end of the stream, or an error.
pub data Read : Type 0 where
  received : Bytes → Read
  broken : Read

-- The end of the stream.
unfoldable pub at_eof : Progress → Result Fault (Option Window)
at_eof p = elim p.window_remaining [
  | none ↦ elim p.events [ [] ↦ ok none | _ ∷ _ ↦ err (protocol (io unexpected_eof)) ]
  | some _ ↦ err (protocol (io unexpected_eof))
]

-- The result, the decoder after it, and the reads that are left.
abbrev pub Reply : Type 0
Reply = Result Fault (Option Window) × FrameDecoder × List Read

abbrev pub after_drain : List Read → (Progress → FrameDecoder → Reply) → Drained → Reply
after_drain reads k (returned w d) = (ok (some w), d, reads)
after_drain reads k (more_bytes p d) = k p d
after_drain reads k (faulted e d) = (err e, d, reads)

-- The outer `loop`, over what the socket will return. With no read left the call waits.
unfoldable pub read_loop : Zlib → Limits → List Read → FrameDecoder → Progress → Reply
read_loop z lim [] d p =
    after_drain [] (λ p' d'. (err blocked, d', [])) (outer_loop z lim (suc (pending d)) d p)
read_loop z lim (received [] ∷ rest) d p =
    after_drain (received [] ∷ rest) (λ p' d'. (at_eof p', d', rest))
      (outer_loop z lim (suc (pending d)) d p)
read_loop z lim (received (x ∷ xs) ∷ rest) d p =
    after_drain (received (x ∷ xs) ∷ rest) (λ p' d'. read_loop z lim rest (feed d' (x ∷ xs)) p')
      (outer_loop z lim (suc (pending d)) d p)
read_loop z lim (broken ∷ rest) d p =
    after_drain (broken ∷ rest) (λ p' d'. (err (protocol (io other)), d', rest))
      (outer_loop z lim (suc (pending d)) d p)

unfoldable pub read_window : Zlib → Limits → List Read → FrameDecoder → Reply
read_window z lim reads d = read_loop z lim reads d start

-- How a write or a flush of the socket comes out.
pub data Write : Type 0 where
  wrote : Write
  refused : Write

-- `write_all` and `flush`; the value is the bytes that were sent.
unfoldable pub send_ack : Write → Write → ℕ → Result Fault Bytes
send_ack wrote wrote seq = ok (encode_ack seq)
send_ack wrote refused seq = err (protocol (io other))
send_ack refused flushing seq = err (protocol (io other))

abbrev pub AckReply : Type 0
AckReply = Result Fault (Option (Window × Bytes)) × FrameDecoder × List Read

abbrev pub acked : Write → Write → Reply → AckReply
acked writing flushing (ok (some w), d, reads) =
    (send_ack writing flushing w.last_seq >>= λ sent. ok (some (w, sent)), d, reads)
acked writing flushing (ok none, d, reads) = (ok none, d, reads)
acked writing flushing (err e, d, reads) = (err e, d, reads)

unfoldable pub read_and_ack : Zlib → Limits → List Read → Write → Write → FrameDecoder → AckReply
read_and_ack z lim reads writing flushing d = acked writing flushing (read_window z lim reads d)
