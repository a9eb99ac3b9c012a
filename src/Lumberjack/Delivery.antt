-- ===== src/Lumberjack/Delivery.antt =====
-- The client of crates/ferro-lumberjack/src/client.rs against the server of server.rs: the window that
-- a client builds is the window that a server reads, and its ACK is the one that the client expects.
mod Record
pub mod Loops
mod Body
use mathlib.Core.Path.{subst}
use ferro_protocols.Prelude.{
  ℕ, zero, suc, ◌+◌, ◌≤◌, ◌<◌, ◌≡◌, refl, sym, ap, ◌∙◌, Bytes, List, [], ◌∷◌, ◌++◌, length, Option,
  none, some, arith, append_assoc, length-append, All, if◌then◌else◌, ltb, leb, ◌==◌, le→ltb,
}
use ferro_protocols.Prelude.Result.{Result, ok, err, ◌>>=◌}
use ferro_protocols.Prelude.Words.{u32_mod, u32_max, u64_max, wrapping_add, to_be_bytes}
use ferro_protocols.Lumberjack.Sequence.{Sequence}
use ferro_protocols.Lumberjack.Zlib.{Zlib, IsZlib}
use ferro_protocols.Lumberjack.Frame.{
  FrameDecoder, window, next_frame, pending, encode_window, encode_ack, u32_or_max,
}
use ferro_protocols.Lumberjack.Frame.View.{unread, IsValid, pending-eq-length}
use ferro_protocols.Lumberjack.Frame.RoundTrip.{Yields, next_frame-encode_window}
use ferro_protocols.Lumberjack.Server.State.{
  Window, Limits, Progress, Fault, start, check_declared_window,
}
use ferro_protocols.Lumberjack.Server.{
  go_on, on_window, on_frame, Drained, returned, more_bytes, faulted, after_next, outer_loop, Read,
  received, broken, Reply, after_drain, read_loop, read_window,
}
use ferro_protocols.Lumberjack.Client.{
  Client, inner_frames, window_body, build_window_payload, check_ack,
}
use ferro_protocols.Lumberjack.Client.Ack.{check_ack-encode_ack}
use Record.{recorded, IsReady, batch_bytes}
use Loops.{Carries, Returns, window_of, batch_window, outer_call}
use Body.{body_delivered}

-- A batch that the caps of a server let through: as many events as a `u32` counts and a window may
-- have, payloads that a frame and a window may have, and frames that a C frame may inflate to.
pub record IsDeliverable (lim : Limits) (base : Sequence) (events : List Bytes) : Type 0 where
  pub counted : length events ≤ u32_max
  pub few : length events ≤ lim.max_window_events
  pub bytes : batch_bytes events ≤ lim.max_window_bytes
  pub finite : lim.max_window_bytes ≤ u64_max
  pub payloads : All (Carries lim.max_frame_payload) events
  pub inflated : length (inner_frames base 0 events) ≤ lim.max_frame_payload
  pub capped : lim.max_frame_payload < u64_max

-- The reply holds the window, and the bytes behind it stay unread.
abbrev pub Reads : Window → Bytes → Reply → Type 0
Reads w rest (r, d, reads) = (r ≡ ok (some w)) × (unread d ≡ rest)

module _ (z : Zlib) (lim : Limits) (base : Sequence) where
  -- A window that the buffered bytes hold is returned before the socket is read.
  Returns-first :
      (w : Window) (rest : Bytes) (reads : List Read) (k : Progress → FrameDecoder → Reply)
      (r : Drained)
      → Returns z lim base w rest r
      → Reads w rest (after_drain reads k r)
  Returns-first w rest reads k (returned w' d) (e, u) = (ap (λ x. ok (some x)) e, u)
  Returns-first w rest reads k (more_bytes p d) h = absurd h
  Returns-first w rest reads k (faulted e d) h = absurd h

  read_loop_first :
      (w : Window) (rest : Bytes) (reads : List Read) (d : FrameDecoder) (p : Progress)
      → Returns z lim base w rest (outer_loop z lim (suc (pending d)) d p)
      → Reads w rest (read_loop z lim reads d p)
  unfolding read_loop
  read_loop_first w rest [] d p h = Returns-first w rest [] _ _ h
  read_loop_first w rest (received [] ∷ more) d p h = Returns-first w rest _ _ _ h
  read_loop_first w rest (received (x ∷ xs) ∷ more) d p h = Returns-first w rest _ _ _ h
  read_loop_first w rest (broken ∷ more) d p h = Returns-first w rest _ _ _ h

-- The state behind the W frame.
abbrev declared : ℕ → Progress
declared n = record start { window_remaining = some n }

on_window_declares :
    (z : Zlib) (lim : Limits) (n : ℕ)
    → suc n ≤ lim.max_window_events
    → on_frame z lim (window (suc n)) start ≡ ok (go_on (declared (suc n)))
unfolding on_frame on_window check_declared_window
on_window_declares z lim n h = ground arith

declared-IsReady :
    (lim : Limits) (base : Sequence) (events : List Bytes)
    → IsDeliverable lim base events
    → IsReady lim 0 events (declared (length events))
declared-IsReady lim base events h = record {
  slots = refl;
  room = omega (arith, h.few);
  bytes = omega (arith, h.bytes);
  finite = h.finite;
  numbers = omega (arith, h.counted);
}

payload_shape :
    (z : Zlib) (c : Client) (events : List Bytes) (base : Sequence) (rest : Bytes)
    → length events ≤ u32_max
    → build_window_payload z c events base ++ rest
      ≡ encode_window (length events)
        ++ (window_body z c.compression_level (inner_frames base 0 events) ++ rest)
unfolding build_window_payload
payload_shape z c events base rest h =
    let fits : u32_or_max (length events) ≡ length events = ground arith in
    let body : Bytes = window_body z c.compression_level (inner_frames base 0 events) in
    ap (λ n. (encode_window n ++ body) ++ rest) fits
    ∙ append_assoc (encode_window (length events)) body rest

length-encode_window : (n : ℕ) → length (encode_window n) ≡ 6
unfolding encode_window to_be_bytes
length-encode_window n = refl

window_shape :
    (z : Zlib) (lim : Limits) (base : Sequence) (e : Bytes) (es : List Bytes) (n : ℕ)
    → window_of z lim base (recorded base.value 0 (e ∷ es) (declared n))
      ≡ batch_window base.value (e ∷ es)
window_shape z lim base e es n = ground arith

-- The deflater and the inflater are inverse, and a non-empty batch passes the server's caps. If the
-- unread bytes of the server's valid decoder begin with the payload that the client builds for the
-- batch, compressed or not, then `read_window` returns the events in order, numbered from the one
-- behind the base, with the number of the last as `last_seq`, and leaves the bytes behind the
-- payload.
pub read_window-build_window_payload :
    (z : Zlib) (lim : Limits) (c : Client) (base : Sequence) (e : Bytes) (es : List Bytes)
    (rest : Bytes) (reads : List Read) (d : FrameDecoder)
    → IsZlib z
    → IsDeliverable lim base (e ∷ es)
    → IsValid d
    → d.max_frame_payload ≡ lim.max_frame_payload
    → unread d ≡ build_window_payload z c (e ∷ es) base ++ rest
    → Reads (batch_window base.value (e ∷ es)) rest (read_window z lim reads d)
unfolding read_window
read_window-build_window_payload z lim c base e es rest reads d laws h valid same u =
    let n : ℕ = length (e ∷ es) in
    let body : Bytes = window_body z c.compression_level (inner_frames base 0 (e ∷ es)) in
    let shape : unread d ≡ encode_window n ++ (body ++ rest) =
      u ∙ payload_shape z c (e ∷ es) base rest h.counted in
    let (frame, left, valid', kept) =
      next_frame-encode_window z d n (body ++ rest) valid (omega (arith, h.counted)) shape in
    read_loop_first z lim base (batch_window base.value (e ∷ es)) rest reads d start (
      rw
        (
          outer_call z lim base (pending d) d start (window n) frame,
          on_window_declares z lim (length es) h.few,
        )
        (subst
          (λ w.
            Returns z lim base w rest
              (outer_loop z lim (pending d) (next_frame z d).1 (declared n)))
          (window_shape z lim base e es n)
          (body_delivered z lim base e es laws (pending d) c.compression_level rest
            (next_frame z d).1 (declared n) (declared-IsReady lim base (e ∷ es) h) h.payloads valid'
            (kept ∙ same) h.inflated h.capped left
            (omega (
              arith,
              pending-eq-length d,
              ap length shape,
              length-append (encode_window n) (body ++ rest),
              length-append body rest,
              length-encode_window n,
            )))))

-- The client accepts the ACK of the `last_seq` of the window that its batch makes as an ACK of the
-- whole batch.
pub check_ack-batch_window :
    (base : Sequence) (events : List Bytes)
    → base.value < u32_mod
    → length events ≤ u32_max
    → check_ack (encode_ack (batch_window base.value events).last_seq) base.value (length events)
      ≡ ok (length events)
check_ack-batch_window base events hb hn =
    check_ack-encode_ack base.value (length events) (length events) hb (omega arith) (omega arith)
    ∙ ground arith
