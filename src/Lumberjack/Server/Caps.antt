-- ===== src/Lumberjack/Server/Caps.antt =====
-- The caps of server.rs: what a window that `read_window` returns may hold.
use ferro_protocols.Prelude.{
  ℕ, zero, suc, ◌+◌, ◌≤◌, ◌<◌, ◌≡◌, refl, Bytes, List, [], ◌∷◌, ◌++◌, length, Option, none, some,
  arith, length-append,
}
use ferro_protocols.Prelude.Result.{Result, ok, err, ◌>>=◌}
use ferro_protocols.Prelude.Words.{u64_max}
use ferro_protocols.Lumberjack.Zlib.{Zlib}
use ferro_protocols.Lumberjack.Frame.{
  Frame, FrameDecoder, Outcome, ok_some, ok_none, error, panic, window, json, compressed, ack,
  unknown, next_frame, feed, pending, with_max_frame_payload,
}
use ferro_protocols.Lumberjack.Server.State.{
  JsonEvent, Window, Limits, Progress, Fault, start, check_declared_window, record_event,
  consume_slot,
}
use ferro_protocols.Lumberjack.Server.{
  inner_frame, after_inner, inner_loop, Next, complete, go_on, finish, on_window, on_frame, Drained,
  returned, more_bytes, faulted, after_next, after_outer, outer_loop, Read, received, broken, Reply,
  after_drain, at_eof, read_loop, read_window,
}

-- The payload bytes of some events.
abbrev pub total_bytes : List JsonEvent → ℕ
total_bytes [] = 0
total_bytes (e ∷ es) = length e.payload + total_bytes es

total_bytes-append :
    (es fs : List JsonEvent) → total_bytes (es ++ fs) ≡ total_bytes es + total_bytes fs
total_bytes-append [] fs = omega arith
total_bytes-append (e ∷ es) fs = omega (arith, total_bytes-append es fs)

-- The sequence number of the last event, 0 if there is none.
abbrev pub last_of : List JsonEvent → ℕ
last_of [] = 0
last_of (e ∷ []) = e.seq
last_of (e ∷ f ∷ es) = last_of (f ∷ es)

last_of-append : (es : List JsonEvent) (e : JsonEvent) → last_of (es ++ e ∷ []) ≡ e.seq
last_of-append [] e = refl
last_of-append (x ∷ []) e = refl
last_of-append (x ∷ y ∷ es) e = last_of-append (y ∷ es) e

-- How many more events the state may take.
abbrev pub open_slots : Option ℕ → ℕ
open_slots none = 0
open_slots (some r) = r

-- Before the W frame there are no events; the events and the open slots together are within the
-- event cap; the bytes are counted exactly and are within the byte cap.
pub record IsCapped (lim : Limits) (p : Progress) : Type 0 where
  pub none_before : p.window_remaining ≡ none → p.events ≡ []
  pub slots : length p.events + open_slots p.window_remaining ≤ lim.max_window_events
  pub counted : p.accumulated_bytes ≡ total_bytes p.events
  pub bytes : total_bytes p.events ≤ lim.max_window_bytes
  pub last : p.last_seq ≡ last_of p.events

abbrev pub Each : {A : Type 0} → (A → Type 0) → Result Fault A → Type 0
Each P (ok a) = P a
Each P (err e) = Unit {0}

module _ (lim : Limits) (small : lim.max_window_bytes < u64_max) where
  record_event-IsCapped :
      (seq : ℕ) (payload : Bytes) (p : Progress)
      → IsCapped lim p
      → Each (IsCapped lim) (record_event lim seq payload p)
  unfolding record_event
  record_event-IsCapped seq payload p c =
      let e : JsonEvent = record { seq = seq; payload = payload } in
      ground (
        arith,
        c.none_before,
        c.slots,
        c.counted,
        c.bytes,
        length-append p.events (e ∷ []),
        total_bytes-append p.events (e ∷ []),
        last_of-append p.events e,
      )

  consume_slot-IsCapped : (p : Progress) → IsCapped lim p → Each (IsCapped lim) (consume_slot p)
  unfolding consume_slot
  consume_slot-IsCapped p c = ground (arith, c.none_before, c.slots)

-- What a returned window holds: at most the capped number of events and of payload bytes, and the
-- sequence number of its last event.
pub record IsWithin (lim : Limits) (w : Window) : Type 0 where
  pub events : length w.events ≤ lim.max_window_events
  pub bytes : total_bytes w.events ≤ lim.max_window_bytes
  pub last : w.last_seq ≡ last_of w.events

abbrev NextOk : Limits → Next → Type 0
NextOk lim (complete w) = IsWithin lim w
NextOk lim (go_on p) = IsCapped lim p

abbrev DrainedOk : Limits → Drained → Type 0
DrainedOk lim (returned w d) = IsWithin lim w
DrainedOk lim (more_bytes p d) = IsCapped lim p
DrainedOk lim (faulted e d) = Unit {0}

abbrev pub ReplyOk : Limits → Result Fault (Option Window) → Type 0
ReplyOk lim (ok (some w)) = IsWithin lim w
ReplyOk lim (ok none) = Unit {0}
ReplyOk lim (err e) = Unit {0}

module _ {A B : Type 0} where
  Each-bind :
      (P : A → Type 0) (Q : B → Type 0) (m : Result Fault A) (f : A → Result Fault B)
      → Each P m
      → ((a : A) → P a → Each Q (f a))
      → Each Q (m >>= f)
  Each-bind P Q (ok a) f h k = k a h
  Each-bind P Q (err e) f h k = tt

module _ (z : Zlib) (lim : Limits) (small : lim.max_window_bytes < u64_max) where
  inner_frame-IsCapped :
      (f : Frame) (p : Progress) → IsCapped lim p → Each (IsCapped lim) (inner_frame lim f p)
  inner_frame-IsCapped (json seq payload) p c = record_event-IsCapped lim small seq payload p c
  inner_frame-IsCapped (unknown t raw) p c = consume_slot-IsCapped lim small p c
  inner_frame-IsCapped (window n) p c = tt
  inner_frame-IsCapped (compressed b) p c = tt
  inner_frame-IsCapped (ack n) p c = tt

  after_inner-IsCapped :
      (k : FrameDecoder → Progress → Result Fault Progress) (p : Progress) (o : Outcome Frame)
      (d : FrameDecoder)
      → IsCapped lim p
      → ((d' : FrameDecoder) (q : Progress) → IsCapped lim q → Each (IsCapped lim) (k d' q))
      → Each (IsCapped lim) (after_inner lim k p (o, d))
  after_inner-IsCapped k p (ok_some f) d c h =
      Each-bind (IsCapped lim) (IsCapped lim) (inner_frame lim f p) (k d)
        (inner_frame-IsCapped f p c) (h d)
  after_inner-IsCapped k p ok_none d c h = c
  after_inner-IsCapped k p (error e) d c h = tt
  after_inner-IsCapped k p panic d c h = tt

  inner_loop-IsCapped :
      (fuel : ℕ) (d : FrameDecoder) (p : Progress)
      → IsCapped lim p
      → Each (IsCapped lim) (inner_loop z lim fuel d p)
  unfolding inner_loop
  inner_loop-IsCapped zero d p c = tt
  inner_loop-IsCapped (suc fuel) d p c =
      after_inner-IsCapped (inner_loop z lim fuel) p (next_frame z d).0 (next_frame z d).1 c
        (inner_loop-IsCapped fuel)

  finish-NextOk : (p : Progress) → IsCapped lim p → NextOk lim (finish p)
  unfolding finish
  finish-NextOk p c = ground (arith, c.slots, c.bytes, c.last, c.none_before, c.counted)

  on_window-NextOk :
      (count : ℕ) (p : Progress) → IsCapped lim p → Each (NextOk lim) (on_window lim count p)
  unfolding on_window check_declared_window
  on_window-NextOk count p c = ground (arith, c.slots, c.bytes, c.last, c.none_before, c.counted)

  finished :
      (m : Result Fault Progress)
      → Each (IsCapped lim) m
      → Each (NextOk lim) (m >>= λ p. ok (finish p))
  finished m h = Each-bind (IsCapped lim) (NextOk lim) m (λ p. ok (finish p)) h finish-NextOk

  on_frame-NextOk :
      (f : Frame) (p : Progress) → IsCapped lim p → Each (NextOk lim) (on_frame z lim f p)
  unfolding on_frame
  on_frame-NextOk (window n) p c = on_window-NextOk n p c
  on_frame-NextOk (json seq payload) p c =
      finished (record_event lim seq payload p) (record_event-IsCapped lim small seq payload p c)
  on_frame-NextOk (compressed b) p c =
      let inner : FrameDecoder = feed (with_max_frame_payload lim.max_frame_payload) b in
      finished (inner_loop z lim (suc (pending inner)) inner p)
        (inner_loop-IsCapped (suc (pending inner)) inner p c)
  on_frame-NextOk (unknown t raw) p c =
      finished (consume_slot p) (consume_slot-IsCapped lim small p c)
  on_frame-NextOk (ack n) p c = tt

  after_next-DrainedOk :
      (k : FrameDecoder → Progress → Drained) (d : FrameDecoder) (r : Result Fault Next)
      → Each (NextOk lim) r
      → ((q : Progress) → IsCapped lim q → DrainedOk lim (k d q))
      → DrainedOk lim (after_next k d r)
  after_next-DrainedOk k d (ok (complete w)) h g = h
  after_next-DrainedOk k d (ok (go_on p)) h g = g p h
  after_next-DrainedOk k d (err e) h g = tt

  after_outer-DrainedOk :
      (k : FrameDecoder → Progress → Drained) (p : Progress) (o : Outcome Frame) (d : FrameDecoder)
      → IsCapped lim p
      → ((d' : FrameDecoder) (q : Progress) → IsCapped lim q → DrainedOk lim (k d' q))
      → DrainedOk lim (after_outer z lim k p (o, d))
  after_outer-DrainedOk k p (ok_some f) d c h =
      after_next-DrainedOk k d (on_frame z lim f p) (on_frame-NextOk f p c) (h d)
  after_outer-DrainedOk k p ok_none d c h = c
  after_outer-DrainedOk k p (error e) d c h = tt
  after_outer-DrainedOk k p panic d c h = tt

  outer_loop-DrainedOk :
      (fuel : ℕ) (d : FrameDecoder) (p : Progress)
      → IsCapped lim p
      → DrainedOk lim (outer_loop z lim fuel d p)
  unfolding outer_loop
  outer_loop-DrainedOk zero d p c = tt
  outer_loop-DrainedOk (suc fuel) d p c =
      after_outer-DrainedOk (outer_loop z lim fuel) p (next_frame z d).0 (next_frame z d).1 c
        (outer_loop-DrainedOk fuel)

  after_drain-ReplyOk :
      (reads : List Read) (k : Progress → FrameDecoder → Reply) (r : Drained)
      → DrainedOk lim r
      → ((q : Progress) (d : FrameDecoder) → IsCapped lim q → ReplyOk lim (k q d).0)
      → ReplyOk lim (after_drain reads k r).0
  after_drain-ReplyOk reads k (returned w d) h g = h
  after_drain-ReplyOk reads k (more_bytes p d) h g = g p d h
  after_drain-ReplyOk reads k (faulted e d) h g = tt

  at_eof-ReplyOk : (p : Progress) → ReplyOk lim (at_eof p)
  unfolding at_eof
  at_eof-ReplyOk p = ground arith

  read_loop-ReplyOk :
      (reads : List Read) (d : FrameDecoder) (p : Progress)
      → IsCapped lim p
      → ReplyOk lim (read_loop z lim reads d p).0
  unfolding read_loop
  read_loop-ReplyOk [] d p c =
      after_drain-ReplyOk [] _ (outer_loop z lim (suc (pending d)) d p)
        (outer_loop-DrainedOk (suc (pending d)) d p c) λ q d' h. tt
  read_loop-ReplyOk (received [] ∷ rest) d p c =
      after_drain-ReplyOk (received [] ∷ rest) _ (outer_loop z lim (suc (pending d)) d p)
        (outer_loop-DrainedOk (suc (pending d)) d p c) λ q d' h. at_eof-ReplyOk q
  read_loop-ReplyOk (received (x ∷ xs) ∷ rest) d p c =
      after_drain-ReplyOk (received (x ∷ xs) ∷ rest) _ (outer_loop z lim (suc (pending d)) d p)
        (outer_loop-DrainedOk (suc (pending d)) d p c)
        λ q d' h. read_loop-ReplyOk rest (feed d' (x ∷ xs)) q h
  read_loop-ReplyOk (broken ∷ rest) d p c =
      after_drain-ReplyOk (broken ∷ rest) _ (outer_loop z lim (suc (pending d)) d p)
        (outer_loop-DrainedOk (suc (pending d)) d p c) λ q d' h. tt

-- Whatever bytes a peer sends, in whatever reads and compressed batches: a window that `read_window`
-- returns has at most the configured number of events and of payload bytes, and its `last_seq` is
-- the sequence number of its last event, or 0 if it has none. The byte cap is below the largest
-- `usize`.
pub read_window-IsWithin :
    (z : Zlib) (lim : Limits) (reads : List Read) (d : FrameDecoder)
    → lim.max_window_bytes < u64_max
    → ReplyOk lim (read_window z lim reads d).0
unfolding read_window
read_window-IsWithin z lim reads d small =
    read_loop-ReplyOk z lim small reads d start (ground arith)
