-- ===== src/Lumberjack/Server/Ends.antt =====
-- `read_window` of server.rs ends: its loops have enough fuel, and nothing panics.
use ferro_protocols.Prelude.{ℕ, zero, suc, ◌<◌, ◌≡◌, refl, Bytes, List, [], ◌∷◌, length, arith}
use ferro_protocols.Prelude.Result.{Result, ok, err, ◌>>=◌}
use ferro_protocols.Lumberjack.Zlib.{Zlib}
use ferro_protocols.Lumberjack.Frame.{
  Frame, FrameDecoder, Outcome, ok_some, ok_none, error, panic, window, json, compressed, ack,
  unknown, next_frame, feed, pending, with_max_frame_payload,
}
use ferro_protocols.Lumberjack.Frame.View.{unread, IsValid, pending-eq-length}
use ferro_protocols.Lumberjack.Frame.Bounds.{Moved, next_frame-Moved}
use ferro_protocols.Lumberjack.Frame.Feed.{feed-IsValid}
use ferro_protocols.Lumberjack.Server.State.{
  Limits, Progress, Fault, protocol, panicked, out_of_fuel, blocked, start, check_declared_window,
  record_event, consume_slot,
}
use ferro_protocols.Lumberjack.Server.{
  inner_frame, after_inner, inner_loop, Next, complete, go_on, finish, on_window, on_frame, Drained,
  returned, more_bytes, faulted, after_next, after_outer, outer_loop, Read, received, broken, Reply,
  after_drain, at_eof, read_loop, read_window,
}

-- The fault is an error of the crate.
abbrev IsError : Fault → Type 0
IsError (protocol e) = Unit {0}
IsError _ = ⊥

abbrev Sound : {A : Type 0} → Result Fault A → Type 0
Sound (ok a) = Unit {0}
Sound (err e) = IsError e

module _ {A B : Type 0} where
  Sound-bind :
      (m : Result Fault A) (f : A → Result Fault B)
      → Sound m
      → ((a : A) → Sound (f a))
      → Sound (m >>= f)
  Sound-bind (ok a) f h k = k a
  Sound-bind (err e) f h k = h

module _ (z : Zlib) (lim : Limits) where
  record_event-Sound :
      (seq : ℕ) (payload : Bytes) (p : Progress) → Sound (record_event lim seq payload p)
  unfolding record_event
  record_event-Sound seq payload p = ground arith

  consume_slot-Sound : (p : Progress) → Sound (consume_slot p)
  unfolding consume_slot
  consume_slot-Sound p = ground arith

  inner_frame-Sound : (f : Frame) (p : Progress) → Sound (inner_frame lim f p)
  inner_frame-Sound (json seq payload) p = record_event-Sound seq payload p
  inner_frame-Sound (unknown t raw) p = consume_slot-Sound p
  inner_frame-Sound (window n) p = tt
  inner_frame-Sound (compressed b) p = tt
  inner_frame-Sound (ack n) p = tt

  after_inner-Sound :
      (fuel : ℕ) (k : FrameDecoder → Progress → Result Fault Progress) (p : Progress)
      (d : FrameDecoder) (o : Outcome Frame) (d' : FrameDecoder)
      → Moved d (o, d')
      → length (unread d) < suc fuel
      → ((e : FrameDecoder) (q : Progress) → IsValid e → length (unread e) < fuel → Sound (k e q))
      → Sound (after_inner lim k p (o, d'))
  after_inner-Sound fuel k p d (ok_some f) d' m h g =
      Sound-bind (inner_frame lim f p) (k d') (inner_frame-Sound f p) λ q. g d' q m.0 (omega arith)
  after_inner-Sound fuel k p d ok_none d' m h g = tt
  after_inner-Sound fuel k p d (error e) d' m h g = tt
  after_inner-Sound fuel k p d panic d' m h g = m

  inner_loop-Sound :
      (fuel : ℕ) (d : FrameDecoder) (p : Progress)
      → IsValid d
      → length (unread d) < fuel
      → Sound (inner_loop z lim fuel d p)
  unfolding inner_loop
  inner_loop-Sound zero d p valid h = elim h [ ]
  inner_loop-Sound (suc fuel) d p valid h =
      after_inner-Sound fuel (inner_loop z lim fuel) p d (next_frame z d).0 (next_frame z d).1
        (next_frame-Moved z d valid) h (inner_loop-Sound fuel)

  on_window-Sound : (count : ℕ) (p : Progress) → Sound (on_window lim count p)
  unfolding on_window check_declared_window
  on_window-Sound count p = ground arith

  finished-Sound : (m : Result Fault Progress) → Sound m → Sound (m >>= λ p. ok (finish p))
  finished-Sound m h = Sound-bind m (λ p. ok (finish p)) h λ p. tt

  fed_inner : (b : Bytes) → IsValid (feed (with_max_frame_payload lim.max_frame_payload) b)
  fed_inner b = feed-IsValid (with_max_frame_payload lim.max_frame_payload) b (omega arith)

  on_frame-Sound : (f : Frame) (p : Progress) → Sound (on_frame z lim f p)
  unfolding on_frame
  on_frame-Sound (window n) p = on_window-Sound n p
  on_frame-Sound (json seq payload) p =
      finished-Sound (record_event lim seq payload p) (record_event-Sound seq payload p)
  on_frame-Sound (compressed b) p =
      let inner : FrameDecoder = feed (with_max_frame_payload lim.max_frame_payload) b in
      finished-Sound (inner_loop z lim (suc (pending inner)) inner p) (
        inner_loop-Sound (suc (pending inner)) inner p (fed_inner b)
          (omega (arith, pending-eq-length inner)))
  on_frame-Sound (unknown t raw) p = finished-Sound (consume_slot p) (consume_slot-Sound p)
  on_frame-Sound (ack n) p = tt

  -- The loop over the buffered frames leaves a valid decoder, and any fault is an error.
  abbrev DrainedSound : Drained → Type 0
  DrainedSound (returned w d) = IsValid d
  DrainedSound (more_bytes p d) = IsValid d
  DrainedSound (faulted e d) = IsError e × IsValid d

  after_next-Sound :
      (k : FrameDecoder → Progress → Drained) (d : FrameDecoder) (r : Result Fault Next)
      → IsValid d
      → Sound r
      → ((q : Progress) → DrainedSound (k d q))
      → DrainedSound (after_next k d r)
  after_next-Sound k d (ok (complete w)) valid h g = valid
  after_next-Sound k d (ok (go_on p)) valid h g = g p
  after_next-Sound k d (err e) valid h g = (h, valid)

  after_outer-Sound :
      (fuel : ℕ) (k : FrameDecoder → Progress → Drained) (p : Progress) (d : FrameDecoder)
      (o : Outcome Frame) (d' : FrameDecoder)
      → IsValid d
      → Moved d (o, d')
      → length (unread d) < suc fuel
      → ((e : FrameDecoder) (q : Progress)
          → IsValid e
          → length (unread e) < fuel
          → DrainedSound (k e q))
      → DrainedSound (after_outer z lim k p (o, d'))
  after_outer-Sound fuel k p d (ok_some f) d' valid m h g =
      after_next-Sound k d' (on_frame z lim f p) m.0 (on_frame-Sound f p)
        λ q. g d' q m.0 (omega arith)
  after_outer-Sound fuel k p d ok_none d' valid m h g = rw m valid
  after_outer-Sound fuel k p d (error e) d' valid m h g = (tt, rw m valid)
  after_outer-Sound fuel k p d panic d' valid m h g = absurd m

  outer_loop-Sound :
      (fuel : ℕ) (d : FrameDecoder) (p : Progress)
      → IsValid d
      → length (unread d) < fuel
      → DrainedSound (outer_loop z lim fuel d p)
  unfolding outer_loop
  outer_loop-Sound zero d p valid h = elim h [ ]
  outer_loop-Sound (suc fuel) d p valid h =
      after_outer-Sound fuel (outer_loop z lim fuel) p d (next_frame z d).0 (next_frame z d).1 valid
        (next_frame-Moved z d valid) h (outer_loop-Sound fuel)

  drained :
      (d : FrameDecoder) (p : Progress)
      → IsValid d
      → DrainedSound (outer_loop z lim (suc (pending d)) d p)
  drained d p valid =
      outer_loop-Sound (suc (pending d)) d p valid (omega (arith, pending-eq-length d))

-- A reply is a value, an error of the crate, or a wait after all the reads; the decoder stays valid.
abbrev pub Ends : Reply → Type 0
Ends (ok w, d, reads) = IsValid d
Ends (err (protocol e), d, reads) = IsValid d
Ends (err blocked, d, reads) = IsValid d × (reads ≡ [])
Ends (err _, d, reads) = ⊥

module _ (z : Zlib) (lim : Limits) where
  after_drain-Ends :
      (reads : List Read) (k : Progress → FrameDecoder → Reply) (r : Drained)
      → DrainedSound z lim r
      → ((q : Progress) (d : FrameDecoder) → IsValid d → Ends (k q d))
      → Ends (after_drain reads k r)
  after_drain-Ends reads k (returned w d) h g = h
  after_drain-Ends reads k (more_bytes p d) h g = g p d h
  after_drain-Ends reads k (faulted (protocol e) d) h g = h.1
  after_drain-Ends reads k (faulted panicked d) h g = h.0
  after_drain-Ends reads k (faulted out_of_fuel d) h g = h.0
  after_drain-Ends reads k (faulted blocked d) h g = absurd h.0

  at_eof-Ends :
      (p : Progress) (d : FrameDecoder) (reads : List Read) → IsValid d → Ends (at_eof p, d, reads)
  unfolding at_eof
  at_eof-Ends p d reads valid = ground arith

  read_loop-Ends :
      (reads : List Read) (d : FrameDecoder) (p : Progress)
      → IsValid d
      → Ends (read_loop z lim reads d p)
  unfolding read_loop
  read_loop-Ends [] d p valid =
      after_drain-Ends [] _ (outer_loop z lim (suc (pending d)) d p) (drained z lim d p valid)
        λ q d' v. (v, refl)
  read_loop-Ends (received [] ∷ rest) d p valid =
      after_drain-Ends (received [] ∷ rest) _ (outer_loop z lim (suc (pending d)) d p)
        (drained z lim d p valid) λ q d' v. at_eof-Ends q d' rest v
  read_loop-Ends (received (x ∷ xs) ∷ rest) d p valid =
      after_drain-Ends (received (x ∷ xs) ∷ rest) _ (outer_loop z lim (suc (pending d)) d p)
        (drained z lim d p valid)
        λ q d' v. read_loop-Ends rest (feed d' (x ∷ xs)) q (feed-IsValid d' (x ∷ xs) v)
  read_loop-Ends (broken ∷ rest) d p valid =
      after_drain-Ends (broken ∷ rest) _ (outer_loop z lim (suc (pending d)) d p)
        (drained z lim d p valid) λ q d' v. v

-- From a valid decoder, whatever the socket returns, `read_window` neither panics nor uses up the fuel
-- of its loops: it returns a value or an error of the crate, or it has used all the reads and waits
-- for the next. The decoder is valid again.
pub read_window-Ends :
    (z : Zlib) (lim : Limits) (reads : List Read) (d : FrameDecoder)
    → IsValid d
    → Ends (read_window z lim reads d)
unfolding read_window
read_window-Ends z lim reads d valid = read_loop-Ends z lim reads d start valid
