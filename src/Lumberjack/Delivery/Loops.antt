-- ===== src/Lumberjack/Delivery/Loops.antt =====
-- The loops of server.rs over the frames of a batch.
use mathlib.Core.Path.{subst}
use ferro_protocols.Prelude.{
  ℕ, zero, suc, ◌+◌, ◌≤◌, ◌<◌, ◌≡◌, refl, sym, ap, ◌∙◌, Bytes, List, [], ◌∷◌, ◌++◌, length, arith,
  All,
}
use ferro_protocols.Prelude.Result.{Result, ok, ◌>>=◌}
use ferro_protocols.Prelude.Words.{u32_max, wrapping_add}
use ferro_protocols.Lumberjack.Sequence.{Sequence}
use ferro_protocols.Lumberjack.Zlib.{Zlib}
use ferro_protocols.Lumberjack.Frame.{
  Frame, FrameDecoder, Outcome, json, next_frame, ok_none, ok_some,
}
use ferro_protocols.Lumberjack.Frame.View.{unread, IsValid}
use ferro_protocols.Lumberjack.Frame.Parse.{parse}
use ferro_protocols.Lumberjack.Frame.Refine.{next_frame-refines-parse}
use ferro_protocols.Lumberjack.Server.State.{Window, Limits, Progress, Fault}
use ferro_protocols.Lumberjack.Server.{
  inner_frame, after_inner, inner_loop, complete, go_on, finish, on_frame, Drained, returned,
  after_next, after_outer, outer_loop,
}
use ferro_protocols.Lumberjack.Client.{inner_frames}
use ferro_protocols.Lumberjack.Delivery.Record.{
  numbered, recorded, IsReady, step, record_event-step, step-IsReady, recorded-step, recorded_last,
  first_frame,
}

-- An event that a J frame can carry under a cap.
abbrev pub Carries : ℕ → Bytes → Type 0
Carries cap e = (length e ≤ u32_max) × (length e ≤ cap)

-- The window that a batch makes.
abbrev pub batch_window : ℕ → List Bytes → Window
batch_window base es = record {
  events = numbered base 0 es;
  last_seq = wrapping_add base (length es);
}

module _ (z : Zlib) (lim : Limits) (base : Sequence) where
  empty_frame : (d : FrameDecoder) → IsValid d → unread d ≡ [] → next_frame z d ≡ (ok_none, d)
  unfolding parse
  empty_frame d valid u = rw (next_frame-refines-parse z d valid, u)

  after_inner_some :
      (k : FrameDecoder → Progress → Result Fault Progress) (p : Progress) (f : Frame)
      (x : Outcome Frame × FrameDecoder)
      → x.0 ≡ ok_some f
      → after_inner lim k p x ≡ (inner_frame lim f p >>= k x.1)
  after_inner_some k p f (o, d) e = rw e

  after_outer_some :
      (k : FrameDecoder → Progress → Drained) (p : Progress) (f : Frame)
      (x : Outcome Frame × FrameDecoder)
      → x.0 ≡ ok_some f
      → after_outer z lim k p x ≡ after_next k x.1 (on_frame z lim f p)
  after_outer_some k p f (o, d) e = rw e

  inner_call :
      (fuel : ℕ) (d : FrameDecoder) (p : Progress) (f : Frame)
      → (next_frame z d).0 ≡ ok_some f
      → inner_loop z lim (suc fuel) d p
        ≡ (inner_frame lim f p >>= inner_loop z lim fuel (next_frame z d).1)
  unfolding inner_loop
  inner_call fuel d p f e = after_inner_some (inner_loop z lim fuel) p f (next_frame z d) e

  pub outer_call :
      (fuel : ℕ) (d : FrameDecoder) (p : Progress) (f : Frame)
      → (next_frame z d).0 ≡ ok_some f
      → outer_loop z lim (suc fuel) d p
        ≡ after_next (outer_loop z lim fuel) (next_frame z d).1 (on_frame z lim f p)
  unfolding outer_loop
  outer_call fuel d p f e = after_outer_some (outer_loop z lim fuel) p f (next_frame z d) e

  on_event :
      (i : ℕ) (e : Bytes) (es : List Bytes) (p : Progress)
      → IsReady lim i (e ∷ es) p
      → on_frame z lim (json (wrapping_add base.value (i + 1)) e) p
        ≡ ok (finish (step base.value i e es p))
  unfolding on_frame
  on_event i e es p r = rw (record_event-step lim base.value i e es p r)

  module _ (i : ℕ) (e : Bytes) (es : List Bytes) (d : FrameDecoder) (p : Progress)
      (r : IsReady lim i (e ∷ es) p)
      (frame : (next_frame z d).0 ≡ ok_some (json (wrapping_add base.value (i + 1)) e)) where
    inner_step :
        (fuel : ℕ)
        → inner_loop z lim (suc fuel) d p
          ≡ inner_loop z lim fuel (next_frame z d).1 (step base.value i e es p)
    inner_step fuel =
        inner_call fuel d p (json (wrapping_add base.value (i + 1)) e) frame
        ∙ rw (record_event-step lim base.value i e es p r)

    outer_step :
        (fuel : ℕ)
        → outer_loop z lim (suc fuel) d p
          ≡ after_next
              (outer_loop z lim fuel)
              (next_frame z d).1
              (ok (finish (step base.value i e es p)))
    outer_step fuel =
        outer_call fuel d p (json (wrapping_add base.value (i + 1)) e) frame
        ∙ ap (after_next (outer_loop z lim fuel) (next_frame z d).1) (on_event i e es p r)

  inner_end :
      (fuel : ℕ) (d : FrameDecoder) (p : Progress)
      → IsValid d
      → unread d ≡ []
      → inner_loop z lim (suc fuel) d p ≡ ok p
  unfolding inner_loop
  inner_end fuel d p valid u = rw (empty_frame d valid u)

  -- The inner loop over a C frame's content.
  pub inner_records :
      (fuel i : ℕ) (e : Bytes) (es : List Bytes) (d : FrameDecoder) (p : Progress)
      → IsReady lim i (e ∷ es) p
      → All (Carries d.max_frame_payload) (e ∷ es)
      → IsValid d
      → unread d ≡ inner_frames base i (e ∷ es) ++ []
      → length (e ∷ es) < fuel
      → inner_loop z lim fuel d p ≡ ok (recorded base.value i (e ∷ es) p)
  inner_records zero i e es d p r c valid u h = elim h [ ]
  inner_records (suc zero) i e es d p r c valid u h = absurd (omega arith)
  inner_records (suc (suc fuel)) i e [] d p r (ce, cs) valid u h =
      let (frame, left, valid', same) =
        first_frame z d base i e [] [] valid ce.0 ce.1 (omega (arith, r.numbers)) u in
      inner_step i e [] d p r frame (suc fuel)
      ∙ inner_end fuel (next_frame z d).1 (step base.value i e [] p) valid'
          (unfold inner_frames in left)
      ∙ ap ok (recorded_last base.value i e p)
  inner_records (suc (suc fuel)) i e (f ∷ es) d p r (ce, cs) valid u h =
      let (frame, left, valid', same) =
        first_frame z d base i e (f ∷ es) [] valid ce.0 ce.1 (omega (arith, r.numbers)) u in
      inner_step i e (f ∷ es) d p r frame (suc fuel)
      ∙ inner_records (suc fuel) (i + 1) f es (next_frame z d).1 (step base.value i e (f ∷ es) p)
          (step-IsReady lim base.value i e (f ∷ es) p r)
          (subst (λ k. All (Carries k) (f ∷ es)) (sym same) cs) valid' left (omega arith)
      ∙ ap ok (recorded-step base.value i e f es p)

  finish_last :
      (i : ℕ) (e : Bytes) (p : Progress)
      → finish (step base.value i e [] p)
        ≡ complete (record {
          events = (recorded base.value i (e ∷ []) p).events;
          last_seq = (recorded base.value i (e ∷ []) p).last_seq;
        })
  unfolding finish
  finish_last i e p = refl

  finish_more :
      (i : ℕ) (e f : Bytes) (es : List Bytes) (p : Progress)
      → finish (step base.value i e (f ∷ es) p) ≡ go_on (step base.value i e (f ∷ es) p)
  unfolding finish
  finish_more i e f es p = ground arith

  -- What a returned window is.
  abbrev pub Returns : Window → Bytes → Drained → Type 0
  Returns w rest (returned w' d) = (w' ≡ w) × (unread d ≡ rest)
  Returns w rest _ = ⊥

  abbrev pub window_of : Progress → Window
  window_of p = record { events = p.events; last_seq = p.last_seq }

  -- The loop over the buffered frames, where the batch is not compressed.
  pub outer_records :
      (fuel i : ℕ) (e : Bytes) (es : List Bytes) (rest : Bytes) (d : FrameDecoder) (p : Progress)
      → IsReady lim i (e ∷ es) p
      → All (Carries d.max_frame_payload) (e ∷ es)
      → IsValid d
      → unread d ≡ inner_frames base i (e ∷ es) ++ rest
      → length (e ∷ es) < fuel
      → Returns (window_of (recorded base.value i (e ∷ es) p)) rest (outer_loop z lim fuel d p)
  outer_records zero i e es rest d p r c valid u h = elim h [ ]
  outer_records (suc fuel) i e [] rest d p r (ce, cs) valid u h =
      let (frame, left, valid', same) =
        first_frame z d base i e [] rest valid ce.0 ce.1 (omega (arith, r.numbers)) u in
      rw (outer_step i e [] d p r frame fuel, finish_last i e p) (refl, unfold inner_frames in left)
  outer_records (suc fuel) i e (f ∷ es) rest d p r (ce, cs) valid u h =
      let (frame, left, valid', same) =
        first_frame z d base i e (f ∷ es) rest valid ce.0 ce.1 (omega (arith, r.numbers)) u in
      rw (outer_step i e (f ∷ es) d p r frame fuel, finish_more i e f es p)
        (subst
          (λ q.
            Returns (window_of q) rest
              (outer_loop z lim fuel (next_frame z d).1 (step base.value i e (f ∷ es) p)))
          (recorded-step base.value i e f es p)
          (outer_records fuel (i + 1) f es rest (next_frame z d).1 (step base.value i e (f ∷ es) p)
            (step-IsReady lim base.value i e (f ∷ es) p r)
            (subst (λ k. All (Carries k) (f ∷ es)) (sym same) cs) valid' left (omega arith)))
