-- ===== src/Lumberjack/Delivery/Record.antt =====
-- Recording the frames of a batch, one after another, in the window of server.rs.
use ferro_protocols.Prelude.{
  ℕ, suc, ◌+◌, ◌≤◌, ◌≡◌, ap, ◌∙◌, Bytes, List, [], ◌∷◌, ◌++◌, length, some, arith, append_assoc,
  length-append,
}
use ferro_protocols.Prelude.Result.{ok}
use ferro_protocols.Prelude.Words.{u32_max, u64_max, wrapping_add}
use ferro_protocols.Lumberjack.Sequence
use ferro_protocols.Lumberjack.Sequence.{Sequence}
use ferro_protocols.Lumberjack.Zlib.{Zlib}
use ferro_protocols.Lumberjack.Frame.{FrameDecoder, json, encode_json_frame, u32_or_max}
use ferro_protocols.Lumberjack.Frame.View.{unread, IsValid}
use ferro_protocols.Lumberjack.Frame.RoundTrip.{Yields, next_frame-encode_json_frame}
use ferro_protocols.Lumberjack.Server.State.{JsonEvent, Limits, Progress, accept, record_event}
use ferro_protocols.Lumberjack.Client.{inner_frames}

-- The events of a batch with their sequence numbers, from the i-th.
abbrev pub numbered : ℕ → ℕ → List Bytes → List JsonEvent
numbered base i [] = []
numbered base i (e ∷ es) =
    record { seq = wrapping_add base (i + 1); payload = e } ∷ numbered base (i + 1) es

abbrev pub batch_bytes : List Bytes → ℕ
batch_bytes [] = 0
batch_bytes (e ∷ es) = length e + batch_bytes es

-- The state after the events of a batch.
abbrev pub recorded : ℕ → ℕ → List Bytes → Progress → Progress
recorded base i es p = record {
  events = p.events ++ numbered base i es;
  window_remaining = some 0;
  last_seq = wrapping_add base (i + length es);
  accumulated_bytes = p.accumulated_bytes + batch_bytes es;
}

-- The state is ready for exactly these events, and they fit the caps.
pub record IsReady (lim : Limits) (i : ℕ) (es : List Bytes) (p : Progress) : Type 0 where
  pub slots : p.window_remaining ≡ some (length es)
  pub room : length p.events + length es ≤ lim.max_window_events
  pub bytes : p.accumulated_bytes + batch_bytes es ≤ lim.max_window_bytes
  pub finite : lim.max_window_bytes ≤ u64_max
  pub numbers : i + length es ≤ u32_max

-- The state after the next event.
abbrev pub step : ℕ → ℕ → Bytes → List Bytes → Progress → Progress
step base i e es p =
    accept p (suc (length es)) (wrapping_add base (i + 1)) e (p.accumulated_bytes + length e)

module _ (lim : Limits) (base i : ℕ) (e : Bytes) (es : List Bytes) (p : Progress)
    (r : IsReady lim i (e ∷ es) p) where
  pub record_event-step : record_event lim (wrapping_add base (i + 1)) e p ≡ ok (step base i e es p)
  unfolding record_event
  record_event-step = ground (arith, r.slots, r.room, r.bytes, r.finite)

  pub step-IsReady : IsReady lim (i + 1) es (step base i e es p)
  step-IsReady =
      let s : JsonEvent = record { seq = wrapping_add base (i + 1); payload = e } in
      record {
        slots = ap some (omega arith);
        room = omega (arith, r.room, length-append p.events (s ∷ []));
        bytes = omega (arith, r.bytes);
        finite = r.finite;
        numbers = omega (arith, r.numbers);
      }

pub recorded-step :
    (base i : ℕ) (e f : Bytes) (es : List Bytes) (p : Progress)
    → recorded base (i + 1) (f ∷ es) (step base i e (f ∷ es) p) ≡ recorded base i (e ∷ f ∷ es) p
recorded-step base i e f es p =
    let s : JsonEvent = record { seq = wrapping_add base (i + 1); payload = e } in
    ground (arith, append_assoc p.events (s ∷ []) (numbered base (i + 1) (f ∷ es)))

pub recorded_last :
    (base i : ℕ) (e : Bytes) (p : Progress) → step base i e [] p ≡ recorded base i (e ∷ []) p
recorded_last base i e p = ground arith

-- A decoder whose unread bytes begin with the frames of a batch gives the first of them.
pub first_frame :
    (z : Zlib) (d : FrameDecoder) (base : Sequence) (i : ℕ) (e : Bytes) (es : List Bytes)
    (rest : Bytes)
    → IsValid d
    → length e ≤ u32_max
    → length e ≤ d.max_frame_payload
    → i + 1 ≤ u32_max
    → unread d ≡ inner_frames base i (e ∷ es) ++ rest
    → Yields z d (json (wrapping_add base.value (i + 1)) e) (inner_frames base (i + 1) es ++ rest)
unfolding inner_frames Sequence.advance
first_frame z d base i e es rest valid he hc hi u =
    let seq : ℕ = wrapping_add base.value (i + 1) in
    let same : wrapping_add base.value (u32_or_max i + 1) ≡ seq = ground arith in
    next_frame-encode_json_frame z d seq e (inner_frames base (i + 1) es ++ rest) valid
      (omega arith) he hc
      (u
        ∙ ap (λ k. (encode_json_frame k e ++ inner_frames base (i + 1) es) ++ rest) same
        ∙ append_assoc (encode_json_frame seq e) (inner_frames base (i + 1) es) rest)
