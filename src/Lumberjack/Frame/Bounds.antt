-- ===== src/Lumberjack/Frame/Bounds.antt =====
-- The sizes that the decoder of frame.rs lets through: a frame lies in the bytes at hand, and its
-- payload keeps the cap.
use ferro_protocols.Prelude.{
  ℕ, zero, suc, ◌+◌, ◌≤◌, ◌≡◌, refl, Bytes, length, drop, get_or, arith, length-take, length-drop,
}
use ferro_protocols.Lumberjack.Zlib.{Zlib}
use ferro_protocols.Lumberjack.Frame.{
  Frame, FrameDecoder, Outcome, ok_some, panic, window, json, compressed, ack, decompress_capped,
  next_frame,
}
use ferro_protocols.Lumberjack.Frame.View.{
  word_at, IsValid, unread, unread-consumed, consumed-IsValid,
}
use ferro_protocols.Lumberjack.Frame.Parse.{
  Parse, more, bad, got, parse_word, parse_json, parse_compressed, inflated, parse_field,
  next_field, parse_pairs, whole, parse_legacy, parse_body, parse,
}
use ferro_protocols.Lumberjack.Frame.Refine.{realise, next_frame-refines-parse}

-- What a decoded frame may hold under a cap: the payload of a J frame and the inflated content of a
-- C frame are within it.
abbrev pub WithinCap : ℕ → Frame → Type 0
WithinCap cap (json seq payload) = length payload ≤ cap
WithinCap cap (compressed out) = length out ≤ cap
WithinCap cap _ = Unit {0}

-- A parsed frame takes at least six bytes, lies in the bytes at hand and is within the cap.
abbrev pub Fits : ℕ → Bytes → Parse Frame → Type 0
Fits cap u more = Unit {0}
Fits cap u (bad e) = Unit {0}
Fits cap u (got f n) = (6 ≤ n) × (n ≤ length u) × WithinCap cap f

abbrev AtLeast : ℕ → Parse (Unit {0}) → Type 0
AtLeast k more = Unit {0}
AtLeast k (bad e) = Unit {0}
AtLeast k (got _ n) = k ≤ n

module _ (cap : ℕ) (u : Bytes) where
  field_grows : (cursor : ℕ) → AtLeast cursor (parse_field cap u cursor)
  unfolding parse_field
  field_grows cursor = ground arith

  next_field_grows :
      (k : ℕ) (p : Parse (Unit {0})) (f : ℕ → Parse (Unit {0}))
      → AtLeast k p
      → ((n : ℕ) → k ≤ n → AtLeast k (f n))
      → AtLeast k (next_field p f)
  next_field_grows k more f h g = tt
  next_field_grows k (bad e) f h g = tt
  next_field_grows k (got _ n) f h g = g n h

  AtLeast-le : (k m : ℕ) (p : Parse (Unit {0})) → k ≤ m → AtLeast m p → AtLeast k p
  AtLeast-le k m more h a = tt
  AtLeast-le k m (bad e) h a = tt
  AtLeast-le k m (got _ n) h a = omega arith

  pairs_grow : (pairs cursor : ℕ) → AtLeast cursor (parse_pairs cap u pairs cursor)
  unfolding parse_pairs
  pairs_grow zero cursor = omega arith
  pairs_grow (suc pairs) cursor =
      next_field_grows cursor (parse_field cap u cursor)
        (λ k. next_field (parse_field cap u k) (parse_pairs cap u pairs)) (field_grows cursor)
        λ k h.
          next_field_grows cursor (parse_field cap u k) (parse_pairs cap u pairs)
            (AtLeast-le cursor k (parse_field cap u k) h (field_grows k))
            λ n le. AtLeast-le cursor n (parse_pairs cap u pairs n) le (pairs_grow pairs n)

  whole-Fits : (p : Parse (Unit {0})) → AtLeast 10 p → Fits cap u (whole u p)
  whole-Fits more h = tt
  whole-Fits (bad e) h = tt
  whole-Fits (got _ n) h = ground arith

  word-Fits : (f : ℕ → Frame) → ((k : ℕ) → WithinCap cap (f k)) → Fits cap u (parse_word f u)
  unfolding parse_word
  word-Fits f h = ground (arith, h (word_at u 2))

  json-Fits : Fits cap u (parse_json cap u)
  unfolding parse_json
  json-Fits = ground (arith, length-take (word_at u 6) (drop 10 u))

  compressed-Fits : (z : Zlib) → Fits cap u (parse_compressed z cap u)
  unfolding parse_compressed inflated decompress_capped
  compressed-Fits z = ground arith

  legacy-Fits : Fits cap u (parse_legacy cap u)
  unfolding parse_legacy
  legacy-Fits =
      ground (arith, whole-Fits (parse_pairs cap u (word_at u 6) 10) (pairs_grow (word_at u 6) 10))

  body-Fits : (z : Zlib) (t : ℕ) → Fits cap u (parse_body z cap t u)
  unfolding parse_body
  body-Fits z t = ground (
    arith,
    word-Fits window (λ _. tt),
    word-Fits ack (λ _. tt),
    json-Fits,
    compressed-Fits z,
    legacy-Fits,
  )

pub parse-Fits : (z : Zlib) (cap : ℕ) (u : Bytes) → Fits cap u (parse z cap u)
unfolding parse
parse-Fits z cap u = ground (arith, body-Fits cap u z (get_or u 1 0))

-- What one call may do to a decoder.
abbrev pub Moved : FrameDecoder → Outcome Frame × FrameDecoder → Type 0
Moved d (ok_some f, d') =
    IsValid d'
    × (length (unread d') + 6 ≤ length (unread d))
    × WithinCap d.max_frame_payload f
    × (d'.max_frame_payload ≡ d.max_frame_payload)
Moved d (panic, d') = ⊥
Moved d (o, d') = d' ≡ d

realise-Moved :
    (d : FrameDecoder) (p : Parse Frame)
    → IsValid d
    → Fits d.max_frame_payload (unread d) p
    → Moved d (realise p d)
realise-Moved d more valid h = refl
realise-Moved d (bad e) valid h = refl
realise-Moved d (got f n) valid h = (
  consumed-IsValid d n valid h.1,
  rw unread-consumed (omega (arith, length-drop n (unread d))),
  h.2,
  refl,
)

-- From a valid decoder `next_frame` never panics. A frame that it returns is within the cap on the
-- payload, takes at least six of the unread bytes and leaves the decoder valid with the same cap;
-- when it returns no frame or an error the decoder is unchanged.
pub next_frame-Moved : (z : Zlib) (d : FrameDecoder) → IsValid d → Moved d (next_frame z d)
next_frame-Moved z d valid = rw (next_frame-refines-parse z d valid) (
    realise-Moved d (parse z d.max_frame_payload (unread d)) valid
      (parse-Fits z d.max_frame_payload (unread d)))
