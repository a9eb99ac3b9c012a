-- ===== src/Lumberjack/Frame/Refine.antt =====
-- `next_frame` of frame.rs implements the specification `parse`.
use ferro_protocols.Prelude.{ℕ, zero, suc, ◌+◌, ◌≤◌, ◌≡◌, refl, Bytes, length, get_or, arith}
use ferro_protocols.Lumberjack.Zlib.{Zlib}
use ferro_protocols.Lumberjack.Frame.{
  Frame, FrameDecoder, Outcome, ok_some, ok_none, error, window, ack, M, return, unknown, ◌>>=◌,
  ◌>>◌, advance, try_decode_window, try_decode_ack, try_decode_json, try_decode_compressed,
  decompress_payload, skip_field, skip_pairs, try_decode_unknown_with_seq_count, decode_body,
  header_at, next_frame, need, slice_at,
}
use ferro_protocols.Lumberjack.Frame.View.{
  unread, IsValid, word_at, consumed, need_lem, cap_payload_lem, u32_at_lem, slice_at_lem,
}
use ferro_protocols.Lumberjack.Frame.Parse.{
  Parse, more, bad, got, parse_word, parse_json, parse_compressed, inflated, parse_field,
  next_field, parse_pairs, whole, parse_legacy, parse_body, parse,
}

-- What the method returns for a parse, and the decoder after it.
abbrev pub realise : Parse Frame → FrameDecoder → Outcome Frame × FrameDecoder
realise more d = (ok_none, d)
realise (bad e) d = (error e, d)
realise (got f n) d = (ok_some f, consumed n d)

module _ (d : FrameDecoder) (valid : IsValid d) where
  window_refines : try_decode_window d ≡ realise (parse_word window (unread d)) d
  unfolding try_decode_window parse_word advance
  window_refines = ground (arith, need_lem d 6, u32_at_lem d 2 valid)

  ack_refines : try_decode_ack d ≡ realise (parse_word ack (unread d)) d
  unfolding try_decode_ack parse_word advance
  ack_refines = ground (arith, need_lem d 6, u32_at_lem d 2 valid)

  json_refines : try_decode_json d ≡ realise (parse_json d.max_frame_payload (unread d)) d
  unfolding try_decode_json parse_json advance
  json_refines = ground (
    arith,
    need_lem d 10,
    u32_at_lem d 2 valid,
    u32_at_lem d 6 valid,
    cap_payload_lem d (word_at (unread d) 6),
    need_lem d (10 + word_at (unread d) 6),
    slice_at_lem d 10 (word_at (unread d) 6) valid,
  )

  compressed_refines :
      (z : Zlib)
      → try_decode_compressed z d ≡ realise (parse_compressed z d.max_frame_payload (unread d)) d
  unfolding try_decode_compressed parse_compressed inflated decompress_payload advance
  compressed_refines z = ground (
    arith,
    need_lem d 6,
    u32_at_lem d 2 valid,
    cap_payload_lem d (word_at (unread d) 2),
    need_lem d (6 + word_at (unread d) 2),
    slice_at_lem d 6 (word_at (unread d) 2) valid,
  )

-- The same for the scan over the pairs, which returns a cursor and consumes nothing.
abbrev reach : Parse (Unit {0}) → FrameDecoder → Outcome ℕ × FrameDecoder
reach more d = (ok_none, d)
reach (bad e) d = (error e, d)
reach (got _ n) d = (ok_some n, d)

module _ (d : FrameDecoder) (valid : IsValid d) where
  field_refines :
      (cursor : ℕ)
      → skip_field cursor d ≡ reach (parse_field d.max_frame_payload (unread d) cursor) d
  unfolding skip_field parse_field
  field_refines cursor = ground (
    arith,
    need_lem d (cursor + 4),
    u32_at_lem d cursor valid,
    cap_payload_lem d (word_at (unread d) cursor),
  )

  reach-next_field :
      (m : M ℕ) (p : Parse (Unit {0})) (f : ℕ → M ℕ) (g : ℕ → Parse (Unit {0}))
      → m d ≡ reach p d
      → ((n : ℕ) → f n d ≡ reach (g n) d)
      → (m >>= f) d ≡ reach (next_field p g) d
  reach-next_field m more f g e h = rw e
  reach-next_field m (bad x) f g e h = rw e
  reach-next_field m (got _ n) f g e h = rw e (h n)

  pairs_refine :
      (pairs cursor : ℕ)
      → skip_pairs pairs cursor d
        ≡ reach (parse_pairs d.max_frame_payload (unread d) pairs cursor) d
  unfolding skip_pairs parse_pairs
  pairs_refine zero cursor = refl
  pairs_refine (suc pairs) cursor =
      let cap : ℕ = d.max_frame_payload in
      let u : Bytes = unread d in
      reach-next_field (skip_field cursor) (parse_field cap u cursor)
        (λ key_end. skip_field key_end >>= skip_pairs pairs)
        (λ key_end. next_field (parse_field cap u key_end) (parse_pairs cap u pairs))
        (field_refines cursor)
        λ key_end.
          reach-next_field (skip_field key_end) (parse_field cap u key_end) (skip_pairs pairs)
            (parse_pairs cap u pairs) (field_refines key_end) (pairs_refine pairs)

  -- What the method does behind the scan.
  take_raw : ℕ → M Frame
  take_raw cursor = do
    need cursor
    raw ← slice_at 0 cursor
    advance cursor
    return (unknown b'D' raw)

  take_raw_refines :
      (p : Parse (Unit {0})) (m : M ℕ)
      → m d ≡ reach p d
      → (m >>= take_raw) d ≡ realise (whole (unread d) p) d
  unfolding take_raw advance
  take_raw_refines more m e = rw e
  take_raw_refines (bad x) m e = rw e
  take_raw_refines (got _ n) m e = rw e (ground (arith, need_lem d n, slice_at_lem d 0 n valid))

  legacy_refines :
      try_decode_unknown_with_seq_count b'D' d
      ≡ realise (parse_legacy d.max_frame_payload (unread d)) d
  unfolding try_decode_unknown_with_seq_count parse_legacy take_raw
  legacy_refines =
      let pairs : ℕ = word_at (unread d) 6 in
      ground (
        arith,
        need_lem d 10,
        u32_at_lem d 6 valid,
        take_raw_refines (parse_pairs d.max_frame_payload (unread d) pairs 10) (skip_pairs pairs 10)
            (pairs_refine pairs 10),
      )

  body_refines :
      (z : Zlib) (t : ℕ)
      → decode_body z t d ≡ realise (parse_body z d.max_frame_payload t (unread d)) d
  unfolding decode_body parse_body
  body_refines z t = ground (
    arith,
    window_refines d valid,
    ack_refines d valid,
    json_refines d valid,
    compressed_refines d valid z,
    legacy_refines,
  )

  header_lem :
      2 ≤ length (unread d)
      → header_at d ≡ (ok_some (get_or (unread d) 0 0, get_or (unread d) 1 0), d)
  unfolding header_at
  header_lem h = ground (arith, slice_at_lem d 0 2 valid)

-- On a valid decoder `next_frame` does what the specification says of the unread bytes: it returns
-- the parsed frame and moves the read position by the size of the frame, and where the bytes are too
-- few or malformed it changes nothing. It never panics.
pub next_frame-refines-parse :
    (z : Zlib) (d : FrameDecoder)
    → IsValid d
    → next_frame z d ≡ realise (parse z d.max_frame_payload (unread d)) d
unfolding next_frame parse
next_frame-refines-parse z d valid =
    ground (arith, need_lem d 2, header_lem d valid, body_refines d valid z (get_or (unread d) 1 0))
