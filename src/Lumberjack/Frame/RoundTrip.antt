-- ===== src/Lumberjack/Frame/RoundTrip.antt =====
-- The encoders of frame.rs against its decoder, whatever bytes follow.
use ferro_protocols.Prelude.{
  ℕ, ◌+◌, ◌≤◌, ◌<◌, ◌≡◌, refl, ap, ◌∙◌, Bytes, ◌∷◌, ◌++◌, length, drop, arith, length-append,
  take-append, take-length, take-all, drop-append_self,
}
use ferro_protocols.Prelude.Result.{ok}
use ferro_protocols.Prelude.Words.{
  u32_mod, u32_max, u64_max, saturating_add, to_be_bytes, from_be_bytes,
}
use ferro_protocols.Lumberjack.Zlib.{Zlib, IsZlib}
use ferro_protocols.Lumberjack.Frame.{
  protocol_version, frame_type_compressed, Frame, FrameDecoder, ok_some, window, json, compressed,
  ack, encode_window, encode_ack, encode_json_frame, encode_compressed, decompress_capped,
  next_frame,
}
use ferro_protocols.Lumberjack.Frame.View.{unread, IsValid, consumed-IsValid, unread-consumed}
use ferro_protocols.Lumberjack.Frame.Parse.{
  got, parse_word, parse_json, parse_compressed, inflated, parse_body, parse,
}
use ferro_protocols.Lumberjack.Frame.Refine.{next_frame-refines-parse}

pub c_frame_length :
    (c : Bytes)
    → length (protocol_version ∷ frame_type_compressed ∷ (to_be_bytes (length c) ++ c))
      ≡ 6 + length c
unfolding to_be_bytes
c_frame_length c = omega arith

-- What a successful `encode_compressed` returns.
pub encode_compressed_shape :
    (z : Zlib) (level : ℕ) (inner bytes : Bytes)
    → encode_compressed z level inner ≡ ok bytes
    → (c : Bytes) × (z.deflate level inner ≡ ok c)
      × (length c ≤ u32_max)
      × (bytes ≡ protocol_version ∷ frame_type_compressed ∷ (to_be_bytes (length c) ++ c))
unfolding encode_compressed
encode_compressed_shape z level inner bytes e = ground arith

module _ (z : Zlib) (cap : ℕ) (rest : Bytes) where
  pub parse-encode_window :
      (count : ℕ)
      → count < u32_mod
      → parse z cap (encode_window count ++ rest) ≡ got (window count) 6
  unfolding parse parse_body parse_word encode_window to_be_bytes from_be_bytes
  parse-encode_window count h = ground arith

  pub parse-encode_ack :
      (seq : ℕ) → seq < u32_mod → parse z cap (encode_ack seq ++ rest) ≡ got (ack seq) 6
  unfolding parse parse_body parse_word encode_ack to_be_bytes from_be_bytes
  parse-encode_ack seq h = ground arith

  pub parse-encode_json_frame :
      (seq : ℕ) (payload : Bytes)
      → seq < u32_mod
      → length payload ≤ u32_max
      → length payload ≤ cap
      → parse z cap (encode_json_frame seq payload ++ rest)
        ≡ got (json seq payload) (10 + length payload)
  unfolding parse parse_body parse_json encode_json_frame to_be_bytes from_be_bytes
  parse-encode_json_frame seq payload hs hl hc = ground (
    arith,
    length-append payload rest,
    take-append (length payload) payload rest,
    take-length payload,
  )

  -- The inverse of the C frame: the inflater gives back what was deflated, cut at the cap and one.
  decompress_deflated :
      (level : ℕ) (inner c : Bytes)
      → IsZlib z
      → z.deflate level inner ≡ ok c
      → length inner ≤ cap
      → cap < u64_max
      → decompress_capped z c cap ≡ ok inner
  unfolding decompress_capped
  decompress_deflated level inner c laws h hi hc = ground (
    arith,
    laws.inflate-deflate level (saturating_add cap 1) inner c h,
    take-all inner (saturating_add cap 1),
  )

  parse_c_frame :
      (c inner : Bytes)
      → length c ≤ u32_max
      → length c ≤ cap
      → decompress_capped z c cap ≡ ok inner
      → parse z cap (b'2' ∷ b'C' ∷ (to_be_bytes (length c) ++ c) ++ rest)
        ≡ got (compressed inner) (6 + length c)
  unfolding parse parse_body parse_compressed inflated to_be_bytes from_be_bytes
  parse_c_frame c inner hl hc e =
      ground (arith, length-append c rest, take-append (length c) c rest, take-length c)

  pub parse-encode_compressed :
      (level : ℕ) (inner bytes : Bytes)
      → IsZlib z
      → encode_compressed z level inner ≡ ok bytes
      → length bytes ≤ 6 + cap
      → length inner ≤ cap
      → cap < u64_max
      → parse z cap (bytes ++ rest) ≡ got (compressed inner) (length bytes)
  parse-encode_compressed level inner bytes laws e hb hi hc =
      let (c, deflated, fits, shape) = encode_compressed_shape z level inner bytes e in
      let size : length bytes ≡ 6 + length c = ap length shape ∙ c_frame_length c in
      rw (shape, c_frame_length c)
        (parse_c_frame c inner fits (omega arith)
          (decompress_deflated level inner c laws deflated hi hc))

-- The next call returns the frame, and the bytes behind it stay unread in a valid decoder with the
-- same cap.
abbrev pub Yields : Zlib → FrameDecoder → Frame → Bytes → Type 0
Yields z d f rest =
    ((next_frame z d).0 ≡ ok_some f)
    × (unread (next_frame z d).1 ≡ rest)
    × IsValid (next_frame z d).1
    × ((next_frame z d).1.max_frame_payload ≡ d.max_frame_payload)

pub yields :
    (z : Zlib) (d : FrameDecoder) (f : Frame) (b rest : Bytes)
    → IsValid d
    → unread d ≡ b ++ rest
    → parse z d.max_frame_payload (b ++ rest) ≡ got f (length b)
    → Yields z d f rest
yields z d f b rest valid u e =
    let size : length (unread d) ≡ length b + length rest = ap length u ∙ length-append b rest in
    rw (next_frame-refines-parse z d valid, u, e)
      (
        refl,
        unread-consumed d (length b) ∙ ap (drop (length b)) u ∙ drop-append_self b rest,
        consumed-IsValid d (length b) valid (omega arith),
        refl,
      )

word_length : (n : ℕ) → (length (encode_window n) ≡ 6) × (length (encode_ack n) ≡ 6)
unfolding encode_window encode_ack to_be_bytes
word_length n = (refl, refl)

pub length-encode_json_frame :
    (seq : ℕ) (payload : Bytes) → length (encode_json_frame seq payload) ≡ 10 + length payload
unfolding encode_json_frame to_be_bytes
length-encode_json_frame seq payload = omega arith

-- If the unread bytes of a valid decoder begin with the encoding of a W frame of a `u32`, the next
-- call returns that frame and leaves the bytes behind it.
pub next_frame-encode_window :
    (z : Zlib) (d : FrameDecoder) (count : ℕ) (rest : Bytes)
    → IsValid d
    → count < u32_mod
    → unread d ≡ encode_window count ++ rest
    → Yields z d (window count) rest
next_frame-encode_window z d count rest valid h u =
    yields z d (window count) (encode_window count) rest valid u
      (rw (word_length count).0 (parse-encode_window z d.max_frame_payload rest count h))

-- If the unread bytes of a valid decoder begin with the encoding of an A frame of a `u32`, the next
-- call returns that frame and leaves the bytes behind it.
pub next_frame-encode_ack :
    (z : Zlib) (d : FrameDecoder) (seq : ℕ) (rest : Bytes)
    → IsValid d
    → seq < u32_mod
    → unread d ≡ encode_ack seq ++ rest
    → Yields z d (ack seq) rest
next_frame-encode_ack z d seq rest valid h u =
    yields z d (ack seq) (encode_ack seq) rest valid u
      (rw (word_length seq).1 (parse-encode_ack z d.max_frame_payload rest seq h))

-- If the unread bytes of a valid decoder begin with the encoding of a J frame, whose sequence number
-- and payload length are `u32` and whose payload is within the cap, the next call returns that frame
-- and leaves the bytes behind it.
pub next_frame-encode_json_frame :
    (z : Zlib) (d : FrameDecoder) (seq : ℕ) (payload rest : Bytes)
    → IsValid d
    → seq < u32_mod
    → length payload ≤ u32_max
    → length payload ≤ d.max_frame_payload
    → unread d ≡ encode_json_frame seq payload ++ rest
    → Yields z d (json seq payload) rest
next_frame-encode_json_frame z d seq payload rest valid hs hl hc u =
    yields z d (json seq payload) (encode_json_frame seq payload) rest valid u (
      rw (length-encode_json_frame seq payload)
        (parse-encode_json_frame z d.max_frame_payload rest seq payload hs hl hc))

-- If the deflater and the inflater are inverse, and the unread bytes of a valid decoder begin with
-- what `encode_compressed` returned for some inner bytes, where the C payload and the inner bytes are
-- within a cap below the largest `u64`, then the next call returns the inner bytes as a C frame and
-- leaves the bytes behind it.
pub next_frame-encode_compressed :
    (z : Zlib) (d : FrameDecoder) (level : ℕ) (inner bytes rest : Bytes)
    → IsZlib z
    → IsValid d
    → encode_compressed z level inner ≡ ok bytes
    → length bytes ≤ 6 + d.max_frame_payload
    → length inner ≤ d.max_frame_payload
    → d.max_frame_payload < u64_max
    → unread d ≡ bytes ++ rest
    → Yields z d (compressed inner) rest
next_frame-encode_compressed z d level inner bytes rest laws valid e hb hi hc u =
    yields z d (compressed inner) bytes rest valid u
      (parse-encode_compressed z d.max_frame_payload rest level inner bytes laws e hb hi hc)
