-- ===== src/Lumberjack/Frame/View.antt =====
-- What a decoder's methods see of its buffer: the unread bytes. One lemma for each access of
-- frame.rs, from the buffer and its read position to the unread bytes.
use ferro_protocols.Prelude.{
  ℕ, ◌+◌, ◌≤◌, ◌≡◌, sym, ap, Bytes, length, take, drop, drop-drop, length-drop, arith, ltb,
  if◌then◌else◌,
}
use ferro_protocols.Prelude.Words.{from_be_bytes}
use ferro_protocols.Lumberjack.Frame.{
  FrameDecoder, ok_some, ok_none, error, payload_too_large, pending, need, cap_payload, u32_at,
  slice_at,
}

-- The bytes that were fed and not consumed.
abbrev pub unread : FrameDecoder → Bytes
unread d = drop d.read_pos d.buf

-- The read position lies in the buffer.
abbrev pub IsValid : FrameDecoder → Type 0
IsValid d = d.read_pos ≤ length d.buf

-- The big-endian word at an offset.
abbrev pub word_at : Bytes → ℕ → ℕ
word_at u offset = from_be_bytes (take 4 (drop offset u))

pub pending-eq-length : (d : FrameDecoder) → pending d ≡ length (unread d)
unfolding pending
pending-eq-length d = sym (length-drop d.read_pos d.buf)

-- The decoder moved on by n bytes.
abbrev pub consumed : ℕ → FrameDecoder → FrameDecoder
consumed n d = record d { read_pos = d.read_pos + n }

module _ (d : FrameDecoder) where
  pub need_lem : (n : ℕ) → need n d ≡ (if ltb (length (unread d)) n then ok_none else ok_some tt, d)
  unfolding need
  need_lem n = ground (arith, length-drop d.read_pos d.buf)

  pub cap_payload_lem :
      (n : ℕ)
      → cap_payload n d ≡ (
        if ltb d.max_frame_payload n
            then error (payload_too_large n d.max_frame_payload)
            else ok_some tt,
        d,
      )
  unfolding cap_payload
  cap_payload_lem n = ground arith

  pub u32_at_lem :
      (offset : ℕ)
      → IsValid d
      → offset + 4 ≤ length (unread d)
      → u32_at offset d ≡ (ok_some (word_at (unread d) offset), d)
  unfolding u32_at
  u32_at_lem offset valid fits =
      ground (arith, length-drop d.read_pos d.buf, ap (take 4) (drop-drop offset d.read_pos d.buf))

  pub slice_at_lem :
      (offset n : ℕ)
      → IsValid d
      → offset + n ≤ length (unread d)
      → slice_at offset n d ≡ (ok_some (take n (drop offset (unread d))), d)
  unfolding slice_at
  slice_at_lem offset n valid fits =
      ground (arith, length-drop d.read_pos d.buf, ap (take n) (drop-drop offset d.read_pos d.buf))

  pub unread-consumed : (n : ℕ) → unread (consumed n d) ≡ drop n (unread d)
  unread-consumed n = sym (drop-drop n d.read_pos d.buf)

  pub consumed-IsValid : (n : ℕ) → IsValid d → n ≤ length (unread d) → IsValid (consumed n d)
  consumed-IsValid n valid fits = omega (arith, length-drop d.read_pos d.buf)
