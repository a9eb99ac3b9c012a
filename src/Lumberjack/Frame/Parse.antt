-- ===== src/Lumberjack/Frame/Parse.antt =====
-- The abstract specification of the frame decoder of frame.rs: a function of the unread bytes and
-- the cap alone, with no buffer, no read position and no panic.
use ferro_protocols.Prelude.{
  ℕ, zero, suc, ◌+◌, Bytes, length, take, drop, get_or, ltb, ◌==◌, if◌then◌else◌,
}
use ferro_protocols.Prelude.Result.{ok, err}
use ferro_protocols.Lumberjack.Zlib.{Zlib}
use ferro_protocols.Lumberjack.Frame.{
  Frame, FrameError, window, json, compressed, ack, unknown, unsupported_version,
  unknown_frame_type, payload_too_large, decompress_capped, protocol_version, frame_type_window,
  frame_type_ack, frame_type_json, frame_type_compressed, frame_type_data_legacy,
}
use ferro_protocols.Lumberjack.Frame.View.{word_at}

-- Too few bytes; malformed; or a value and the number of bytes that it takes.
pub data Parse (A : Type 0) : Type 0 where
  more : Parse A
  bad : FrameError → Parse A
  got : A → ℕ → Parse A

-- A frame of six bytes that carries one word.
unfoldable pub parse_word : (ℕ → Frame) → Bytes → Parse Frame
parse_word f u = if ltb (length u) 6 then more else got (f (word_at u 2)) 6

unfoldable pub parse_json : ℕ → Bytes → Parse Frame
parse_json cap u =
    let len = word_at u 6 in
    if ltb (length u) 10
    then more
    else if ltb cap len
    then bad (payload_too_large len cap)
    else if ltb (length u) (10 + len)
    then more
    else got (json (word_at u 2) (take len (drop 10 u))) (10 + len)

unfoldable pub inflated : Zlib → ℕ → Bytes → ℕ → Parse Frame
inflated z cap c size = elim (decompress_capped z c cap) [
  | err e ↦ bad e
  | ok out ↦ got (compressed out) size
]

unfoldable pub parse_compressed : Zlib → ℕ → Bytes → Parse Frame
parse_compressed z cap u =
    let len = word_at u 2 in
    if ltb (length u) 6
    then more
    else if ltb cap len
    then bad (payload_too_large len cap)
    else if ltb (length u) (6 + len)
    then more
    else inflated z cap (take len (drop 6 u)) (6 + len)

-- One length-prefixed field at `cursor`, and how far the field reaches.
unfoldable pub parse_field : ℕ → Bytes → ℕ → Parse (Unit {0})
parse_field cap u cursor =
    let len = word_at u cursor in
    if ltb (length u) (cursor + 4)
    then more
    else if ltb cap len
    then bad (payload_too_large len cap)
    else got tt (cursor + (4 + len))

abbrev pub next_field : Parse (Unit {0}) → (ℕ → Parse (Unit {0})) → Parse (Unit {0})
next_field more f = more
next_field (bad e) f = bad e
next_field (got _ n) f = f n

unfoldable pub parse_pairs : ℕ → Bytes → ℕ → ℕ → Parse (Unit {0})
parse_pairs cap u zero cursor = got tt cursor
parse_pairs cap u (suc pairs) cursor =
    next_field (parse_field cap u cursor)
      (λ key_end. next_field (parse_field cap u key_end) (parse_pairs cap u pairs))

abbrev pub whole : Bytes → Parse (Unit {0}) → Parse Frame
whole u more = more
whole u (bad e) = bad e
whole u (got _ n) = if ltb (length u) n then more else got (unknown b'D' (take n u)) n

unfoldable pub parse_legacy : ℕ → Bytes → Parse Frame
parse_legacy cap u =
    let pairs = whole u (parse_pairs cap u (word_at u 6) 10) in
    if ltb (length u) 10 then more else pairs

unfoldable pub parse_body : Zlib → ℕ → ℕ → Bytes → Parse Frame
parse_body z cap t u =
    if t == frame_type_window
    then parse_word window u
    else if t == frame_type_ack
    then parse_word ack u
    else if t == frame_type_json
    then parse_json cap u
    else if t == frame_type_compressed
    then parse_compressed z cap u
    else if t == frame_type_data_legacy
    then parse_legacy cap u
    else bad (unknown_frame_type t)

unfoldable pub parse : Zlib → ℕ → Bytes → Parse Frame
parse z cap u =
    if ltb (length u) 2
    then more
    else if get_or u 0 0 == protocol_version
    then parse_body z cap (get_or u 1 0) u
    else bad (unsupported_version (get_or u 0 0))
