-- ===== src/Lumberjack/Frame.antt =====
-- crates/ferro-lumberjack/src/frame.rs: the frame codec. A decoder method is a function of the
-- decoder that returns what the method returns and the decoder after it; a Rust panic is an outcome
-- of its own. `usize` has 64 bits.
pub mod Wire
pub mod View
pub mod RoundTrip
pub mod Stream
pub mod Bounds
pub mod Feed
pub mod Stable
pub mod Parse
pub mod Refine
use ferro_protocols.Prelude.{
  ℕ, zero, suc, ◌+◌, ◌-◌, ◌*◌, ◌/◌, Bool, true, false, not, ◌&&◌, Option, none, some, List, [], ◌∷◌,
  ◌++◌, Bytes, length, take, drop, ltb, leb, ◌==◌, if◌then◌else◌,
}
use ferro_protocols.Prelude.Result.{Result, ok, err}
use ferro_protocols.Prelude.Words.{u32_max, saturating_add, to_be_bytes, from_be_bytes}
use ferro_protocols.Lumberjack.Zlib.{Zlib}
unfoldable pub use Wire.*

pub record FrameDecoder : Type 0 where
  pub buf : Bytes
  pub read_pos : ℕ
  pub max_frame_payload : ℕ

abbrev pub with_max_frame_payload : ℕ → FrameDecoder
with_max_frame_payload n = record { buf = []; read_pos = 0; max_frame_payload = n }

abbrev pub new : FrameDecoder
new = with_max_frame_payload default_max_frame_payload

unfoldable pub feed : FrameDecoder → Bytes → FrameDecoder
feed d bytes =
    if ltb 0 d.read_pos && leb (length d.buf / 2) d.read_pos
    then record d { buf = drop d.read_pos d.buf ++ bytes; read_pos = 0 }
    else record d { buf = d.buf ++ bytes }

unfoldable pub pending : FrameDecoder → ℕ
pending d = length d.buf - d.read_pos

-- `Result<Option<A>, FrameError>`, or a panic
pub data Outcome (A : Type 0) : Type 0 where
  ok_some : A → Outcome A
  ok_none : Outcome A
  error : FrameError → Outcome A
  panic : Outcome A

-- A method that may return early with `Ok(None)` or `Err`.
abbrev pub M : Type 0 → Type 0
M A = FrameDecoder → Outcome A × FrameDecoder

abbrev pub continue : {A B : Type 0} → Outcome A → (A → M B) → M B
continue (ok_some a) f d = f a d
continue ok_none f d = (ok_none, d)
continue (error e) f d = (error e, d)
continue panic f d = (panic, d)

infixl 5 ◌>>=◌ ◌>>◌
abbrev pub ◌>>=◌ : {A B : Type 0} → M A → (A → M B) → M B
◌>>=◌ m f d = let (o, d') = m d in continue o f d'

abbrev pub ◌>>◌ : {B : Type 0} → M (Unit {0}) → M B → M B
m >> n = m >>= λ _. n

abbrev pub return : {A : Type 0} → A → M A
return a d = (ok_some a, d)

abbrev pub raise : {A : Type 0} → FrameError → M A
raise e d = (error e, d)

-- `if self.pending() < n { return Ok(None); }`
unfoldable pub need : ℕ → M (Unit {0})
unfolding pending
need n d = if ltb (pending d) n then (ok_none, d) else (ok_some tt, d)

-- `if len > self.max_frame_payload { return Err(PayloadTooLarge) }`
unfoldable pub cap_payload : ℕ → M (Unit {0})
cap_payload len d =
    if ltb d.max_frame_payload len
    then (error (payload_too_large len d.max_frame_payload), d)
    else (ok_some tt, d)

unfoldable pub read_at : FrameDecoder → ℕ → ℕ → Option Bytes
read_at d m offset =
    let start = d.read_pos + offset in
    if ltb (length d.buf) (start + m) then none else some (take m (drop start d.buf))

-- `u32::from_be_bytes(self.read_at::<4>(offset).expect(…))`
unfoldable pub u32_at : ℕ → M ℕ
unfolding read_at
u32_at offset d = elim (read_at d 4 offset) [
  | none ↦ (panic, d)
  | some b ↦ (ok_some (from_be_bytes b), d)
]

-- `&self.buf[start..start + len]` with `start = self.read_pos + offset`
unfoldable pub slice_at : ℕ → ℕ → M Bytes
slice_at offset len d =
    let start = d.read_pos + offset in
    if ltb (length d.buf) (start + len)
    then (panic, d)
    else (ok_some (take len (drop start d.buf)), d)

-- `self.read_pos += n`
unfoldable pub advance : ℕ → M (Unit {0})
advance n d = (ok_some tt, record d { read_pos = d.read_pos + n })

unfoldable pub try_decode_window : M Frame
try_decode_window = do need 6; count ← u32_at 2; advance 6; return (window count)

unfoldable pub try_decode_ack : M Frame
try_decode_ack = do need 6; seq ← u32_at 2; advance 6; return (ack seq)

unfoldable pub try_decode_json : M Frame
try_decode_json = do
  need 10
  seq ← u32_at 2
  len ← u32_at 6
  cap_payload len
  need (10 + len)
  payload ← slice_at 10 len
  advance (10 + len)
  return (json seq payload)

unfoldable pub decompress_capped : Zlib → Bytes → ℕ → Result FrameError Bytes
decompress_capped z c limit = elim (z.inflate c (saturating_add limit 1)) [
  | err e ↦ err (decompression e)
  | ok out ↦ if ltb limit (length out) then err (decompressed_too_large limit) else ok out
]

-- The `?` on a pure result; the decoder's own cap is the limit.
unfoldable pub decompress_payload : Zlib → Bytes → M Bytes
decompress_payload z c d = elim (decompress_capped z c d.max_frame_payload) [
  | err e ↦ (error e, d)
  | ok out ↦ (ok_some out, d)
]

unfoldable pub try_decode_compressed : Zlib → M Frame
try_decode_compressed z = do
  need 6
  len ← u32_at 2
  cap_payload len
  need (6 + len)
  c ← slice_at 6 len
  decompressed ← decompress_payload z c
  advance (6 + len)
  return (compressed decompressed)

-- One `<len: u32 BE> <content>` of a pair: the cursor behind it.
unfoldable pub skip_field : ℕ → M ℕ
skip_field cursor = do
  need (cursor + 4)
  len ← u32_at cursor
  cap_payload len
  return (cursor + (4 + len))

-- The loop over the pairs: a key and a value each.
unfoldable pub skip_pairs : ℕ → ℕ → M ℕ
skip_pairs zero cursor = return cursor
skip_pairs (suc pairs) cursor = do
  key_end ← skip_field cursor
  value_end ← skip_field key_end
  skip_pairs pairs value_end

unfoldable pub try_decode_unknown_with_seq_count : ℕ → M Frame
try_decode_unknown_with_seq_count type_byte = do
  need 10
  pair_count ← u32_at 6
  cursor ← skip_pairs pair_count 10
  need cursor
  raw ← slice_at 0 cursor
  advance cursor
  return (unknown type_byte raw)

-- The `match frame_type`.
unfoldable pub decode_body : Zlib → ℕ → M Frame
decode_body z frame_type =
    if frame_type == frame_type_window
    then try_decode_window
    else if frame_type == frame_type_ack
    then try_decode_ack
    else if frame_type == frame_type_json
    then try_decode_json
    else if frame_type == frame_type_compressed
    then try_decode_compressed z
    else if frame_type == frame_type_data_legacy
    then try_decode_unknown_with_seq_count b'D'
    else raise (unknown_frame_type frame_type)

-- The two header bytes.
unfoldable pub header_at : M (ℕ × ℕ)
unfolding slice_at
header_at = do
  header ← slice_at 0 2
  elim header [
    | v ∷ rest ↦ elim rest [ t ∷ _ ↦ return (v, t) | [] ↦ λ d. (panic, d) ]
    | [] ↦ λ d. (panic, d)
  ]

unfoldable pub next_frame : Zlib → M Frame
next_frame z = do
  need 2
  header ← header_at
  if header.0 == protocol_version
      then decode_body z header.1
      else raise (unsupported_version header.0)
