-- ===== src/Lumberjack/Zlib.antt =====
-- The flate2 crate, which the codec calls and the repository does not hold: its two operations, and
-- what the codec relies on.
use ferro_protocols.Prelude.{ℕ, ◌≤◌, ◌≡◌, Bytes, length, take}
use ferro_protocols.Prelude.Result.{Result, ok}

-- An error carries its text.
pub record Zlib : Type 0 where
  -- `ZlibEncoder::new(_, level)`, then `write_all` and `finish`
  pub deflate : ℕ → Bytes → Result Bytes Bytes
  -- `ZlibDecoder::new(_)`, `take(n)`, then `read_to_end`: at most the first n bytes of the output
  pub inflate : Bytes → ℕ → Result Bytes Bytes

-- The documented behaviour of `Read::take`, and of a stream that was written by the encoder.
pub record IsZlib (z : Zlib) : Type 0 where
  pub inflate_bound : (c out : Bytes) (n : ℕ) → z.inflate c n ≡ ok out → length out ≤ n
  pub inflate-deflate :
      (level n : ℕ) (b c : Bytes) → z.deflate level b ≡ ok c → z.inflate c n ≡ ok (take n b)
