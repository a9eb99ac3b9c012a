-- ===== src/Examples/Data.antt =====
-- The inputs that the examples share: a zlib that stores its input, decoders, and a client.
use ferro_protocols.Prelude.{◌≡◌, sym, ap, Bytes, take, length, arith, length-take}
use ferro_protocols.Prelude.Result.{Result, ok}
use ferro_protocols.Lumberjack.Zlib.{Zlib, IsZlib}
use ferro_protocols.Lumberjack.Frame.{FrameDecoder}

-- Compression that leaves the bytes as they are.
abbrev pub stored : Zlib
stored = record { deflate = λ level b. ok b; inflate = λ c n. ok (take n c) }

ok_injective : {a b : Bytes} → ◌≡◌ {A = Result Bytes Bytes} (ok a) (ok b) → a ≡ b
ok_injective e = cc

pub stored-IsZlib : IsZlib stored
stored-IsZlib = record {
  inflate_bound = λ c out n e. omega (arith, length-take n c, ap length (ok_injective e));
  inflate-deflate = λ level n b c e. ap (λ w. ok (take n w)) (sym (ok_injective e));
}

-- A decoder with a cap of 64 bytes that was fed these bytes.
abbrev pub holding : Bytes → FrameDecoder
holding b = record { buf = b; read_pos = 0; max_frame_payload = 64 }
