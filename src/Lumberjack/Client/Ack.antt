-- ===== src/Lumberjack/Client/Ack.antt =====
-- What the client of client.rs makes of an ACK.
use ferro_protocols.Prelude.{ℕ, ◌<◌, ◌≡◌, ltb, ◌==◌, ◌||◌, arith, if◌then◌else◌}
use ferro_protocols.Prelude.Result.{ok, err}
use ferro_protocols.Prelude.Words.{u32_mod, wrapping_add, to_be_bytes, from_be_bytes-to_be_bytes}
use ferro_protocols.Lumberjack.Sequence
use ferro_protocols.Lumberjack.Frame.{encode_ack}
use ferro_protocols.Lumberjack.Error.{unexpected_ack, partial_ack}
use ferro_protocols.Lumberjack.Client.{check_ack}

-- An ACK of k steps behind the base, also where the sum wraps around: k is the whole batch; or it is
-- none of it, or more than it, which is refused; or it is a part, which is reported as such.
pub check_ack-encode_ack :
    (base k count : ℕ)
    → base < u32_mod
    → k < u32_mod
    → count < u32_mod
    → check_ack (encode_ack (wrapping_add base k)) base count ≡ (
        if k == count
        then ok count
        else if k == 0 || ltb count k
        then err (unexpected_ack b'2' b'A' (wrapping_add base k) (wrapping_add base count))
        else err (partial_ack k count))
unfolding check_ack encode_ack to_be_bytes Sequence.is_exactly_acked_by
check_ack-encode_ack base k count hb hk hc =
    ground (arith, from_be_bytes-to_be_bytes (wrapping_add base k))
