-- ===== src/Lumberjack/Acked.antt =====
-- The client of crates/ferro-lumberjack/src/client.rs and the server of server.rs in one exchange: a
-- batch is sent, read and acknowledged.
use ferro_protocols.Prelude.{
  ℕ, zero, suc, ◌≤◌, ◌<◌, ◌≡◌, refl, ◌∙◌, true, false, Bytes, List, [], ◌∷◌, ◌++◌, length, none,
  some, arith, ltb,
}
use ferro_protocols.Prelude.Result.{ok, err}
use ferro_protocols.Prelude.Words.{u32_mod, u32_max, wrapping_add}
use ferro_protocols.Lumberjack.Sequence
use ferro_protocols.Lumberjack.Sequence.{Sequence}
use ferro_protocols.Lumberjack.Zlib.{Zlib, IsZlib}
use ferro_protocols.Lumberjack.Frame.{FrameDecoder, encode_ack}
use ferro_protocols.Lumberjack.Frame.View.{unread, IsValid}
use ferro_protocols.Lumberjack.Server.State.{Window, Limits}
use ferro_protocols.Lumberjack.Server.{
  Read, Reply, AckReply, wrote, acked, send_ack, read_window, read_and_ack,
}
use ferro_protocols.Lumberjack.Client.{
  Client, Attempt, done, within, exchange, send_payload_once, build_window_payload, try_hosts,
  send_json,
}
use ferro_protocols.Lumberjack.Client.Ack.{check_ack-encode_ack}
use ferro_protocols.Lumberjack.Delivery.{IsDeliverable, Reads, read_window-build_window_payload}
use ferro_protocols.Lumberjack.Delivery.Loops.{batch_window}

-- The bytes that the server sends.
abbrev pub sent : AckReply → Bytes
sent (ok (some (w, b)), d, reads) = b
sent (ok none, d, reads) = []
sent (err e, d, reads) = []

-- The client has a host and a connection, on which the writes and the read of an attempt go through.
pub record IsUp (c : Client) (a : Attempt) : Type 0 where
  pub hosts : 1 ≤ length c.hosts
  pub connected : c.connected ≡ true
  pub written : a.writing ≡ done
  pub flushed : a.flushing ≡ done
  pub read : a.reading ≡ done

exchange_up :
    (c : Client) (a : Attempt) (payload : Bytes) (base count : ℕ)
    → IsUp c a
    → base < u32_mod
    → count < u32_mod
    → a.ack payload ≡ encode_ack (wrapping_add base count)
    → exchange a payload base count ≡ ok count
unfolding exchange within
exchange_up c a payload base count up hb hc q =
    ground (arith, up.written, up.flushed, up.read, check_ack-encode_ack base count count hb hc hc)

try_hosts_up :
    (net : ℕ → Attempt) (payload : Bytes) (base count rounds : ℕ) (c : Client)
    → 1 ≤ rounds
    → c.connected ≡ true
    → exchange (net 0) payload base count ≡ ok count
    → try_hosts net payload base count rounds 0 c none ≡ (ok count, c, [])
unfolding try_hosts send_payload_once
try_hosts_up net payload base count zero c h up q = absurd (omega (arith, h))
try_hosts_up net payload base count (suc rounds) c h up q = ground arith

acked-Reads :
    (w : Window) (rest : Bytes) (r : Reply)
    → Reads w rest r
    → (acked wrote wrote r).0 ≡ ok (some (w, encode_ack w.last_seq))
unfolding send_ack
acked-Reads w rest (ok (some w'), d, reads) (q, u) = ground arith
acked-Reads w rest (ok none, d, reads) (q, u) = absurd (ground arith)
acked-Reads w rest (err e, d, reads) (q, u) = absurd (ground arith)

sent_reply : (r : AckReply) (w : Window) (b : Bytes) → r.0 ≡ ok (some (w, b)) → sent r ≡ b
sent_reply (ok (some (w', b')), d, reads) w b q = ground arith
sent_reply (ok none, d, reads) w b q = absurd (ground arith)
sent_reply (err e, d, reads) w b q = absurd (ground arith)

-- The deflater and the inflater are inverse, and a non-empty batch passes the server's caps. If the
-- unread bytes of the server's valid decoder begin with the payload of the batch, and the client is
-- connected and gets the bytes that `read_and_ack` sends: then `read_and_ack` returns the events of
-- the batch, numbered from the one behind the client's sequence number, and `send_json` reports all
-- of them as acknowledged at its first attempt, without a dial, and has moved its sequence number by
-- as many, also around the end of the 32-bit numbers.
pub send_json-read_and_ack :
    (z : Zlib) (lim : Limits) (c : Client) (net : ℕ → Attempt) (e : Bytes) (es : List Bytes)
    (rest : Bytes) (reads : List Read) (d : FrameDecoder)
    → IsZlib z
    → IsDeliverable lim c.seq (e ∷ es)
    → c.seq.value < u32_mod
    → IsValid d
    → d.max_frame_payload ≡ lim.max_frame_payload
    → unread d ≡ build_window_payload z c (e ∷ es) c.seq ++ rest
    → IsUp c (net 0)
    → (net 0).ack (build_window_payload z c (e ∷ es) c.seq)
      ≡ sent (read_and_ack z lim reads wrote wrote d)
    → ((read_and_ack z lim reads wrote wrote d).0
        ≡ ok (
            some (
              batch_window c.seq.value (e ∷ es),
              encode_ack (wrapping_add c.seq.value (length (e ∷ es))),
            )))
      × (send_json z net (e ∷ es) c
          ≡ some (
            ok (length (e ∷ es)),
            record c { seq = Sequence.advance c.seq (length (e ∷ es)) },
            [],
          ))
unfolding read_and_ack send_json build_window_payload
send_json-read_and_ack z lim c net e es rest reads d laws h hb valid same u up q =
    let n : ℕ = length (e ∷ es) in
    let served : (read_and_ack z lim reads wrote wrote d).0
        ≡ ok (some (batch_window c.seq.value (e ∷ es), encode_ack (wrapping_add c.seq.value n))) =
      acked-Reads (batch_window c.seq.value (e ∷ es)) rest (read_window z lim reads d)
        (read_window-build_window_payload z lim c c.seq e es rest reads d laws h valid same u) in
    let answered : exchange (net 0) (build_window_payload z c (e ∷ es) c.seq) c.seq.value n ≡ ok n =
      exchange_up c (net 0) _ c.seq.value n up hb (omega (arith, h.counted))
        (q ∙ sent_reply (read_and_ack z lim reads wrote wrote d) _ _ served) in
    let first : try_hosts net (build_window_payload z c (e ∷ es) c.seq) c.seq.value n
          (length c.hosts) 0 (record c { seq = Sequence.advance c.seq n }) none
        ≡ (ok n, record c { seq = Sequence.advance c.seq n }, []) =
      try_hosts_up net _ c.seq.value n (length c.hosts) _ up.hosts up.connected answered in
    let fits : ltb u32_max n ≡ false = ground (arith, h.counted) in (served, rw (fits, first) refl)
