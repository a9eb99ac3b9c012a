-- ===== src/Lumberjack/Client.antt =====
-- crates/ferro-lumberjack/src/client.rs: shipping a batch and checking its acknowledgement. What the
-- network does in each attempt is an argument. TLS is left out.
pub mod Ack
pub mod Hosts
use ferro_protocols.Prelude.{
  ℕ, zero, suc, ◌+◌, ◌-◌, ◌*◌, ◌%◌, ◌^◌, Bytes, List, [], ◌∷◌, ◌++◌, length, get_or, ltb, leb, ◌==◌,
  Option, none, some, Bool, true, false, not, ◌&&◌, ◌||◌, if◌then◌else◌,
}
use ferro_protocols.Prelude.Result.{Result, ok, err, ◌>>=◌, ◌>>◌}
use ferro_protocols.Prelude.Words.{u32_mod, u32_max, wrapping_add, wrapping_sub, from_be_bytes}
use ferro_protocols.Lumberjack.Sequence
use ferro_protocols.Lumberjack.Sequence.{Sequence}
use ferro_protocols.Lumberjack.Zlib.{Zlib}
use ferro_protocols.Lumberjack.Frame.{
  u32_or_max, encode_window, encode_json_frame, encode_compressed,
}
use ferro_protocols.Lumberjack.Error.{
  ProtocolError, IoError, Operation, io, timeout, unexpected_ack, partial_ack, no_hosts_configured,
  all_hosts_failed, connect, write, flush, ack_read,
}

-- `Duration::from_secs(30)`, in seconds
abbrev pub default_timeout : ℕ
default_timeout = 30

abbrev pub default_compression : ℕ
default_compression = 3

pub record ClientBuilder : Type 0 where
  pub hosts : List Bytes
  pub load_balance : Bool
  pub timeout : Option ℕ
  pub compression_level : Option ℕ

pub record Client : Type 0 where
  pub hosts : List Bytes
  pub load_balance : Bool
  pub timeout : ℕ
  pub compression_level : ℕ
  pub host_cursor : ℕ
  pub seq : Sequence
  -- whether `connection` is `Some`
  pub connected : Bool

unfoldable pub next_seq : Client → ℕ
next_seq c = (Sequence.advance c.seq 1).value

-- How one awaited operation under a timeout comes out.
pub data Io : Type 0 where
  done : Io
  fails : IoError → Io
  times_out : Io

-- What the network does in one attempt: dialling (if it comes to that), the two writes, the read of
-- six bytes, and the six bytes with which the peer answers what was written.
pub record Attempt : Type 0 where
  pub dialling : Io
  pub writing : Io
  pub flushing : Io
  pub reading : Io
  pub ack : Bytes → Bytes

-- `tokio::time::timeout(…).await.map_err(…)?.map_err(ProtocolError::Io)?`
unfoldable pub within : Operation → Io → Result ProtocolError (Unit {0})
within op done = ok tt
within op (fails e) = err (io e)
within op times_out = err (timeout op)

-- The fetch-and-add of `host_cursor`, an atomic 64-bit `usize`.
abbrev pub bump : ℕ → ℕ
bump cursor = (cursor + 1) % 2 ^ 64

-- The index of the host, and the client after the call. `%` by no host panics in the source; every
-- caller has a host.
unfoldable pub pick_host : Client → ℕ × Client
pick_host c =
    let idx = c.host_cursor % length c.hosts in
    if c.load_balance then (idx, record c { host_cursor = bump c.host_cursor }) else (idx, c)

-- The result, the client after it and the hosts that were dialled.
abbrev pub Sent : Type 0 → Type 0
Sent A = Result ProtocolError A × Client × List ℕ

unfoldable pub reconnect : Attempt → Client → Sent (Unit {0})
reconnect a c =
    let (idx, c') = pick_host c in
    elim (within connect a.dialling) [
      | ok _ ↦ (ok tt, record c' { connected = true }, idx ∷ [])
      | err e ↦ (err e, c', idx ∷ [])
    ]

-- The answer to an ACK: the checks behind the read.
unfoldable pub check_ack : Bytes → ℕ → ℕ → Result ProtocolError ℕ
check_ack ack base_seq count =
    let expected_seq = wrapping_add base_seq count in
    let version = get_or ack 0 0 in
    let frame_type = get_or ack 1 0 in
    let acked_seq =
      from_be_bytes (get_or ack 2 0 ∷ get_or ack 3 0 ∷ get_or ack 4 0 ∷ get_or ack 5 0 ∷ []) in
    let acked_count = wrapping_sub acked_seq base_seq in
    if not (version == b'2') || not (frame_type == b'A')
    then err (unexpected_ack version frame_type acked_seq expected_seq)
    else if Sequence.is_exactly_acked_by (Sequence.new expected_seq) acked_seq
    then ok count
    else if acked_count == 0 || ltb count acked_count
    then err (unexpected_ack version frame_type acked_seq expected_seq)
    else err (partial_ack acked_count count)

-- Write, flush, and read the ACK.
unfoldable pub exchange : Attempt → Bytes → ℕ → ℕ → Result ProtocolError ℕ
exchange a payload base_seq count = do
  _ ← within write a.writing
  _ ← within flush a.flushing
  _ ← within ack_read a.reading
  check_ack (a.ack payload) base_seq count

abbrev pub then_exchange : Result ProtocolError ℕ → Sent (Unit {0}) → Sent ℕ
then_exchange answer (ok _, c, dialled) = (answer, c, dialled)
then_exchange answer (err e, c, dialled) = (err e, c, dialled)

unfoldable pub send_payload_once : Attempt → Bytes → ℕ → ℕ → Client → Sent ℕ
send_payload_once a payload base_seq count c =
    let answer = exchange a payload base_seq count in
    if c.connected then (answer, c, []) else then_exchange answer (reconnect a c)

-- `for (i, event) in events.iter().enumerate()`, from `i`
unfoldable pub inner_frames : Sequence → ℕ → List Bytes → Bytes
inner_frames base_seq i [] = []
inner_frames base_seq i (event ∷ events) =
    encode_json_frame (Sequence.advance base_seq (u32_or_max i + 1)).value event
    ++ inner_frames base_seq (i + 1) events

-- Compressed if that is asked for and makes the bytes fewer.
unfoldable pub window_body : Zlib → ℕ → Bytes → Bytes
window_body z level inner = elim (encode_compressed z level inner) [
  | err e ↦ inner
  | ok c ↦ if ltb 0 level && ltb (length c) (length inner) then c else inner
]

unfoldable pub build_window_payload : Zlib → Client → List Bytes → Sequence → Bytes
build_window_payload z c events base_seq =
    encode_window (u32_or_max (length events))
    ++ window_body z c.compression_level (inner_frames base_seq 0 events)

-- The error branch of an attempt.
abbrev pub give_up : Client → Client
give_up c = record c { connected = false; host_cursor = bump c.host_cursor }

abbrev pub next_attempt : (Client → Option ProtocolError → Sent ℕ) → Sent ℕ → Sent ℕ
next_attempt k (ok acked, c, dialled) = (ok acked, c, dialled)
next_attempt k (err e, c, dialled) =
    let (r, c', later) = k (give_up c) (some e) in (r, c', dialled ++ later)

-- `last_err.unwrap_or(ProtocolError::NoHostsConfigured)`
abbrev pub last_or_none : Option ProtocolError → ProtocolError
last_or_none none = no_hosts_configured
last_or_none (some e) = e

-- `for _ in 0..self.hosts.len()`: the rounds that are left, and the number of the next attempt.
unfoldable pub try_hosts :
    (ℕ → Attempt) → Bytes → ℕ → ℕ → ℕ → ℕ → Client → Option ProtocolError → Sent ℕ
try_hosts net payload base_seq count zero i c last_err =
    (err (all_hosts_failed (last_or_none last_err)), c, [])
try_hosts net payload base_seq count (suc rounds) i c last_err =
    next_attempt (try_hosts net payload base_seq count rounds (i + 1))
      (send_payload_once (net i) payload base_seq count c)

-- `none` is the panic on a batch of more than u32::MAX events.
unfoldable pub send_json : Zlib → (ℕ → Attempt) → List Bytes → Client → Option (Sent ℕ)
send_json z net [] c = some (ok 0, c, [])
send_json z net (e ∷ es) c =
    let events = e ∷ es in
    let count = length events in
    let base_seq = c.seq in
    let c' = record c { seq = Sequence.advance base_seq count } in
    let payload = build_window_payload z c' events base_seq in
    if ltb u32_max count
    then none
    else some (try_hosts net payload base_seq.value count (length c.hosts) 0 c' none)

-- `unwrap_or`
abbrev pub or_default : Option ℕ → ℕ → ℕ
or_default none d = d
or_default (some n) d = n

-- `ClientBuilder::connect`; the dial is that of the attempt.
unfoldable pub open_client : Attempt → ClientBuilder → Result ProtocolError Client
open_client a b =
    let c : Client = record {
      hosts = b.hosts;
      load_balance = b.load_balance;
      timeout = or_default b.timeout default_timeout;
      compression_level = or_default b.compression_level default_compression;
      host_cursor = 0;
      seq = Sequence.new 0;
      connected = false;
    } in
    elim b.hosts [
      | [] ↦ err no_hosts_configured
      | _ ∷ _ ↦ let (r, c', dialled) = reconnect a c in do _ ← r; ok c'
    ]
