-- ===== src/Lumberjack/Client/Hosts.antt =====
-- Which hosts a failing call of `send_json` in client.rs dials.
use ferro_protocols.Prelude.{
  ℕ, zero, suc, ◌+◌, ◌*◌, ◌%◌, ◌^◌, ◌≤◌, ◌<◌, ◌≡◌, ◌≢◌, refl, Bytes, List, [], ◌∷◌, length, Option,
  none, some, Bool, true, false, arith, ap, ◌∙◌, le→ltb,
}
use ferro_protocols.Prelude.Result.{err}
use ferro_protocols.Lumberjack.Error.{ProtocolError, io, timeout, connect}
use ferro_protocols.Prelude.Words.{u32_max}
use ferro_protocols.Lumberjack.Zlib.{Zlib}
use ferro_protocols.Lumberjack.Sequence
use ferro_protocols.Lumberjack.Client.{
  send_json, build_window_payload, Client, Attempt, Io, done, fails, within, pick_host, reconnect,
  send_payload_once, give_up, try_hosts, Sent,
}

-- How far the cursor moves in an attempt that fails to connect: once in `send_json`, and once more in
-- `pick_host` under load balancing.
abbrev pub stride : Bool → ℕ
stride true = 2
stride false = 1

-- The hosts at a cursor and at every stride behind it.
abbrev pub visited : ℕ → ℕ → ℕ → ℕ → List ℕ
visited n step zero cursor = []
visited n step (suc rounds) cursor = (cursor % n) ∷ visited n step rounds (cursor + step)

-- The error of a dial that does not come through.
abbrev pub dial_error : Io → ProtocolError
dial_error (fails e) = io e
dial_error _ = timeout connect

pub record Moved (c c' : Client) : Type 0 where
  pub cursor : c'.host_cursor ≡ c.host_cursor + stride c.load_balance
  pub hosts : c'.hosts ≡ c.hosts
  pub load_balance : c'.load_balance ≡ c.load_balance

moved : (c : Client) → c.host_cursor + 2 < 2 ^ 64 → Moved c (give_up (pick_host c).1)
unfolding pick_host
moved c fits = ground arith

stride_le : (b : Bool) → stride b ≤ 2
stride_le true = omega arith
stride_le false = omega arith

visited-Moved :
    (rounds : ℕ) (c c' : Client)
    → Moved c c'
    → visited (length c'.hosts) (stride c'.load_balance) rounds c'.host_cursor
      ≡ visited
          (length c.hosts)
          (stride c.load_balance)
          rounds
          (c.host_cursor + stride c.load_balance)
visited-Moved rounds c c' m = cc

-- The hosts that a call dialled; `none` for the panic.
abbrev pub dialled_by : Option (Sent ℕ) → Option (List ℕ)
dialled_by none = none
dialled_by (some (r, c, dialled)) = some dialled

module _ (net : ℕ → Attempt) (down : (i : ℕ) → (net i).dialling ≢ done) (payload : Bytes)
    (base count : ℕ) where
  failed_attempt :
      (i : ℕ) (c : Client)
      → c.connected ≡ false
      → send_payload_once (net i) payload base count c ≡ (
        err (dial_error (net i).dialling),
        (pick_host c).1,
        (c.host_cursor % length c.hosts) ∷ [],
      )
  unfolding send_payload_once reconnect within pick_host
  failed_attempt i c h = ground (arith, down i)

  failed_rounds :
      (rounds i : ℕ) (c : Client) (last : Option ProtocolError)
      → c.connected ≡ false
      → c.host_cursor + 2 * rounds < 2 ^ 64
      → (try_hosts net payload base count rounds i c last).2
        ≡ visited (length c.hosts) (stride c.load_balance) rounds c.host_cursor
  unfolding try_hosts
  failed_rounds zero i c last h fits = refl
  failed_rounds (suc rounds) i c last h fits =
      let c' : Client = give_up (pick_host c).1 in
      let m : Moved c c' = moved c (omega arith) in
      rw (failed_attempt i c h) (
        ap (λ t. (c.host_cursor % length c.hosts) ∷ t)
          (failed_rounds rounds (i + 1) c' (some (dial_error (net i).dialling)) refl (
              let step : stride c.load_balance ≤ 2 = stride_le c.load_balance in
              omega (arith, m.cursor))
            ∙ visited-Moved rounds c c' m))

-- If no dial comes through, a call of `send_json` on a client that is not connected makes one attempt
-- for each host; the attempts dial the host at the cursor and the hosts at every second place behind
-- it under load balancing, at every place behind it otherwise, modulo the number of hosts. The
-- cursor does not overflow.
pub send_json_dials :
    (z : Zlib) (net : ℕ → Attempt) (e : Bytes) (es : List Bytes) (c : Client)
    → ((i : ℕ) → (net i).dialling ≢ done)
    → c.connected ≡ false
    → length (e ∷ es) ≤ u32_max
    → c.host_cursor + 2 * length c.hosts < 2 ^ 64
    → dialled_by (send_json z net (e ∷ es) c)
      ≡ some (visited (length c.hosts) (stride c.load_balance) (length c.hosts) c.host_cursor)
unfolding send_json
send_json_dials z net e es c down h small fits =
    let c' : Client = record c { seq = Sequence.advance c.seq (length (e ∷ es)) } in
    let payload : Bytes = build_window_payload z c' (e ∷ es) c.seq in
    rw (le→ltb u32_max (length (e ∷ es)) small) (
      ap some (
        failed_rounds net down payload c.seq.value (length (e ∷ es)) (length c.hosts) 0 c' none h
          fits))

-- Under load balancing with two hosts, if no dial comes through, both attempts of a call on a client
-- that is not connected dial the same host, and the other host is not tried.
pub send_json_two_hosts :
    (z : Zlib) (net : ℕ → Attempt) (e : Bytes) (es : List Bytes) (c : Client)
    → ((i : ℕ) → (net i).dialling ≢ done)
    → c.connected ≡ false
    → c.load_balance ≡ true
    → length c.hosts ≡ 2
    → length (e ∷ es) ≤ u32_max
    → c.host_cursor + 4 < 2 ^ 64
    → dialled_by (send_json z net (e ∷ es) c)
      ≡ some ((c.host_cursor % 2) ∷ (c.host_cursor % 2) ∷ [])
send_json_two_hosts z net e es c down h lb two small fits =
    send_json_dials z net e es c down h small (omega arith) ∙ rw (lb, two) (ground arith)
