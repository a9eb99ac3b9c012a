-- ===== src/Examples/Clients.antt =====
-- The client of crates/ferro-lumberjack: acknowledgements and failing hosts.
use ferro_protocols.Prelude.{
  ℕ, ◌≡◌, ◌≢◌, refl, [], ◌∷◌, some, false, true, arith, if◌then◌else◌, ◌==◌, ◌||◌, ltb, ◌%◌,
}
use ferro_protocols.Prelude.Result.{ok, err}
use ferro_protocols.Prelude.Words.{wrapping_add}
use ferro_protocols.Lumberjack.Frame.{encode_ack}
use ferro_protocols.Lumberjack.Error.{unexpected_ack, partial_ack}
use ferro_protocols.Lumberjack.Client.{Client, Attempt, done, times_out, check_ack, send_json}
use ferro_protocols.Lumberjack.Client.Ack.{check_ack-encode_ack}
use ferro_protocols.Lumberjack.Client.Hosts.{send_json_two_hosts, dialled_by}
use ferro_protocols.Examples.Data.{stored}

-- The ACK of three of five events, around the end of the numbers.
check_ack-encode_ack_example : check_ack (encode_ack (wrapping_add 0xffff_fffe 3)) 0xffff_fffe 5 ≡ (
    if 3 == 5
    then ok 5
    else if 3 == 0 || ltb 5 3
    then err (unexpected_ack b'2' b'A' (wrapping_add 0xffff_fffe 3) (wrapping_add 0xffff_fffe 5))
    else err (partial_ack 3 5))
check_ack-encode_ack_example =
    check_ack-encode_ack 0xffff_fffe 3 5 (omega arith) (omega arith) (omega arith)

-- A network in which no dial comes through.
abbrev down : ℕ → Attempt
down i = record {
  dialling = times_out;
  writing = done;
  flushing = done;
  reading = done;
  ack = λ b. b;
}

times_out_not_done : times_out ≢ done
times_out_not_done e = cc

abbrev client : Client
client = record {
  hosts = (b'a' ∷ []) ∷ (b'b' ∷ []) ∷ [];
  load_balance = true;
  timeout = 30;
  compression_level = 0;
  host_cursor = 1;
  seq = record { value = 0 };
  connected = false;
}

send_json_two_hosts_example :
    dialled_by (send_json stored down ((b'x' ∷ []) ∷ []) client) ≡ some ((1 % 2) ∷ (1 % 2) ∷ [])
send_json_two_hosts_example =
    send_json_two_hosts stored down (b'x' ∷ []) [] client (λ i. times_out_not_done) refl refl refl
      (omega arith) (omega arith)
