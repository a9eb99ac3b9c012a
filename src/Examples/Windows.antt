-- ===== src/Examples/Windows.antt =====
-- Windows of crates/ferro-lumberjack: read by a server, from whole and broken streams.
use ferro_protocols.Prelude.{◌++◌, refl, List, [], ◌∷◌, false, true, arith, Bytes}
use ferro_protocols.Prelude.Words.{to_be_bytes}
use ferro_protocols.Lumberjack.Sequence
use ferro_protocols.Lumberjack.Sequence.{Sequence}
use ferro_protocols.Lumberjack.Frame.{encode_window, encode_json_frame, encode_ack}
use ferro_protocols.Lumberjack.Client.{
  Client, Attempt, done, send_json, build_window_payload, inner_frames,
}
use ferro_protocols.Lumberjack.Server.State.{Limits}
use ferro_protocols.Lumberjack.Server.{Read, received, wrote, read_window, read_and_ack}
use ferro_protocols.Lumberjack.Acked.{sent, IsUp, send_json-read_and_ack}
use ferro_protocols.Prelude.{ℕ, ◌≡◌, some}
use ferro_protocols.Prelude.Result.{ok}
use ferro_protocols.Prelude.Words.{wrapping_add}
use ferro_protocols.Lumberjack.Server.Caps.{ReplyOk, read_window-IsWithin}
use ferro_protocols.Lumberjack.Server.Ends.{Ends, read_window-Ends}
use ferro_protocols.Lumberjack.Delivery.{IsDeliverable, Reads, read_window-build_window_payload}
use ferro_protocols.Lumberjack.Delivery.Loops.{batch_window}
use ferro_protocols.Examples.Data.{stored, stored-IsZlib, holding}

abbrev limits : Limits
limits = record { max_frame_payload = 64; max_window_events = 2; max_window_bytes = 8 }

abbrev events : List Bytes
events = (b'h' ∷ b'i' ∷ []) ∷ (b'x' ∷ []) ∷ []

abbrev base : Sequence
base = record { value = 6 }

-- A client that compresses at level 3.
abbrev client : Client
client = record {
  hosts = (b'a' ∷ []) ∷ [];
  load_balance = false;
  timeout = 30;
  compression_level = 3;
  host_cursor = 0;
  seq = base;
  connected = true;
}

events-IsDeliverable : IsDeliverable limits base events
unfolding inner_frames encode_json_frame to_be_bytes Sequence.advance
events-IsDeliverable = record {
  counted = omega arith;
  few = omega arith;
  bytes = omega arith;
  finite = omega arith;
  payloads = ((omega arith, omega arith), ((omega arith, omega arith), tt));
  inflated = omega arith;
  capped = omega arith;
}

read_window-build_window_payload_example : Reads (batch_window 6 events) (b'2' ∷ []) (
    read_window stored limits []
      (holding (build_window_payload stored client events base ++ b'2' ∷ [])))
read_window-build_window_payload_example =
    read_window-build_window_payload stored limits client base (b'h' ∷ b'i' ∷ []) ((b'x' ∷ []) ∷ [])
      (b'2' ∷ []) [] (holding (build_window_payload stored client events base ++ b'2' ∷ []))
      stored-IsZlib events-IsDeliverable (omega arith) refl refl

-- A network with that server at its other end.
abbrev served : ℕ → Attempt
served i = record {
  dialling = done;
  writing = done;
  flushing = done;
  reading = done;
  ack = λ b. sent (read_and_ack stored limits [] wrote wrote (holding (b ++ [])));
}

served-IsUp : IsUp client (served 0)
served-IsUp = record {
  hosts = omega arith;
  connected = refl;
  written = refl;
  flushed = refl;
  read = refl;
}

send_json-read_and_ack_example :
    ((read_and_ack stored limits [] wrote wrote
        (holding (build_window_payload stored client events base ++ []))).0
      ≡ ok (some (batch_window 6 events, encode_ack (wrapping_add 6 2))))
    × (send_json stored served events client
        ≡ some (ok 2, record client { seq = Sequence.advance base 2 }, []))
send_json-read_and_ack_example =
    send_json-read_and_ack stored limits client served (b'h' ∷ b'i' ∷ []) ((b'x' ∷ []) ∷ []) [] []
      (holding (build_window_payload stored client events base ++ [])) stored-IsZlib
      events-IsDeliverable (omega arith) (omega arith) refl refl served-IsUp refl

-- A window of one event, cut in the middle, and the end of the stream.
abbrev cut : List Read
cut = received (encode_window 1 ++ b'2' ∷ b'J' ∷ []) ∷ received [] ∷ []

read_window-IsWithin_example :
    ReplyOk limits
      (read_window stored limits
        (received (encode_window 1 ++ encode_json_frame 7 (b'x' ∷ [])) ∷ [])
        (holding [])).0
read_window-IsWithin_example =
    read_window-IsWithin stored limits
      (received (encode_window 1 ++ encode_json_frame 7 (b'x' ∷ [])) ∷ []) (holding [])
      (omega arith)

read_window-Ends_example : Ends (read_window stored limits cut (holding []))
read_window-Ends_example = read_window-Ends stored limits cut (holding []) (omega arith)
