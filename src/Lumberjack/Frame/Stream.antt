-- ===== src/Lumberjack/Frame/Stream.antt =====
-- The documented use of the decoder of frame.rs: feed bytes, then take frames until none is left.
-- The loop has fuel: a frame takes six bytes, so one more round than bytes is enough.
mod Scan
pub mod Chunks
use ferro_protocols.Prelude.{
  ℕ, zero, suc, ◌+◌, ◌≤◌, ◌<◌, ◌≡◌, refl, ap, Bytes, List, [], ◌∷◌, ◌++◌, length, drop, arith,
  length-drop,
}
use ferro_protocols.Lumberjack.Zlib.{Zlib}
use ferro_protocols.Lumberjack.Frame.{
  Frame, FrameDecoder, FrameError, Outcome, ok_some, ok_none, error, panic, feed, pending,
  next_frame,
}

-- Why the loop ended.
pub data Stop : Type 0 where
  starved : Stop
  failed : FrameError → Stop
  panicked : Stop
  out_of_fuel : Stop

-- The loop ran to its end: it lacked bytes or met an error.
abbrev pub IsProper : Stop → Type 0
IsProper starved = Unit {0}
IsProper (failed e) = Unit {0}
IsProper _ = ⊥

pub record Run : Type 0 where
  pub frames : List Frame
  pub stop : Stop
  pub decoder : FrameDecoder

-- What the loop does with what a call returns.
abbrev pub after_call : (FrameDecoder → Run) → Outcome Frame × FrameDecoder → Run
after_call k (ok_some f, d) = let rest = k d in record rest { frames = f ∷ rest.frames }
after_call k (ok_none, d) = record { frames = []; stop = starved; decoder = d }
after_call k (error e, d) = record { frames = []; stop = failed e; decoder = d }
after_call k (panic, d) = record { frames = []; stop = panicked; decoder = d }

-- The rounds of `while let Some(frame) = decoder.next_frame()?`.
unfoldable pub drain : Zlib → ℕ → FrameDecoder → Run
drain z zero d = record { frames = []; stop = out_of_fuel; decoder = d }
drain z (suc fuel) d = after_call (drain z fuel) (next_frame z d)

unfoldable pub drain_all : Zlib → FrameDecoder → Run
drain_all z d = drain z (suc (pending d)) d

abbrev pub continue_run : Run → (FrameDecoder → Run) → Run
continue_run r k = elim r.stop [
  | starved ↦ let next = k r.decoder in record next { frames = r.frames ++ next.frames }
  | _ ↦ r
]

-- A connection's reads: each chunk is fed, and the frames that are complete are taken.
unfoldable pub run_chunks : Zlib → FrameDecoder → List Bytes → Run
run_chunks z d [] = record { frames = []; stop = starved; decoder = d }
run_chunks z d (chunk ∷ chunks) =
    continue_run (drain_all z (feed d chunk)) (λ d'. run_chunks z d' chunks)
