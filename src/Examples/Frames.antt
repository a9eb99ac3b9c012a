-- ===== src/Examples/Frames.antt =====
-- Frames of crates/ferro-lumberjack: decoded, malformed, and in chunks.
use mathlib.Core.List.{flatten}
use ferro_protocols.Prelude.{◌≡◌, ◌++◌, refl, [], ◌∷◌, take, drop, arith, Bytes}
use ferro_protocols.Prelude.Result.{ok}
use ferro_protocols.Prelude.Words.{to_be_bytes}
use ferro_protocols.Lumberjack.Frame.{
  need, next_frame, compressed, encode_window, encode_json_frame, encode_compressed, feed,
}
use ferro_protocols.Lumberjack.Frame.View.{IsValid}
use ferro_protocols.Lumberjack.Frame.Parse.{parse}
use ferro_protocols.Lumberjack.Frame.Refine.{realise, next_frame-refines-parse}
use ferro_protocols.Lumberjack.Frame.Bounds.{next_frame-Moved, Moved}
use ferro_protocols.Lumberjack.Frame.RoundTrip.{Yields, next_frame-encode_compressed}
use ferro_protocols.Lumberjack.Frame.Stream.{run_chunks, drain_all, IsProper}
use ferro_protocols.Lumberjack.Frame.Stream.Chunks.{run_chunks-eq-drain_all, drain_all_ends}
use ferro_protocols.Examples.Data.{stored, stored-IsZlib, holding}

abbrev two_frames : Bytes
two_frames = encode_window 2 ++ encode_json_frame 7 (b'h' ∷ b'i' ∷ [])

next_frame-refines-parse_example :
    next_frame stored (holding two_frames)
    ≡ realise (parse stored 64 two_frames) (holding two_frames)
next_frame-refines-parse_example =
    next_frame-refines-parse stored (holding two_frames) (omega arith)

next_frame-Moved_example : Moved (holding two_frames) (next_frame stored (holding two_frames))
next_frame-Moved_example = next_frame-Moved stored (holding two_frames) (omega arith)

run_chunks-eq-drain_all_example :
    ((run_chunks stored (holding []) (take 7 two_frames ∷ drop 7 two_frames ∷ [])).frames
      ≡ (drain_all stored
          (feed (holding []) (flatten (take 7 two_frames ∷ drop 7 two_frames ∷ [])))).frames)
    × ((run_chunks stored (holding []) (take 7 two_frames ∷ drop 7 two_frames ∷ [])).stop
        ≡ (drain_all stored
            (feed (holding []) (flatten (take 7 two_frames ∷ drop 7 two_frames ∷ [])))).stop)
unfolding next_frame need
run_chunks-eq-drain_all_example =
    run_chunks-eq-drain_all stored (holding []) (take 7 two_frames ∷ drop 7 two_frames ∷ [])
      (omega arith) refl

drain_all_ends_example :
    IsProper (drain_all stored (holding two_frames)).stop
    × IsValid (drain_all stored (holding two_frames)).decoder
drain_all_ends_example = drain_all_ends stored (holding two_frames) (omega arith)

-- The bytes of a C frame around two inner bytes.
abbrev c_frame : Bytes
c_frame = b'2' ∷ b'C' ∷ 0 ∷ 0 ∷ 0 ∷ 2 ∷ b'h' ∷ b'i' ∷ []

c_frame_lem : encode_compressed stored 3 (b'h' ∷ b'i' ∷ []) ≡ ok c_frame
unfolding encode_compressed to_be_bytes
c_frame_lem = refl

next_frame-encode_compressed_example :
    Yields stored (holding (c_frame ++ b'x' ∷ [])) (compressed (b'h' ∷ b'i' ∷ [])) (b'x' ∷ [])
next_frame-encode_compressed_example =
    next_frame-encode_compressed stored (holding (c_frame ++ b'x' ∷ [])) 3 (b'h' ∷ b'i' ∷ [])
      c_frame (b'x' ∷ []) stored-IsZlib (omega arith) c_frame_lem (omega arith) (omega arith)
      (omega arith) refl
