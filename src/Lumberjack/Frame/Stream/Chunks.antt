-- ===== src/Lumberjack/Frame/Stream/Chunks.antt =====
-- However the bytes of a connection are cut into reads, the decoder of frame.rs gives the same frames.
use mathlib.Core.List.{flatten}
use mathlib.Core.Path.{subst, subst₂}
use ferro_protocols.Prelude.{
  ℕ, suc, ◌+◌, ◌<◌, ◌≡◌, refl, sym, ap, ◌∙◌, Bytes, List, [], ◌∷◌, ◌++◌, length, arith,
  length-append, append-nil, append_assoc,
}
use ferro_protocols.Lumberjack.Zlib.{Zlib}
use ferro_protocols.Lumberjack.Frame.{Frame, FrameDecoder, ok_none, next_frame, feed}
use ferro_protocols.Lumberjack.Frame.View.{unread, IsValid, pending-eq-length}
use ferro_protocols.Lumberjack.Frame.Parse.{Parse, more, bad, got, parse}
use ferro_protocols.Lumberjack.Frame.Refine.{realise, next_frame-refines-parse}
use ferro_protocols.Lumberjack.Frame.Feed.{unread-feed, feed-IsValid, cap-feed}
use ferro_protocols.Lumberjack.Frame.Stream.{
  IsProper, Run, starved, drain, drain_all, continue_run, run_chunks,
}
use ferro_protocols.Lumberjack.Frame.Stream.Scan.{
  Scanned, scan, scan_ends, scan-append, scan_starved, resume, scan_more, scan_rest_le, Follows,
  drain-Follows,
}

-- All the bytes of a scan, with enough fuel.
abbrev scan_all : Zlib → ℕ → Bytes → Scanned
scan_all z cap u = scan z cap (suc (length u)) u

module _ (z : Zlib) (d : FrameDecoder) (valid : IsValid d) where
  feed_drain-Follows :
      (bytes : Bytes)
      → Follows d.max_frame_payload
          (scan_all z d.max_frame_payload (unread d ++ bytes))
          (drain_all z (feed d bytes))
  feed_drain-Follows bytes =
      subst₂ (λ c u. Follows c (scan_all z c u) (drain_all z (feed d bytes)))
        (cap-feed d bytes valid) (unread-feed d bytes valid)
        (fed (feed d bytes) (feed-IsValid d bytes valid))
    where
      fed :
          (d' : FrameDecoder)
          → IsValid d'
          → Follows d'.max_frame_payload
              (scan_all z d'.max_frame_payload (unread d'))
              (drain_all z d')
      fed d' v =
          unfold drain_all in
          rw (pending-eq-length d') (drain-Follows z (suc (length (unread d'))) d' v)

  starved_realise : (p : Parse Frame) → (realise p d).0 ≡ ok_none → p ≡ more
  starved_realise more h = refl
  starved_realise (bad e) h = cc
  starved_realise (got f n) h = cc

  -- From a valid decoder the loop that takes frames until none is left runs to its end with the fuel
  -- that it is given: it neither panics nor uses the fuel up, and leaves a valid decoder.
  pub drain_all_ends : IsProper (drain_all z d).stop × IsValid (drain_all z d).decoder
  unfolding drain_all
  drain_all_ends =
      let n : ℕ = suc (length (unread d)) in
      let f : Follows d.max_frame_payload (scan z d.max_frame_payload n (unread d)) (drain z n d) =
        drain-Follows z n d valid in
      rw (pending-eq-length d)
        (rw f.stop (scan_ends z d.max_frame_payload n (unread d) (omega arith)), f.valid)

  -- A call that returns no frame shows that the unread bytes hold none.
  starved_parse : (next_frame z d).0 ≡ ok_none → parse z d.max_frame_payload (unread d) ≡ more
  starved_parse h =
      starved_realise (parse z d.max_frame_payload (unread d))
        (rw (next_frame-refines-parse z d valid) at h)

-- The same frames, and the same reason to stop.
abbrev Agrees : Run → Scanned → Type 0
Agrees r s = (r.frames ≡ s.frames) × (r.stop ≡ s.stop)

module _ (z : Zlib) (cap : ℕ) where
  continue-Agrees :
      (r : Run) (s : Scanned) (g : ℕ) (w : Bytes) (k : FrameDecoder → Run)
      → Follows cap s r
      → (s.stop ≡ starved → Agrees (k r.decoder) (scan z cap g (s.rest ++ w)))
      → Agrees (continue_run r k) (resume z cap g w s)
  continue-Agrees r s g w k f h = ground (arith, f.frames, f.stop, h)

  run_chunks-Agrees :
      (chunks : List Bytes) (d : FrameDecoder) (g : ℕ)
      → IsValid d
      → d.max_frame_payload ≡ cap
      → parse z cap (unread d) ≡ more
      → length (unread d ++ flatten chunks) < g
      → Agrees (run_chunks z d chunks) (scan z cap g (unread d ++ flatten chunks))
  unfolding run_chunks flatten
  run_chunks-Agrees [] d g valid e m h =
      rw append-nil (rw (scan_more z cap g (unread d) (omega arith) m) (refl, refl))
  run_chunks-Agrees (c ∷ cs) d g valid e m h =
      let u : Bytes = unread d ++ c in
      let w : Bytes = flatten cs in
      let s : Scanned = scan_all z cap u in
      let r : Run = drain_all z (feed d c) in
      let followed : Follows cap s r =
        subst (λ k. Follows k (scan_all z k u) r) e (feed_drain-Follows z d valid c) in
      let joined : unread d ++ (c ++ w) ≡ u ++ w = sym (append_assoc (unread d) c w) in
      let size : length u + length w < g = omega (arith, length-append u w, ap length joined) in
      rw (joined, scan-append z cap (suc (length u)) g g u w (omega arith) size size)
        (continue-Agrees r s g w (λ d'. run_chunks z d' cs) followed
          λ stop. rw (← followed.rest) (
            run_chunks-Agrees cs r.decoder g followed.valid followed.capped
              (rw followed.rest (scan_starved z cap (suc (length u)) u stop))
              (omega (
                arith,
                length-append (unread r.decoder) w,
                length-append u w,
                ap length followed.rest,
                ap length joined,
                scan_rest_le z cap (suc (length u)) u,
              ))))

-- If a valid decoder holds no complete frame, then feeding it any chunks one after another, with all
-- frames taken after each chunk, gives the frames and the reason to stop that feeding their
-- concatenation at once gives.
pub run_chunks-eq-drain_all :
    (z : Zlib) (d : FrameDecoder) (chunks : List Bytes)
    → IsValid d
    → (next_frame z d).0 ≡ ok_none
    → ((run_chunks z d chunks).frames ≡ (drain_all z (feed d (flatten chunks))).frames)
      × ((run_chunks z d chunks).stop ≡ (drain_all z (feed d (flatten chunks))).stop)
run_chunks-eq-drain_all z d chunks valid none_left =
    let cap : ℕ = d.max_frame_payload in
    let u : Bytes = unread d ++ flatten chunks in
    let whole : Follows cap (scan_all z cap u) (drain_all z (feed d (flatten chunks))) =
      feed_drain-Follows z d valid (flatten chunks) in
    let parts : Agrees (run_chunks z d chunks) (scan_all z cap u) =
      run_chunks-Agrees z cap chunks d (suc (length u)) valid refl
        (starved_parse z d valid none_left) (omega arith) in
    (parts.0 ∙ sym whole.frames, parts.1 ∙ sym whole.stop)
