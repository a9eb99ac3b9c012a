-- ===== src/Lumberjack/Frame/Stream/Scan.antt =====
-- The loop over the unread bytes alone, and that the loop over the decoder of frame.rs follows it.
use ferro_protocols.Prelude.{
  ℕ, zero, suc, ◌+◌, ◌≤◌, ◌<◌, ◌≡◌, refl, sym, ap, Bytes, List, [], ◌∷◌, ◌++◌, length, drop, arith,
  length-drop, length-append, drop-append,
}
use ferro_protocols.Lumberjack.Zlib.{Zlib}
use ferro_protocols.Lumberjack.Frame.{Frame, FrameDecoder}
use ferro_protocols.Lumberjack.Frame.View.{
  unread, IsValid, consumed, unread-consumed, consumed-IsValid,
}
use ferro_protocols.Lumberjack.Frame.Parse.{Parse, more, bad, got, parse}
use ferro_protocols.Lumberjack.Frame.Refine.{realise, next_frame-refines-parse}
use ferro_protocols.Lumberjack.Frame.Stable.{Extends, parse-append}
use ferro_protocols.Lumberjack.Frame.Bounds.{Fits, parse-Fits}
use ferro_protocols.Lumberjack.Frame.Stream.{
  Stop, IsProper, Run, starved, failed, out_of_fuel, after_call, drain,
}

pub record Scanned : Type 0 where
  pub frames : List Frame
  pub stop : Stop
  pub rest : Bytes

module _ (z : Zlib) (cap : ℕ) where
  -- One round, with the later rounds as a function of the bytes that are left.
  abbrev pub round : Parse Frame → Bytes → (Bytes → Scanned) → Scanned
  round more u k = record { frames = []; stop = starved; rest = u }
  round (bad e) u k = record { frames = []; stop = failed e; rest = u }
  round (got f n) u k = let s = k (drop n u) in record s { frames = f ∷ s.frames }

  pub scan : ℕ → Bytes → Scanned
  scan zero u = record { frames = []; stop = out_of_fuel; rest = u }
  scan (suc fuel) u = round (parse z cap u) u (λ r. scan fuel r)

  -- Rounds that go on alike on shorter bytes are alike.
  round_eq :
      (p : Parse Frame) (u : Bytes) (k l : Bytes → Scanned)
      → Fits cap u p
      → ((r : Bytes) → length r < length u → k r ≡ l r)
      → round p u k ≡ round p u l
  round_eq more u k l fits h = refl
  round_eq (bad e) u k l fits h = refl
  round_eq (got x n) u k l fits h = rw (h (drop n u) (omega (arith, length-drop n u)))

  -- Any two amounts of fuel above the number of bytes give the same.
  pub scan_fuel : (f g : ℕ) (u : Bytes) → length u < f → length u < g → scan f u ≡ scan g u
  unfolding scan
  scan_fuel zero g u hf hg = elim hf [ ]
  scan_fuel (suc f) zero u hf hg = elim hg [ ]
  scan_fuel (suc f) (suc g) u hf hg =
      round_eq (parse z cap u) u (scan f) (scan g) (parse-Fits z cap u)
        λ r shorter. scan_fuel f g r (omega arith) (omega arith)

  round_ends :
      (p : Parse Frame) (u : Bytes) (k : Bytes → Scanned)
      → Fits cap u p
      → ((r : Bytes) → length r < length u → IsProper (k r).stop)
      → IsProper (round p u k).stop
  round_ends more u k fits h = tt
  round_ends (bad x) u k fits h = tt
  round_ends (got x n) u k fits h = h (drop n u) (omega (arith, length-drop n u))

  -- The fuel suffices.
  pub scan_ends : (f : ℕ) (u : Bytes) → length u < f → IsProper (scan f u).stop
  unfolding scan
  scan_ends zero u h = elim h [ ]
  scan_ends (suc f) u h =
      round_ends (parse z cap u) u (scan f) (parse-Fits z cap u)
        λ r shorter. scan_ends f r (omega arith)

  -- Go on with more bytes, where the scan only lacked bytes.
  abbrev pub resume : ℕ → Bytes → Scanned → Scanned
  resume g w s = elim s.stop [
    | starved ↦
        let t = scan g (s.rest ++ w) in
        record { frames = s.frames ++ t.frames; stop = t.stop; rest = t.rest }
    | other ↦ record { frames = s.frames; stop = other; rest = s.rest ++ w }
  ]

  abbrev push : Frame → Scanned → Scanned
  push x s = record s { frames = x ∷ s.frames }

  resume-push :
      (g : ℕ) (w : Bytes) (x : Frame) (s : Scanned) → resume g w (push x s) ≡ push x (resume g w s)
  resume-push g w x s = ground arith

  round-append :
      (h : ℕ) (p q : Parse Frame) (u w : Bytes) (k l : Bytes → Scanned)
      → Extends p q
      → Fits cap u p
      → round q (u ++ w) l ≡ scan h (u ++ w)
      → ((r : Bytes) → length r < length u → l (r ++ w) ≡ resume h w (k r))
      → round q (u ++ w) l ≡ resume h w (round p u k)
  round-append h more q u w k l e fits full rec = full
  round-append h (bad x) q u w k l e fits full rec = rw e
  round-append h (got x n) q u w k l e fits full rec =
      rw (e, drop-append n u w fits.1)
        (rw (rec (drop n u) (omega (arith, length-drop n u)))
          (sym (resume-push h w x (k (drop n u)))))

  scan_step :
      (f g h : ℕ) (u w : Bytes)
      → scan (suc g) (u ++ w) ≡ scan h (u ++ w)
      → ((r : Bytes) → length r < length u → scan g (r ++ w) ≡ resume h w (scan f r))
      → scan (suc g) (u ++ w) ≡ resume h w (scan (suc f) u)
  scan_step f g h u w same rec =
      unfold scan in
      round-append h (parse z cap u) (parse z cap (u ++ w)) u w (scan f) (scan g)
        (parse-append z cap u w) (parse-Fits z cap u) same rec

  -- A scan of u ++ w is a scan of u that goes on with w.
  pub scan-append :
      (f g h : ℕ) (u w : Bytes)
      → length u < f
      → length u + length w < g
      → length u + length w < h
      → scan g (u ++ w) ≡ resume h w (scan f u)
  scan-append zero g h u w hf hg hh = elim hf [ ]
  scan-append (suc f) zero h u w hf hg hh = absurd (omega arith)
  scan-append (suc f) (suc g) h u w hf hg hh =
      let total : length (u ++ w) ≡ length u + length w = length-append u w in
      let same : scan (suc g) (u ++ w) ≡ scan h (u ++ w) =
        scan_fuel (suc g) h (u ++ w) (omega arith) (omega arith) in
      scan_step f g h u w same
        λ r shorter. scan-append f g h r w (omega arith) (omega arith) (omega arith)

  round_starved :
      (p : Parse Frame) (u : Bytes) (k : Bytes → Scanned)
      → p ≡ parse z cap u
      → ((r : Bytes) → (k r).stop ≡ starved → parse z cap (k r).rest ≡ more)
      → (round p u k).stop ≡ starved
      → parse z cap (round p u k).rest ≡ more
  round_starved more u k e h s = sym e
  round_starved (bad x) u k e h s = cc
  round_starved (got x n) u k e h s = h (drop n u) s

  -- Where a scan lacked bytes, no frame is left in the rest.
  pub scan_starved :
      (f : ℕ) (u : Bytes) → (scan f u).stop ≡ starved → parse z cap (scan f u).rest ≡ more
  unfolding scan
  scan_starved zero u s = cc
  scan_starved (suc f) u s = round_starved (parse z cap u) u (scan f) refl (λ r. scan_starved f r) s

  round_rest_le :
      (p : Parse Frame) (u : Bytes) (k : Bytes → Scanned)
      → ((r : Bytes) → length (k r).rest ≤ length r)
      → length (round p u k).rest ≤ length u
  round_rest_le more u k h = omega arith
  round_rest_le (bad x) u k h = omega arith
  round_rest_le (got x n) u k h = omega (arith, h (drop n u), length-drop n u)

  pub scan_rest_le : (f : ℕ) (u : Bytes) → length (scan f u).rest ≤ length u
  unfolding scan
  scan_rest_le zero u = omega arith
  scan_rest_le (suc f) u = round_rest_le (parse z cap u) u (scan f) (scan_rest_le f)

  pub scan_more :
      (f : ℕ) (u : Bytes)
      → 0 < f
      → parse z cap u ≡ more
      → scan f u ≡ record { frames = []; stop = starved; rest = u }
  unfolding scan
  scan_more zero u h e = elim h [ ]
  scan_more (suc f) u h e = rw e

-- A run of the decoder does what a scan of bytes does.
pub record Follows (cap : ℕ) (s : Scanned) (r : Run) : Type 0 where
  pub frames : r.frames ≡ s.frames
  pub stop : r.stop ≡ s.stop
  pub rest : unread r.decoder ≡ s.rest
  pub valid : IsValid r.decoder
  pub capped : r.decoder.max_frame_payload ≡ cap

module _ (z : Zlib) where
  after_call-Follows :
      (fuel : ℕ) (d : FrameDecoder) (p : Parse Frame)
      → IsValid d
      → Fits d.max_frame_payload (unread d) p
      → ((d' : FrameDecoder)
          → IsValid d'
          → Follows d'.max_frame_payload
              (scan z d'.max_frame_payload fuel (unread d'))
              (drain z fuel d'))
      → Follows d.max_frame_payload
          (round z d.max_frame_payload p (unread d) (scan z d.max_frame_payload fuel))
          (after_call (drain z fuel) (realise p d))
  after_call-Follows fuel d more valid fits h = record {
    frames = refl;
    stop = refl;
    rest = refl;
    valid = valid;
    capped = refl;
  }
  after_call-Follows fuel d (bad e) valid fits h = record {
    frames = refl;
    stop = refl;
    rest = refl;
    valid = valid;
    capped = refl;
  }
  after_call-Follows fuel d (got x n) valid fits h =
      let cap : ℕ = d.max_frame_payload in
      let next : Follows cap (scan z cap fuel (drop n (unread d))) (drain z fuel (consumed n d)) =
        rw unread-consumed at (h (consumed n d) (consumed-IsValid d n valid fits.1)) in
      record {
        frames = ap (λ t. x ∷ t) next.frames;
        stop = next.stop;
        rest = next.rest;
        valid = next.valid;
        capped = next.capped;
      }

  pub drain-Follows :
      (fuel : ℕ) (d : FrameDecoder)
      → IsValid d
      → Follows d.max_frame_payload (scan z d.max_frame_payload fuel (unread d)) (drain z fuel d)
  unfolding drain scan
  drain-Follows zero d valid = record {
    frames = refl;
    stop = refl;
    rest = refl;
    valid = valid;
    capped = refl;
  }
  drain-Follows (suc fuel) d valid =
      let cap : ℕ = d.max_frame_payload in
      rw (next_frame-refines-parse z d valid) (
        after_call-Follows fuel d (parse z cap (unread d)) valid (parse-Fits z cap (unread d))
          (drain-Follows fuel))
