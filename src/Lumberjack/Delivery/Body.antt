-- ===== src/Lumberjack/Delivery/Body.antt =====
-- The data frames of a batch, compressed or not, read by server.rs.
use mathlib.Core.Path.{subst}
use ferro_protocols.Prelude.{
  ℕ, zero, suc, ◌+◌, ◌≤◌, ◌<◌, ◌≡◌, ◌⊎◌, inl, inr, refl, sym, ap, ◌∙◌, Bytes, List, [], ◌∷◌, ◌++◌,
  length, arith, append-nil, length-append, All,
}
use ferro_protocols.Prelude.Result.{ok}
use ferro_protocols.Prelude.Words.{u64_max}
use ferro_protocols.Lumberjack.Sequence
use ferro_protocols.Lumberjack.Sequence.{Sequence}
use ferro_protocols.Lumberjack.Zlib.{Zlib, IsZlib}
use ferro_protocols.Lumberjack.Frame.{
  FrameDecoder, encode_json_frame, u32_or_max, compressed, encode_compressed, feed,
  with_max_frame_payload, pending,
}
use ferro_protocols.Lumberjack.Frame.View.{unread, IsValid, pending-eq-length}
use ferro_protocols.Lumberjack.Frame.Feed.{unread-feed, feed-IsValid, cap-feed}
use ferro_protocols.Lumberjack.Frame.RoundTrip.{
  next_frame-encode_compressed, length-encode_json_frame,
}
use ferro_protocols.Lumberjack.Server.State.{Limits, Progress}
use ferro_protocols.Lumberjack.Server.{complete, finish, on_frame, outer_loop}
use ferro_protocols.Lumberjack.Client.{inner_frames, window_body}
use ferro_protocols.Lumberjack.Delivery.Record.{recorded, IsReady}
use ferro_protocols.Lumberjack.Delivery.Loops.{
  Carries, Returns, window_of, inner_records, outer_records, outer_call,
}

pub length-inner_frames :
    (base : Sequence) (i : ℕ) (es : List Bytes) → length es ≤ length (inner_frames base i es)
unfolding inner_frames
length-inner_frames base i [] = omega arith
length-inner_frames base i (e ∷ es) =
    let seq : ℕ = (Sequence.advance base (u32_or_max i + 1)).value in
    omega (
      arith,
      length-inner_frames base (i + 1) es,
      length-append (encode_json_frame seq e) (inner_frames base (i + 1) es),
      length-encode_json_frame seq e,
    )

-- The body is the frames themselves, or a C frame of them that is shorter.
window_body_cases :
    (z : Zlib) (level : ℕ) (inner : Bytes)
    → (window_body z level inner ≡ inner)
      ⊎ ((encode_compressed z level inner ≡ ok (window_body z level inner))
          × (length (window_body z level inner) < length inner))
unfolding window_body
window_body_cases z level inner = ground arith

module _ (z : Zlib) (lim : Limits) (base : Sequence) (e : Bytes) (es : List Bytes)
    (laws : IsZlib z) where
  abbrev pub frames : Bytes
  frames = inner_frames base 0 (e ∷ es)

  inner_delivered :
      (p : Progress)
      → IsReady lim 0 (e ∷ es) p
      → All (Carries lim.max_frame_payload) (e ∷ es)
      → on_frame z lim (compressed frames) p
        ≡ ok (complete (window_of z lim base (recorded base.value 0 (e ∷ es) p)))
  unfolding on_frame finish
  inner_delivered p r c =
      let fresh : FrameDecoder = with_max_frame_payload lim.max_frame_payload in
      let inner : FrameDecoder = feed fresh frames in
      let sees : unread inner ≡ frames ++ [] =
        unread-feed fresh frames (omega arith) ∙ sym (append-nil frames) in
      rw
        (inner_records z lim base (suc (pending inner)) 0 e es inner p r
          (subst (λ k. All (Carries k) (e ∷ es)) (sym (cap-feed fresh frames (omega arith))) c)
          (feed-IsValid fresh frames (omega arith)) sees
          (omega (
            arith,
            pending-eq-length inner,
            ap length sees,
            length-append frames [],
            length-inner_frames base 0 (e ∷ es),
          )))
        refl

  pub body_delivered :
      (fuel level : ℕ) (rest : Bytes) (d : FrameDecoder) (p : Progress)
      → IsReady lim 0 (e ∷ es) p
      → All (Carries lim.max_frame_payload) (e ∷ es)
      → IsValid d
      → d.max_frame_payload ≡ lim.max_frame_payload
      → length frames ≤ lim.max_frame_payload
      → lim.max_frame_payload < u64_max
      → unread d ≡ window_body z level frames ++ rest
      → length (window_body z level frames) < fuel
      → Returns z lim base
          (window_of z lim base (recorded base.value 0 (e ∷ es) p))
          rest
          (outer_loop z lim fuel d p)
  body_delivered zero level rest d p r c valid capped hi hc u h = elim h [ ]
  body_delivered (suc fuel) level rest d p r c valid capped hi hc u h =
      elim (window_body_cases z level frames) [
        | inl plain ↦
            outer_records z lim base (suc fuel) 0 e es rest d p r
              (subst (λ k. All (Carries k) (e ∷ es)) (sym capped) c) valid
              (u ∙ ap (λ b. b ++ rest) plain)
              (omega (arith, ap length plain, length-inner_frames base 0 (e ∷ es)))
        | inr (packed, shorter) ↦
            let (frame, left, valid', same) =
              next_frame-encode_compressed z d level frames (window_body z level frames) rest laws
                valid packed (omega arith) (omega arith) (omega arith) u in
            rw (outer_call z lim base fuel d p (compressed frames) frame, inner_delivered p r c)
              (refl, left)
      ]
