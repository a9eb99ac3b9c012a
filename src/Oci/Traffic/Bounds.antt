-- ===== src/Oci/Traffic/Bounds.antt =====
-- However the calls of requests take turns, the sessions stay within their bounds.
use ferro_protocols.Prelude.{ℕ, zero, suc, ◌<◌, List, [], ◌∷◌, ◌++◌}
use ferro_protocols.Prelude.Words.{u64_max}
use ferro_protocols.Blob.Digest.{Hasher}
use ferro_protocols.Blob.Interface.{BlobStore}
use ferro_protocols.Oci.Registry.{SessionLimits}
use ferro_protocols.Oci.Server.{AppState, Handler, done, atomic}
use ferro_protocols.Oci.Traffic.{Event, arrive, pass, resume, advance, happen, happen_all}
use ferro_protocols.Oci.Traffic.Safe.{IsWithin, IsSafe, handler_of-IsSafe}

module _ {S : Type 0} (B : BlobStore S) (h : Hasher) (limits : SessionLimits) (cap : ℕ) where
  module _ (bounded : cap < u64_max) where
    -- The handlers in progress are safe, and the state is within the bounds.
    abbrev pub AreSafe : List (Handler S) → Type 0
    AreSafe [] = Unit
    AreSafe (x ∷ hs) = IsSafe B h limits cap x × AreSafe hs

    abbrev pub IsFine : List (Handler S) × AppState S → Type 0
    IsFine (hs, σ) = AreSafe hs × IsWithin B h limits cap σ

    AreSafe-append :
        (hs : List (Handler S)) (x : Handler S)
        → AreSafe hs
        → IsSafe B h limits cap x
        → AreSafe (hs ++ x ∷ [])
    AreSafe-append [] x s t = (t, tt)
    AreSafe-append (y ∷ hs) x (a, s) t = (a, AreSafe-append hs x s t)

    advance-IsFine :
        (i : ℕ) (hs : List (Handler S)) (σ : AppState S)
        → IsFine (hs, σ)
        → IsFine (advance B h limits cap i hs σ)
    unfolding advance
    advance-IsFine i [] σ fine = fine
    advance-IsFine zero (done r ∷ hs) σ fine = fine
    advance-IsFine zero (atomic change next ∷ hs) σ ((a, s), w) =
        let step = a σ w in ((step.1, s), step.0)
    advance-IsFine (suc i) (x ∷ hs) σ ((a, s), w) =
        let rest = advance-IsFine i hs σ (s, w) in ((a, rest.0), rest.1)

    happen-IsFine :
        (e : Event) (w : List (Handler S) × AppState S)
        → IsFine w
        → IsFine (happen B h limits cap e w)
    unfolding happen
    happen-IsFine (arrive r) (hs, σ) (s, w) =
        (AreSafe-append hs _ s (handler_of-IsSafe B h limits cap bounded r), w)
    happen-IsFine (pass t) (hs, σ) fine = fine
    happen-IsFine (resume i) (hs, σ) fine = advance-IsFine i hs σ fine

    all-IsFine :
        (es : List Event) (w : List (Handler S) × AppState S)
        → IsFine w
        → IsFine (happen_all B h limits cap es w)
    unfolding happen_all
    all-IsFine [] w fine = fine
    all-IsFine (e ∷ es) w fine = all-IsFine es (happen B h limits cap e w) (happen-IsFine e w fine)

  -- Where the cap on the bytes of a session is below the largest 64-bit number: from a state within
  -- the bounds without a request in progress, whatever requests on uploads arrive and however
  -- their calls take turns and time passes, there are at most `max_sessions` upload sessions, and
  -- each holds at most as many bytes as the cap.
  pub happen_all-IsWithin :
      (bounded : cap < u64_max) (es : List Event) (σ : AppState S)
      → IsWithin B h limits cap σ
      → IsWithin B h limits cap (happen_all B h limits cap es ([], σ)).1
  happen_all-IsWithin bounded es σ w = (all-IsFine bounded es ([], σ) (tt, w)).1
