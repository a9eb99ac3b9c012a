-- ===== src/Oci/Traffic.antt =====
-- Requests on uploads that run at the same time: their handlers take turns, call by call.
pub mod Safe
pub mod Bounds
use ferro_protocols.Prelude.{ℕ, zero, suc, ◌+◌, Bytes, List, [], ◌∷◌, ◌++◌, Option}
use ferro_protocols.Prelude.Texts.{Text}
use ferro_protocols.Blob.Digest.{Hasher}
use ferro_protocols.Blob.Interface.{BlobStore}
use ferro_protocols.Oci.Registry.{SessionLimits}
use ferro_protocols.Oci.Server.{AppState, Handler, done, atomic}
use ferro_protocols.Oci.Chunk.{RangeHeader}
use ferro_protocols.Oci.Push.{
  init_upload, patch_upload, finish_upload, get_upload_status, cancel_upload,
}

-- The arguments of the five handlers of blob_upload.rs.
pub data Request : Type 0 where
  init : Text → Option Text → Text → Bytes → Request
  patch : Text → Text → RangeHeader → Bytes → Request
  finish : Text → Text → Option Text → Bytes → Request
  query : Text → Text → Request
  cancel : Text → Text → Request

-- A request arrives, time passes, or a handler in progress makes its next call.
pub data Event : Type 0 where
  arrive : Request → Event
  pass : ℕ → Event
  resume : ℕ → Event

module _ {S : Type 0} (B : BlobStore S) (h : Hasher) (limits : SessionLimits) (cap : ℕ) where
  unfoldable pub handler_of : Request → Handler S
  handler_of (init name digest uuid body) = init_upload B h limits cap name digest uuid body
  handler_of (patch name uuid header body) = patch_upload B h limits cap name uuid header body
  handler_of (finish name uuid digest body) = finish_upload B h limits cap name uuid digest body
  handler_of (query name uuid) = get_upload_status B h limits cap name uuid
  handler_of (cancel name uuid) = cancel_upload B h limits cap name uuid

  -- The next call of one of the handlers in progress.
  unfoldable pub advance : ℕ → List (Handler S) → AppState S → List (Handler S) × AppState S
  advance i [] σ = ([], σ)
  advance zero (done r ∷ hs) σ = (done r ∷ hs, σ)
  advance zero (atomic change next ∷ hs) σ = (next σ ∷ hs, change σ)
  advance (suc i) (x ∷ hs) σ = let rest = advance i hs σ in (x ∷ rest.0, rest.1)

  unfoldable pub happen : Event → List (Handler S) × AppState S → List (Handler S) × AppState S
  happen (arrive r) (hs, σ) = (hs ++ handler_of r ∷ [], σ)
  happen (pass t) (hs, σ) = (hs, record σ { clock = σ.clock + t })
  happen (resume i) (hs, σ) = advance i hs σ

  unfoldable pub happen_all :
      List Event → List (Handler S) × AppState S → List (Handler S) × AppState S
  happen_all [] w = w
  happen_all (e ∷ es) w = happen_all es (happen e w)
