-- ===== src/Oci/Server.antt =====
-- crates/ferro-oci-server/src/router.rs: `AppState`, what a handler answers, and handlers as the
-- sequences of their awaited calls. Each call is one step, and other requests may run between two.
use ferro_protocols.Prelude.{ℕ}
use ferro_protocols.Prelude.Texts.{Text}
use ferro_protocols.Blob.Digest.{Digest}
use ferro_protocols.Oci.Error.{OciError, status}
use ferro_protocols.Oci.Registry.{Uploads, InMemoryState}

-- `AppState`, and the time that `Instant::now()` shows.
pub record AppState (S : Type 0) : Type 0 where
  pub registry : InMemoryState
  pub blobs : S
  pub blob_count : ℕ
  pub clock : ℕ

-- What a handler answers: the parts of the headers that depend on the request.
pub data Reply : Type 0 where
  failed : OciError → Reply
  -- name, uuid and the end of the header `Range`
  upload_accepted : Text → Text → ℕ → Reply
  upload_at : Text → Text → ℕ → Reply
  blob_created : Text → Digest → Reply
  no_content : Reply

unfoldable pub reply_status : Reply → ℕ
reply_status (failed e) = status e
reply_status (upload_accepted name uuid end) = 202
reply_status (upload_at name uuid end) = 204
reply_status (blob_created name d) = 201
reply_status no_content = 204

-- A handler: an answer, or a call that changes the state, and what follows by what it found.
pub data Handler (S : Type 0) : Type 0 where
  done : Reply → Handler S
  atomic : (AppState S → AppState S) → (AppState S → Handler S) → Handler S

-- A handler that no other request interrupts.
unfoldable pub run : {S : Type 0} → Handler S → AppState S → Reply × AppState S
run (done r) σ = (r, σ)
run (atomic change next) σ = run (next σ) (change σ)

abbrev pub call : {S R : Type 0} → (AppState S → R × AppState S) → (R → Handler S) → Handler S
call f next = atomic (λ σ. (f σ).1) (λ σ. next (f σ).0)

abbrev pub set_uploads : {S : Type 0} → Uploads → AppState S → AppState S
set_uploads m σ = record σ { registry = record (σ.registry) { uploads = m } }

-- A method on the upload sessions, at the time of the call.
abbrev pub on_uploads : {S R : Type 0} → (ℕ → Uploads → R × Uploads) → AppState S → R × AppState S
on_uploads f σ = let r = f σ.clock σ.registry.uploads in (r.0, set_uploads r.1 σ)
