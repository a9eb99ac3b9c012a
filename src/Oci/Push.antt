-- ===== src/Oci/Push.antt =====
-- crates/ferro-oci-server/src/handlers/blob_upload.rs: the handlers, and `store_blob_counted` of
-- router.rs.
pub mod Chunked
pub mod Answers
use ferro_protocols.Prelude.{
  ℕ, suc, Bool, true, false, not, Bytes, [], ◌∷◌, Option, none, some, length, if◌then◌else◌,
}
use ferro_protocols.Prelude.Result.{Result, ok, err}
use ferro_protocols.Prelude.Texts.{Text, text_eq}
use ferro_protocols.Blob.Digest.{sha256, sha512, Digest, Hasher}
use ferro_protocols.Blob.Memory.{BlobStoreError}
use ferro_protocols.Blob.Interface.{BlobStore}
use ferro_protocols.Oci.Error.{
  OciError, new, from_store, digest_invalid, blob_upload_unknown, too_many_requests,
}
use ferro_protocols.Oci.Name.{validate_name}
use ferro_protocols.Oci.Upload.{UploadState, offset}
use ferro_protocols.Oci.Registry.{UploadAdmission, started, at_capacity, SessionLimits, Key}
use ferro_protocols.Oci.Registry.Sessions.{
  start_upload, append_upload, complete_upload, get_upload_state, take_upload_bytes,
}
use ferro_protocols.Oci.Registry.Sessions
use ferro_protocols.Oci.Server.{
  AppState, failed, upload_accepted, upload_at, blob_created, no_content, Handler, done, atomic,
  call, on_uploads,
}
use ferro_protocols.Oci.Chunk.{
  RangeHeader, would_exceed_cap, parse_digest, range_end, too_large, in_sequence,
}

module _ {S : Type 0} (B : BlobStore S) (h : Hasher) (limits : SessionLimits) (cap : ℕ) where
  abbrev pub unless_refused : Option OciError → Handler S → Handler S
  unless_refused none next = next
  unless_refused (some e) next = done (failed e)

  abbrev pub on_digest : Result OciError Digest → (Digest → Handler S) → Handler S
  on_digest (ok d) next = next d
  on_digest (err e) next = done (failed e)

  -- The declared digest is a SHA-256 that differs from that of the bytes.
  unfoldable pub differs : Digest → Bytes → Bool
  differs d bytes = elim d.algo [
    | sha256 ↦ not (text_eq (h.sha256_hex bytes) d.hex)
    | sha512 ↦ false
  ]

  abbrev pub is_present : Result BlobStoreError Bool → Bool
  is_present (ok b) = b
  is_present (err e) = false

  abbrev pub inc_blob_count : AppState S → AppState S
  inc_blob_count σ = record σ { blob_count = suc (σ.blob_count) }

  abbrev pub store : Digest → Bytes → AppState S → Result BlobStoreError Unit × AppState S
  store d bytes σ = let r = B.put d bytes σ.blobs in (r.0, record σ { blobs = r.1 })

  abbrev pub on_stored : Handler S → Bool → Result BlobStoreError Unit → Handler S
  on_stored next already (err e) = done (failed (from_store e))
  on_stored next true (ok t) = next
  on_stored next false (ok t) = atomic inc_blob_count (λ σ. next)

  -- `store_blob_counted`, with what follows it. Its mutex only rules out some orders of the steps.
  unfoldable pub store_blob_counted : Digest → Bytes → Handler S → Handler S
  store_blob_counted d bytes next =
      atomic (λ σ. σ)
        (λ σ. call (store d bytes) (on_stored next (is_present (B.contains d σ.blobs))))

  abbrev pub monolithic : Text → Bytes → Digest → Handler S
  monolithic name body d =
      if differs d body
      then done (failed (new digest_invalid))
      else store_blob_counted d body (done (blob_created name d))

  abbrev pub on_admission : Text → UploadAdmission → Handler S
  on_admission name (started uuid) = done (upload_accepted name uuid (range_end 0))
  on_admission name (at_capacity n) = done (failed (new too_many_requests))

  abbrev pub open_session : Text → Text → Handler S
  open_session name uuid =
      call (on_uploads (λ now. start_upload limits now name uuid)) (on_admission name)

  abbrev pub init_named : Text → Option Text → Text → Bytes → Handler S
  init_named name (some text) uuid body = on_digest (parse_digest text) (monolithic name body)
  init_named name none uuid body = open_session name uuid

  -- `uuid` is the one that `start_upload` would draw.
  unfoldable pub init_upload : Text → Option Text → Text → Bytes → Handler S
  init_upload name digest uuid body =
      unless_refused (validate_name name) (init_named name digest uuid body)

  abbrev pub find_session : Key → AppState S → Option UploadState × AppState S
  find_session key = on_uploads (λ now. get_upload_state limits now key)

  -- Dropping the session and answering `upload_too_large`.
  abbrev pub drop_session : Key → Handler S
  drop_session key =
      call (on_uploads (λ now. Sessions.cancel_upload key)) (λ existed. done (failed too_large))

  abbrev pub on_appended : Text → Text → Result BlobStoreError ℕ → Handler S
  on_appended name uuid (ok new_offset) = done (upload_accepted name uuid (range_end new_offset))
  on_appended name uuid (err e) = done (failed (from_store e))

  abbrev pub on_start : Text → Text → Bytes → ℕ → Result OciError ℕ → Handler S
  on_start name uuid body expected (err e) = done (failed e)
  on_start name uuid body expected (ok start) =
      if would_exceed_cap cap expected (length body)
      then drop_session (name, uuid)
      else call (on_uploads (λ now. append_upload now (name, uuid) start body))
          (on_appended name uuid)

  abbrev pub patch_session : Text → Text → RangeHeader → Bytes → Option UploadState → Handler S
  patch_session name uuid header body none = done (failed (new blob_upload_unknown))
  patch_session name uuid header body (some u) =
      on_start name uuid body (offset u) (in_sequence (offset u) (length body) header)

  unfoldable pub patch_upload : Text → Text → RangeHeader → Bytes → Handler S
  patch_upload name uuid header body =
      unless_refused (validate_name name)
        (call (find_session (name, uuid)) (patch_session name uuid header body))

  -- What `finish_upload` does with the bytes that it took.
  abbrev pub on_taken : Text → Text → Digest → Option Bytes → Handler S
  on_taken name uuid d none = done (failed (new blob_upload_unknown))
  on_taken name uuid d (some bytes) =
      if differs d bytes
      then done (failed (new digest_invalid))
      else store_blob_counted d bytes (
          call (on_uploads (λ now m. (tt, complete_upload (name, uuid) m)))
            (λ t. done (blob_created name d)))

  abbrev pub take_session : Text → Text → Digest → Handler S
  take_session name uuid d =
      call (on_uploads (λ now. take_upload_bytes (name, uuid))) (on_taken name uuid d)

  abbrev pub on_last_chunk : Text → Text → Digest → Result BlobStoreError ℕ → Handler S
  on_last_chunk name uuid d (err e) = done (failed (from_store e))
  on_last_chunk name uuid d (ok new_offset) = take_session name uuid d

  abbrev pub last_chunk : Text → Text → Digest → Bytes → UploadState → Handler S
  last_chunk name uuid d [] u = take_session name uuid d
  last_chunk name uuid d (b ∷ body) u =
      if would_exceed_cap cap (offset u) (length (b ∷ body))
      then drop_session (name, uuid)
      else call (on_uploads (λ now. append_upload now (name, uuid) (offset u) (b ∷ body)))
          (on_last_chunk name uuid d)

  abbrev pub finish_session : Text → Text → Digest → Bytes → Option UploadState → Handler S
  finish_session name uuid d body none = done (failed (new blob_upload_unknown))
  finish_session name uuid d body (some u) = last_chunk name uuid d body u

  abbrev pub finish_named : Text → Text → Option Text → Bytes → Handler S
  finish_named name uuid none body = done (failed (new digest_invalid))
  finish_named name uuid (some text) body =
      on_digest (parse_digest text)
        (λ d. call (find_session (name, uuid)) (finish_session name uuid d body))

  unfoldable pub finish_upload : Text → Text → Option Text → Bytes → Handler S
  finish_upload name uuid digest body =
      unless_refused (validate_name name) (finish_named name uuid digest body)

  abbrev pub status_of : Text → Text → Option UploadState → Handler S
  status_of name uuid none = done (failed (new blob_upload_unknown))
  status_of name uuid (some u) = done (upload_at name uuid (range_end (offset u)))

  unfoldable pub get_upload_status : Text → Text → Handler S
  get_upload_status name uuid =
      unless_refused (validate_name name) (call (find_session (name, uuid)) (status_of name uuid))

  abbrev pub on_cancelled : Bool → Handler S
  on_cancelled true = done no_content
  on_cancelled false = done (failed (new blob_upload_unknown))

  unfoldable pub cancel_upload : Text → Text → Handler S
  cancel_upload name uuid =
      unless_refused (validate_name name)
        (call (on_uploads (λ now. Sessions.cancel_upload (name, uuid))) on_cancelled)
