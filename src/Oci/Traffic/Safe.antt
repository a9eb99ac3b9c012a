-- ===== src/Oci/Traffic/Safe.antt =====
-- Each call of a handler keeps the upload sessions within their bounds, whatever ran before it.
use ferro_protocols.Prelude.{
  ℕ, ◌+◌, ◌≡◌, ◌≤◌, ◌<◌, refl, Bool, true, false, Bytes, [], ◌∷◌, Option, none, some, length,
  if◌then◌else◌, arith,
}
use ferro_protocols.Prelude.Result.{Result, ok, err, bind_parts}
use ferro_protocols.Prelude.Texts.{Text}
use ferro_protocols.Prelude.Words.{u64_max}
use ferro_protocols.Blob.Digest.{Digest, Hasher}
use ferro_protocols.Blob.Memory.{BlobStoreError}
use ferro_protocols.Blob.Interface.{BlobStore}
use ferro_protocols.Oci.Error.{OciError}
use ferro_protocols.Oci.Name.{validate_name}
use ferro_protocols.Oci.Upload.{UploadState, offset}
use ferro_protocols.Oci.Registry.{UploadAdmission, started, at_capacity, SessionLimits, Key}
use ferro_protocols.Oci.Registry.Sessions.Bounds.{
  Fits, start_upload-Fits, complete_upload-Fits, cancel_upload-Fits, get_upload_state-Fits,
  take_upload_bytes-Fits, append_upload-Fits,
}
use ferro_protocols.Oci.Server.{AppState, Handler, done, atomic}
use ferro_protocols.Oci.Chunk.{
  RangeHeader, would_exceed_cap, parse_digest, in_sequence, chunk_start,
}
use ferro_protocols.Oci.Push.{
  init_upload, patch_upload, finish_upload, get_upload_status, cancel_upload, unless_refused,
  on_digest, on_stored, on_admission, on_appended, on_start, patch_session, on_taken, on_last_chunk,
  finish_session, finish_named, status_of, on_cancelled, differs, store_blob_counted, monolithic,
  open_session, init_named, take_session, drop_session,
}
use ferro_protocols.Oci.Traffic.{Request, init, patch, finish, query, cancel, handler_of}

module _ {S : Type 0} (B : BlobStore S) (h : Hasher) (limits : SessionLimits) (cap : ℕ) where
  abbrev pub IsWithin : AppState S → Type 0
  IsWithin σ = Fits limits cap σ.registry.uploads

  -- Each call keeps the bounds, whatever ran before it.
  abbrev pub IsSafe : Handler S → Type 0
  IsSafe (done r) = Unit
  IsSafe (atomic change next) =
      (σ : AppState S) → IsWithin σ → IsWithin (change σ) × IsSafe (next σ)

  if-IsSafe :
      (b : Bool) (x y : Handler S)
      → (b ≡ true → IsSafe x)
      → (b ≡ false → IsSafe y)
      → IsSafe (if b then x else y)
  if-IsSafe true x y f g = f refl
  if-IsSafe false x y f g = g refl

  unless_refused-IsSafe :
      (o : Option OciError) (x : Handler S) → IsSafe x → IsSafe (unless_refused B h limits cap o x)
  unless_refused-IsSafe none x s = s
  unless_refused-IsSafe (some e) x s = tt

  on_digest-IsSafe :
      (r : Result OciError Digest) (k : Digest → Handler S)
      → ((d : Digest) → IsSafe (k d))
      → IsSafe (on_digest B h limits cap r k)
  on_digest-IsSafe (ok d) k s = s d
  on_digest-IsSafe (err e) k s = tt

  on_stored-IsSafe :
      (x : Handler S) (already : Bool) (r : Result BlobStoreError Unit)
      → IsSafe x
      → IsSafe (on_stored B h limits cap x already r)
  on_stored-IsSafe x already (err e) s = tt
  on_stored-IsSafe x true (ok t) s = s
  on_stored-IsSafe x false (ok t) s = λ σ w. (w, s)

  store_blob_counted-IsSafe :
      (d : Digest) (b : Bytes) (x : Handler S)
      → IsSafe x
      → IsSafe (store_blob_counted B h limits cap d b x)
  unfolding store_blob_counted
  store_blob_counted-IsSafe d b x s = λ σ w. (w, λ τ v. (v, on_stored-IsSafe x _ _ s))

  module _ (bounded : cap < u64_max) where
    not_exceeding : (at len : ℕ) → would_exceed_cap cap at len ≡ false → at + len ≤ cap
    unfolding would_exceed_cap
    not_exceeding at len e = ground arith

    drop_session-IsSafe : (key : Key) → IsSafe (drop_session B h limits cap key)
    drop_session-IsSafe key = λ σ w. (cancel_upload-Fits limits cap key σ.registry.uploads w, tt)

    open_session-IsSafe : (name uuid : Text) → IsSafe (open_session B h limits cap name uuid)
    open_session-IsSafe name uuid =
        λ σ w. (start_upload-Fits limits cap σ.clock name uuid σ.registry.uploads w, admission _)
      where
        admission : (a : UploadAdmission) → IsSafe (on_admission B h limits cap name a)
        admission (started u) = tt
        admission (at_capacity n) = tt

    init_named-IsSafe :
        (name : Text) (digest : Option Text) (uuid : Text) (body : Bytes)
        → IsSafe (init_named B h limits cap name digest uuid body)
    init_named-IsSafe name none uuid body = open_session-IsSafe name uuid
    init_named-IsSafe name (some text) uuid body =
        on_digest-IsSafe (parse_digest text) (monolithic B h limits cap name body) (λ d.
          if-IsSafe (differs B h limits cap d body) _ _ (λ e. tt)
            (λ e. store_blob_counted-IsSafe d body _ tt))

    on_appended-IsSafe :
        (name uuid : Text) (r : Result BlobStoreError ℕ)
        → IsSafe (on_appended B h limits cap name uuid r)
    on_appended-IsSafe name uuid (ok n) = tt
    on_appended-IsSafe name uuid (err e) = tt

    on_start-IsSafe :
        (name uuid : Text) (body : Bytes) (expected : ℕ) (r : Result OciError ℕ)
        → ((start : ℕ) → r ≡ ok start → start ≡ expected)
        → IsSafe (on_start B h limits cap name uuid body expected r)
    on_start-IsSafe name uuid body expected (err e) f = tt
    on_start-IsSafe name uuid body expected (ok start) f =
        if-IsSafe (would_exceed_cap cap expected (length body)) _ _
          (λ e. drop_session-IsSafe (name, uuid))
          (λ e σ w. (
            append_upload-Fits limits cap σ.clock (name, uuid) start body σ.registry.uploads
                (ground (arith, not_exceeding expected (length body) e, f start refl)) w,
            on_appended-IsSafe name uuid _,
          ))

    in_sequence_expected :
        (expected len : ℕ) (header : RangeHeader) (start : ℕ)
        → in_sequence expected len header ≡ ok start
        → start ≡ expected
    unfolding in_sequence
    in_sequence_expected expected len header start e =
        let (at, (found, e)) = bind_parts (chunk_start expected len header) _ start e in
        ground arith

    patch_session-IsSafe :
        (name uuid : Text) (header : RangeHeader) (body : Bytes) (o : Option UploadState)
        → IsSafe (patch_session B h limits cap name uuid header body o)
    patch_session-IsSafe name uuid header body none = tt
    patch_session-IsSafe name uuid header body (some u) =
        on_start-IsSafe name uuid body (offset u) _
          (in_sequence_expected (offset u) (length body) header)

    on_taken-IsSafe :
        (name uuid : Text) (d : Digest) (o : Option Bytes)
        → IsSafe (on_taken B h limits cap name uuid d o)
    on_taken-IsSafe name uuid d none = tt
    on_taken-IsSafe name uuid d (some bytes) =
        if-IsSafe (differs B h limits cap d bytes) _ _ (λ e. tt)
          (λ e.
            store_blob_counted-IsSafe d bytes _
              (λ σ w. (complete_upload-Fits limits cap (name, uuid) σ.registry.uploads w, tt)))

    take_session-IsSafe :
        (name uuid : Text) (d : Digest) → IsSafe (take_session B h limits cap name uuid d)
    take_session-IsSafe name uuid d = λ σ w. (
      take_upload_bytes-Fits limits cap (name, uuid) σ.registry.uploads w,
      on_taken-IsSafe name uuid d _,
    )

    on_last_chunk-IsSafe :
        (name uuid : Text) (d : Digest) (r : Result BlobStoreError ℕ)
        → IsSafe (on_last_chunk B h limits cap name uuid d r)
    on_last_chunk-IsSafe name uuid d (ok n) = take_session-IsSafe name uuid d
    on_last_chunk-IsSafe name uuid d (err e) = tt

    finish_session-IsSafe :
        (name uuid : Text) (d : Digest) (body : Bytes) (o : Option UploadState)
        → IsSafe (finish_session B h limits cap name uuid d body o)
    finish_session-IsSafe name uuid d body none = tt
    finish_session-IsSafe name uuid d [] (some u) = take_session-IsSafe name uuid d
    finish_session-IsSafe name uuid d (b ∷ body) (some u) =
        if-IsSafe (would_exceed_cap cap (offset u) (length (b ∷ body))) _ _
          (λ e. drop_session-IsSafe (name, uuid))
          (λ e σ w. (
            append_upload-Fits limits cap σ.clock (name, uuid) (offset u) (b ∷ body)
                σ.registry.uploads (not_exceeding (offset u) (length (b ∷ body)) e) w,
            on_last_chunk-IsSafe name uuid d _,
          ))

    finish_named-IsSafe :
        (name uuid : Text) (digest : Option Text) (body : Bytes)
        → IsSafe (finish_named B h limits cap name uuid digest body)
    finish_named-IsSafe name uuid none body = tt
    finish_named-IsSafe name uuid (some text) body =
        on_digest-IsSafe (parse_digest text) _ (λ d σ w. (
          get_upload_state-Fits limits cap σ.clock (name, uuid) σ.registry.uploads w,
          finish_session-IsSafe name uuid d body _,
        ))

    status_of-IsSafe :
        (name uuid : Text) (o : Option UploadState) → IsSafe (status_of B h limits cap name uuid o)
    status_of-IsSafe name uuid none = tt
    status_of-IsSafe name uuid (some u) = tt

    on_cancelled-IsSafe : (existed : Bool) → IsSafe (on_cancelled B h limits cap existed)
    on_cancelled-IsSafe true = tt
    on_cancelled-IsSafe false = tt

    pub handler_of-IsSafe : (r : Request) → IsSafe (handler_of B h limits cap r)
    unfolding handler_of init_upload patch_upload finish_upload get_upload_status cancel_upload
    handler_of-IsSafe (init name digest uuid body) =
        unless_refused-IsSafe (validate_name name) _ (init_named-IsSafe name digest uuid body)
    handler_of-IsSafe (patch name uuid header body) =
        unless_refused-IsSafe (validate_name name) _ (λ σ w. (
          get_upload_state-Fits limits cap σ.clock (name, uuid) σ.registry.uploads w,
          patch_session-IsSafe name uuid header body _,
        ))
    handler_of-IsSafe (finish name uuid digest body) =
        unless_refused-IsSafe (validate_name name) _ (finish_named-IsSafe name uuid digest body)
    handler_of-IsSafe (query name uuid) = unless_refused-IsSafe (validate_name name) _ (λ σ w. (
      get_upload_state-Fits limits cap σ.clock (name, uuid) σ.registry.uploads w,
      status_of-IsSafe name uuid _,
    ))
    handler_of-IsSafe (cancel name uuid) = unless_refused-IsSafe (validate_name name) _ (λ σ w.
        (cancel_upload-Fits limits cap (name, uuid) σ.registry.uploads w, on_cancelled-IsSafe _))
