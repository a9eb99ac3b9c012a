-- ===== src/Oci/Push/Answers.antt =====
-- What an answer to an upload promises, and that sessions are admitted again after a time.
use mathlib.Core.Path.{subst}
use ferro_protocols.Prelude.{
  ℕ, ◌+◌, ◌≡◌, ◌≤◌, ◌<◌, refl, sym, ap, Bool, true, false, Bytes, [], ◌∷◌, ◌++◌, append-nil, Option,
  none, some, if◌then◌else◌, arith, Bool-cases, inl, inr,
}
use ferro_protocols.Prelude.Result.{Result, ok, err}
use ferro_protocols.Prelude.Maps.{lookup, insert, remove, lookup-insert_same}
use ferro_protocols.Prelude.Texts.{Text}
use ferro_protocols.Blob.Digest.{Digest, Hasher}
use ferro_protocols.Blob.Memory.{BlobStoreError}
use ferro_protocols.Blob.Interface.{BlobStore, IsBlobStore}
use ferro_protocols.Oci.Error.{OciError}
use ferro_protocols.Oci.Name.{validate_name}
use ferro_protocols.Oci.Upload.{UploadState, offset, append, is_idle_for, take_bytes}
use ferro_protocols.Oci.Registry.{SessionLimits, Key, key_eq, Uploads}
use ferro_protocols.Oci.Registry.Sessions.{
  sweep_idle_uploads, append_upload, complete_upload, get_upload_state, unless_idle,
  take_upload_bytes,
}
use ferro_protocols.Oci.Server.{
  AppState, Reply, call, on_uploads, failed, upload_accepted, upload_at, blob_created, no_content,
  Handler, done, run, set_uploads,
}
use ferro_protocols.Oci.Chunk.{would_exceed_cap, parse_digest, range_end}
use ferro_protocols.Oci.Push.{
  init_upload, finish_upload, differs, store_blob_counted, on_stored, unless_refused, on_digest,
  finish_session, finish_named, last_chunk, on_last_chunk, take_session, on_taken, drop_session,
}
use ferro_protocols.Oci.Push.Chunked.{key_eq_iff, wait_for, run-init}

-- No session was active after this time.
abbrev pub ActiveBy : ℕ → Uploads → Type 0
ActiveBy now [] = Unit
ActiveBy now ((key, u) ∷ m) = (u.last_activity ≤ now) × ActiveBy now m

sweep_all : (now ttl : ℕ) (m : Uploads) → ActiveBy now m → sweep_idle_uploads (now + ttl) ttl m ≡ []
unfolding sweep_idle_uploads is_idle_for
sweep_all now ttl [] a = refl
sweep_all now ttl ((key, u) ∷ m) (a, b) = ground (arith, sweep_all now ttl m b)

module _ {S : Type 0} (B : BlobStore S) (h : Hasher) (limits : SessionLimits) (cap : ℕ) where
  -- However many sessions there are, none of them active later than the clock says: if no request
  -- comes for the time to live, the next request for a new session with a valid name is accepted,
  -- where any session is allowed at all.
  pub init_upload_admits :
      (name uuid : Text) (σ : AppState S)
      → validate_name name ≡ none
      → 0 < limits.max_sessions
      → ActiveBy σ.clock σ.registry.uploads
      → (run (init_upload B h limits cap name none uuid []) (wait_for limits.idle_ttl σ)).0
        ≡ upload_accepted name uuid 0
  unfolding range_end
  init_upload_admits name uuid σ valid some_allowed active =
      ap (λ r. r.0)
        (run-init B h limits cap name uuid valid (wait_for limits.idle_ttl σ)
          (ground (arith, sweep_all σ.clock limits.idle_ttl σ.registry.uploads active)))

  -- A blob that is said to be created is stored, with bytes that satisfy this.
  abbrev Tells : Text → (Bytes → Type 0) → Reply × AppState S → Type 0
  Tells name P (failed e, σ) = Unit
  Tells name P (upload_accepted n u k, σ) = Unit
  Tells name P (upload_at n u k, σ) = Unit
  Tells name P (no_content, σ) = Unit
  Tells name P (blob_created n d, σ) = (n ≡ name) × ((b : Bytes) × (P b × (B.get d σ.blobs ≡ ok b)))

  module _ (law : IsBlobStore B) (name uuid : Text) (P : Bytes → Type 0) where
    on_stored-Tells :
        (d : Digest) (b : Bytes) (s : S) (σ : AppState S) (already : Bool)
        → (r : Result BlobStoreError Unit) → P b
        → B.put d b s ≡ (r, σ.blobs)
        → Tells name P (
            run
              (on_stored B h limits cap
                (call
                  (on_uploads (λ now m. (tt, complete_upload (name, uuid) m)))
                  (λ t. done (blob_created name d)))
                already
                r)
              σ)
    unfolding run
    on_stored-Tells d b s σ already (err e) p q = tt
    on_stored-Tells d b s σ true (ok t) p q = (refl, (b, (p, law.get-put d b s σ.blobs q)))
    on_stored-Tells d b s σ false (ok t) p q = (refl, (b, (p, law.get-put d b s σ.blobs q)))

    if-Tells :
        (c : Bool) (x y : Handler S) (σ : AppState S)
        → Tells name P (run x σ)
        → Tells name P (run y σ)
        → Tells name P (run (if c then x else y) σ)
    if-Tells true x y σ p q = p
    if-Tells false x y σ p q = q

    on_taken-Tells :
        (d : Digest) (σ : AppState S) (o : Option Bytes)
        → ((b : Bytes) → o ≡ some b → P b)
        → Tells name P (run (on_taken B h limits cap name uuid d o) σ)
    unfolding run store_blob_counted
    on_taken-Tells d σ none f = tt
    on_taken-Tells d σ (some b) f =
        if-Tells (differs B h limits cap d b) _ _ σ tt
          (on_stored-Tells d b σ.blobs _ _ (B.put d b σ.blobs).0 (f b refl) refl)

    drop_session-Tells :
        (key : Key) (σ : AppState S) → Tells name P (run (drop_session B h limits cap key) σ)
    unfolding run
    drop_session-Tells key σ = tt

  -- The bytes of the session that a state holds, with a last chunk.
  abbrev pub IsWhole : Key → Bytes → AppState S → Bytes → Type 0
  IsWhole key last σ b =
      (u : UploadState) × ((lookup key_eq key σ.registry.uploads ≡ some u)
        × ((is_idle_for σ.clock limits.idle_ttl u ≡ false) × (b ≡ u.buffer ++ last)))

  module _ (law : IsBlobStore B) (name uuid : Text) where
    take_session-Tells :
        (P : Bytes → Type 0) (d : Digest) (u : UploadState) (σ : AppState S)
        → lookup key_eq (name, uuid) σ.registry.uploads ≡ some u
        → P u.buffer
        → Tells name P (run (take_session B h limits cap name uuid d) σ)
    unfolding run take_upload_bytes take_bytes
    take_session-Tells P d u σ e p =
        on_taken-Tells law name uuid P d _ _
          (λ b q. let same : u.buffer ≡ b = ground (arith, e, q) in subst P same p)

    last_chunk-Tells :
        (d : Digest) (last : Bytes) (u : UploadState) (σ : AppState S)
        → lookup key_eq (name, uuid) σ.registry.uploads ≡ some u
        → is_idle_for σ.clock limits.idle_ttl u ≡ false
        → Tells name
            (IsWhole (name, uuid) last σ)
            (run (last_chunk B h limits cap name uuid d last u) σ)
    unfolding run append append_upload
    last_chunk-Tells d [] u σ e i =
        take_session-Tells _ d u σ e (u, (e, (i, sym (append-nil u.buffer))))
    last_chunk-Tells d (b ∷ last) u σ e i =
        if-Tells law name uuid _ (would_exceed_cap cap (offset u) _) _ _ σ tt (
          subst (Tells name (IsWhole (name, uuid) (b ∷ last) σ)) (sym appended) (
            take_session-Tells _ d (append σ.clock (b ∷ last) u) _
              (lookup-insert_same key_eq key_eq_iff (name, uuid) _ σ.registry.uploads)
              (u, (e, (i, refl)))))
      where
        appended :
            run
              (call
                (on_uploads (λ now. append_upload now (name, uuid) (offset u) (b ∷ last)))
                (on_last_chunk B h limits cap name uuid d))
              σ
            ≡ run (take_session B h limits cap name uuid d) (
                set_uploads
                  (insert key_eq (name, uuid) (append σ.clock (b ∷ last) u) σ.registry.uploads)
                  σ)
        appended = ground (arith, e)

    unless_refused-Tells :
        (P : Bytes → Type 0) (o : Option OciError) (x : Handler S) (σ : AppState S)
        → Tells name P (run x σ)
        → Tells name P (run (unless_refused B h limits cap o x) σ)
    unfolding run
    unless_refused-Tells P none x σ t = t
    unless_refused-Tells P (some e) x σ t = tt

    on_digest-Tells :
        (P : Bytes → Type 0) (r : Result OciError Digest) (k : Digest → Handler S)
        → (σ : AppState S) → ((d : Digest) → Tells name P (run (k d) σ))
        → Tells name P (run (on_digest B h limits cap r k) σ)
    unfolding run
    on_digest-Tells P (ok d) k σ t = t d
    on_digest-Tells P (err e) k σ t = tt

    find_session-Tells :
        (d : Digest) (last : Bytes) (σ : AppState S) (o : Option UploadState)
        → lookup key_eq (name, uuid) σ.registry.uploads ≡ o
        → let r = unless_idle limits σ.clock (name, uuid) σ.registry.uploads o in
          Tells name
            (IsWhole (name, uuid) last σ)
            (run (finish_session B h limits cap name uuid d last r.0) (set_uploads r.1 σ))
    unfolding run
    find_session-Tells d last σ none e = tt
    find_session-Tells d last σ (some u) e =
        elim (Bool-cases (is_idle_for σ.clock limits.idle_ttl u)) [
          | inl i ↦
              subst Goal
                (let q : ◌≡◌ {A = Option UploadState × Uploads}
                      (none, remove key_eq (name, uuid) σ.registry.uploads) found =
                    ground (arith, i) in
                  q)
                tt
          | inr i ↦
              subst Goal
                (let q : ◌≡◌ {A = Option UploadState × Uploads} (some u, σ.registry.uploads) found =
                    ground (arith, i) in
                  q)
                (last_chunk-Tells d last u σ e i)
        ]
      where
        found : Option UploadState × Uploads
        found = unless_idle limits σ.clock (name, uuid) σ.registry.uploads (some u)

        Goal : Option UploadState × Uploads → Type 0
        Goal r =
            Tells name (IsWhole (name, uuid) last σ)
              (run (finish_session B h limits cap name uuid d last r.0) (set_uploads r.1 σ))

    finish_named-Tells :
        (digest : Option Text) (last : Bytes) (σ : AppState S)
        → Tells name
            (IsWhole (name, uuid) last σ)
            (run (finish_named B h limits cap name uuid digest last) σ)
    unfolding run get_upload_state
    finish_named-Tells none last σ = tt
    finish_named-Tells (some text) last σ =
        on_digest-Tells _ (parse_digest text) _ σ (λ d. find_session-Tells d last σ _ refl)

  -- If finishing an upload is answered with a created blob, that is of the same repository, the
  -- session was there and had not been idle too long, and the store holds the bytes of the session
  -- followed by the last chunk under the digest of the answer.
  pub finish_upload-created :
      (law : IsBlobStore B) (name uuid : Text) (digest : Option Text) (last : Bytes)
      (σ σ' : AppState S) (n : Text) (d : Digest)
      → run (finish_upload B h limits cap name uuid digest last) σ ≡ (blob_created n d, σ')
      → (n ≡ name) × ((b : Bytes) × (IsWhole (name, uuid) last σ b × (B.get d σ'.blobs ≡ ok b)))
  unfolding finish_upload
  finish_upload-created law name uuid digest last σ σ' n d e =
      subst (Tells name (IsWhole (name, uuid) last σ)) e (
        unless_refused-Tells law name uuid _ (validate_name name) _ σ
          (finish_named-Tells law name uuid digest last σ))
