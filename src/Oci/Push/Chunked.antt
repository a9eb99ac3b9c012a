-- ===== src/Oci/Push/Chunked.antt =====
-- An upload in chunks: it is opened, the chunks are sent one after another, and it is finished.
use mathlib.Core.Path.{subst}
use ferro_protocols.Prelude.{
  ℕ, ◌+◌, ◌≡◌, ◌↔◌, ◌≤◌, ◌<◌, refl, sym, ap, ◌∙◌, true, false, Bytes, List, [], ◌∷◌, ◌++◌,
  append_assoc, append-nil, length, length-append, none, some, arith,
}
use ferro_protocols.Prelude.Result.{ok}
use ferro_protocols.Prelude.Maps.{lookup, insert, lookup-insert_same, lookup-remove_same}
use ferro_protocols.Prelude.Texts.{Text, text_eq, text_eq_iff}
use ferro_protocols.Blob.Digest.{DigestAlgo, sha256, sha512, Digest, Hasher}
use ferro_protocols.Blob.Interface.{BlobStore, IsBlobStore}
use ferro_protocols.Oci.Name.{validate_name}
use ferro_protocols.Oci.Upload.{UploadState, new, offset, append, is_idle_for, take_bytes}
use ferro_protocols.Oci.Registry.{SessionLimits, Key, key_eq, Uploads}
use ferro_protocols.Oci.Registry.Sessions.{
  sweep_idle_uploads, start_upload, append_upload, complete_upload, get_upload_state,
  take_upload_bytes,
}
use ferro_protocols.Oci.Server.{AppState, Reply, upload_accepted, blob_created, run, set_uploads}
use ferro_protocols.Oci.Chunk.{
  RangeHeader, would_exceed_cap, parse_digest, range_end, chunk_start, in_sequence,
}
use ferro_protocols.Oci.Push.{
  init_upload, patch_upload, finish_upload, differs, store_blob_counted, take_session,
}

pub key_eq_iff : (a b : Key) → (key_eq a b ≡ true) ↔ (a ≡ b)
key_eq_iff (a, b) (c, d) = ground (arith, text_eq_iff a c, text_eq_iff b d)

-- A chunk: how long the client waits before it, its header and its bytes.
pub record Chunk : Type 0 where
  pub wait : ℕ
  pub header : RangeHeader
  pub body : Bytes

abbrev pub wait_for : {S : Type 0} → ℕ → AppState S → AppState S
wait_for t σ = record σ { clock = σ.clock + t }

abbrev pub concat : List Chunk → Bytes
concat [] = []
concat (c ∷ cs) = c.body ++ concat cs

-- Each header is absent or says where its chunk goes, and no wait is as long as the time to live.
abbrev pub IsInOrder : ℕ → ℕ → List Chunk → Type 0
IsInOrder ttl at [] = Unit
IsInOrder ttl at (c ∷ cs) =
    (c.wait < ttl)
    × ((chunk_start at (length c.body) c.header ≡ ok at) × IsInOrder ttl (at + length c.body) cs)

module _ {S : Type 0} (B : BlobStore S) (h : Hasher) (limits : SessionLimits) (cap : ℕ) where
  unfoldable pub patch_all : Text → Text → List Chunk → AppState S → AppState S
  patch_all name uuid [] σ = σ
  patch_all name uuid (c ∷ cs) σ =
      patch_all name uuid cs
        (run (patch_upload B h limits cap name uuid c.header c.body) (wait_for c.wait σ)).1

  -- The answer to the last of the requests, before which the client waits too, and the state after
  -- it.
  unfoldable pub upload :
      Text → Text → List Chunk → ℕ → Text → Bytes → AppState S → Reply × AppState S
  upload name uuid chunks wait digest last σ =
      run (finish_upload B h limits cap name uuid (some digest) last) (
        wait_for wait
          (patch_all name uuid chunks (run (init_upload B h limits cap name none uuid []) σ).1))

  -- A session that was active now and holds these bytes, over a store.
  abbrev Holding : Key → Bytes → S → AppState S → Type 0
  Holding key b s σ =
      (u : UploadState) × ((lookup key_eq key σ.registry.uploads ≡ some u)
        × ((u.buffer ≡ b) × ((u.last_activity ≡ σ.clock) × (σ.blobs ≡ s))))

  module _ (name uuid : Text) (valid : validate_name name ≡ none) where
    pub run-init :
        (σ : AppState S)
        → length (sweep_idle_uploads σ.clock limits.idle_ttl σ.registry.uploads)
          < limits.max_sessions
        → run (init_upload B h limits cap name none uuid []) σ ≡ (
          upload_accepted name uuid (range_end 0),
          set_uploads
              (insert key_eq
                (name, uuid)
                (new σ.clock name uuid)
                (sweep_idle_uploads σ.clock limits.idle_ttl σ.registry.uploads))
              σ,
        )
    unfolding init_upload run start_upload
    run-init σ room = ground (arith, valid)

    init-Holding :
        (σ : AppState S)
        → length (sweep_idle_uploads σ.clock limits.idle_ttl σ.registry.uploads)
          < limits.max_sessions
        → Holding (name, uuid) [] σ.blobs (run (init_upload B h limits cap name none uuid []) σ).1
    unfolding new
    init-Holding σ room =
        subst (Holding (name, uuid) [] σ.blobs) (sym (ap (λ r. r.1) (run-init σ room))) (
          new σ.clock name uuid,
          (lookup-insert_same key_eq key_eq_iff (name, uuid) _ _, (refl, (refl, refl))),
        )

    run-patch :
        (σ : AppState S) (header : RangeHeader) (body : Bytes) (u : UploadState)
        → lookup key_eq (name, uuid) σ.registry.uploads ≡ some u
        → is_idle_for σ.clock limits.idle_ttl u ≡ false
        → chunk_start (offset u) (length body) header ≡ ok (offset u)
        → offset u + length body ≤ cap
        → run (patch_upload B h limits cap name uuid header body) σ ≡ (
          upload_accepted name uuid (range_end (offset (append σ.clock body u))),
          set_uploads (insert key_eq (name, uuid) (append σ.clock body u) σ.registry.uploads) σ,
        )
    unfolding patch_upload run get_upload_state append_upload in_sequence would_exceed_cap
    run-patch σ header body u e i c l = ground (arith, valid, e, i, c, l)

    -- An answered upload, its blob stored and its session gone.
    abbrev Stored : Digest → S → Reply × AppState S → Type 0
    Stored d s (r, σ) =
        (r ≡ blob_created name d)
        × ((σ.blobs ≡ s) × (lookup key_eq (name, uuid) σ.registry.uploads ≡ none))

    run-take :
        (σ : AppState S) (d : Digest) (u : UploadState) (s : S)
        → lookup key_eq (name, uuid) σ.registry.uploads ≡ some u
        → differs B h limits cap d u.buffer ≡ false
        → B.put d u.buffer σ.blobs ≡ (ok tt, s)
        → Stored d s (run (take_session B h limits cap name uuid d) σ)
    unfolding run take_upload_bytes take_bytes store_blob_counted complete_upload
    run-take σ d u s e n p = ground (
      arith,
      e,
      n,
      p,
      lookup-remove_same key_eq key_eq_iff (name, uuid)
          (insert key_eq (name, uuid) (record u { buffer = [] }) σ.registry.uploads),
    )

    run-finish :
        (σ : AppState S) (text : Text) (d : Digest) (last : Bytes) (u : UploadState) (s : S)
        → lookup key_eq (name, uuid) σ.registry.uploads ≡ some u
        → is_idle_for σ.clock limits.idle_ttl u ≡ false
        → parse_digest text ≡ ok d
        → offset u + length last ≤ cap
        → differs B h limits cap d (u.buffer ++ last) ≡ false
        → B.put d (u.buffer ++ last) σ.blobs ≡ (ok tt, s)
        → Stored d s (run (finish_upload B h limits cap name uuid (some text) last) σ)
    unfolding run finish_upload get_upload_state append_upload append would_exceed_cap
    run-finish σ text d [] u s e i t l n p =
        let same : u.buffer ++ [] ≡ u.buffer = append-nil u.buffer in
        let taken =
          run-take σ d u s e (ap (differs B h limits cap d) (sym same) ∙ n)
            (ap (λ b. B.put d b σ.blobs) (sym same) ∙ p) in
        ground (arith, valid, e, i, t, taken)
    run-finish σ text d (b ∷ last) u s e i t l n p =
        let m : Uploads =
          insert key_eq (name, uuid) (append σ.clock (b ∷ last) u) σ.registry.uploads in
        let taken =
          run-take (set_uploads m σ) d (append σ.clock (b ∷ last) u) s
            (lookup-insert_same key_eq key_eq_iff (name, uuid) _ σ.registry.uploads) n p in
        ground (arith, valid, e, i, t, l, taken)

    -- The session after the chunks.
    patch_all-Holding :
        (cs : List Chunk) (b : Bytes) (s : S) (σ : AppState S)
        → IsInOrder limits.idle_ttl (length b) cs
        → length b + length (concat cs) ≤ cap
        → Holding (name, uuid) b s σ
        → Holding (name, uuid) (b ++ concat cs) s (patch_all name uuid cs σ)
    unfolding patch_all offset append is_idle_for
    patch_all-Holding [] b s σ o l held =
        subst (λ x. Holding (name, uuid) x s σ) (sym (append-nil b)) held
    patch_all-Holding (c ∷ cs) b s σ (w, (o, os)) l (u, (e, (eb, (et, es)))) =
        let step =
          run-patch (wait_for c.wait σ) c.header c.body u e (ground (arith, et, w))
            (ap (λ x. chunk_start (length x) (length c.body) c.header) eb
              ∙ o
              ∙ ap (λ x. ok (length x)) (sym eb))
            (ground (arith, eb, length-append c.body (concat cs), l)) in
        let σ' : AppState S =
          (run (patch_upload B h limits cap name uuid c.header c.body) (wait_for c.wait σ)).1 in
        let held : Holding (name, uuid) (b ++ c.body) s σ' =
          subst (Holding (name, uuid) (b ++ c.body) s) (sym (ap (λ r. r.1) step)) (
            append (σ.clock + c.wait) c.body u,
            (
              lookup-insert_same key_eq key_eq_iff (name, uuid) _ σ.registry.uploads,
              (ap (λ x. x ++ c.body) eb, (refl, es)),
            ),
          ) in
        subst (λ x. Holding (name, uuid) x s (patch_all name uuid cs σ'))
          (append_assoc b c.body (concat cs))
          (patch_all-Holding cs (b ++ c.body) s σ'
            (subst (λ n. IsInOrder limits.idle_ttl n cs) (sym (length-append b c.body)) os)
            (ground (arith, length-append b c.body, length-append c.body (concat cs), l)) held)

  own-differs :
      (a : DigestAlgo) (hex : Text) (bytes : Bytes)
      → (a ≡ sha256 → h.sha256_hex bytes ≡ hex)
      → differs B h limits cap (record { algo = a; hex = hex }) bytes ≡ false
  unfolding differs
  own-differs sha256 hex bytes own =
      let same : text_eq (h.sha256_hex bytes) hex ≡ true =
        (text_eq_iff (h.sha256_hex bytes) hex).1 (own refl) in
      ground (arith, same)
  own-differs sha512 hex bytes own = refl

  -- When the sessions that are idle too long are gone, there are fewer than the limit.
  abbrev pub HasRoom : AppState S → Type 0
  HasRoom σ =
      length (sweep_idle_uploads σ.clock limits.idle_ttl σ.registry.uploads) < limits.max_sessions

  -- A blob store that keeps its promises, a valid name, room for a session, chunks whose headers,
  -- where there are any, say that each starts where the one before it ended, waits before each
  -- chunk and before the last request that are each shorter than the time to live, no more bytes in
  -- all than the cap, and a text that is read as a digest that the store accepts for all the bytes,
  -- and that is their SHA-256 if it is a SHA-256 digest: the upload in chunks is answered as
  -- created, all the bytes in their order are in the store under that digest, and the session is
  -- gone.
  pub upload_lem :
      (law : IsBlobStore B) (name uuid text : Text) (chunks : List Chunk) (wait : ℕ) (last : Bytes)
      (d : Digest) (σ : AppState S) (s : S)
      → validate_name name ≡ none
      → HasRoom σ
      → IsInOrder limits.idle_ttl 0 chunks
      → wait < limits.idle_ttl
      → length (concat chunks) + length last ≤ cap
      → parse_digest text ≡ ok d
      → (d.algo ≡ sha256 → h.sha256_hex (concat chunks ++ last) ≡ d.hex)
      → B.put d (concat chunks ++ last) σ.blobs ≡ (ok tt, s)
      → let r = upload name uuid chunks wait text last σ in
        (r.0 ≡ blob_created name d)
        × ((B.get d r.1.blobs ≡ ok (concat chunks ++ last))
            × (lookup key_eq (name, uuid) r.1.registry.uploads ≡ none))
  unfolding upload is_idle_for offset
  upload_lem law name uuid text chunks wait last d σ s valid room order soon fits t n p =
      let σ1 : AppState S =
        patch_all name uuid chunks (run (init_upload B h limits cap name none uuid []) σ).1 in
      let (u, (e, (eb, (et, es)))) =
        patch_all-Holding name uuid valid chunks [] σ.blobs _ order (omega (arith, fits))
          (init-Holding name uuid valid σ room) in
      let stored =
        run-finish name uuid valid (wait_for wait σ1) text d last u s e (ground (arith, et, soon)) t
          (ground (arith, eb, fits))
          (ap (λ b. differs B h limits cap d (b ++ last)) eb
            ∙ own-differs d.algo d.hex (concat chunks ++ last) n)
          (ap (λ b. B.put d (b ++ last) σ1.blobs) eb
            ∙ ap (B.put d (concat chunks ++ last)) es
            ∙ p) in
      (
        stored.0,
        (ap (B.get d) stored.1.0 ∙ law.get-put d (concat chunks ++ last) σ.blobs s p, stored.1.1),
      )
