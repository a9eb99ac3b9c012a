-- ===== src/Oci/Manifest/Checked.antt =====
-- A put that succeeds was of a manifest whose blobs are there, under its own digest.
use mathlib.Core.Path.{subst}
use ferro_protocols.Prelude.{◌≡◌, ◌≢◌, refl, sym, ap, ◌∙◌, Bytes, Option, none, some, arith}
use ferro_protocols.Prelude.Result.{Result, ok, err, bind_parts}
use ferro_protocols.Prelude.Texts.{Text, text_eq_iff}
use ferro_protocols.Blob.Digest.{DigestAlgo, sha256, sha512, Digest, Hasher, sha256_of}
use ferro_protocols.Blob.Memory.{BlobStoreError}
use ferro_protocols.Blob.Interface.{BlobStore}
use ferro_protocols.Cargo.Json.{Json}
use ferro_protocols.Oci.Error.{OciError}
use ferro_protocols.Oci.Name.{validate_name}
use ferro_protocols.Oci.Reference.{Reference, tag, digest, from_str}
use ferro_protocols.Oci.MediaType.{image_index, classify_manifest_media_type}
use ferro_protocols.Oci.Registry.{InMemoryState}
use ferro_protocols.Oci.Content.{or_invalid, verify_referenced_blobs}
use ferro_protocols.Oci.Content.Present.{ImageIsThere, verify-IsThere}
use ferro_protocols.Oci.Manifest.{
  Created, put_manifest, put_prepared, prepare, check_declared, or_refuse, unless_error, on_put,
}

or_refuse-some : {A : Type 0} (o : Option A) (a : A) → or_refuse o ≡ ok a → o ≡ some a
or_refuse-some none a e = absurd (ground (arith, e))
or_refuse-some (some b) a e = ground (arith, e)

module _ {S : Type 0} (B : BlobStore S) (h : Hasher) (J : Json) where
  own_parts :
      (a : DigestAlgo) (hex : Text) (body : Bytes)
      → check_declared B h J (digest (record { algo = a; hex = hex })) body ≡ ok tt
      → ◌≡◌ {A = Digest} (record { algo = a; hex = hex }) (sha256_of h body)
  unfolding check_declared sha256_of
  own_parts sha256 hex body e = ground (arith, text_eq_iff hex (h.sha256_hex body))
  own_parts sha512 hex body e = absurd (ground (arith, e))

  on_put-digest :
      (name : Text) (body : Bytes) (v : J.Value) (r : Result BlobStoreError Unit × InMemoryState)
      (c : Created) (τ : InMemoryState)
      → on_put B h J name body v r ≡ (ok c, τ)
      → c.digest ≡ sha256_of h body
  on_put-digest name body v (ok t, σ) c τ e = ground (arith, e)
  on_put-digest name body v (err x, σ) c τ e = absurd (ground (arith, e))

  prepared :
      (save : InMemoryState → Option Text) (name : Text) (body : Bytes) (σ τ : InMemoryState)
      (c : Created) (r : Result OciError (Reference × (Text × J.Value)))
      → put_prepared B h J save name body σ r ≡ (ok c, τ)
      → (x : Reference × (Text × J.Value)) × ((r ≡ ok x) × (c.digest ≡ sha256_of h body))
  prepared save name body σ τ c (err x) e = absurd (ground (arith, e))
  prepared save name body σ τ c (ok (r, (ct, v))) e =
      ((r, (ct, v)), (refl, on_put-digest name body v _ c τ e))

  declared_own :
      (r : Reference) (body : Bytes)
      → check_declared B h J r body ≡ ok tt
      → (d : Digest) → r ≡ digest d
      → d ≡ sha256_of h body
  declared_own (tag t) body e d q = absurd (ground (arith, q))
  declared_own (digest x) body e d q =
      let same : x ≡ d = ground (arith, q) in sym same ∙ own_parts x.algo x.hex body e

  checked :
      (name reference ct : Text) (body : Bytes) (s : S) (σ : InMemoryState)
      (x : Reference × (Text × J.Value)) (v : J.Value)
      → prepare B h J name reference (some ct) body s σ ≡ ok x
      → J.from_slice body ≡ ok v
      → classify_manifest_media_type ct ≢ some image_index
      → ImageIsThere B h J s v
        × ((d : Digest) → from_str reference ≡ ok (digest d) → d ≡ sha256_of h body)
  unfolding prepare
  checked name reference ct body s σ x v e p n =
      let (t, (e1, k1)) = bind_parts (unless_error (validate_name name)) _ x e in
      let (r, (e2, k2)) = bind_parts (from_str reference) _ x k1 in
      let (kind, (e4, k4)) = bind_parts (or_refuse (classify_manifest_media_type ct)) _ x k2 in
      let (w, (e5, k5)) = bind_parts (or_invalid (J.from_slice body)) _ x k4 in
      let (u, (e6, k6)) = bind_parts (verify_referenced_blobs B h J s name σ w kind) _ x k5 in
      let (u', (e7, k7)) = bind_parts (check_declared B h J r body) _ x k6 in
      let is_kind : classify_manifest_media_type ct ≡ some kind =
        or_refuse-some (classify_manifest_media_type ct) kind e4 in
      let is_v : w ≡ v = ground (arith, p, e5) in
      (
        subst (ImageIsThere B h J s) is_v
            (verify-IsThere B h J s name σ w kind (λ q. n (is_kind ∙ ap some q)) e6),
        (λ d q. declared_own r body e7 d (ground (arith, e2, q))),
      )

  -- A put of a manifest that is not an index, and that succeeds: the config and each layer that the
  -- parsed body names by a digest text is a blob that the store has, or the empty descriptor; the
  -- digest of the answer is the SHA-256 of the body; and if the manifest was put by a digest, by
  -- that one.
  pub put_manifest-Present :
      (save : InMemoryState → Option Text) (name reference content_type : Text) (body : Bytes)
      (s : S) (σ τ : InMemoryState) (c : Created) (v : J.Value)
      → put_manifest B h J save name reference (some content_type) body s σ ≡ (ok c, τ)
      → J.from_slice body ≡ ok v
      → classify_manifest_media_type content_type ≢ some image_index
      → ImageIsThere B h J s v
        × ((c.digest ≡ sha256_of h body)
            × ((d : Digest) → from_str reference ≡ ok (digest d) → d ≡ sha256_of h body))
  unfolding put_manifest
  put_manifest-Present save name reference ct body s σ τ c v e p n =
      let (x, (q, own)) = prepared save name body σ τ c _ e in
      let checks = checked name reference ct body s σ x v q p n in (checks.0, (own, checks.1))
