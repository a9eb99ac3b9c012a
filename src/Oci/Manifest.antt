-- ===== src/Oci/Manifest.antt =====
-- crates/ferro-oci-server/src/handlers/manifest.rs: the handlers that put and delete a manifest.
-- What a put reads before its one change of the registry is read from one state.
pub mod Keyed
pub mod Addressed
pub mod Checked
use ferro_protocols.Prelude.{
  ℕ, Bool, true, false, not, Bytes, List, [], ◌∷◌, Option, none, some, length, if◌then◌else◌,
}
use ferro_protocols.Prelude.Result.{Result, ok, err, ◌>>=◌, ◌>>◌}
use ferro_protocols.Prelude.Texts.{Text, codes, text_eq}
use ferro_protocols.Blob.Digest.{
  DigestAlgo, sha256, sha512, Digest, DigestParseError, Hasher, sha256_of,
}
use ferro_protocols.Blob.Digest
use ferro_protocols.Blob.Memory.{BlobStoreError, io, digest_mismatch, not_found, invalid_digest}
use ferro_protocols.Blob.Interface.{BlobStore}
use ferro_protocols.Cargo.Json.{Json}
use ferro_protocols.Oci.Error.{
  OciError, new, with_status, from_store, manifest_invalid, manifest_blob_unknown, digest_invalid,
  manifest_unknown, unsupported,
}
use ferro_protocols.Oci.Name.{validate_name}
use ferro_protocols.Oci.Reference.{Reference, tag, digest, from_str}
use ferro_protocols.Oci.MediaType.{
  ManifestKind, image_manifest, image_index, artifact, classify_manifest_media_type,
}
use ferro_protocols.Oci.Registry.{ReferrerDescriptor, InMemoryState}
use ferro_protocols.Oci.Registry.Manifests.{get_manifest, put_manifest_with_referrer}
use ferro_protocols.Oci.Registry.Delete
use ferro_protocols.Oci.Content.{or_invalid, subject_text, verify_referenced_blobs, build_referrer}

unfoldable pub map_mutation_error : BlobStoreError → OciError
map_mutation_error (io t) = with_status 500 (new unsupported)
map_mutation_error (not_found t) = from_store (not_found t)
map_mutation_error (digest_mismatch a b) = from_store (digest_mismatch a b)
map_mutation_error (invalid_digest e) = from_store (invalid_digest e)

-- What a put that succeeds answers: the digest and the subject for the headers.
pub record Created : Type 0 where
  pub name : Text
  pub digest : Digest
  pub subject : Option Text

abbrev pub or_refuse : {A : Type 0} → Option A → Result OciError A
or_refuse none = err (new manifest_invalid)
or_refuse (some a) = ok a

abbrev pub unless_error : Option OciError → Result OciError Unit
unless_error none = ok tt
unless_error (some e) = err e

module _ {S : Type 0} (B : BlobStore S) (h : Hasher) (J : Json) where
  -- The digest of a reference has to be the SHA-256 of the body.
  unfoldable pub check_declared : Reference → Bytes → Result OciError Unit
  check_declared (tag t) body = ok tt
  check_declared (digest d) body = elim d.algo [
    | sha512 ↦ err (new digest_invalid)
    | sha256 ↦ if text_eq d.hex (h.sha256_hex body) then ok tt else err (new digest_invalid)
  ]

  -- All that is checked, with the reference, the content type and the parsed body.
  unfoldable pub prepare :
      Text
      → Text
      → Option Text
      → Bytes
      → S
      → InMemoryState
      → Result OciError (Reference × (Text × J.Value))
  prepare name reference_text content_type body s σ = unless_error (validate_name name) >>= λ valid.
      from_str reference_text >>= λ reference. or_refuse content_type >>= λ ct.
      or_refuse (classify_manifest_media_type ct) >>= λ kind.
      or_invalid (J.from_slice body) >>= λ v.
      verify_referenced_blobs B h J s name σ v kind >>= λ present.
      check_declared reference body >>= λ declared. ok (reference, (ct, v))

  abbrev pub on_put :
      Text
      → Bytes
      → J.Value
      → Result BlobStoreError Unit × InMemoryState
      → Result OciError Created × InMemoryState
  on_put name body v (ok t, σ) =
      (ok (record { name = name; digest = sha256_of h body; subject = subject_text B h J v }), σ)
  on_put name body v (err e, σ) = (err (map_mutation_error e), σ)

  abbrev pub put_prepared :
      (InMemoryState → Option Text)
      → Text
      → Bytes
      → InMemoryState
      → Result OciError (Reference × (Text × J.Value))
      → Result OciError Created × InMemoryState
  put_prepared save name body σ (err e) = (err e, σ)
  put_prepared save name body σ (ok (reference, (ct, v))) = on_put name body v (
      put_manifest_with_referrer save name reference (sha256_of h body) ct body
        (build_referrer B h J v (sha256_of h body) ct (length body)) σ)

  unfoldable pub put_manifest :
      (InMemoryState → Option Text)
      → Text
      → Text
      → Option Text
      → Bytes
      → S
      → InMemoryState
      → Result OciError Created × InMemoryState
  put_manifest save name reference_text content_type body s σ =
      put_prepared save name body σ (prepare name reference_text content_type body s σ)

abbrev pub on_deleted :
    Result BlobStoreError Bool × InMemoryState → Result OciError Unit × InMemoryState
on_deleted (ok true, σ) = (ok tt, σ)
on_deleted (ok false, σ) = (err (new manifest_unknown), σ)
on_deleted (err e, σ) = (err (map_mutation_error e), σ)

abbrev pub delete_parsed :
    (InMemoryState → Option Text)
    → Text
    → InMemoryState
    → Result OciError Reference
    → Result OciError Unit × InMemoryState
delete_parsed save name σ (err e) = (err e, σ)
delete_parsed save name σ (ok (tag t)) = (err (with_status 405 (new unsupported)), σ)
delete_parsed save name σ (ok (digest d)) =
    on_deleted (Delete.delete_manifest save name (digest d) σ)

abbrev pub delete_named :
    (InMemoryState → Option Text)
    → Text
    → Text
    → InMemoryState
    → Option OciError
    → Result OciError Unit × InMemoryState
delete_named save name reference_text σ (some e) = (err e, σ)
delete_named save name reference_text σ none = delete_parsed save name σ (from_str reference_text)

unfoldable pub delete_manifest :
    (InMemoryState → Option Text)
    → Text
    → Text
    → InMemoryState
    → Result OciError Unit × InMemoryState
delete_manifest save name reference_text σ =
    delete_named save name reference_text σ (validate_name name)
