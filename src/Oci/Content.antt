-- ===== src/Oci/Content.antt =====
-- crates/ferro-oci-server/src/handlers/manifest.rs: what a manifest refers to. The blobs and
-- manifests that it names are looked up, and the descriptor of a referrer is built.
pub mod Present
use ferro_protocols.Prelude.{
  ℕ, Bool, true, false, not, Bytes, List, [], ◌∷◌, Option, none, some, length, if◌then◌else◌,
}
use ferro_protocols.Prelude.Result.{Result, ok, err, ◌>>=◌, ◌>>◌}
use ferro_protocols.Prelude.Texts.{Text, codes, text_eq}
use ferro_protocols.Blob.Digest.{
  DigestAlgo, sha256, sha512, Digest, DigestParseError, Hasher, sha256_of,
}
use ferro_protocols.Blob.Digest
use ferro_protocols.Blob.Memory.{BlobStoreError, io, digest_mismatch, not_found, invalid_digest}
use ferro_protocols.Blob.Interface.{BlobStore}
use ferro_protocols.Cargo.Json.{Json}
use ferro_protocols.Oci.Error.{
  OciError, new, with_status, from_store, manifest_invalid, manifest_blob_unknown, digest_invalid,
  manifest_unknown, unsupported,
}
use ferro_protocols.Oci.Name.{validate_name}
use ferro_protocols.Oci.Reference.{Reference, tag, digest, from_str}
use ferro_protocols.Oci.MediaType.{
  ManifestKind, image_manifest, image_index, artifact, classify_manifest_media_type,
}
use ferro_protocols.Oci.Registry.{ReferrerDescriptor, InMemoryState}
use ferro_protocols.Oci.Registry.Manifests.{get_manifest, put_manifest_with_referrer}
use ferro_protocols.Oci.Registry.Delete

abbrev pub empty_descriptor_digest : Text
empty_descriptor_digest =
    codes "sha256:44136fa355b3678a1146ad16f7e8649e94fb4fc21fe77e8310c060f61caaff8a"

abbrev pub or_invalid : {A E : Type 0} → Result E A → Result OciError A
or_invalid (ok a) = ok a
or_invalid (err e) = err (new manifest_invalid)

abbrev pub or_store_error : {A : Type 0} → Result BlobStoreError A → Result OciError A
or_store_error (ok a) = ok a
or_store_error (err e) = err (from_store e)

abbrev pub or_none : {A B : Type 0} → Option A → (A → Option B) → Option B
or_none none f = none
or_none (some a) f = f a

module _ {S : Type 0} (B : BlobStore S) (h : Hasher) (J : Json) where
  abbrev pub demand : Bool → Result OciError Unit
  demand true = ok tt
  demand false = err (new manifest_blob_unknown)

  abbrev pub check_stored : S → Text → Result OciError Unit
  check_stored s text = or_invalid (Digest.parse text) >>= λ d.
      or_store_error (B.contains d s) >>= λ present. demand present

  unfoldable pub check_blob_present : S → Text → Result OciError Unit
  check_blob_present s text =
      if text_eq text empty_descriptor_digest then ok tt else check_stored s text

  -- `v.get(key).and_then(Value::as_str)`
  abbrev pub text_at : Text → J.Value → Option Text
  text_at key v = or_none (J.get v key) J.as_str

  abbrev pub check_text : S → Option Text → Result OciError Unit
  check_text s none = ok tt
  check_text s (some text) = check_blob_present s text

  unfoldable pub check_layers : S → List J.Value → Result OciError Unit
  check_layers s [] = ok tt
  check_layers s (v ∷ vs) = check_text s (text_at (codes "digest") v) >> check_layers s vs

  -- The config counts only where it is an object.
  abbrev pub config_digest : J.Value → Option Text
  config_digest v =
      or_none (J.get v (codes "config"))
        (λ c. or_none (J.as_object c) (λ o. text_at (codes "digest") c))

  abbrev pub array_at : Text → J.Value → List J.Value
  array_at key v = or_nil (or_none (J.get v key) J.as_array)
    where
      or_nil : Option (List J.Value) → List J.Value
      or_nil none = []
      or_nil (some vs) = vs

  abbrev pub is_found : Option (Digest × (Text × Bytes)) → Bool
  is_found none = false
  is_found (some m) = true

  abbrev pub check_child_text : S → Text → InMemoryState → Option Text → Result OciError Unit
  check_child_text s name σ none = ok tt
  check_child_text s name σ (some text) = or_invalid (Digest.parse text) >>= λ d.
      or_store_error (get_manifest name (digest d) σ) >>= λ m.
      if is_found m then ok tt else or_store_error (B.contains d s) >>= λ present. demand present

  unfoldable pub check_children : S → Text → InMemoryState → List J.Value → Result OciError Unit
  check_children s name σ [] = ok tt
  check_children s name σ (v ∷ vs) =
      check_child_text s name σ (text_at (codes "digest") v) >> check_children s name σ vs

  unfoldable pub check_image : S → J.Value → Result OciError Unit
  check_image s v = check_text s (config_digest v) >> check_layers s (array_at (codes "layers") v)

  unfoldable pub verify_referenced_blobs :
      S → Text → InMemoryState → J.Value → ManifestKind → Result OciError Unit
  verify_referenced_blobs s name σ v image_manifest = check_image s v
  verify_referenced_blobs s name σ v artifact = check_image s v
  verify_referenced_blobs s name σ v image_index =
      check_children s name σ (array_at (codes "manifests") v)

  abbrev pub unless_empty : Option Text → Option Text
  unless_empty none = none
  unless_empty (some []) = none
  unless_empty (some (c ∷ s)) = some (c ∷ s)

  abbrev pub or_else : Option Text → Option Text → Option Text
  or_else none b = b
  or_else (some a) b = some a

  abbrev pub artifact_type_of : J.Value → Option Text
  artifact_type_of v =
      or_else (unless_empty (text_at (codes "artifactType") v))
        (or_none (J.get v (codes "config")) (text_at (codes "mediaType")))

  abbrev pub with_text : Text → Option Text → List (Text × Text) → List (Text × Text)
  with_text k none m = m
  with_text k (some s) m = (k, s) ∷ m

  unfoldable pub text_values : List (Text × J.Value) → List (Text × Text)
  text_values [] = []
  text_values ((k, v) ∷ m) = with_text k (J.as_str v) (text_values m)

  abbrev pub annotations_of : J.Value → Option (List (Text × Text))
  annotations_of v =
      or_none (or_none (J.get v (codes "annotations")) J.as_object) (λ m. some (text_values m))

  abbrev pub parsed_or_none : Result DigestParseError Digest → Option Digest
  parsed_or_none (ok d) = some d
  parsed_or_none (err e) = none

  abbrev pub subject_text : J.Value → Option Text
  subject_text v = or_none (J.get v (codes "subject")) (text_at (codes "digest"))

  unfoldable pub build_referrer : J.Value → Digest → Text → ℕ → Option (Digest × ReferrerDescriptor)
  build_referrer v d content_type body_len =
      or_none (or_none (subject_text v) (λ s. parsed_or_none (Digest.parse s))) λ subject. some (
        subject,
        record {
          media_type = content_type;
          digest = d;
          size = body_len;
          artifact_type = artifact_type_of v;
          annotations = annotations_of v;
        },
      )
