-- ===== src/Oci/Content/Present.antt =====
-- Where the checks of a manifest's content pass, what it refers to is there.
use mathlib.Core.Path.{subst}
use ferro_protocols.Prelude.{
  ◌≡◌, ◌≢◌, ◌⊎◌, refl, ap, ◌∙◌, Bool, true, false, List, [], ◌∷◌, Option, none, some, arith,
  Bool-cases, inl, inr, All,
}
use ferro_protocols.Prelude.Result.{Result, ok, err, bind_parts}
use ferro_protocols.Prelude.Texts.{Text, codes, text_eq, text_eq_iff}
use ferro_protocols.Blob.Digest.{Digest, DigestParseError, Hasher}
use ferro_protocols.Blob.Digest
use ferro_protocols.Blob.Memory.{BlobStoreError}
use ferro_protocols.Blob.Interface.{BlobStore}
use ferro_protocols.Cargo.Json.{Json}
use ferro_protocols.Oci.MediaType.{ManifestKind, image_manifest, image_index, artifact}
use ferro_protocols.Oci.Registry.{InMemoryState}
use ferro_protocols.Oci.Content.{
  empty_descriptor_digest, or_invalid, or_store_error, demand, check_stored, check_blob_present,
  text_at, check_text, check_layers, config_digest, array_at, check_image, verify_referenced_blobs,
}

or_invalid_ok : {A E : Type 0} (r : Result E A) (a : A) → or_invalid r ≡ ok a → r ≡ ok a
or_invalid_ok (ok b) a h = ground (arith, h)
or_invalid_ok (err e) a h = absurd (ground (arith, h))

or_store_error_ok :
    {A : Type 0} (r : Result BlobStoreError A) (a : A) → or_store_error r ≡ ok a → r ≡ ok a
or_store_error_ok (ok b) a h = ground (arith, h)
or_store_error_ok (err e) a h = absurd (ground (arith, h))

module _ {S : Type 0} (B : BlobStore S) (h : Hasher) (J : Json) (s : S) where
  -- The blob of a digest text is in the store, or is the one that is always there.
  abbrev pub IsThere : Text → Type 0
  IsThere text =
      (text ≡ codes "sha256:44136fa355b3678a1146ad16f7e8649e94fb4fc21fe77e8310c060f61caaff8a")
      ⊎ ((d : Digest) × ((Digest.parse text ≡ ok d) × (B.contains d s ≡ ok true)))

  demand-true : (b : Bool) → demand B h J b ≡ ok tt → b ≡ true
  demand-true true e = refl
  demand-true false e = absurd (ground arith)

  check_stored-parts :
      (text : Text)
      → check_stored B h J s text ≡ ok tt
      → (d : Digest) × ((Digest.parse text ≡ ok d) × (B.contains d s ≡ ok true))
  check_stored-parts text e =
      let (d, (p, k)) = bind_parts (or_invalid (Digest.parse text)) _ tt e in
      let (b, (c, r)) = bind_parts (or_store_error (B.contains d s)) _ tt k in
      (
        d,
        (
          or_invalid_ok (Digest.parse text) d p,
          or_store_error_ok (B.contains d s) b c ∙ ap ok (demand-true b r),
        ),
      )

  check_blob_present-IsThere :
      (text : Text) → check_blob_present B h J s text ≡ ok tt → IsThere text
  unfolding check_blob_present
  check_blob_present-IsThere text e = elim (Bool-cases (text_eq text empty_descriptor_digest)) [
    | inl q ↦ inl ((text_eq_iff text empty_descriptor_digest).0 q)
    | inr q ↦ inr (check_stored-parts text (ground (arith, q, e)))
  ]

  check_text-IsThere :
      (o : Option Text) → check_text B h J s o ≡ ok tt → (t : Text) → o ≡ some t → IsThere t
  check_text-IsThere none e t q = absurd (ground arith)
  check_text-IsThere (some u) e t q = check_blob_present-IsThere t (ground (arith, e, q))

  -- The member of an object that serde_json reads, where it is a text.
  abbrev pub HasText : J.Value → Text → Text → Type 0
  HasText v key t = (x : J.Value) × ((J.get v key ≡ some x) × (J.as_str x ≡ some t))

  text_at-HasText : (v : J.Value) (key t : Text) → HasText v key t → text_at B h J key v ≡ some t
  text_at-HasText v key t (x, (g, e)) = cc

  -- What has a `digest` that is a text refers to a blob that is there.
  abbrev pub DigestIsThere : J.Value → Type 0
  DigestIsThere v = (t : Text) → HasText v (codes "digest") t → IsThere t

  check_layers-IsThere :
      (vs : List J.Value) → check_layers B h J s vs ≡ ok tt → All DigestIsThere vs
  unfolding check_layers
  check_layers-IsThere [] e = tt
  check_layers-IsThere (v ∷ vs) e =
      let (u, (a, b)) = bind_parts (check_text B h J s (text_at B h J (codes "digest") v)) _ tt e in
      (
        (λ t has.
            check_text-IsThere (text_at B h J (codes "digest") v) a t
              (text_at-HasText v (codes "digest") t has)),
        check_layers-IsThere vs b,
      )

  -- The `config`, where it is an object, and every element of `layers`, where that is an array.
  abbrev pub ImageIsThere : J.Value → Type 0
  ImageIsThere v =
      ((c : J.Value) (m : List (Text × J.Value))
        → J.get v (codes "config") ≡ some c
        → J.as_object c ≡ some m
        → DigestIsThere c)
      × ((l : J.Value) (vs : List J.Value)
          → J.get v (codes "layers") ≡ some l
          → J.as_array l ≡ some vs
          → All DigestIsThere vs)

  config_digest-HasText :
      (v c : J.Value) (m : List (Text × J.Value)) (t : Text)
      → J.get v (codes "config") ≡ some c
      → J.as_object c ≡ some m
      → HasText c (codes "digest") t
      → config_digest B h J v ≡ some t
  config_digest-HasText v c m t g o (x, (d, e)) = ground arith

  array_at_lem :
      (v l : J.Value) (vs : List J.Value) (key : Text)
      → J.get v key ≡ some l
      → J.as_array l ≡ some vs
      → array_at B h J key v ≡ vs
  array_at_lem v l vs key g a = ground arith

  check_image-IsThere : (v : J.Value) → check_image B h J s v ≡ ok tt → ImageIsThere v
  unfolding check_image
  check_image-IsThere v e =
      let (u, (a, b)) = bind_parts (check_text B h J s (config_digest B h J v)) _ tt e in
      (
        (λ c m g o t has.
            check_text-IsThere (config_digest B h J v) a t (config_digest-HasText v c m t g o has)),
        (λ l vs g k.
            subst (All DigestIsThere) (array_at_lem v l vs (codes "layers") g k)
              (check_layers-IsThere (array_at B h J (codes "layers") v) b)),
      )

  pub verify-IsThere :
      (name : Text) (σ : InMemoryState) (v : J.Value) (kind : ManifestKind)
      → kind ≢ image_index
      → verify_referenced_blobs B h J s name σ v kind ≡ ok tt
      → ImageIsThere v
  unfolding verify_referenced_blobs
  verify-IsThere name σ v image_manifest n e = check_image-IsThere v e
  verify-IsThere name σ v artifact n e = check_image-IsThere v e
  verify-IsThere name σ v image_index n e = absurd (n refl)
