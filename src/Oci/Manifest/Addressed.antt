-- ===== src/Oci/Manifest/Addressed.antt =====
-- Every manifest is kept and served under the SHA-256 of its own bytes.
use ferro_protocols.Prelude.{
  ◌≡◌, refl, sym, ap, ◌∙◌, Bool, true, false, Bytes, List, [], ◌∷◌, Option, none, some, arith,
  Option-cases, inl, inr,
}
use ferro_protocols.Prelude.Result.{Result, ok, err}
use ferro_protocols.Prelude.Maps.{lookup}
use ferro_protocols.Prelude.Texts.{Text, text_eq}
use ferro_protocols.Blob.Digest.{Digest, Hasher, sha256_of, to_string}
use ferro_protocols.Blob.Digest
use ferro_protocols.Blob.Memory.{BlobStoreError}
use ferro_protocols.Blob.Interface.{BlobStore}
use ferro_protocols.Cargo.Json.{Json}
use ferro_protocols.Oci.Error.{OciError}
use ferro_protocols.Oci.Name.{validate_name}
use ferro_protocols.Oci.Reference.{Reference, tag, digest, from_str}
use ferro_protocols.Oci.Registry.{ReferrerDescriptor, InMemoryState}
use ferro_protocols.Oci.Registry.Tables.{at}
use ferro_protocols.Oci.Registry.Manifests.{
  get_manifest, of_reference, of_key, of_parsed, key_of, saved_or, applied, undone,
  put_manifest_with_referrer,
}
use ferro_protocols.Oci.Registry.Manifests.Seen.{get_manifest_lem}
use ferro_protocols.Oci.Registry.Manifests.Rollback.{undone-LooksSame}
use ferro_protocols.Oci.Registry.Delete.{deleted, undeleted, settle, delete_found}
use ferro_protocols.Oci.Registry.Delete
use ferro_protocols.Oci.Manifest.{
  put_manifest, put_prepared, prepare, on_put, delete_manifest, delete_named, delete_parsed,
  on_deleted,
}
use ferro_protocols.Oci.Manifest.Keyed.{
  IsAddressed, entry-IsAddressed, change-IsAddressed, same-IsAddressed,
}

-- A request that changes the manifests, with the outcome of its snapshot and, for a put, the blobs.
pub data Request (S : Type 0) : Type 0 where
  put : Text → Text → Option Text → Bytes → S → (InMemoryState → Option Text) → Request S
  delete : Text → Text → (InMemoryState → Option Text) → Request S

module _ {S : Type 0} (B : BlobStore S) (h : Hasher) (J : Json) where
  unfoldable pub serve : Request S → InMemoryState → InMemoryState
  serve (put name reference content_type body s save) σ =
      (put_manifest B h J save name reference content_type body s σ).1
  serve (delete name reference save) σ = (delete_manifest save name reference σ).1

  unfoldable pub serve_all : List (Request S) → InMemoryState → InMemoryState
  serve_all [] σ = σ
  serve_all (r ∷ rs) σ = serve_all rs (serve r σ)

module _ (h : Hasher) where
  module _ {S : Type 0} (B : BlobStore S) (J : Json) (save : InMemoryState → Option Text) where
    saved_or-IsAddressed :
        (undo : InMemoryState → InMemoryState) (σ : InMemoryState) (o : Option Text)
        → IsAddressed h σ.manifests
        → IsAddressed h (InMemoryState.manifests (undo σ))
        → IsAddressed h (InMemoryState.manifests (saved_or undo σ o).1)
    saved_or-IsAddressed undo σ none a b = a
    saved_or-IsAddressed undo σ (some e) a b = b

    put_referrer-IsAddressed :
        (name : Text) (r : Reference) (ct : Text) (body : Bytes)
        (o : Option (Digest × ReferrerDescriptor)) (σ : InMemoryState)
        → IsAddressed h σ.manifests
        → IsAddressed h (
            InMemoryState.manifests
              (put_manifest_with_referrer save name r (sha256_of h body) ct body o σ).1)
    unfolding put_manifest_with_referrer
    put_referrer-IsAddressed name r ct body o σ a =
        let key : Text = to_string (sha256_of h body) in
        saved_or-IsAddressed (undone name r key o σ) (applied name r key ct body o σ) (save _)
          (entry-IsAddressed h name key (ct, body) σ.manifests refl a)
          (same-IsAddressed h σ.manifests _ (undone-LooksSame name r key ct body o σ).0 a)

    on_put-IsAddressed :
        (name : Text) (body : Bytes) (v : J.Value) (r : Result BlobStoreError Unit × InMemoryState)
        → IsAddressed h (InMemoryState.manifests (r.1))
        → IsAddressed h (InMemoryState.manifests (on_put B h J name body v r).1)
    on_put-IsAddressed name body v (ok t, σ) a = a
    on_put-IsAddressed name body v (err e, σ) a = a

    put_prepared-IsAddressed :
        (name : Text) (body : Bytes) (σ : InMemoryState)
        (r : Result OciError (Reference × (Text × J.Value)))
        → IsAddressed h σ.manifests
        → IsAddressed h (InMemoryState.manifests (put_prepared B h J save name body σ r).1)
    put_prepared-IsAddressed name body σ (err e) a = a
    put_prepared-IsAddressed name body σ (ok (r, (ct, v))) a =
        on_put-IsAddressed name body v _ (put_referrer-IsAddressed name r ct body _ σ a)

    settle-IsAddressed :
        (name key : Text) (m : Text × Bytes) (σ : InMemoryState) (o : Option Text)
        → lookup text_eq key (at name σ.manifests) ≡ some m
        → IsAddressed h σ.manifests
        → IsAddressed h (InMemoryState.manifests (settle save name key m σ o).1)
    settle-IsAddressed name key m σ none e a = change-IsAddressed h name key σ.manifests a
    settle-IsAddressed name key m σ (some x) e a =
        entry-IsAddressed h name key m _ (a name key m e)
          (change-IsAddressed h name key σ.manifests a)

    found-IsAddressed :
        (name key : Text) (σ : InMemoryState) (o : Option (Text × Bytes))
        → lookup text_eq key (at name σ.manifests) ≡ o
        → IsAddressed h σ.manifests
        → IsAddressed h (InMemoryState.manifests (delete_found save name key σ o).1)
    found-IsAddressed name key σ none e a = a
    found-IsAddressed name key σ (some m) e a = settle-IsAddressed name key m σ _ e a

    on_deleted-IsAddressed :
        (r : Result BlobStoreError Bool × InMemoryState)
        → IsAddressed h (InMemoryState.manifests (r.1))
        → IsAddressed h (InMemoryState.manifests (on_deleted r).1)
    on_deleted-IsAddressed (ok true, σ) a = a
    on_deleted-IsAddressed (ok false, σ) a = a
    on_deleted-IsAddressed (err e, σ) a = a

    delete_parsed-IsAddressed :
        (name : Text) (σ : InMemoryState) (r : Result OciError Reference)
        → IsAddressed h σ.manifests
        → IsAddressed h (InMemoryState.manifests (delete_parsed save name σ r).1)
    unfolding Delete.delete_manifest
    delete_parsed-IsAddressed name σ (err e) a = a
    delete_parsed-IsAddressed name σ (ok (tag t)) a = a
    delete_parsed-IsAddressed name σ (ok (digest d)) a =
        on_deleted-IsAddressed _ (found-IsAddressed name (to_string d) σ _ refl a)

    delete_named-IsAddressed :
        (name reference : Text) (σ : InMemoryState) (o : Option OciError)
        → IsAddressed h σ.manifests
        → IsAddressed h (InMemoryState.manifests (delete_named save name reference σ o).1)
    delete_named-IsAddressed name reference σ none a =
        delete_parsed-IsAddressed name σ (from_str reference) a
    delete_named-IsAddressed name reference σ (some e) a = a

  module _ {S : Type 0} (B : BlobStore S) (J : Json) where
    serve-IsAddressed :
        (r : Request S) (σ : InMemoryState)
        → IsAddressed h σ.manifests
        → IsAddressed h (InMemoryState.manifests (serve B h J r σ))
    unfolding serve put_manifest delete_manifest
    serve-IsAddressed (put name reference ct body s save) σ a =
        put_prepared-IsAddressed B J save name body σ (prepare B h J name reference ct body s σ) a
    serve-IsAddressed (delete name reference save) σ a =
        delete_named-IsAddressed B J save name reference σ (validate_name name) a

    serve_all-IsAddressed :
        (rs : List (Request S)) (σ : InMemoryState)
        → IsAddressed h σ.manifests
        → IsAddressed h (InMemoryState.manifests (serve_all B h J rs σ))
    unfolding serve_all
    serve_all-IsAddressed [] σ a = a
    serve_all-IsAddressed (r ∷ rs) σ a =
        serve_all-IsAddressed rs (serve B h J r σ) (serve-IsAddressed r σ a)

  module _ (hex : (b : Bytes) → Digest.parse (to_string (sha256_of h b)) ≡ ok (sha256_of h b)) where
    of_reference-IsAddressed :
        (name : Text) (σ : InMemoryState) (o : Option Text) (d : Digest) (media_type : Text)
        (body : Bytes)
        → IsAddressed h σ.manifests
        → of_reference (at name σ.manifests) o ≡ ok (some (d, (media_type, body)))
        → d ≡ sha256_of h body
    of_reference-IsAddressed name σ none d mt body a e = absurd (ground arith)
    of_reference-IsAddressed name σ (some k) d mt body a e =
        elim (Option-cases (lookup text_eq k (at name σ.manifests))) [
          | inl q ↦ absurd (ground (arith, q, e))
          | inr (m, q) ↦
              let parsed : of_parsed m (Digest.parse k) ≡ ok (some (d, (mt, body))) =
                ap (of_key k) (sym q) ∙ e in
              let own : Digest.parse k ≡ ok (sha256_of h m.1) =
                ap Digest.parse (a name k m q) ∙ hex m.1 in
              ground (arith, parsed, own)
        ]

  -- From a state in which every manifest is kept under the SHA-256 of its bytes, as an empty one
  -- is, and where the texts of such digests are read back as them: after any sequence of puts and
  -- deletions, saved or not, a manifest that is read by any tag or digest comes with the SHA-256 of
  -- its own bytes.
  pub get_manifest-serve_all :
      {S : Type 0} (B : BlobStore S) (J : Json)
      (hex : (b : Bytes) → Digest.parse (to_string (sha256_of h b)) ≡ ok (sha256_of h b))
      (rs : List (Request S)) (σ : InMemoryState) (name : Text) (r : Reference) (d : Digest)
      (media_type : Text) (body : Bytes)
      → IsAddressed h σ.manifests
      → get_manifest name r (serve_all B h J rs σ) ≡ ok (some (d, (media_type, body)))
      → d ≡ sha256_of h body
  get_manifest-serve_all B J hex rs σ name r d mt body a e =
      let τ : InMemoryState = serve_all B h J rs σ in
      of_reference-IsAddressed hex name τ (key_of (at name τ.tags) r) d mt body
        (serve_all-IsAddressed B J rs σ a) (sym (get_manifest_lem name r τ) ∙ e)
