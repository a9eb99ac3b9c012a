-- ===== src/Cargo/Registry/Published.antt =====
-- A publish that is acknowledged is done, and its tarball can be downloaded.
use mathlib.Core.Path.{subst}
use ferro_protocols.Prelude.{◌≡◌, refl, Bytes, Option, none, some, arith}
use ferro_protocols.Prelude.Result.{Result, ok, err}
use ferro_protocols.Prelude.Maps.{lookup}
use ferro_protocols.Prelude.Texts.{Text, codes, text_eq}
use ferro_protocols.Blob.Digest.{Digest}
use ferro_protocols.Blob.Memory.{BlobStoreError}
use ferro_protocols.Blob.Interface.{BlobStore, IsBlobStore}
use ferro_protocols.Cargo.Error.{CargoError}
use ferro_protocols.Cargo.Name.{canonical_name, validate_name}
use ferro_protocols.Cargo.Index.{PublishManifest, into_index_entry}
use ferro_protocols.Cargo.Publish.{PublishRequest}
use ferro_protocols.Cargo.Publish.Accepts.{IsBody}
use ferro_protocols.Cargo.Registry.Added.{IsAdded, add_version-IsAdded}
use ferro_protocols.Cargo.Registry.Metadata.{
  HasText, HasVersion, ReadsFields, entry_of, digest_of, IsRequest,
}
use ferro_protocols.Cargo.Registry.Checked.{prepare-IsRequest}
use ferro_protocols.Cargo.Registry.{
  CrateRecord, Crates, CargoState, Env, Prepared, prepare, check_existing, add_version,
}
use ferro_protocols.Cargo.Registry.Ingest.{
  saved, after_put, unless_refused, ingest, on_prepared, handle_publish, handle_download, stored,
}

module _ {S : Type 0} (B : BlobStore S) (save : Crates → Option Text) where
  -- An acknowledged publish added its version, stored its tarball under its digest, and its crates
  -- were saved.
  abbrev pub IsDone : Prepared → Crates → Result CargoError Unit × CargoState S → Type 0
  IsDone p before (err e, σ) = Unit
  IsDone p before (ok _, σ) =
      IsAdded p.name p.entry p.digest before σ.crates
      × ((B.get p.digest σ.blobs ≡ ok p.tarball) × (save σ.crates ≡ none))

  saved-IsDone :
      (p : Prepared) (before after : Crates) (s : S) (o : Option Text)
      → save after ≡ o
      → IsAdded p.name p.entry p.digest before after
      → B.get p.digest s ≡ ok p.tarball
      → IsDone p before (saved B save (canonical_name p.name) p.entry.vers p.digest after s o)
  saved-IsDone p before after s none h a g = (a, (g, h))
  saved-IsDone p before after s (some e) h a g = tt

  after_put-IsDone :
      (p : Prepared) (crates : Crates) (s : S) (r : Result BlobStoreError Unit × S)
      → IsBlobStore B
      → B.put p.digest p.tarball s ≡ r
      → check_existing p (lookup text_eq (canonical_name p.name) crates) ≡ none
      → IsDone p crates (after_put B save p crates r)
  after_put-IsDone p crates s (err e, s') L h c = tt
  after_put-IsDone p crates s (ok _, s') L h c =
      let after = add_version (canonical_name p.name) p.entry p.digest crates in
      saved-IsDone p crates after s' (save after) refl (add_version-IsAdded p crates c)
        (L.get-put p.digest p.tarball s s' h)

  unless_refused-IsDone :
      (p : Prepared) (σ : CargoState S) (o : Option CargoError)
      → IsBlobStore B
      → check_existing p (lookup text_eq (canonical_name p.name) σ.crates) ≡ o
      → IsDone p σ.crates (unless_refused B save p σ o)
  unless_refused-IsDone p σ (some e) L h = tt
  unless_refused-IsDone p σ none L h =
      after_put-IsDone p σ.crates σ.blobs (B.put p.digest p.tarball σ.blobs) L refl h

  pub ingest-IsDone :
      (p : Prepared) (σ : CargoState S) → IsBlobStore B → IsDone p σ.crates (ingest B save p σ)
  unfolding ingest
  ingest-IsDone p σ L =
      unless_refused-IsDone p σ (check_existing p (lookup text_eq (canonical_name p.name) σ.crates))
        L refl

on_prepared_parts :
    {S : Type 0} (B : BlobStore S) (save : Crates → Option Text) (σ σ' : CargoState S)
    (r : Result CargoError Prepared)
    → on_prepared B save σ r ≡ (ok tt, σ')
    → (p : Prepared) × ((r ≡ ok p) × (ingest B save p σ ≡ (ok tt, σ')))
on_prepared_parts B save σ σ' (err e) h = absurd (ground arith)
on_prepared_parts B save σ σ' (ok p) h = (p, (refl, h))

-- Where the blob store keeps its promises, serde_json reads the fields of the metadata, and the
-- empty text is not semver: a publish that is acknowledged had a body that is laid out as metadata and a tarball. The name of
-- the metadata is valid, its version is semver, and a checksum that it declares is empty or that of
-- the tarball. The record of the crate has the entry of that name, version and checksum more, and
-- no entry that was there had that version; its other tarballs, its owners and all other crates are
-- as they were. The tarball is in the store under its own digest, to which the version maps, and
-- the crates after it were saved.
pub handle_publish-IsDone :
    {S : Type 0} (B : BlobStore S) (save : Crates → Option Text) (env : Env) (body : Bytes)
    (σ σ' : CargoState S)
    → IsBlobStore B
    → ReadsFields env
    → handle_publish B save env body σ ≡ (ok tt, σ')
    → (r : PublishRequest env.json.Value) × ((m : PublishManifest) × (IsRequest env body r m
          × (((entry_of env r m).cksum ≡ env.hasher.sha256_hex r.tarball)
              × (IsAdded
                    (entry_of env r m).name
                    (entry_of env r m)
                    (digest_of env r)
                    σ.crates
                    σ'.crates
                  × ((B.get (digest_of env r) σ'.blobs ≡ ok r.tarball)
                      × (save σ'.crates ≡ none))))))
unfolding handle_publish into_index_entry
handle_publish-IsDone B save env body σ σ' L laws h =
    let (p, (e, i)) = on_prepared_parts B save σ σ' (prepare env body) h in
    let (r, (m, (request, same))) = prepare-IsRequest env laws body p e in
    let done : IsDone B save p σ.crates (ok tt, σ') =
      subst (IsDone B save p σ.crates) i (ingest-IsDone B save p σ L) in
    (r, (m, (request, (refl, subst (λ q. IsDone B save q σ.crates (ok tt, σ')) same done))))

download_lem :
    {S : Type 0} (B : BlobStore S) (name version : Text) (σ : CargoState S) (rec : CrateRecord)
    (d : Digest) (b : Bytes)
    → validate_name name ≡ none
    → lookup text_eq (canonical_name name) σ.crates ≡ some rec
    → lookup text_eq version rec.tarballs ≡ some d
    → B.get d σ.blobs ≡ ok b
    → handle_download B name version σ ≡ ok b
unfolding handle_download
download_lem B name version σ rec d b hv hr ht hb = cc

-- Where the blob store keeps its promises, serde_json reads the fields of the metadata, and the
-- empty text is not semver: after a publish that was acknowledged, the body was laid out as metadata and a tarball, and the
-- download of the name and the version that the metadata has returns that tarball.
pub handle_download-handle_publish :
    {S : Type 0} (B : BlobStore S) (save : Crates → Option Text) (env : Env) (body : Bytes)
    (σ σ' : CargoState S)
    → IsBlobStore B
    → ReadsFields env
    → handle_publish B save env body σ ≡ (ok tt, σ')
    → (r : PublishRequest env.json.Value) × ((name : Text) × ((vers : Text) × (IsBody env.json body
              r
            × (HasText env.json r.manifest (codes "name") name
                × (HasVersion env.json r.manifest vers
                    × (handle_download B name vers σ' ≡ ok r.tarball))))))
handle_download-handle_publish B save env body σ σ' L laws h =
    let (r, (m, (request, (sum, (added, (stored, saved)))))) =
      handle_publish-IsDone B save env body σ σ' L laws h in
    let entry = entry_of env r m in
    (
      r,
      (
        entry.name,
        (
          entry.vers,
          (
            request.laid_out,
            (
              request.named,
              (
                request.versioned,
                download_lem B entry.name entry.vers σ' added.rec (digest_of env r) r.tarball
                    request.valid_name added.found added.mapped stored,
              ),
            ),
          ),
        ),
      ),
    )
