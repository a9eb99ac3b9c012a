-- ===== src/Cargo/Registry/Ingest.antt =====
-- handlers.rs: the part of `handle_publish` under the lock, with the rollback of a publish that
-- could not be saved, and `handle_download`.
use ferro_protocols.Prelude.{
  Bool, true, false, Bytes, List, [], ◌∷◌, ◌++◌, Option, none, some, ◌&&◌, if◌then◌else◌,
}
use ferro_protocols.Prelude.Result.{Result, ok, err, ◌>>=◌, ◌>>◌}
use ferro_protocols.Prelude.Maps.{lookup, insert, remove, any_value}
use ferro_protocols.Prelude.Texts.{Text, text_eq}
use ferro_protocols.Blob.Digest.{Digest, digest_eq}
use ferro_protocols.Blob.Memory.{BlobStoreError}
use ferro_protocols.Blob.Interface.{BlobStore}
use ferro_protocols.Cargo.Error.{CargoError, not_found, storage, persistence}
use ferro_protocols.Cargo.Name.{validate_name, canonical_name}
use ferro_protocols.Cargo.Index.{IndexEntry}
use ferro_protocols.Cargo.Registry.{
  CrateRecord, Crates, CargoState, Env, Prepared, prepare, check_existing, add_version, or_error,
  or_fail,
}

-- `entries.retain(|e| e.vers != vers)`
unfoldable pub without_version : Text → List IndexEntry → List IndexEntry
without_version vers [] = []
without_version vers (e ∷ es) =
    let rest = without_version vers es in if text_eq e.vers vers then rest else e ∷ rest

abbrev pub maps_to : Digest → Option Digest → Bool
maps_to digest none = false
maps_to digest (some d) = digest_eq d digest

abbrev pub without_tarball : Text → Digest → List (Text × Digest) → List (Text × Digest)
without_tarball vers digest tarballs =
    if maps_to digest (lookup text_eq vers tarballs) then remove text_eq vers tarballs else tarballs

abbrev pub rolled_back : Text → Digest → CrateRecord → CrateRecord
rolled_back vers digest rec = record {
  entries = without_version vers rec.entries;
  tarballs = without_tarball vers digest rec.tarballs;
  owners = rec.owners;
}

abbrev pub is_nil {ℓ} : {A : Type ℓ} → List A → Bool
is_nil [] = true
is_nil (x ∷ xs) = false

abbrev pub is_bare : CrateRecord → Bool
is_bare rec = is_nil rec.entries && (is_nil rec.tarballs && is_nil rec.owners)

abbrev pub put_back : Text → CrateRecord → Crates → Crates
put_back key rec crates =
    if is_bare rec then remove text_eq key crates else insert text_eq key rec crates

abbrev pub rollback_record : Text → Text → Digest → Crates → Option CrateRecord → Crates
rollback_record key vers digest crates none = crates
rollback_record key vers digest crates (some rec) =
    put_back key (rolled_back vers digest rec) crates

unfoldable pub rollback_publish : Crates → Text → Text → Digest → Crates
rollback_publish crates key vers digest =
    rollback_record key vers digest crates (lookup text_eq key crates)

abbrev pub has_tarball : Digest → CrateRecord → Bool
has_tarball digest rec = any_value (λ d. digest_eq d digest) rec.tarballs

unfoldable pub digest_referenced_in : Crates → Digest → Bool
digest_referenced_in crates digest = any_value (has_tarball digest) crates

module _ {S : Type 0} (B : BlobStore S) where
  -- The blob of a publish that was rolled back goes, unless a version still maps to it; an error of
  -- that delete is only logged.
  abbrev pub drop_orphan : Crates → Digest → S → S
  drop_orphan crates digest s =
      if digest_referenced_in crates digest then s else (B.delete digest s).1

  abbrev pub roll_back : Text → Text → Digest → Crates → S → CargoState S
  roll_back key vers digest crates s =
      let back = rollback_publish crates key vers digest in
      record { blobs = drop_orphan back digest s; crates = back }

module _ {S : Type 0} (B : BlobStore S) (save : Crates → Option Text) where
  -- `save` is `persist_locked`: the error of a snapshot that was not written.
  abbrev pub saved :
      Text → Text → Digest → Crates → S → Option Text → Result CargoError Unit × CargoState S
  saved key vers digest crates s none = (ok tt, record { blobs = s; crates = crates })
  saved key vers digest crates s (some e) =
      (err (persistence e), roll_back B key vers digest crates s)

  abbrev pub after_put :
      Prepared → Crates → Result BlobStoreError Unit × S → Result CargoError Unit × CargoState S
  after_put p crates (err e, s) = (err (storage e), record { blobs = s; crates = crates })
  after_put p crates (ok _, s) =
      let key = canonical_name p.name in
      let added = add_version key p.entry p.digest crates in
      saved key p.entry.vers p.digest added s (save added)

  abbrev pub unless_refused :
      Prepared → CargoState S → Option CargoError → Result CargoError Unit × CargoState S
  unless_refused p σ (some e) = (err e, σ)
  unless_refused p σ none = after_put p σ.crates (B.put p.digest p.tarball σ.blobs)

  -- `handle_publish` from the lock on
  unfoldable pub ingest : Prepared → CargoState S → Result CargoError Unit × CargoState S
  ingest p σ =
      unless_refused p σ (check_existing p (lookup text_eq (canonical_name p.name) σ.crates))

  abbrev pub on_prepared :
      CargoState S → Result CargoError Prepared → Result CargoError Unit × CargoState S
  on_prepared σ (err e) = (err e, σ)
  on_prepared σ (ok p) = ingest p σ

  unfoldable pub handle_publish : Env → Bytes → CargoState S → Result CargoError Unit × CargoState S
  handle_publish env body σ = on_prepared σ (prepare env body)

module _ {S : Type 0} (B : BlobStore S) where
  abbrev pub stored : Result BlobStoreError Bytes → Result CargoError Bytes
  stored (ok b) = ok b
  stored (err e) = err (storage e)

  unfoldable pub handle_download : Text → Text → CargoState S → Result CargoError Bytes
  handle_download name version σ =
      or_error (validate_name name)
      >> or_fail (not_found name) (lookup text_eq (canonical_name name) σ.crates)
      >>= λ rec.
          or_fail (not_found (name ++ b' ' ∷ version)) (lookup text_eq version rec.tarballs)
          >>= λ digest. stored (B.get digest σ.blobs)
