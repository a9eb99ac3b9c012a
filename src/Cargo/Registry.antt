-- ===== src/Cargo/Registry.antt =====
-- crates/ferro-cargo-registry-server/src/handlers.rs and router.rs: the registry's state and its
-- handlers. A handler holds the lock on the crates from its checks to its answer, so it is one step.
pub mod Ingest
pub mod Edit
pub mod Edited
pub mod Kept
pub mod Sound
pub mod Held
pub mod Metadata
pub mod Checked
pub mod Added
pub mod Published
pub mod Runs
pub mod Read
use ferro_protocols.Prelude.{
  ℕ, ◌+◌, Bool, true, false, not, Bytes, List, [], ◌∷◌, ◌++◌, map, Option, none, some, ◌==◌, ◌&&◌,
  ◌||◌, if◌then◌else◌, max,
}
use ferro_protocols.Prelude.Result.{Result, ok, err, ◌>>=◌, ◌>>◌}
use ferro_protocols.Prelude.Maps.{lookup, insert, remove, any_value}
use ferro_protocols.Prelude.Texts.{Text, codes, text_eq}
use ferro_protocols.Blob.Digest.{Digest, Hasher, sha256_of, digest_eq}
use ferro_protocols.Blob.Memory.{BlobStoreError}
use ferro_protocols.Blob.Interface.{BlobStore}
use ferro_protocols.Cargo.Error.{
  CargoError, invalid_version, invalid_publish, missing_name, missing_vers, coerce, Malformed,
  checksum_mismatch, name_conflict, duplicate_version, not_found, storage, persistence,
}
use ferro_protocols.Cargo.Name.{validate_name, canonical_name}
use ferro_protocols.Cargo.Json.{Json}
use ferro_protocols.Cargo.Index.{PublishManifest, IndexEntry, into_index_entry}
use ferro_protocols.Cargo.Publish.{PublishRequest, parse}

pub record Owner : Type 0 where
  pub id : ℕ
  pub login : Text
  pub name : Option Text

pub record CrateRecord : Type 0 where
  pub entries : List IndexEntry
  pub tarballs : List (Text × Digest)
  pub owners : List Owner

abbrev pub Crates : Type 0
Crates = List (Text × CrateRecord)

pub record CargoState (S : Type 0) : Type 0 where
  pub blobs : S
  pub crates : Crates

-- What the handlers call outside of the crate: serde_json, with the conversion to a
-- `PublishManifest` that its derive generates, sha2, and the regex of `is_valid_semver`.
pub record Env : Type 1 where
  pub json : Json
  pub from_value : json.Value → Result Text PublishManifest
  pub hasher : Hasher
  pub is_valid_semver : Text → Bool

abbrev pub or_error : Option CargoError → Result CargoError Unit
or_error none = ok tt
or_error (some e) = err e

-- What `handle_publish` has when it takes the lock.
pub record Prepared : Type 0 where
  pub name : Text
  pub vers : Text
  pub entry : IndexEntry
  pub digest : Digest
  pub tarball : Bytes

abbrev pub or_fail : {A : Type 0} → CargoError → Option A → Result CargoError A
or_fail e none = err e
or_fail e (some a) = ok a

abbrev pub or_else : {A : Type 0} → Option A → Option A → Option A
or_else none b = b
or_else (some a) b = some a

abbrev pub and_then : {A B : Type 0} → Option A → (A → Option B) → Option B
and_then none f = none
and_then (some a) f = f a

-- A declared checksum that is not empty has to be the computed one.
unfoldable pub check_cksum : Option Text → Text → Result CargoError Unit
check_cksum none computed = ok tt
check_cksum (some []) computed = ok tt
check_cksum (some (c ∷ s)) computed =
    if text_eq (c ∷ s) computed then ok tt else err (checksum_mismatch (c ∷ s) computed)

abbrev pub coerced : Result Text PublishManifest → Result CargoError PublishManifest
coerced (ok m) = ok m
coerced (err e) = err (invalid_publish (coerce e))

module _ (env : Env) where
  abbrev str_at : env.json.Value → Text → Option Text
  str_at manifest field = and_then (env.json.get manifest field) env.json.as_str

  abbrev vers_at : env.json.Value → Option Text
  vers_at manifest =
      and_then
        (or_else (env.json.get manifest (codes "vers")) (env.json.get manifest (codes "version")))
        env.json.as_str

  abbrev check_semver : Text → Result CargoError Unit
  check_semver vers = if env.is_valid_semver vers then ok tt else err (invalid_version vers)

  abbrev prepared : Bytes → Text → Text → PublishManifest → Prepared
  prepared tarball name vers m = record {
    name = name;
    vers = vers;
    entry = into_index_entry m (env.hasher.sha256_hex tarball);
    digest = sha256_of env.hasher tarball;
    tarball = tarball;
  }

  abbrev check_request : PublishRequest env.json.Value → Result CargoError Prepared
  check_request req =
      or_fail (invalid_publish missing_name) (str_at req.manifest (codes "name")) >>= λ name.
      or_error (validate_name name)
      >> or_fail (invalid_publish missing_vers) (vers_at req.manifest)
      >>= λ vers.
          check_semver vers
          >> check_cksum (str_at req.manifest (codes "cksum")) (env.hasher.sha256_hex req.tarball)
          >> coerced (env.from_value req.manifest)
          >>= λ m. ok (prepared req.tarball name vers m)

  -- `handle_publish` up to the lock
  unfoldable pub prepare : Bytes → Result CargoError Prepared
  prepare body = parse env.json body >>= check_request

unfoldable pub has_version : Text → List IndexEntry → Bool
has_version vers [] = false
has_version vers (e ∷ es) = text_eq e.vers vers || has_version vers es

abbrev pub display_conflict : Text → List IndexEntry → Option Text
display_conflict name [] = none
display_conflict name (e ∷ es) = if text_eq e.name name then none else some e.name

abbrev pub check_version : Prepared → CrateRecord → Option Text → Option CargoError
check_version p rec (some existing) = some (name_conflict p.name existing)
check_version p rec none =
    if has_version p.entry.vers rec.entries then some (duplicate_version p.name p.vers) else none

-- The checks against the record that is there.
unfoldable pub check_existing : Prepared → Option CrateRecord → Option CargoError
check_existing p none = none
check_existing p (some rec) = check_version p rec (display_conflict p.name rec.entries)

abbrev pub record_or_default : Option CrateRecord → CrateRecord
record_or_default none = record { entries = []; tarballs = []; owners = [] }
record_or_default (some rec) = rec

abbrev pub with_version : IndexEntry → Digest → CrateRecord → CrateRecord
with_version entry digest rec = record {
  entries = rec.entries ++ entry ∷ [];
  tarballs = insert text_eq entry.vers digest rec.tarballs;
  owners = rec.owners;
}

unfoldable pub add_version : Text → IndexEntry → Digest → Crates → Crates
add_version key entry digest crates =
    insert text_eq key (with_version entry digest (record_or_default (lookup text_eq key crates)))
      crates
