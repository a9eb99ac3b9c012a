-- ===== src/Cargo/Registry/Metadata.antt =====
-- What the metadata of a published crate says, and what a body that passes the checks of
-- `handle_publish` is made of, both without the handlers.
use ferro_protocols.Prelude.{◌≡◌, ◌⊎◌, true, false, Bytes, [], none, some}
use ferro_protocols.Prelude.Result.{ok}
use ferro_protocols.Prelude.Texts.{Text, codes}
use ferro_protocols.Blob.Digest.{sha256, Digest}
use ferro_protocols.Cargo.Name.{validate_name}
use ferro_protocols.Cargo.Json.{Json}
use ferro_protocols.Cargo.Index.{PublishManifest, IndexEntry, into_index_entry}
use ferro_protocols.Cargo.Publish.{PublishRequest}
use ferro_protocols.Cargo.Publish.Accepts.{IsBody}
use ferro_protocols.Cargo.Registry.{Env}

module _ (J : Json) (v : J.Value) where
  -- The member of an object, where it is a text.
  abbrev pub HasText : Text → Text → Type 0
  HasText key t = (x : J.Value) × ((J.get v key ≡ some x) × (J.as_str x ≡ some t))

  -- `vers`, or `version` where there is no `vers`.
  abbrev pub HasVersion : Text → Type 0
  HasVersion t =
      HasText (codes "vers") t ⊎ ((J.get v (codes "vers") ≡ none) × HasText (codes "version") t)

-- What the derived reader of a `PublishManifest` does with an object that has a name: it takes the
-- texts of the fields, and the default for a field that is not there. And the pattern of versions
-- matches no empty text.
pub record ReadsFields (env : Env) : Type 0 where
  pub name :
      (v n : env.json.Value) (m : PublishManifest)
      → env.json.get v (codes "name") ≡ some n
      → env.from_value v ≡ ok m
      → env.json.as_str n ≡ some m.name
  pub vers :
      (v n x : env.json.Value) (m : PublishManifest)
      → env.json.get v (codes "name") ≡ some n
      → env.json.get v (codes "vers") ≡ some x
      → env.from_value v ≡ ok m
      → env.json.as_str x ≡ some m.vers
  pub no_vers :
      (v n : env.json.Value) (m : PublishManifest)
      → env.json.get v (codes "name") ≡ some n
      → env.json.get v (codes "vers") ≡ none
      → env.from_value v ≡ ok m
      → m.vers ≡ []
  pub version :
      (v n x : env.json.Value) (m : PublishManifest)
      → env.json.get v (codes "name") ≡ some n
      → env.json.get v (codes "version") ≡ some x
      → env.from_value v ≡ ok m
      → env.json.as_str x ≡ some m.version
  pub not_empty : env.is_valid_semver [] ≡ false

-- The entry of the index and the digest of a request.
abbrev pub entry_of : (env : Env) → PublishRequest env.json.Value → PublishManifest → IndexEntry
entry_of env r m = into_index_entry m (env.hasher.sha256_hex r.tarball)

abbrev pub digest_of : (env : Env) → PublishRequest env.json.Value → Digest
digest_of env r = record { algo = sha256; hex = env.hasher.sha256_hex r.tarball }

-- The body is laid out as a manifest and a tarball; the name and the version of the entry are the
-- texts that the manifest has, and are valid; and a checksum that is declared is that of the
-- tarball, or empty.
pub record IsRequest (env : Env) (body : Bytes) (r : PublishRequest env.json.Value)
    (m : PublishManifest) : Type 0 where
  pub laid_out : IsBody env.json body r
  pub read : env.from_value r.manifest ≡ ok m
  pub named : HasText env.json r.manifest (codes "name") (entry_of env r m).name
  pub versioned : HasVersion env.json r.manifest (entry_of env r m).vers
  pub valid_name : validate_name (entry_of env r m).name ≡ none
  pub valid_vers : env.is_valid_semver (entry_of env r m).vers ≡ true
  pub summed :
      (t : Text)
      → HasText env.json r.manifest (codes "cksum") t
      → (t ≡ []) ⊎ (t ≡ env.hasher.sha256_hex r.tarball)
