-- ===== src/Examples/Requests.antt =====
-- The Cargo registry: publishes that are done and not saved, yanks, owners, and the cached index.
use ferro_protocols.Prelude.{
  List, ◌≡◌, refl, [], ◌∷◌, ◌++◌, Option, some, none, false, true, not, arith, Bytes,
}
use ferro_protocols.Prelude.Result.{Result, ok, err}
use ferro_protocols.Prelude.Maps.{lookup, insert}
use ferro_protocols.Prelude.Texts.{Text, codes, text_eq, str_len, len_utf8}
use ferro_protocols.Prelude.Words.{from_le_bytes}
use ferro_protocols.Blob.Digest.{digest_eq, sha256_of}
use ferro_protocols.Blob.Memory.{Store, put, computed}
use ferro_protocols.Blob.Interface.{memory}
use ferro_protocols.Blob.Memory.Implements.{memory-IsBlobStore}
use ferro_protocols.Cargo.Name.{is_valid_name, validate_name, canonical_name}
use ferro_protocols.Cargo.Index.{into_index_entry}
use ferro_protocols.Cargo.Publish.{read_u32_le, split_prefixed, parse}
use ferro_protocols.Cargo.Registry.{
  Crates, CargoState, Env, Prepared, prepare, check_cksum, check_existing, add_version,
}
use ferro_protocols.Cargo.Registry.Ingest.{ingest, handle_publish, handle_download}
use ferro_protocols.Cargo.Registry.Kept.{
  IsTidy, KeepsCratesOnError, handle_publish-KeepsCratesOnError,
}
use ferro_protocols.Cargo.Registry.Sound.{IsSound}
use ferro_protocols.Cargo.Registry.Added.{IsAdded}
use ferro_protocols.Cargo.Registry.Published.{handle_publish-IsDone, handle_download-handle_publish}
use ferro_protocols.Cargo.Registry.Metadata
use ferro_protocols.Cargo.Registry.Metadata.{HasText, HasVersion, ReadsFields, entry_of, IsRequest}
use ferro_protocols.Cargo.Index.{PublishManifest}
use ferro_protocols.Cargo.Publish.{PublishRequest}
use ferro_protocols.Cargo.Publish.Accepts.{IsBody}
use ferro_protocols.Cargo.Registry.Edit.{set_yanked}
use ferro_protocols.Cargo.Registry.Edited.{KeepsOnError, set_yanked-KeepsOnError}
use ferro_protocols.Blob.Digest.{Hasher}
use ferro_protocols.Cargo.Index.{IndexEntry}
use ferro_protocols.Cargo.Registry.Read.{
  etag_matches, not_modified, content, render_lines, sparse_index_etag, serve_index,
}
use ferro_protocols.Prelude.Cuts.{trim_start, trim_end, trim}
use ferro_protocols.Cargo.Registry.Read.Cached.{serve_index_again}
use ferro_protocols.Cargo.Registry.{CrateRecord}
use ferro_protocols.Cargo.Registry.Read.{parse_lines}
use ferro_protocols.Cargo.Registry.Read.Lines.{AllWritten, parse_lines-serve_index}
use ferro_protocols.Cargo.Registry.Runs.{
  Request, publish, yank, owners, serve_all, serve_all-IsSound,
}
use ferro_protocols.Examples.Stores.{naming, digest_of}
use ferro_protocols.Examples.Publishes.{texts}

-- Every version but the empty one is legal, and the metadata is the name, the version and the checksum.
abbrev env : Env
env = record {
  json = texts;
  from_value = λ v. ok (record {
    name = v;
    vers = v;
    version = v;
    deps = [];
    features = [];
    links = none;
    rust_version = none;
  });
  hasher = naming;
  is_valid_semver = λ v. not (text_eq v []);
}

-- The body of a crate `a` whose tarball is the byte `a`.
abbrev crate_body : Bytes
crate_body = 1 ∷ 0 ∷ 0 ∷ 0 ∷ b'a' ∷ 1 ∷ 0 ∷ 0 ∷ 0 ∷ b'a' ∷ []

abbrev a : Text
a = b'a' ∷ []

abbrev crate_a : Prepared
crate_a = record {
  name = a;
  vers = a;
  entry = record {
    name = a;
    vers = a;
    deps = [];
    cksum = a;
    features = [];
    yanked = false;
    links = none;
    v = some 2;
    features2 = none;
    rust_version = none;
  };
  digest = digest_of a;
  tarball = a;
}

prepare_lem : prepare env crate_body ≡ ok crate_a
unfolding prepare parse split_prefixed read_u32_le from_le_bytes validate_name is_valid_name str_len
    len_utf8 check_cksum text_eq into_index_entry sha256_of
prepare_lem = refl

abbrev nothing : CargoState Store
nothing = record { blobs = []; crates = [] }

abbrev with_a : CargoState Store
with_a = record {
  blobs = (digest_of a, a) ∷ [];
  crates =
      (a, record { entries = crate_a.entry ∷ []; tarballs = (a, digest_of a) ∷ []; owners = [] })
      ∷ [];
}

-- Snapshots that are written, and a full disk.
abbrev written : Crates → Option Text
written c = none

abbrev full : Crates → Option Text
full c = some (codes "disk full")

published_lem : handle_publish (memory naming) written env crate_body nothing ≡ (ok tt, with_a)
unfolding handle_publish ingest prepare parse split_prefixed read_u32_le from_le_bytes validate_name
    is_valid_name str_len len_utf8 check_cksum text_eq into_index_entry sha256_of check_existing
    add_version canonical_name lookup insert put computed digest_eq
published_lem = refl

nothing_found : {A : Type 0} {r : A} (key : Text) → lookup {V = A} text_eq key [] ≡ some r → ⊥
unfolding lookup
nothing_found key e = cc

nothing-IsSound : IsSound (memory naming) nothing
nothing-IsSound key rec e = absurd (nothing_found key e)

-- A publish that is saved, a yank that is not, a new owner, and the same publish again.
abbrev requests : List Request
requests =
    publish crate_body written
    ∷ yank a a true full
    ∷ owners a (codes "ann" ∷ []) false written
    ∷ publish crate_body written
    ∷ []

serve_all-IsSound_example : IsSound (memory naming) (serve_all (memory naming) env requests nothing)
serve_all-IsSound_example =
    serve_all-IsSound (memory naming) env (memory-IsBlobStore naming) requests nothing
      nothing-IsSound

nothing-IsTidy : IsTidy nothing.crates
nothing-IsTidy key rec e = absurd (nothing_found key e)

handle_publish-KeepsCratesOnError_example :
    KeepsCratesOnError
      (memory naming)
      full
      nothing.crates
      (handle_publish (memory naming) full env crate_body nothing)
handle_publish-KeepsCratesOnError_example =
    handle_publish-KeepsCratesOnError (memory naming) full env crate_body nothing nothing-IsTidy

env-ReadsFields : ReadsFields env
unfolding text_eq
env-ReadsFields = record {
  name = λ v n m g r. ground arith;
  vers = λ v n x m g k r. ground arith;
  no_vers = λ v n m g k r. absurd (ground arith);
  version = λ v n x m g k r. ground arith;
  not_empty = refl;
}

handle_publish-IsDone_example :
    (r : PublishRequest Bytes) × ((m : PublishManifest) × (IsRequest env crate_body r m
        × (((entry_of env r m).cksum ≡ r.tarball)
            × (IsAdded
                  (entry_of env r m).name
                  (entry_of env r m)
                  (Metadata.digest_of env r)
                  []
                  with_a.crates
                × (((memory naming).get (Metadata.digest_of env r) with_a.blobs ≡ ok r.tarball)
                    × (written with_a.crates ≡ none))))))
handle_publish-IsDone_example =
    handle_publish-IsDone (memory naming) written env crate_body nothing with_a
      (memory-IsBlobStore naming) env-ReadsFields published_lem

handle_download-handle_publish_example :
    (r : PublishRequest Bytes) × ((name : Text) × ((vers : Text) × (IsBody texts crate_body r
          × (HasText texts r.manifest (codes "name") name
              × (HasVersion texts r.manifest vers
                  × (handle_download (memory naming) name vers with_a ≡ ok r.tarball))))))
handle_download-handle_publish_example =
    handle_download-handle_publish (memory naming) written env crate_body nothing with_a
      (memory-IsBlobStore naming) env-ReadsFields published_lem

set_yanked-KeepsOnError_example :
    KeepsOnError with_a.crates (set_yanked full a a true with_a.crates)
set_yanked-KeepsOnError_example = set_yanked-KeepsOnError full a a true with_a.crates

-- Every entry's line is its version, and the hash of anything is `0a`.
abbrev line : IndexEntry → Option Text
line e = some e.vers

abbrev constant : Hasher
constant = record { sha256_hex = λ b. codes "0a"; sha512_hex = λ b. codes "0a" }

served_lem :
    serve_index line (λ b. b) constant with_a.crates a []
    ≡ ok (content (codes "\"0a\"") (a ++ b'\n' ∷ []))
unfolding serve_index lookup canonical_name text_eq render_lines sparse_index_etag etag_matches trim
    trim_start trim_end
served_lem = refl

serve_index_again_example :
    serve_index line (λ b. b) constant with_a.crates a (codes "\"0a\"")
    ≡ ok (not_modified (codes "\"0a\""))
serve_index_again_example =
    serve_index_again line (λ b. b) constant (λ b. refl) with_a.crates a (codes "\"0a\"")
      (a ++ b'\n' ∷ []) served_lem

-- A crate with two versions, each on a line that is a brace and the version.
abbrev version_entry : Text → IndexEntry
version_entry v = record crate_a.entry { vers = v }

abbrev brace_line : IndexEntry → Option Text
brace_line e = some (b'{' ∷ e.vers)

abbrev from_brace_line : Text → Result Text IndexEntry
from_brace_line [] = err []
from_brace_line (c ∷ v) = ok (version_entry v)

abbrev two_versions : CrateRecord
two_versions = record {
  entries = version_entry (codes "1") ∷ version_entry (codes "2") ∷ [];
  tarballs = [];
  owners = [];
}

two_served_lem :
    serve_index brace_line (λ b. b) constant ((a, two_versions) ∷ []) a []
    ≡ ok (content (codes "\"0a\"") (codes "{1\n{2\n"))
unfolding serve_index lookup canonical_name text_eq render_lines sparse_index_etag etag_matches trim
    trim_start trim_end
two_served_lem = refl

two_found_lem : lookup text_eq (canonical_name a) ((a, two_versions) ∷ []) ≡ some two_versions
unfolding lookup canonical_name text_eq
two_found_lem = refl

two_written : AllWritten brace_line from_brace_line two_versions.entries
two_written = (
  record { line = codes "1"; line_lem = refl; line-IsUnbroken = refl; from_line_lem = refl },
  (record { line = codes "2"; line_lem = refl; line-IsUnbroken = refl; from_line_lem = refl }, tt),
)

parse_lines-serve_index_example :
    parse_lines from_brace_line (codes "{1\n{2\n") ≡ ok two_versions.entries
parse_lines-serve_index_example =
    parse_lines-serve_index brace_line from_brace_line (λ b. b) constant ((a, two_versions) ∷ [])
      two_versions a [] (codes "\"0a\"") (codes "{1\n{2\n") two_found_lem two_written two_served_lem
