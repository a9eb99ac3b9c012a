-- ===== src/Examples/Uploads.antt =====
-- The upload handlers of crates/ferro-oci-server: sessions, chunks, names and references.
use ferro_protocols.Prelude.{
  ℕ, ◌≡◌, ◌≤◌, ◌↔◌, refl, ap, none, some, List, [], ◌∷◌, ◌++◌, Bytes, replicate, arith,
}
use ferro_protocols.Prelude.Result.{ok}
use ferro_protocols.Prelude.Maps.{lookup, insert, remove}
use ferro_protocols.Prelude.Texts.{Text, codes, text_eq, str_len, len_utf8}
use ferro_protocols.Prelude.Cuts.{
  split, split_once, trim, trim_start, trim_end, strip_prefix, parse_u64, is_whitespace,
}
use ferro_protocols.Blob.Digest.{
  sha256, Digest, Hasher, sha256_of, digest_eq, hex_len, validate_hex, new, parse_prefix,
}
use ferro_protocols.Blob.Digest
use ferro_protocols.Blob.Memory.{Store, put, computed, get, or_same, contains}
use ferro_protocols.Blob.Interface.{memory, unit_or_error}
use ferro_protocols.Blob.Memory.Implements.{memory-IsBlobStore}
use ferro_protocols.Oci.Name.{
  validate_name, validate_component, walk, is_valid_separator, is_valid_tag,
}
use ferro_protocols.Oci.Name.Grammar.{Name}
use ferro_protocols.Oci.Name.Sound.{validate_name_iff}
use ferro_protocols.Oci.Reference.{tag, display, from_str}
use ferro_protocols.Oci.Reference.Laws.{from_str-display}
use ferro_protocols.Oci.Upload.{
  UploadState, ContentRange, checked_length, is_idle_for, take_bytes, append, offset,
}
use ferro_protocols.Oci.Upload
use ferro_protocols.Oci.Upload.Laws.{IsRange, parse-IsRange}
use ferro_protocols.Oci.Registry.{SessionLimits, key_eq, fresh}
use ferro_protocols.Oci.Registry.Sessions.{
  sweep_idle_uploads, get_upload_state, take_upload_bytes, complete_upload, append_upload,
}
use ferro_protocols.Oci.Server.{AppState, blob_created, upload_accepted, run}
use ferro_protocols.Oci.Chunk.{absent, value, parse_digest, chunk_start, would_exceed_cap}
use ferro_protocols.Oci.Push.{init_upload, finish_upload, differs, store_blob_counted}
use ferro_protocols.Oci.Push.Chunked.{Chunk, HasRoom, upload, upload_lem, wait_for}
use ferro_protocols.Oci.Push.Answers.{IsWhole, init_upload_admits, finish_upload-created}
use ferro_protocols.Oci.Traffic.{init, patch, cancel, Event, arrive, pass, resume, happen_all}
use ferro_protocols.Oci.Traffic.Safe.{IsWithin}
use ferro_protocols.Oci.Traffic.Bounds.{happen_all-IsWithin}

-- A hash with 64 digits, the same for all bytes.
abbrev pub digits : Text
digits = replicate 64 b'a'

abbrev pub constant : Hasher
constant = record { sha256_hex = λ b. digits; sha512_hex = λ b. digits ++ digits }

abbrev pub own_digest : Digest
own_digest = record { algo = sha256; hex = digits }

abbrev pub own_text : Text
own_text = codes "sha256:" ++ digits

abbrev pub repo : Text
repo = codes "lib/my-app"

pub repo_valid : validate_name repo ≡ none
unfolding validate_name split validate_component walk text_eq str_len len_utf8 is_valid_separator
repo_valid = refl

validate_name_iff_example : (validate_name repo ≡ none) ↔ (Name repo × (str_len repo ≤ 255))
validate_name_iff_example = validate_name_iff repo

latest_lem : from_str (codes "latest") ≡ ok (tag (codes "latest"))
unfolding from_str split_once is_valid_tag str_len len_utf8
latest_lem = refl

from_str-display_example : from_str (display (tag (codes "latest"))) ≡ ok (tag (codes "latest"))
from_str-display_example = from_str-display (codes "latest") (tag (codes "latest")) latest_lem

abbrev two_bytes : ContentRange
two_bytes = record { start = 0; end = 1 }

range_lem : Upload.parse (codes "bytes 0-1") ≡ ok two_bytes
unfolding Upload.parse split split_once trim trim_start trim_end strip_prefix parse_u64
    is_whitespace
range_lem = refl

parse-IsRange_example : IsRange two_bytes
parse-IsRange_example = parse-IsRange (codes "bytes 0-1") two_bytes range_lem

abbrev limits : SessionLimits
limits = record { max_sessions = 2; idle_ttl = 10 }

abbrev pub empty : AppState Store
empty = record { registry = fresh; blobs = []; blob_count = 0; clock = 100 }

abbrev small_cap : ℕ
small_cap = 8

abbrev events : List Event
events =
    arrive (init repo none (codes "u") [])
    ∷ arrive (init repo none (codes "v") [])
    ∷ arrive (init repo none (codes "w") [])
    ∷ resume 2
    ∷ resume 0
    ∷ arrive (patch repo (codes "u") absent (b'x' ∷ b'y' ∷ []))
    ∷ arrive (cancel repo (codes "u"))
    ∷ resume 3
    ∷ resume 4
    ∷ resume 3
    ∷ pass 20
    ∷ resume 1
    ∷ []

happen_all-IsWithin_example :
    IsWithin
      (memory constant)
      constant
      limits
      small_cap
      (happen_all (memory constant) constant limits small_cap events ([], empty)).1
happen_all-IsWithin_example =
    happen_all-IsWithin (memory constant) constant limits small_cap (omega arith) events empty
      (omega arith, tt)

abbrev chunks : List Chunk
chunks =
    record { wait = 3; header = value (codes "0-1"); body = b'x' ∷ b'y' ∷ [] }
    ∷ record { wait = 9; header = absent; body = b'z' ∷ [] }
    ∷ []

first_lem : chunk_start 0 2 (value (codes "0-1")) ≡ ok 0
unfolding chunk_start Upload.parse split split_once trim trim_start trim_end strip_prefix parse_u64
    checked_length is_whitespace
first_lem = refl

second_lem : chunk_start 2 1 absent ≡ ok 2
unfolding chunk_start
second_lem = refl

pub own_text_lem : parse_digest own_text ≡ ok own_digest
unfolding parse_digest Digest.parse split_once parse_prefix text_eq new validate_hex str_len
    len_utf8 hex_len
own_text_lem = refl

abbrev all_bytes : Bytes
all_bytes = b'x' ∷ b'y' ∷ b'z' ∷ b'!' ∷ []

put_lem : put constant own_digest all_bytes [] ≡ ok ((own_digest, all_bytes) ∷ [])
unfolding put computed sha256_of digest_eq text_eq insert
put_lem = refl

store_lem : (memory constant).put own_digest all_bytes [] ≡ (ok tt, (own_digest, all_bytes) ∷ [])
store_lem = ap (λ r. (unit_or_error r, or_same [] r)) put_lem

room_lem : HasRoom (memory constant) constant limits small_cap empty
unfolding sweep_idle_uploads
room_lem = omega arith

upload_lem_example :
    let r =
      upload
        (memory constant)
        constant
        limits
        small_cap
        repo
        (codes "u")
        chunks
        2
        own_text
        (b'!' ∷ [])
        empty in
    (r.0 ≡ blob_created repo own_digest)
    × ((get own_digest r.1.blobs ≡ ok all_bytes)
        × (lookup key_eq (repo, codes "u") r.1.registry.uploads ≡ none))
upload_lem_example =
    upload_lem (memory constant) constant limits small_cap (memory-IsBlobStore constant) repo
      (codes "u") own_text chunks 2 (b'!' ∷ []) own_digest empty ((own_digest, all_bytes) ∷ [])
      repo_valid room_lem (omega arith, (first_lem, (omega arith, (second_lem, tt)))) (omega arith)
      (omega arith) own_text_lem (λ e. refl) store_lem

abbrev pub session : UploadState
session = record { name = repo; uuid = codes "u"; buffer = b'x' ∷ []; last_activity = 95 }

-- As many sessions as there may be.
abbrev crowded : AppState Store
crowded = record empty {
  registry = record fresh {
    uploads = ((repo, codes "u"), session) ∷ ((repo, codes "v"), session) ∷ [];
  };
}

init_upload_admits_example :
    (run
      (init_upload (memory constant) constant limits small_cap repo none (codes "w") [])
      (wait_for 10 crowded)).0
    ≡ upload_accepted repo (codes "w") 0
init_upload_admits_example =
    init_upload_admits (memory constant) constant limits small_cap repo (codes "w") crowded
      repo_valid (omega arith) (omega arith, (omega arith, tt))

abbrev uploading : AppState Store
uploading = record {
  registry = record fresh { uploads = ((repo, codes "u"), session) ∷ [] };
  blobs = [];
  blob_count = 0;
  clock = 100;
}

abbrev uploaded : AppState Store
uploaded = record {
  registry = fresh;
  blobs = (own_digest, b'x' ∷ b'!' ∷ []) ∷ [];
  blob_count = 1;
  clock = 100;
}

finish_lem :
    run
      (finish_upload
        (memory constant)
        constant
        limits
        small_cap
        repo
        (codes "u")
        (some own_text)
        (b'!' ∷ []))
      uploading
    ≡ (blob_created repo own_digest, uploaded)
unfolding finish_upload run validate_name split validate_component walk text_eq str_len len_utf8
    is_valid_separator parse_digest Digest.parse split_once parse_prefix new validate_hex hex_len
    get_upload_state is_idle_for append_upload would_exceed_cap take_upload_bytes take_bytes append
    offset complete_upload differs store_blob_counted lookup insert remove put computed sha256_of
    digest_eq contains
finish_lem = refl

finish_upload-created_example :
    (repo ≡ repo)
    × ((b : Bytes) × (IsWhole
            (memory constant)
            constant
            limits
            small_cap
            (repo, codes "u")
            (b'!' ∷ [])
            uploading
            b
          × (get own_digest (uploaded.blobs) ≡ ok b)))
finish_upload-created_example =
    finish_upload-created (memory constant) constant limits small_cap (memory-IsBlobStore constant)
      repo (codes "u") (some own_text) (b'!' ∷ []) uploading uploaded repo own_digest finish_lem
