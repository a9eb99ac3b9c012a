-- ===== src/Examples/Manifests.antt =====
-- The manifest handlers of crates/ferro-oci-server: puts, deletions, listings and ranges.
use ferro_protocols.Prelude.{
  suc, ◌&&◌, ◌≡◌, ◌≢◌, refl, Bool, true, none, some, Option, List, [], ◌∷◌, Bytes, arith, length,
  if◌then◌else◌, map,
}
use ferro_protocols.Prelude.Result.{Result, ok, err}
use ferro_protocols.Prelude.Maps.{lookup, insert, remove}
use ferro_protocols.Prelude.Texts.{Text, codes, text_eq, str_len, len_utf8}
use ferro_protocols.Prelude.Cuts.{
  split, split_once, trim, trim_start, trim_end, strip_prefix, parse_u64, is_whitespace,
}
use ferro_protocols.Blob.Digest.{
  sha256, Digest, Hasher, sha256_of, digest_eq, hex_len, validate_hex, new, parse_prefix, to_string,
}
use ferro_protocols.Blob.Digest
use ferro_protocols.Blob.Memory.{Store, BlobStoreError, contains, io}
use ferro_protocols.Blob.Interface.{memory}
use ferro_protocols.Cargo.Json.{Json}
use ferro_protocols.Oci.Error.{OciError}
use ferro_protocols.Oci.Name.{
  validate_name, validate_component, walk, is_valid_separator, is_valid_tag,
}
use ferro_protocols.Oci.Reference.{Reference, tag, digest, from_str}
use ferro_protocols.Oci.MediaType.{image_index, classify_manifest_media_type}
use ferro_protocols.Oci.Registry.{ReferrerDescriptor, InMemoryState, fresh}
use ferro_protocols.Oci.Registry.Tables.{at}
use ferro_protocols.Oci.Registry.Lists.{sort, insert_sorted, text_lt, keys}
use ferro_protocols.Oci.Registry.Lists
use ferro_protocols.Oci.Registry.Lists.Order.{Strict, has}
use ferro_protocols.Oci.Registry.Manifests.{
  get_manifest, put_manifest_with_referrer, list_referrers,
}
use ferro_protocols.Oci.Registry.Manifests.Seen.{
  ReadsSame, Shows, put_manifest-ReadsSame, put_manifest-Shows,
}
use ferro_protocols.Oci.Registry.Delete.{
  kept_tags, removed_tags, kept_list, removed_list, kept_subjects, removed_referrers, insert_at,
  replay, retag,
}
use ferro_protocols.Oci.Registry.Delete
use ferro_protocols.Oci.Registry.Delete.Seen.{IsMap, delete_manifest-LooksUp}
use ferro_protocols.Oci.Registry.Delete.Gone.{IsGone, delete_manifest-IsGone}
use ferro_protocols.Oci.Listing.{list_tags}
use ferro_protocols.Oci.Listing.Pages.{follow, follow-list_tags, list_tags_lem, is_after, is_key}
use ferro_protocols.Oci.Range.{partial, parse_byte_range, range_or_full_response}
use ferro_protocols.Oci.Range.Laws.{IsHonest, range_or_full_response-IsHonest}
use ferro_protocols.Oci.Content.{
  check_blob_present, check_layers, check_image, verify_referenced_blobs, build_referrer,
}
use ferro_protocols.Oci.Content.Present.{ImageIsThere}
use ferro_protocols.Oci.Manifest.{Created, put_manifest, delete_manifest, prepare, check_declared}
use ferro_protocols.Oci.Manifest.Addressed.{
  Request, put, delete, serve, serve_all, get_manifest-serve_all,
}
use ferro_protocols.Oci.Manifest.Keyed.{IsAddressed}
use ferro_protocols.Oci.Manifest.Checked.{put_manifest-Present}
use ferro_protocols.Examples.Uploads.{constant, own_digest, own_text, repo, repo_valid}

-- A document is the digest texts of its layers.
abbrev first_of : List Text → Option Text
first_of [] = none
first_of (t ∷ ts) = some t

abbrev alone : Text → List Text
alone t = t ∷ []

abbrev layered : Json
layered = record {
  Value = List Text;
  from_slice = λ b. ok (own_text ∷ []);
  to_vec = λ v. none;
  get = λ v field.
      if text_eq field (codes "layers")
      then some v
      else if text_eq field (codes "digest")
      then some v
      else none;
  as_str = first_of;
  as_array = λ v. some (map alone v);
  as_object = λ v. none;
}

abbrev stored : Store
stored = (own_digest, b'l' ∷ []) ∷ []

abbrev image_type : Text
image_type = codes "application/vnd.oci.image.manifest.v1+json"

abbrev not_saved : InMemoryState → Option Text
not_saved σ = some (codes "disk full")

abbrev is_saved : InMemoryState → Option Text
is_saved σ = none

abbrev referrer : ReferrerDescriptor
referrer = record {
  media_type = image_type;
  digest = own_digest;
  size = 1;
  artifact_type = none;
  annotations = none;
}

-- A manifest with two tags, that refers to a subject.
abbrev filled : InMemoryState
filled = record {
  manifests = (repo, (own_text, (image_type, b'm' ∷ [])) ∷ []) ∷ [];
  tags = (repo, (codes "v2", own_text) ∷ (codes "v1", own_text) ∷ []) ∷ [];
  uploads = [];
  referrers = (repo, (codes "s", referrer ∷ []) ∷ []) ∷ [];
}

own_text_valid : Digest.parse (to_string own_digest) ≡ ok own_digest
unfolding Digest.parse to_string split_once parse_prefix text_eq new validate_hex str_len len_utf8
    hex_len
own_text_valid = refl

-- A put that is not saved, to a repository that is new, and its state.
abbrev put_unsaved : Result BlobStoreError Unit × InMemoryState
put_unsaved =
    put_manifest_with_referrer not_saved repo (tag (codes "v3")) own_digest image_type (b'n' ∷ [])
      (some (own_digest, referrer)) filled

unsaved_lem : put_unsaved ≡ (err (io (codes "disk full")), put_unsaved.1)
unfolding put_manifest_with_referrer
unsaved_lem = refl

put_manifest-ReadsSame_example : ReadsSame filled (put_unsaved.1)
put_manifest-ReadsSame_example =
    put_manifest-ReadsSame not_saved repo (tag (codes "v3")) own_digest image_type (b'n' ∷ [])
      (some (own_digest, referrer)) (io (codes "disk full")) filled (put_unsaved.1) unsaved_lem

abbrev put_saved : Result BlobStoreError Unit × InMemoryState
put_saved =
    put_manifest_with_referrer is_saved repo (tag (codes "v3")) own_digest image_type (b'n' ∷ [])
      (some (own_digest, referrer)) filled

saved_lem : put_saved ≡ (ok tt, put_saved.1)
unfolding put_manifest_with_referrer
saved_lem = refl

put_manifest-Shows_example :
    Shows repo
      (tag (codes "v3"))
      own_digest
      image_type
      (b'n' ∷ [])
      (some (own_digest, referrer))
      filled
      (put_saved.1)
put_manifest-Shows_example =
    put_manifest-Shows is_saved repo (tag (codes "v3")) own_digest image_type (b'n' ∷ [])
      (some (own_digest, referrer)) filled (put_saved.1) own_text_valid saved_lem

abbrev delete_unsaved : Result BlobStoreError Bool × InMemoryState
delete_unsaved = Delete.delete_manifest not_saved repo (digest own_digest) filled

delete_unsaved_lem : delete_unsaved ≡ (err (io (codes "disk full")), delete_unsaved.1)
unfolding Delete.delete_manifest to_string lookup text_eq
delete_unsaved_lem = refl

filled_names : IsMap repo filled
unfolding lookup text_eq
filled_names = (((refl, tt), (tt, tt)), (tt, tt))

delete_manifest-LooksUp_example :
    ((n : Text) (q : Reference) → get_manifest n q (delete_unsaved.1) ≡ get_manifest n q filled)
    × (((n t : Text)
          → lookup text_eq t (at n (delete_unsaved.1).tags) ≡ lookup text_eq t (at n filled.tags))
        × ((n : Text) (subject : Digest) (artifact_type : Option Text)
            → list_referrers n subject artifact_type (delete_unsaved.1)
              ≡ list_referrers n subject artifact_type filled))
delete_manifest-LooksUp_example =
    delete_manifest-LooksUp not_saved repo (digest own_digest) (io (codes "disk full")) filled
      (delete_unsaved.1) filled_names delete_unsaved_lem

abbrev delete_saved : Result BlobStoreError Bool × InMemoryState
delete_saved = Delete.delete_manifest is_saved repo (digest own_digest) filled

delete_saved_lem : delete_saved ≡ (ok true, delete_saved.1)
unfolding Delete.delete_manifest to_string lookup text_eq
delete_saved_lem = refl

delete_manifest-IsGone_example : IsGone repo own_digest filled (delete_saved.1)
delete_manifest-IsGone_example =
    delete_manifest-IsGone is_saved repo own_digest filled (delete_saved.1) (filled_names.1)
      delete_saved_lem

two_lem : parse_u64 (codes "1") ≡ some 1
unfolding parse_u64
two_lem = refl

in_order_lem : sort (keys (at repo filled.tags)) ≡ codes "v1" ∷ codes "v2" ∷ []
unfolding sort insert_sorted text_lt lookup text_eq
in_order_lem = refl

follow-list_tags_example :
    follow
      (λ last. list_tags repo (some (codes "1")) last filled)
      (suc (length (keys (at repo filled.tags))))
      none
    ≡ some (sort (keys (at repo filled.tags)))
follow-list_tags_example =
    follow-list_tags repo (codes "1") 1 filled repo_valid two_lem (omega arith) (filled_names.0)

list_tags_lem_example :
    Strict (Lists.list_tags repo (some (codes "v1")) none filled)
    × ((t : Text)
        → has t (Lists.list_tags repo (some (codes "v1")) none filled)
          ≡ (is_after (some (codes "v1")) t && is_key (lookup text_eq t (at repo filled.tags))))
list_tags_lem_example = list_tags_lem repo (some (codes "v1")) filled (filled_names.0)

range_or_full_response-IsHonest_example :
    IsHonest
      (b'a' ∷ b'b' ∷ b'c' ∷ [])
      (range_or_full_response (some (codes "bytes=1-9")) (b'a' ∷ b'b' ∷ b'c' ∷ []))
range_or_full_response-IsHonest_example =
    range_or_full_response-IsHonest (some (codes "bytes=1-9")) (b'a' ∷ b'b' ∷ b'c' ∷ [])

range_lem :
    range_or_full_response (some (codes "bytes=1-9")) (b'a' ∷ b'b' ∷ b'c' ∷ [])
    ≡ partial 1 2 3 (b'b' ∷ b'c' ∷ [])
unfolding range_or_full_response parse_byte_range strip_prefix split_once parse_u64
range_lem = refl

-- A put by digest of a document that names the stored blob as its layer.
abbrev put_image : Result OciError Created × InMemoryState
put_image =
    put_manifest (memory constant) constant layered is_saved repo own_text (some image_type)
      (b'm' ∷ []) stored fresh

abbrev created : Created
created = record { name = repo; digest = own_digest; subject = none }

put_image_lem : put_image ≡ (ok created, put_image.1)
unfolding put_manifest prepare validate_name split validate_component walk text_eq str_len len_utf8
    is_valid_separator from_str split_once Digest.parse parse_prefix new validate_hex hex_len
    classify_manifest_media_type trim trim_start trim_end is_whitespace verify_referenced_blobs
    check_image check_layers check_blob_present contains digest_eq check_declared
    put_manifest_with_referrer build_referrer sha256_of lookup
put_image_lem = refl

is_image : classify_manifest_media_type image_type ≢ some image_index
unfolding classify_manifest_media_type trim trim_start trim_end is_whitespace split text_eq
is_image e = ground (arith, e)

put_manifest-Present_example :
    ImageIsThere (memory constant) constant layered stored (own_text ∷ [])
    × ((created.digest ≡ sha256_of constant (b'm' ∷ []))
        × ((d : Digest) → from_str own_text ≡ ok (digest d) → d ≡ sha256_of constant (b'm' ∷ [])))
put_manifest-Present_example =
    put_manifest-Present (memory constant) constant layered is_saved repo own_text image_type
      (b'm' ∷ []) stored fresh (put_image.1) created (own_text ∷ []) put_image_lem refl is_image

hex_lem : (b : Bytes) → Digest.parse (to_string (sha256_of constant b)) ≡ ok (sha256_of constant b)
unfolding Digest.parse to_string split_once parse_prefix text_eq new validate_hex str_len len_utf8
    hex_len sha256_of
hex_lem b = refl

nothing_kept : IsAddressed constant []
unfolding lookup
nothing_kept n k m e = absurd (ground (arith, e))

-- A put by a tag, and a deletion that is not saved.
abbrev requests : List (Request Store)
requests =
    put repo (codes "v1") (some image_type) (b'm' ∷ []) stored is_saved
    ∷ delete repo own_text not_saved
    ∷ []

served_lem :
    get_manifest repo
      (tag (codes "v1"))
      (serve_all (memory constant) constant layered requests fresh)
    ≡ ok (some (own_digest, (image_type, b'm' ∷ [])))
unfolding serve_all serve get_manifest put_manifest delete_manifest prepare validate_name split
    validate_component walk text_eq str_len len_utf8 is_valid_separator from_str is_valid_tag
    split_once Digest.parse parse_prefix new validate_hex hex_len classify_manifest_media_type trim
    trim_start trim_end is_whitespace verify_referenced_blobs check_image check_layers
    check_blob_present contains digest_eq check_declared put_manifest_with_referrer build_referrer
    sha256_of lookup insert remove to_string Delete.delete_manifest kept_tags removed_tags retag
    kept_subjects removed_referrers replay
served_lem = refl

get_manifest-serve_all_example : own_digest ≡ sha256_of constant (b'm' ∷ [])
get_manifest-serve_all_example =
    get_manifest-serve_all constant (memory constant) layered hex_lem requests fresh repo
      (tag (codes "v1")) own_digest image_type (b'm' ∷ []) nothing_kept served_lem
