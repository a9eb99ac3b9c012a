-- ===== src/Oci/Chunk.antt =====
-- crates/ferro-oci-server/src/handlers/blob_upload.rs: the digest, the `Content-Range` and the size
-- of a chunk.
use ferro_protocols.Prelude.{ℕ, ◌-◌, Bool, not, Option, none, some, ltb, ◌==◌, if◌then◌else◌}
use ferro_protocols.Prelude.Result.{Result, ok, err, ◌>>=◌}
use ferro_protocols.Prelude.Texts.{Text}
use ferro_protocols.Prelude.Words.{saturating_add}
use ferro_protocols.Blob.Digest.{sha256, sha512, Digest, DigestParseError, Hasher}
use ferro_protocols.Blob.Digest
use ferro_protocols.Oci.Error.{OciError, new, with_status, digest_invalid, blob_upload_invalid}
use ferro_protocols.Oci.Upload.{
  UploadState, ContentRange, ContentRangeParseError, offset, checked_length,
}
use ferro_protocols.Oci.Upload

-- The header `Content-Range`: there is none, or it is no text, or its text.
pub data RangeHeader : Type 0 where
  absent not_text : RangeHeader
  value : Text → RangeHeader

unfoldable pub would_exceed_cap : ℕ → ℕ → ℕ → Bool
would_exceed_cap cap current incoming = ltb cap (saturating_add current incoming)

abbrev pub or_invalid : Result DigestParseError Digest → Result OciError Digest
or_invalid (ok d) = ok d
or_invalid (err e) = err (new digest_invalid)

unfoldable pub parse_digest : Text → Result OciError Digest
parse_digest s = or_invalid (Digest.parse s)

-- The end of the header `Range` of `upload_location_headers`.
unfoldable pub range_end : ℕ → ℕ
range_end new_offset = if new_offset == 0 then 0 else new_offset - 1

abbrev unsatisfiable : OciError
unsatisfiable = with_status 416 (new blob_upload_invalid)

-- The answer `upload_too_large`.
abbrev pub too_large : OciError
too_large = with_status 413 (new blob_upload_invalid)

abbrev pub of_length : ℕ → ContentRange → Option ℕ → Result OciError ℕ
of_length len r none = err unsatisfiable
of_length len r (some declared) = if not (declared == len) then err unsatisfiable else ok r.start

abbrev pub of_range : ℕ → Result ContentRangeParseError ContentRange → Result OciError ℕ
of_range len (err e) = err (new blob_upload_invalid)
of_range len (ok r) = of_length len r (checked_length r)

unfoldable pub chunk_start : ℕ → ℕ → RangeHeader → Result OciError ℕ
chunk_start expected len absent = ok expected
chunk_start expected len not_text = err (new blob_upload_invalid)
chunk_start expected len (value s) = of_range len (Upload.parse s)

unfoldable pub in_sequence : ℕ → ℕ → RangeHeader → Result OciError ℕ
in_sequence expected len header = chunk_start expected len header >>= λ start.
    if not (start == expected) then err unsatisfiable else ok start
