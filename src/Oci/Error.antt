-- ===== src/Oci/Error.antt =====
-- crates/ferro-oci-server/src/error.rs: error codes, their wire names and statuses.
use ferro_protocols.Prelude.{ℕ, Option, none, some}
use ferro_protocols.Prelude.Texts.{Text, codes}
use ferro_protocols.Blob.Memory.{BlobStoreError, io, digest_mismatch, not_found, invalid_digest}

pub data OciErrorCode : Type 0 where
  blob_unknown blob_upload_invalid blob_upload_unknown : OciErrorCode
  digest_invalid manifest_blob_unknown manifest_invalid : OciErrorCode
  manifest_unknown name_invalid name_unknown : OciErrorCode
  size_invalid unauthorized denied unsupported : OciErrorCode
  too_many_requests : OciErrorCode

unfoldable pub as_str : OciErrorCode → Text
as_str blob_unknown = codes "BLOB_UNKNOWN"
as_str blob_upload_invalid = codes "BLOB_UPLOAD_INVALID"
as_str blob_upload_unknown = codes "BLOB_UPLOAD_UNKNOWN"
as_str digest_invalid = codes "DIGEST_INVALID"
as_str manifest_blob_unknown = codes "MANIFEST_BLOB_UNKNOWN"
as_str manifest_invalid = codes "MANIFEST_INVALID"
as_str manifest_unknown = codes "MANIFEST_UNKNOWN"
as_str name_invalid = codes "NAME_INVALID"
as_str name_unknown = codes "NAME_UNKNOWN"
as_str size_invalid = codes "SIZE_INVALID"
as_str unauthorized = codes "UNAUTHORIZED"
as_str denied = codes "DENIED"
as_str unsupported = codes "UNSUPPORTED"
as_str too_many_requests = codes "TOOMANYREQUESTS"

-- `OciErrorCode::status`
unfoldable pub code_status : OciErrorCode → ℕ
code_status blob_unknown = 404
code_status blob_upload_unknown = 404
code_status manifest_blob_unknown = 404
code_status manifest_unknown = 404
code_status name_unknown = 404
code_status blob_upload_invalid = 400
code_status digest_invalid = 400
code_status manifest_invalid = 400
code_status name_invalid = 400
code_status size_invalid = 400
code_status unauthorized = 401
code_status denied = 403
code_status unsupported = 405
code_status too_many_requests = 429

-- Without the texts for people: the message and the detail.
pub record OciError : Type 0 where
  pub code : OciErrorCode
  pub status_override : Option ℕ

abbrev pub new : OciErrorCode → OciError
new code = record { code = code; status_override = none }

abbrev pub with_status : ℕ → OciError → OciError
with_status status e = record e { status_override = some status }

abbrev pub or_default : Option ℕ → ℕ → ℕ
or_default none d = d
or_default (some s) d = s

-- `OciError::status`
unfoldable pub status : OciError → ℕ
status e = or_default e.status_override (code_status e.code)

-- `From<BlobStoreError>`
unfoldable pub from_store : BlobStoreError → OciError
from_store (not_found t) = new blob_unknown
from_store (digest_mismatch expected computed) = new digest_invalid
from_store (invalid_digest e) = new digest_invalid
from_store (io t) = new unsupported
