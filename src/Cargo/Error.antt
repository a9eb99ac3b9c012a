-- ===== src/Cargo/Error.antt =====
-- crates/ferro-cargo-registry-server/src/error.rs: the errors of the handlers and their statuses.
use ferro_protocols.Prelude.{ℕ}
use ferro_protocols.Prelude.Texts.{Text}
use ferro_protocols.Blob.Memory.{BlobStoreError, io, digest_mismatch, invalid_digest}

-- What is wrong with a publish body; the source carries these as message texts.
pub data Malformed : Type 0 where
  too_short metadata_truncated crate_truncated missing_name missing_vers : Malformed
  metadata_json coerce : Text → Malformed

pub data CargoError : Type 0 where
  invalid_name invalid_version : Text → CargoError
  invalid_publish : Malformed → CargoError
  -- declared, computed
  checksum_mismatch : Text → Text → CargoError
  -- requested, existing
  name_conflict : Text → Text → CargoError
  -- name, version
  duplicate_version : Text → Text → CargoError
  not_found : Text → CargoError
  not_implemented : Text → CargoError
  storage : BlobStoreError → CargoError
  persistence : Text → CargoError

unfoldable pub storage_status : BlobStoreError → ℕ
storage_status (BlobStoreError.not_found _) = 404
storage_status (digest_mismatch _ _) = 400
storage_status (invalid_digest _) = 400
storage_status (io _) = 500

unfoldable pub status : CargoError → ℕ
status (invalid_name _) = 400
status (invalid_version _) = 400
status (invalid_publish _) = 400
status (checksum_mismatch _ _) = 400
status (name_conflict _ _) = 409
status (duplicate_version _ _) = 409
status (not_found _) = 404
status (not_implemented _) = 501
status (persistence _) = 500
status (storage e) = storage_status e
