-- ===== src/Oci/Registry/Sessions.antt =====
-- registry.rs: the upload sessions of `InMemoryRegistryMeta`, as the map `uploads` of its state.
pub mod Bounds
use ferro_protocols.Prelude.{
  ℕ, ◌+◌, ◌-◌, Bool, true, false, not, Bytes, List, [], ◌∷◌, ◌++◌, Option, none, some, length, leb,
  ◌==◌, if◌then◌else◌,
}
use ferro_protocols.Prelude.Result.{Result, ok, err}
use ferro_protocols.Prelude.Maps.{lookup, insert, remove}
use ferro_protocols.Prelude.Texts.{Text, codes}
use ferro_protocols.Blob.Memory.{BlobStoreError, not_found}
use ferro_protocols.Oci.Upload.{UploadState, new, offset, append, is_idle_for, take_bytes}
use ferro_protocols.Oci.Registry.{
  UploadAdmission, started, at_capacity, SessionLimits, Key, key_eq, Uploads,
}

unfoldable pub sweep_idle_uploads : ℕ → ℕ → Uploads → Uploads
sweep_idle_uploads now ttl [] = []
sweep_idle_uploads now ttl ((key, u) ∷ m) =
    let rest = sweep_idle_uploads now ttl m in
    if not (is_idle_for now ttl u) then (key, u) ∷ rest else rest

abbrev pub admit : SessionLimits → ℕ → Text → Text → Uploads → UploadAdmission × Uploads
admit limits now name uuid m =
    if leb limits.max_sessions (length m)
    then (at_capacity limits.max_sessions, m)
    else (started uuid, insert key_eq (name, uuid) (new now name uuid) m)

-- `start_upload`, with the uuid that the uuid crate makes
unfoldable pub start_upload : SessionLimits → ℕ → Text → Text → Uploads → UploadAdmission × Uploads
start_upload limits now name uuid m =
    admit limits now name uuid (sweep_idle_uploads now limits.idle_ttl m)

-- The second error text goes on with the two offsets.
abbrev pub append_to :
    ℕ → Key → ℕ → Bytes → Uploads → Option UploadState → Result BlobStoreError ℕ × Uploads
append_to now (name, uuid) at chunk m none =
    (err (not_found (codes "unknown upload uuid: " ++ uuid)), m)
append_to now (name, uuid) at chunk m (some u) =
    if not (at == offset u)
    then (err (not_found (codes "out-of-order upload chunk")), m)
    else (ok (offset (append now chunk u)), insert key_eq (name, uuid) (append now chunk u) m)

unfoldable pub append_upload : ℕ → Key → ℕ → Bytes → Uploads → Result BlobStoreError ℕ × Uploads
append_upload now key at chunk m = append_to now key at chunk m (lookup key_eq key m)

unfoldable pub complete_upload : Key → Uploads → Uploads
complete_upload key m = remove key_eq key m

abbrev pub unless_idle :
    SessionLimits → ℕ → Key → Uploads → Option UploadState → Option UploadState × Uploads
unless_idle limits now key m none = (none, m)
unless_idle limits now key m (some u) =
    if is_idle_for now limits.idle_ttl u then (none, remove key_eq key m) else (some u, m)

unfoldable pub get_upload_state : SessionLimits → ℕ → Key → Uploads → Option UploadState × Uploads
get_upload_state limits now key m = unless_idle limits now key m (lookup key_eq key m)

abbrev pub is_some : {A : Type 0} → Option A → Bool
is_some none = false
is_some (some a) = true

unfoldable pub cancel_upload : Key → Uploads → Bool × Uploads
cancel_upload key m = (is_some (lookup key_eq key m), remove key_eq key m)

abbrev pub take_from : Key → Uploads → Option UploadState → Option Bytes × Uploads
take_from key m none = (none, m)
take_from key m (some u) = (some (take_bytes u).0, insert key_eq key (take_bytes u).1 m)

unfoldable pub take_upload_bytes : Key → Uploads → Option Bytes × Uploads
take_upload_bytes key m = take_from key m (lookup key_eq key m)
