-- ===== src/Oci/Registry.antt =====
-- crates/ferro-oci-server/src/registry.rs: the state that `InMemoryRegistryMeta` keeps.
pub mod Sessions
pub mod Tables
pub mod Manifests
pub mod Lists
pub mod Delete
use ferro_protocols.Prelude.{ℕ, ◌*◌, ◌^◌, Bool, Bytes, List, [], Option, ◌&&◌}
use ferro_protocols.Prelude.Texts.{Text, text_eq}
use ferro_protocols.Blob.Digest.{Digest}
use ferro_protocols.Oci.Upload.{UploadState}

abbrev pub default_max_upload_sessions : ℕ
default_max_upload_sessions = 1024

-- One hour, in nanoseconds.
abbrev pub default_upload_session_ttl : ℕ
default_upload_session_ttl = 60 * 60 * 10 ^ 9

pub data UploadAdmission : Type 0 where
  started : Text → UploadAdmission
  at_capacity : ℕ → UploadAdmission

pub record ReferrerDescriptor : Type 0 where
  pub media_type : Text
  pub digest : Digest
  pub size : ℕ
  pub artifact_type : Option Text
  pub annotations : Option (List (Text × Text))

pub record SessionLimits : Type 0 where
  pub max_sessions : ℕ
  pub idle_ttl : ℕ

abbrev pub default_limits : SessionLimits
default_limits = record {
  max_sessions = default_max_upload_sessions;
  idle_ttl = default_upload_session_ttl;
}

-- A name and a uuid.
abbrev pub Key : Type 0
Key = Text × Text

abbrev pub key_eq : Key → Key → Bool
key_eq (a, b) (c, d) = text_eq a c && text_eq b d

abbrev pub Uploads : Type 0
Uploads = List (Key × UploadState)

abbrev pub Manifests : Type 0
Manifests = List (Text × List (Text × (Text × Bytes)))

abbrev pub Tags : Type 0
Tags = List (Text × List (Text × Text))

abbrev pub Referrers : Type 0
Referrers = List (Text × List (Text × List ReferrerDescriptor))

pub record InMemoryState : Type 0 where
  pub manifests : Manifests
  pub tags : Tags
  pub uploads : Uploads
  pub referrers : Referrers

abbrev pub fresh : InMemoryState
fresh = record { manifests = []; tags = []; uploads = []; referrers = [] }
