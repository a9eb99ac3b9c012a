-- ===== src/Blob/Interface.antt =====
-- crates/ferro-blob-store/src/blob_store.rs: the trait `BlobStore`, as its clients see a store, and
-- what a store has to keep for them.
use ferro_protocols.Prelude.{◌≡◌, ◌≢◌, Bool, Bytes}
use ferro_protocols.Prelude.Result.{Result, ok, err}
use ferro_protocols.Blob.Digest.{Digest, Hasher}
use ferro_protocols.Blob.Memory.{Store, BlobStoreError, put, get, delete, contains, or_same}

pub record BlobStore (S : Type 0) : Type 0 where
  pub put : Digest → Bytes → S → Result BlobStoreError Unit × S
  pub get : Digest → S → Result BlobStoreError Bytes
  pub delete : Digest → S → Result BlobStoreError Unit × S
  pub contains : Digest → S → Result BlobStoreError Bool

-- A blob is there.
abbrev pub Held : {S : Type 0} → BlobStore S → Digest → S → Type 0
Held B d s = (bytes : Bytes) × (B.get d s ≡ ok bytes)

pub record IsBlobStore {S : Type 0} (B : BlobStore S) : Type 0 where
  pub get-put : (d : Digest) (b : Bytes) (s s' : S) → B.put d b s ≡ (ok tt, s') → B.get d s' ≡ ok b
  pub put_keeps : (d i : Digest) (b : Bytes) (s : S) → Held B i s → Held B i (B.put d b s).1
  pub delete_keeps : (d i : Digest) (s : S) → i ≢ d → B.get i (B.delete d s).1 ≡ B.get i s

abbrev pub unit_or_error : Result BlobStoreError Store → Result BlobStoreError Unit
unit_or_error (ok s) = ok tt
unit_or_error (err e) = err e

-- The in-memory store behind the trait.
abbrev pub memory : Hasher → BlobStore Store
memory h = record {
  put = λ d b s. (unit_or_error (put h d b s), or_same s (put h d b s));
  get = get;
  delete = λ d s. (unit_or_error (delete d s), or_same s (delete d s));
  contains = λ d s. ok (contains d s);
}
