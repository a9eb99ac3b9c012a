-- ===== src/Blob/Memory.antt =====
-- crates/ferro-blob-store/src/memory.rs, blob_store.rs and error.rs: the store of blobs by digest.
pub mod Laws
pub mod Implements
use ferro_protocols.Prelude.{
  ℕ, ◌≡◌, ◌↔◌, Bool, true, false, Bytes, List, [], ◌∷◌, map, Option, none, some, length, arith,
  if◌then◌else◌, ◌==◌,
}
use ferro_protocols.Prelude.Result.{Result, ok, err}
use ferro_protocols.Prelude.Maps.{lookup, insert, remove}
use ferro_protocols.Prelude.Texts.{Text}
use ferro_protocols.Blob.Digest.{
  DigestAlgo, sha256, sha512, Digest, DigestParseError, Hasher, sha256_of, sha512_of, digest_eq,
  to_string,
}

pub data BlobStoreError : Type 0 where
  io : Text → BlobStoreError
  -- expected, computed
  digest_mismatch : Text → Text → BlobStoreError
  not_found : Text → BlobStoreError
  invalid_digest : DigestParseError → BlobStoreError

-- `InMemoryBlobStore`
abbrev pub Store : Type 0
Store = List (Digest × Bytes)

abbrev pub empty : Store
empty = []

unfoldable pub len : Store → ℕ
len s = length s

unfoldable pub is_empty : Store → Bool
is_empty [] = true
is_empty (e ∷ s) = false

unfoldable pub clear : Store → Store
clear s = []

-- The digest that `put` computes: by the algorithm of the digest it was given.
unfoldable pub computed : Hasher → DigestAlgo → Bytes → Digest
computed h sha256 bytes = sha256_of h bytes
computed h sha512 bytes = sha512_of h bytes

unfoldable pub put : Hasher → Digest → Bytes → Store → Result BlobStoreError Store
put h digest bytes s =
    if digest_eq (computed h digest.algo bytes) digest
    then ok (insert digest_eq digest bytes s)
    else err (digest_mismatch (to_string digest) (to_string (computed h digest.algo bytes)))

abbrev pub found : Digest → Option Bytes → Result BlobStoreError Bytes
found digest none = err (not_found (to_string digest))
found digest (some bytes) = ok bytes

unfoldable pub get : Digest → Store → Result BlobStoreError Bytes
get digest s = found digest (lookup digest_eq digest s)

unfoldable pub contains : Digest → Store → Bool
contains digest s = elim (lookup digest_eq digest s) [ none ↦ false | some b ↦ true ]

unfoldable pub delete : Digest → Store → Result BlobStoreError Store
delete digest s = ok (remove digest_eq digest s)

abbrev pub key : Digest × Bytes → Digest
key (digest, bytes) = digest

unfoldable pub list : Store → List Digest
list s = map key s

-- The store a caller holds after a call: a refused call leaves it as it was.
abbrev pub or_same : Store → Result BlobStoreError Store → Store
or_same s (ok t) = t
or_same s (err e) = s

-- The calls that change the store.
pub data Op : Type 0 where
  putting : Digest → Bytes → Op
  deleting : Digest → Op
  clearing : Op

unfoldable pub apply : Hasher → Op → Store → Store
apply h (putting d bytes) s = or_same s (put h d bytes s)
apply h (deleting d) s = or_same s (delete d s)
apply h clearing s = clear s

unfoldable pub apply_all : Hasher → List Op → Store → Store
apply_all h [] s = s
apply_all h (o ∷ os) s = apply_all h os (apply h o s)
