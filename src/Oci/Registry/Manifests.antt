-- ===== src/Oci/Registry/Manifests.antt =====
-- registry.rs: manifests, tags and referrers of `InMemoryRegistryMeta`, put and read. `save` is
-- `persist_locked`: the error of a snapshot that was not written.
pub mod Rollback
pub mod Seen
use ferro_protocols.Prelude.{
  ℕ, Bool, true, false, Bytes, List, [], ◌∷◌, ◌++◌, Option, none, some, if◌then◌else◌,
}
use ferro_protocols.Prelude.Result.{Result, ok, err}
use ferro_protocols.Prelude.Maps.{lookup, insert}
use ferro_protocols.Prelude.Texts.{Text, text_eq}
use ferro_protocols.Blob.Digest.{Digest, DigestParseError, to_string}
use ferro_protocols.Blob.Digest
use ferro_protocols.Blob.Memory.{BlobStoreError, io, invalid_digest}
use ferro_protocols.Oci.Reference.{Reference, tag, digest}
use ferro_protocols.Oci.Registry.{ReferrerDescriptor, Manifests, Tags, Referrers, InMemoryState}
use ferro_protocols.Oci.Registry.Tables.{or_nil, at, entry, change, prune, put_back}

abbrev pub prune_empty_repo : Text → InMemoryState → InMemoryState
prune_empty_repo name σ = record σ {
  manifests = prune name σ.manifests;
  tags = prune name σ.tags;
  referrers = prune name σ.referrers;
}

-- `list.push` and `list.pop`
abbrev pub push : ReferrerDescriptor → List ReferrerDescriptor → List ReferrerDescriptor
push d ds = ds ++ d ∷ []

unfoldable pub pop : List ReferrerDescriptor → List ReferrerDescriptor
pop [] = []
pop (d ∷ []) = []
pop (d ∷ e ∷ ds) = d ∷ pop (e ∷ ds)

-- The three changes of a put.
abbrev pub add_manifest : Text → Text → Text → Bytes → Manifests → Manifests
add_manifest name key media_type body = entry name (insert text_eq key (media_type, body))

abbrev pub add_tag : Text → Reference → Text → Tags → Tags
add_tag name (tag t) key tags = entry name (insert text_eq t key) tags
add_tag name (digest d) key tags = tags

abbrev pub push_referrer : Text → Text → ReferrerDescriptor → Referrers → Referrers
push_referrer name subject d = entry name (entry subject (push d))

abbrev pub add_referrer : Text → Option (Digest × ReferrerDescriptor) → Referrers → Referrers
add_referrer name none rs = rs
add_referrer name (some (subject, d)) rs = push_referrer name (to_string subject) d rs

-- The last referrer of a subject is taken off, and the subject with the last of its own.
abbrev pub popped :
    Text
    → Option (List ReferrerDescriptor)
    → List (Text × List ReferrerDescriptor)
    → List (Text × List ReferrerDescriptor)
popped subject none m = m
popped subject (some ds) m = prune subject (insert text_eq subject (pop ds) m)

abbrev pub pop_subject :
    Text → List (Text × List ReferrerDescriptor) → List (Text × List ReferrerDescriptor)
pop_subject subject m = popped subject (lookup text_eq subject m) m

abbrev pub pop_referrer : Text → Text → Referrers → Referrers
pop_referrer name subject = change name (pop_subject subject)

-- What the rollback of a put does, with what the changes had replaced.
abbrev pub undo_tag : Text → Reference → Tags → Tags → Tags
undo_tag name (tag t) before = change name (put_back t (lookup text_eq t (at name before)))
undo_tag name (digest d) before = λ tags. tags

abbrev pub undo_referrer : Text → Option (Digest × ReferrerDescriptor) → Referrers → Referrers
undo_referrer name none rs = rs
undo_referrer name (some (subject, d)) rs = pop_referrer name (to_string subject) rs

abbrev pub applied :
    Text
    → Reference
    → Text
    → Text
    → Bytes
    → Option (Digest × ReferrerDescriptor)
    → InMemoryState
    → InMemoryState
applied name reference key media_type body referrer σ = record σ {
  manifests = add_manifest name key media_type body σ.manifests;
  tags = add_tag name reference key σ.tags;
  referrers = add_referrer name referrer σ.referrers;
}

-- From the state before the changes and the one after them.
abbrev pub undone :
    Text
    → Reference
    → Text
    → Option (Digest × ReferrerDescriptor)
    → InMemoryState
    → InMemoryState
    → InMemoryState
undone name reference key referrer before σ = prune_empty_repo name (record σ {
  manifests =
      change name (put_back key (lookup text_eq key (at name before.manifests))) σ.manifests;
  tags = undo_tag name reference before.tags σ.tags;
  referrers = undo_referrer name referrer σ.referrers;
})

-- The rollback of `register_referrer`.
abbrev pub unregistered : Text → Text → InMemoryState → InMemoryState
unregistered name subject σ =
    prune_empty_repo name (record σ { referrers = pop_referrer name subject σ.referrers })

abbrev pub saved_or :
    (InMemoryState → InMemoryState)
    → InMemoryState
    → Option Text
    → Result BlobStoreError Unit × InMemoryState
saved_or undo σ none = (ok tt, σ)
saved_or undo σ (some e) = (err (io e), undo σ)

module _ (save : InMemoryState → Option Text) where
  unfoldable pub put_manifest_with_referrer :
      Text
      → Reference
      → Digest
      → Text
      → Bytes
      → Option (Digest × ReferrerDescriptor)
      → InMemoryState
      → Result BlobStoreError Unit × InMemoryState
  put_manifest_with_referrer name reference d media_type body referrer σ =
      let σ' = applied name reference (to_string d) media_type body referrer σ in
      saved_or (undone name reference (to_string d) referrer σ) σ' (save σ')

  unfoldable pub put_manifest :
      Text
      → Reference
      → Digest
      → Text
      → Bytes
      → InMemoryState
      → Result BlobStoreError Unit × InMemoryState
  put_manifest name reference d media_type body σ =
      put_manifest_with_referrer name reference d media_type body none σ

  unfoldable pub register_referrer :
      Text
      → Digest
      → ReferrerDescriptor
      → InMemoryState
      → Result BlobStoreError Unit × InMemoryState
  register_referrer name subject d σ =
      let σ' = record σ { referrers = push_referrer name (to_string subject) d σ.referrers } in
      saved_or (unregistered name (to_string subject)) σ' (save σ')

abbrev pub of_parsed :
    Text × Bytes
    → Result DigestParseError Digest
    → Result BlobStoreError (Option (Digest × (Text × Bytes)))
of_parsed m (ok d) = ok (some (d, m))
of_parsed m (err e) = err (invalid_digest e)

abbrev pub of_key :
    Text → Option (Text × Bytes) → Result BlobStoreError (Option (Digest × (Text × Bytes)))
of_key key none = ok none
of_key key (some m) = of_parsed m (Digest.parse key)

-- The text of the digest that a reference stands for.
abbrev pub key_of : List (Text × Text) → Reference → Option Text
key_of tags (tag t) = lookup text_eq t tags
key_of tags (digest d) = some (to_string d)

abbrev pub of_reference :
    List (Text × (Text × Bytes))
    → Option Text
    → Result BlobStoreError (Option (Digest × (Text × Bytes)))
of_reference ms none = ok none
of_reference ms (some key) = of_key key (lookup text_eq key ms)

abbrev pub in_repo :
    Text
    → Reference
    → InMemoryState
    → Option (List (Text × (Text × Bytes)))
    → Result BlobStoreError (Option (Digest × (Text × Bytes)))
in_repo name reference σ none = ok none
in_repo name reference σ (some ms) = of_reference ms (key_of (at name σ.tags) reference)

unfoldable pub get_manifest :
    Text → Reference → InMemoryState → Result BlobStoreError (Option (Digest × (Text × Bytes)))
get_manifest name reference σ = in_repo name reference σ (lookup text_eq name σ.manifests)

abbrev pub is_type : Text → Option Text → Bool
is_type a none = false
is_type a (some b) = text_eq b a

abbrev pub of_type : Text → List ReferrerDescriptor → List ReferrerDescriptor
of_type a [] = []
of_type a (d ∷ ds) = if is_type a d.artifact_type then d ∷ of_type a ds else of_type a ds

abbrev pub filtered : Option Text → List ReferrerDescriptor → List ReferrerDescriptor
filtered none ds = ds
filtered (some a) ds = of_type a ds

-- A repository without referrers answers as one whose subject has none.
unfoldable pub list_referrers :
    Text → Digest → Option Text → InMemoryState → List ReferrerDescriptor
list_referrers name subject artifact_type σ =
    filtered artifact_type (at (to_string subject) (at name σ.referrers))
