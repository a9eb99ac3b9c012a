-- ===== src/Oci/Registry/Delete.antt =====
-- registry.rs: `delete_manifest`, with the tags and referrers that it takes along.
pub mod Undo
pub mod Seen
pub mod Gone
use ferro_protocols.Prelude.{
  ℕ, zero, suc, Bool, true, false, not, List, [], ◌∷◌, ◌++◌, Option, none, some, length, min, map,
  if◌then◌else◌, Bytes,
}
use ferro_protocols.Prelude.Result.{Result, ok, err}
use ferro_protocols.Prelude.Maps.{lookup, insert, remove}
use ferro_protocols.Prelude.Texts.{Text, text_eq}
use ferro_protocols.Blob.Digest.{to_string}
use ferro_protocols.Blob.Memory.{BlobStoreError, io}
use ferro_protocols.Oci.Reference.{Reference, tag, digest}
use ferro_protocols.Oci.Registry.{ReferrerDescriptor, Tags, Referrers, InMemoryState}
use ferro_protocols.Oci.Registry.Tables.{at, entry, change}

-- The tags that point elsewhere, and the names of those that do not.
unfoldable pub kept_tags : Text → List (Text × Text) → List (Text × Text)
kept_tags key [] = []
kept_tags key ((t, v) ∷ m) =
    let rest = kept_tags key m in if text_eq v key then rest else (t, v) ∷ rest

unfoldable pub removed_tags : Text → List (Text × Text) → List Text
removed_tags key [] = []
removed_tags key ((t, v) ∷ m) =
    let rest = removed_tags key m in if text_eq v key then t ∷ rest else rest

abbrev pub is_of : Text → ReferrerDescriptor → Bool
is_of key d = text_eq (to_string d.digest) key

unfoldable pub kept_list : Text → List ReferrerDescriptor → List ReferrerDescriptor
kept_list key [] = []
kept_list key (d ∷ ds) = let rest = kept_list key ds in if is_of key d then rest else d ∷ rest

-- What is removed with its place, from the back to the front; the first place is given.
unfoldable pub removed_list : Text → ℕ → List ReferrerDescriptor → List (ℕ × ReferrerDescriptor)
removed_list key i [] = []
removed_list key i (d ∷ ds) =
    let rest = removed_list key (suc i) ds in if is_of key d then rest ++ (i, d) ∷ [] else rest

abbrev pub keep :
    Text
    → List ReferrerDescriptor
    → List (Text × List ReferrerDescriptor)
    → List (Text × List ReferrerDescriptor)
keep s [] m = m
keep s (d ∷ ds) m = (s, d ∷ ds) ∷ m

-- The subjects whose lists are not empty then.
unfoldable pub kept_subjects :
    Text → List (Text × List ReferrerDescriptor) → List (Text × List ReferrerDescriptor)
kept_subjects key [] = []
kept_subjects key ((s, ds) ∷ m) = keep s (kept_list key ds) (kept_subjects key m)

abbrev pub with_subject :
    Text → List (ℕ × ReferrerDescriptor) → List (Text × (ℕ × ReferrerDescriptor))
with_subject s [] = []
with_subject s (x ∷ xs) = (s, x) ∷ with_subject s xs

unfoldable pub removed_referrers :
    Text → List (Text × List ReferrerDescriptor) → List (Text × (ℕ × ReferrerDescriptor))
removed_referrers key [] = []
removed_referrers key ((s, ds) ∷ m) =
    with_subject s (removed_list key zero ds) ++ removed_referrers key m

-- `list.insert(idx.min(list.len()), descriptor)`
unfoldable pub insert_at :
    ℕ → ReferrerDescriptor → List ReferrerDescriptor → List ReferrerDescriptor
insert_at zero d ds = d ∷ ds
insert_at (suc i) d [] = d ∷ []
insert_at (suc i) d (x ∷ ds) = x ∷ insert_at i d ds

abbrev pub insert_place : ℕ × ReferrerDescriptor → List ReferrerDescriptor → List ReferrerDescriptor
insert_place (i, d) ds = insert_at i d ds

-- The removals are undone in the opposite order.
unfoldable pub replay :
    List (Text × (ℕ × ReferrerDescriptor))
    → List (Text × List ReferrerDescriptor)
    → List (Text × List ReferrerDescriptor)
replay [] m = m
replay ((s, x) ∷ xs) m = entry s (insert_place x) (replay xs m)

unfoldable pub retag : Text → List Text → List (Text × Text) → List (Text × Text)
retag key [] m = m
retag key (t ∷ ts) m = retag key ts (insert text_eq t key m)

-- An entry is made only where there is something to put back.
abbrev pub restore_tags : Text → Text → List Text → Tags → Tags
restore_tags name key [] tags = tags
restore_tags name key (t ∷ ts) tags = entry name (retag key (t ∷ ts)) tags

abbrev pub restore_referrers : Text → List (Text × (ℕ × ReferrerDescriptor)) → Referrers → Referrers
restore_referrers name [] rs = rs
restore_referrers name (x ∷ xs) rs = entry name (replay (x ∷ xs)) rs

abbrev pub deleted : Text → Text → InMemoryState → InMemoryState
deleted name key σ = record σ {
  manifests = change name (remove text_eq key) σ.manifests;
  tags = change name (kept_tags key) σ.tags;
  referrers = change name (kept_subjects key) σ.referrers;
}

-- From the state before the deletion and the one after it.
abbrev pub undeleted : Text → Text → Text × Bytes → InMemoryState → InMemoryState → InMemoryState
undeleted name key m before σ = record σ {
  manifests = entry name (insert text_eq key m) σ.manifests;
  tags = restore_tags name key (removed_tags key (at name before.tags)) σ.tags;
  referrers = restore_referrers name (removed_referrers key (at name before.referrers)) σ.referrers;
}

module _ (save : InMemoryState → Option Text) where
  abbrev pub settle :
      Text
      → Text
      → Text × Bytes
      → InMemoryState
      → Option Text
      → Result BlobStoreError Bool × InMemoryState
  settle name key m σ none = (ok true, deleted name key σ)
  settle name key m σ (some e) = (err (io e), undeleted name key m σ (deleted name key σ))

  abbrev pub delete_found :
      Text
      → Text
      → InMemoryState
      → Option (Text × Bytes)
      → Result BlobStoreError Bool × InMemoryState
  delete_found name key σ none = (ok false, σ)
  delete_found name key σ (some m) = settle name key m σ (save (deleted name key σ))

  -- A repository that is not there has no manifest either.
  unfoldable pub delete_manifest :
      Text → Reference → InMemoryState → Result BlobStoreError Bool × InMemoryState
  delete_manifest name (tag t) σ = (ok false, σ)
  delete_manifest name (digest d) σ =
      delete_found name (to_string d) σ (lookup text_eq (to_string d) (at name σ.manifests))
