-- ===== src/Oci/Registry/Delete/Gone.antt =====
-- A deletion that succeeds: nothing leads to the manifest any more, and the others stay.
use mathlib.Core.Path.{subst}
use ferro_protocols.Prelude.{
  ◌≡◌, ◌≢◌, refl, sym, ap, ◌∙◌, true, false, Bytes, List, [], ◌∷◌, Option, none, some, arith, All,
}
use ferro_protocols.Prelude.Result.{ok}
use ferro_protocols.Prelude.Maps.{lookup, remove, lookup-remove_same, lookup-remove_other}
use ferro_protocols.Prelude.Texts.{Text, text_eq, text_eq_iff}
use ferro_protocols.Blob.Digest.{Digest, to_string}
use ferro_protocols.Oci.Reference.{Reference, tag, digest}
use ferro_protocols.Oci.Registry.{ReferrerDescriptor, InMemoryState}
use ferro_protocols.Oci.Registry.Tables.{at, at-change, at-change_other}
use ferro_protocols.Oci.Registry.Lists.{keys}
use ferro_protocols.Oci.Registry.Lists.Order.{Distinct}
use ferro_protocols.Oci.Registry.Manifests.{
  get_manifest, list_referrers, of_reference, of_key, key_of,
}
use ferro_protocols.Oci.Registry.Manifests.Seen.{get_manifest_lem}
use ferro_protocols.Oci.Registry.Delete.{
  kept_tags, is_of, kept_list, kept_subjects, deleted, settle, delete_found, delete_manifest,
}
use ferro_protocols.Oci.Registry.Delete.Undo.{at-kept_subjects}
use ferro_protocols.Oci.Registry.Delete.Seen.{get_manifest_same}

module _ (key : Text) where
  kept_tags_not :
      (t : Text) (m : List (Text × Text)) → lookup text_eq t (kept_tags key m) ≢ some key
  unfolding lookup kept_tags
  kept_tags_not t [] e = absurd (ground arith)
  kept_tags_not t ((j, v) ∷ m) e = ground (arith, kept_tags_not t m, text_eq_iff v key)

  kept_tags_other :
      (t : Text) (m : List (Text × Text))
      → lookup text_eq t m ≢ some key
      → lookup text_eq t (kept_tags key m) ≡ lookup text_eq t m
  unfolding lookup kept_tags
  kept_tags_other t [] n = refl
  kept_tags_other t ((j, v) ∷ m) n = ground (arith, kept_tags_other t m, text_eq_iff v key)

  -- No descriptor of the list is of the manifest.
  abbrev pub NoneOf : List ReferrerDescriptor → Type 0
  NoneOf = All (λ d. is_of key d ≡ false)

  kept_list-NoneOf : (ds : List ReferrerDescriptor) → NoneOf (kept_list key ds)
  unfolding kept_list
  kept_list-NoneOf [] = tt
  kept_list-NoneOf (d ∷ ds) = ground (arith, kept_list-NoneOf ds)

-- The manifest is not read, by its digest or by a tag; no descriptor of it is listed; and what a
-- reference to another manifest reads, here or in another repository, is what it read before.
abbrev pub IsGone : Text → Digest → InMemoryState → InMemoryState → Type 0
IsGone name x σ τ =
    (get_manifest name (digest x) τ ≡ ok none)
    × (((t : Text) → lookup text_eq t (at name τ.tags) ≢ some (to_string x))
        × (((subject : Digest) → NoneOf (to_string x) (list_referrers name subject none τ))
            × (((q : Reference)
                  → key_of (at name σ.tags) q ≢ some (to_string x)
                  → get_manifest name q τ ≡ get_manifest name q σ)
                × ((n : Text) (q : Reference)
                    → text_eq n name ≡ false
                    → get_manifest n q τ ≡ get_manifest n q σ))))

module _ (name : Text) (x : Digest) (σ : InMemoryState) where
  abbrev after : InMemoryState
  after = deleted name (to_string x) σ

  manifests_after : at name (after.manifests) ≡ remove text_eq (to_string x) (at name σ.manifests)
  unfolding remove
  manifests_after = at-change name (remove text_eq (to_string x)) σ.manifests refl

  tags_after : at name (after.tags) ≡ kept_tags (to_string x) (at name σ.tags)
  unfolding kept_tags
  tags_after = at-change name (kept_tags (to_string x)) σ.tags refl

  referrers_after : at name (after.referrers) ≡ kept_subjects (to_string x) (at name σ.referrers)
  unfolding kept_subjects
  referrers_after = at-change name (kept_subjects (to_string x)) σ.referrers refl

  still_there :
      (o : Option Text)
      → o ≢ some (to_string x)
      → of_reference (remove text_eq (to_string x) (at name σ.manifests)) o
        ≡ of_reference (at name σ.manifests) o
  still_there none n = refl
  still_there (some k) n = ap (of_key k) (
      lookup-remove_other text_eq text_eq_iff (to_string x) k (at name σ.manifests)
        (ground (arith, n, text_eq_iff k (to_string x))))

  same_key :
      (q : Reference)
      → key_of (at name σ.tags) q ≢ some (to_string x)
      → key_of (kept_tags (to_string x) (at name σ.tags)) q ≡ key_of (at name σ.tags) q
  same_key (tag t) n = kept_tags_other (to_string x) t (at name σ.tags) n
  same_key (digest d) n = refl

  deleted-IsGone : Distinct (keys (at name σ.referrers)) → IsGone name x σ after
  unfolding list_referrers
  deleted-IsGone distinct = (
    get_manifest_lem name (digest x) after
        ∙ ap (λ m. of_key (to_string x) (lookup text_eq (to_string x) m)) manifests_after
        ∙ ap (of_key (to_string x))
            (lookup-remove_same text_eq text_eq_iff (to_string x) (at name σ.manifests)),
    (
      (λ t e.
          kept_tags_not (to_string x) t (at name σ.tags)
            (ap (lookup text_eq t) (sym tags_after) ∙ e)),
      (
        (λ subject.
            subst (NoneOf (to_string x))
              (sym (
                ap (at (to_string subject)) referrers_after
                ∙ at-kept_subjects (to_string x) (to_string subject) (at name σ.referrers)
                    distinct))
              (kept_list-NoneOf (to_string x) (at (to_string subject) (at name σ.referrers)))),
        (
          (λ q n.
              get_manifest_lem name q after
              ∙ ap (λ m. of_reference m (key_of (at name (after.tags)) q)) manifests_after
              ∙ ap
                  (λ t.
                    of_reference (remove text_eq (to_string x) (at name σ.manifests)) (key_of t q))
                  tags_after
              ∙ ap (of_reference (remove text_eq (to_string x) (at name σ.manifests)))
                  (same_key q n)
              ∙ still_there (key_of (at name σ.tags) q) n
              ∙ sym (get_manifest_lem name q σ)),
          (λ n q h.
              get_manifest_same n q σ after
                (λ k.
                  ap (lookup text_eq k)
                    (at-change_other name n (remove text_eq (to_string x)) σ.manifests h))
                (λ t.
                  ap (lookup text_eq t)
                    (at-change_other name n (kept_tags (to_string x)) σ.tags h))),
        ),
      ),
    ),
  )

module _ (save : InMemoryState → Option Text) where
  settle-deleted :
      (name key : Text) (m : Text × Bytes) (σ τ : InMemoryState) (o : Option Text)
      → settle save name key m σ o ≡ (ok true, τ)
      → deleted name key σ ≡ τ
  settle-deleted name key m σ τ none h = ap (λ r. r.1) h
  settle-deleted name key m σ τ (some e) h = absurd (ground arith)

  found-deleted :
      (name key : Text) (σ τ : InMemoryState) (o : Option (Text × Bytes))
      → delete_found save name key σ o ≡ (ok true, τ)
      → deleted name key σ ≡ τ
  found-deleted name key σ τ none h = absurd (ground arith)
  found-deleted name key σ τ (some m) h = settle-deleted name key m σ τ _ h

  -- A deletion by digest that reports success, where the subjects of the repository are distinct,
  -- as those of a map are: the manifest is not found by its digest, no tag of the repository leads
  -- to it and no listing of referrers there has a descriptor of it; a reference to another manifest
  -- of the repository, and any reference in another repository, reads what it read before.
  pub delete_manifest-IsGone :
      (name : Text) (x : Digest) (σ τ : InMemoryState)
      → Distinct (keys (at name σ.referrers))
      → delete_manifest save name (digest x) σ ≡ (ok true, τ)
      → IsGone name x σ τ
  unfolding delete_manifest
  delete_manifest-IsGone name x σ τ distinct h =
      subst (IsGone name x σ) (found-deleted name (to_string x) σ τ _ h)
        (deleted-IsGone name x σ distinct)
