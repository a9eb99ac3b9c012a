-- ===== src/Oci/Registry/Delete/Seen.antt =====
-- What is read after a deletion.
use mathlib.Core.Path.{subst}
use ferro_protocols.Prelude.{
  ℕ, ◌≡◌, refl, sym, ap, ◌∙◌, false, Bytes, List, [], ◌∷◌, Option, none, some, arith, Bool-cases,
  inl, inr,
}
use ferro_protocols.Prelude.Result.{err}
use ferro_protocols.Prelude.Maps.{
  lookup, insert, remove, lookup-insert_same, lookup-insert_other, lookup-remove_other,
}
use ferro_protocols.Prelude.Texts.{Text, text_eq, text_eq_iff}
use ferro_protocols.Blob.Digest.{Digest, to_string}
use ferro_protocols.Blob.Memory.{BlobStoreError}
use ferro_protocols.Oci.Reference.{Reference, tag, digest}
use ferro_protocols.Oci.Registry.{ReferrerDescriptor, Tags, Referrers, InMemoryState}
use ferro_protocols.Oci.Registry.Tables.{
  at, change, at-entry, at-entry_other, at-change, at-change_other,
}
use ferro_protocols.Oci.Registry.Lists.{keys}
use ferro_protocols.Oci.Registry.Lists.Order.{Distinct}
use ferro_protocols.Oci.Registry.Manifests.{
  get_manifest, list_referrers, filtered, of_reference, of_key, key_of,
}
use ferro_protocols.Oci.Registry.Manifests.Seen.{get_manifest_lem}
use ferro_protocols.Oci.Registry.Delete.{
  kept_tags, removed_tags, kept_subjects, removed_referrers, replay, retag, restore_tags,
  restore_referrers, deleted, undeleted, settle, delete_found, delete_manifest,
}
use ferro_protocols.Oci.Registry.Delete.Undo.{at-replay-kept, lookup-retag}

-- Names that are distinct, as those of a map are.
abbrev pub IsMap : Text → InMemoryState → Type 0
IsMap name σ = Distinct (keys (at name σ.tags)) × Distinct (keys (at name σ.referrers))

-- Every manifest, every tag and every listing of referrers reads the same in both states.
abbrev pub LooksUp : InMemoryState → InMemoryState → Type 0
LooksUp σ τ =
    ((n k : Text) → lookup text_eq k (at n τ.manifests) ≡ lookup text_eq k (at n σ.manifests))
    × (((n t : Text) → lookup text_eq t (at n τ.tags) ≡ lookup text_eq t (at n σ.tags))
        × ((n s : Text) → at s (at n τ.referrers) ≡ at s (at n σ.referrers)))

pub of_reference_same :
    (ms ns : List (Text × (Text × Bytes))) (o : Option Text)
    → ((k : Text) → lookup text_eq k ms ≡ lookup text_eq k ns)
    → of_reference ms o ≡ of_reference ns o
of_reference_same ms ns none h = refl
of_reference_same ms ns (some k) h = ap (of_key k) (h k)

key_of_same :
    (ts us : List (Text × Text)) (r : Reference)
    → ((t : Text) → lookup text_eq t ts ≡ lookup text_eq t us)
    → key_of ts r ≡ key_of us r
key_of_same ts us (tag t) h = h t
key_of_same ts us (digest d) h = refl

pub get_manifest_same :
    (n : Text) (r : Reference) (σ τ : InMemoryState)
    → ((k : Text) → lookup text_eq k (at n τ.manifests) ≡ lookup text_eq k (at n σ.manifests))
    → ((t : Text) → lookup text_eq t (at n τ.tags) ≡ lookup text_eq t (at n σ.tags))
    → get_manifest n r τ ≡ get_manifest n r σ
get_manifest_same n r σ τ ms ts =
    get_manifest_lem n r τ
    ∙ of_reference_same (at n τ.manifests) (at n σ.manifests) (key_of (at n τ.tags) r) ms
    ∙ ap (of_reference (at n σ.manifests)) (key_of_same (at n τ.tags) (at n σ.tags) r ts)
    ∙ sym (get_manifest_lem n r σ)

module _ (name key : Text) where
  at-restore_tags :
      (ts : List Text) (tags : Tags)
      → at name (restore_tags name key ts (change name (kept_tags key) tags))
        ≡ retag key ts (kept_tags key (at name tags))
  unfolding retag kept_tags
  at-restore_tags [] tags = at-change name (kept_tags key) tags refl
  at-restore_tags (t ∷ ts) tags =
      at-entry name (retag key (t ∷ ts)) _
      ∙ ap (retag key (t ∷ ts)) (at-change name (kept_tags key) tags refl)

  at-restore_tags_other :
      (n : Text) (ts : List Text) (tags : Tags)
      → text_eq n name ≡ false
      → at n (restore_tags name key ts (change name (kept_tags key) tags)) ≡ at n tags
  at-restore_tags_other n [] tags h = at-change_other name n (kept_tags key) tags h
  at-restore_tags_other n (t ∷ ts) tags h =
      at-entry_other name n (retag key (t ∷ ts)) _ h ∙ at-change_other name n (kept_tags key) tags h

  at-restore_referrers :
      (xs : List (Text × (ℕ × ReferrerDescriptor))) (rs : Referrers)
      → at name (restore_referrers name xs (change name (kept_subjects key) rs))
        ≡ replay xs (kept_subjects key (at name rs))
  unfolding replay kept_subjects
  at-restore_referrers [] rs = at-change name (kept_subjects key) rs refl
  at-restore_referrers (x ∷ xs) rs =
      at-entry name (replay (x ∷ xs)) _
      ∙ ap (replay (x ∷ xs)) (at-change name (kept_subjects key) rs refl)

  at-restore_referrers_other :
      (n : Text) (xs : List (Text × (ℕ × ReferrerDescriptor))) (rs : Referrers)
      → text_eq n name ≡ false
      → at n (restore_referrers name xs (change name (kept_subjects key) rs)) ≡ at n rs
  at-restore_referrers_other n [] rs h = at-change_other name n (kept_subjects key) rs h
  at-restore_referrers_other n (x ∷ xs) rs h =
      at-entry_other name n (replay (x ∷ xs)) _ h ∙ at-change_other name n (kept_subjects key) rs h

  everywhere :
      (P : Text → Type 0) → P name → ((n : Text) → text_eq n name ≡ false → P n) → (n : Text) → P n
  everywhere P here there n = elim (Bool-cases (text_eq n name)) [
    | inl q ↦ subst P (sym ((text_eq_iff n name).0 q)) here
    | inr q ↦ there n q
  ]

  lookup-put_back :
      (k : Text) (m : Text × Bytes) (ms : List (Text × (Text × Bytes)))
      → lookup text_eq key ms ≡ some m
      → lookup text_eq k (insert text_eq key m (remove text_eq key ms)) ≡ lookup text_eq k ms
  lookup-put_back k m ms e = elim (Bool-cases (text_eq k key)) [
    | inl q ↦ ground (
      arith,
      text_eq_iff k key,
      e,
      lookup-insert_same text_eq text_eq_iff key m (remove text_eq key ms),
    )
    | inr q ↦
        lookup-insert_other text_eq text_eq_iff key k m (remove text_eq key ms) q
        ∙ lookup-remove_other text_eq text_eq_iff key k ms q
  ]

  undeleted-LooksUp :
      (m : Text × Bytes) (σ : InMemoryState)
      → IsMap name σ
      → lookup text_eq key (at name σ.manifests) ≡ some m
      → LooksUp σ (undeleted name key m σ (deleted name key σ))
  unfolding remove
  undeleted-LooksUp m σ (dt, dr) e = (
    (λ n k.
        everywhere (λ n. lookup text_eq k (at n τ.manifests) ≡ lookup text_eq k (at n σ.manifests))
          (ap (lookup text_eq k) (
              at-entry name (insert text_eq key m) _
              ∙ ap (insert text_eq key m) (at-change name (remove text_eq key) σ.manifests refl))
            ∙ lookup-put_back k m (at name σ.manifests) e)
          (λ n q. ap (lookup text_eq k) (
            at-entry_other name n (insert text_eq key m) _ q
            ∙ at-change_other name n (remove text_eq key) σ.manifests q))
          n),
    (
      (λ n t.
          everywhere (λ n. lookup text_eq t (at n τ.tags) ≡ lookup text_eq t (at n σ.tags))
            (ap (lookup text_eq t) (at-restore_tags (removed_tags key (at name σ.tags)) σ.tags)
              ∙ lookup-retag key t (at name σ.tags) dt)
            (λ n q.
              ap (lookup text_eq t)
                (at-restore_tags_other n (removed_tags key (at name σ.tags)) σ.tags q))
            n),
      (λ n s.
          everywhere (λ n. at s (at n τ.referrers) ≡ at s (at n σ.referrers))
            (ap (at s)
                (at-restore_referrers (removed_referrers key (at name σ.referrers)) σ.referrers)
              ∙ at-replay-kept key s (at name σ.referrers) dr)
            (λ n q. ap (at s) (
              at-restore_referrers_other n (removed_referrers key (at name σ.referrers)) σ.referrers
                q))
            n),
    ),
  )
    where
      τ : InMemoryState
      τ = undeleted name key m σ (deleted name key σ)

module _ (save : InMemoryState → Option Text) where
  settle-LooksUp :
      (name key : Text) (m : Text × Bytes) (σ τ : InMemoryState) (o : Option Text)
      (e : BlobStoreError)
      → IsMap name σ
      → lookup text_eq key (at name σ.manifests) ≡ some m
      → settle save name key m σ o ≡ (err e, τ)
      → LooksUp σ τ
  settle-LooksUp name key m σ τ none e d f h = absurd (ground arith)
  settle-LooksUp name key m σ τ (some x) e d f h =
      subst (LooksUp σ) (ap (λ r. r.1) h) (undeleted-LooksUp name key m σ d f)

  found-LooksUp :
      (name key : Text) (σ τ : InMemoryState) (o : Option (Text × Bytes)) (e : BlobStoreError)
      → IsMap name σ
      → lookup text_eq key (at name σ.manifests) ≡ o
      → delete_found save name key σ o ≡ (err e, τ)
      → LooksUp σ τ
  found-LooksUp name key σ τ none e d f h = absurd (ground arith)
  found-LooksUp name key σ τ (some m) e d f h = settle-LooksUp name key m σ τ _ e d f h

  -- A deletion that ends in an error, as when the snapshot cannot be written, where the names of
  -- the repository's tags and subjects are distinct, as those of maps are: every manifest by tag or
  -- digest, every tag, and every listing of referrers, with its order, reads as it did before.
  pub delete_manifest-LooksUp :
      (name : Text) (r : Reference) (e : BlobStoreError) (σ τ : InMemoryState)
      → IsMap name σ
      → delete_manifest save name r σ ≡ (err e, τ)
      → ((n : Text) (q : Reference) → get_manifest n q τ ≡ get_manifest n q σ)
        × (((n t : Text) → lookup text_eq t (at n τ.tags) ≡ lookup text_eq t (at n σ.tags))
            × ((n : Text) (subject : Digest) (artifact_type : Option Text)
                → list_referrers n subject artifact_type τ
                  ≡ list_referrers n subject artifact_type σ))
  unfolding delete_manifest list_referrers
  delete_manifest-LooksUp name (tag t) e σ τ d h = absurd (ground arith)
  delete_manifest-LooksUp name (digest x) e σ τ d h =
      let (ms, (ts, rs)) = found-LooksUp name (to_string x) σ τ _ e d refl h in
      (
        (λ n q. get_manifest_same n q σ τ (ms n) (ts n)),
        (ts, (λ n subject a. ap (filtered a) (rs n (to_string subject)))),
      )
