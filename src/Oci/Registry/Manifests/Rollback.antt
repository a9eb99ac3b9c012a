-- ===== src/Oci/Registry/Manifests/Rollback.antt =====
-- A put that is not saved: the rollback leaves nothing of it to be seen.
use mathlib.Core.Path.{subst}
use ferro_protocols.Prelude.{
  ◌≡◌, refl, sym, ap, ◌∙◌, Bytes, List, [], ◌∷◌, Option, none, some, arith, Bool-cases, inl, inr,
}
use ferro_protocols.Prelude.Result.{err}
use ferro_protocols.Prelude.Maps.{lookup, insert, lookup-insert_same}
use ferro_protocols.Prelude.Texts.{Text, text_eq, text_eq_iff}
use ferro_protocols.Blob.Digest.{Digest, to_string}
use ferro_protocols.Blob.Memory.{BlobStoreError}
use ferro_protocols.Oci.Reference.{Reference, tag, digest}
use ferro_protocols.Oci.Registry.{ReferrerDescriptor, Tags, Referrers, InMemoryState}
use ferro_protocols.Oci.Registry.Tables.{
  at, entry, change, put_back, at-entry_other, at-change_other, at-prune, put_back-insert,
}
use ferro_protocols.Oci.Registry.Manifests.{
  push, pop, popped, pop_subject, push_referrer, pop_referrer, add_tag, undo_tag, add_referrer,
  undo_referrer, applied, undone, unregistered, saved_or, put_manifest_with_referrer,
  register_referrer,
}

-- The two states show the same manifests, tags and referrers.
abbrev pub LooksSame : InMemoryState → InMemoryState → Type 0
LooksSame σ τ =
    ((n : Text) → at n τ.manifests ≡ at n σ.manifests)
    × (((n : Text) → at n τ.tags ≡ at n σ.tags)
        × ((n s : Text) → at s (at n τ.referrers) ≡ at s (at n σ.referrers)))

module _ {V : Type 0} where
  at-change-entry :
      (name : Text) (f g : List V → List V) (m : List (Text × List V))
      → at name (change name g (entry name f m)) ≡ g (f (at name m))
  at-change-entry name f g m = ground (
    arith,
    lookup-insert_same text_eq text_eq_iff name (f (at name m)) m,
    lookup-insert_same text_eq text_eq_iff name (g (f (at name m))) (entry name f m),
  )

  -- A change of an entry that is taken back.
  at-undo :
      (name n : Text) (f g : List V → List V) (m : List (Text × List V))
      → g (f (at name m)) ≡ at name m
      → at n (change name g (entry name f m)) ≡ at n m
  at-undo name n f g m h = elim (Bool-cases (text_eq n name)) [
    | inl e ↦ ground (arith, text_eq_iff n name, at-change-entry name f g m)
    | inr e ↦ at-change_other name n g (entry name f m) e ∙ at-entry_other name n f m e
  ]

pop-push : (d : ReferrerDescriptor) (ds : List ReferrerDescriptor) → pop (push d ds) ≡ ds
unfolding pop
pop-push d [] = refl
pop-push d (x ∷ []) = refl
pop-push d (x ∷ y ∷ ds) = ap (λ t. x ∷ t) (pop-push d (y ∷ ds))

popped_back :
    (subject s : Text) (d : ReferrerDescriptor) (m : List (Text × List ReferrerDescriptor))
    → at s (insert text_eq subject (pop (push d (at subject m))) (entry subject (push d) m))
      ≡ at s m
popped_back subject s d m = elim (Bool-cases (text_eq s subject)) [
  | inl e ↦ ground (
    arith,
    text_eq_iff s subject,
    pop-push d (at subject m),
    lookup-insert_same text_eq text_eq_iff subject (pop (push d (at subject m)))
        (entry subject (push d) m),
  )
  | inr e ↦
      at-entry_other subject s (λ ds. pop (push d (at subject m))) (entry subject (push d) m) e
      ∙ at-entry_other subject s (push d) m e
]

at-pop_subject :
    (subject s : Text) (d : ReferrerDescriptor) (m : List (Text × List ReferrerDescriptor))
    → at s (pop_subject subject (entry subject (push d) m)) ≡ at s m
at-pop_subject subject s d m =
    ap (λ o. at s (popped subject o (entry subject (push d) m)))
      (lookup-insert_same text_eq text_eq_iff subject (push d (at subject m)) m)
    ∙ at-prune subject s _
    ∙ popped_back subject s d m

at-pop_referrer :
    (name n subject s : Text) (d : ReferrerDescriptor) (rs : Referrers)
    → at s (at n (pop_referrer name subject (push_referrer name subject d rs))) ≡ at s (at n rs)
at-pop_referrer name n subject s d rs = elim (Bool-cases (text_eq n name)) [
  | inl e ↦
      ap (λ k. at s (at k (pop_referrer name subject (push_referrer name subject d rs))))
        ((text_eq_iff n name).0 e)
      ∙ ap (at s) (at-change-entry name (entry subject (push d)) (pop_subject subject) rs)
      ∙ at-pop_subject subject s d (at name rs)
      ∙ ap (λ k. at s (at k rs)) (sym ((text_eq_iff n name).0 e))
  | inr e ↦ ap (at s) (
      at-change_other name n (pop_subject subject) _ e
      ∙ at-entry_other name n (entry subject (push d)) rs e)
]

at-undo_tag :
    (name n key : Text) (r : Reference) (ts : Tags)
    → at n (undo_tag name r ts (add_tag name r key ts)) ≡ at n ts
at-undo_tag name n key (digest d) ts = refl
at-undo_tag name n key (tag t) ts =
    at-undo name n (insert text_eq t key) (put_back t (lookup text_eq t (at name ts))) ts
      (put_back-insert t key (at name ts))

at-undo_referrer :
    (name n s : Text) (o : Option (Digest × ReferrerDescriptor)) (rs : Referrers)
    → at s (at n (undo_referrer name o (add_referrer name o rs))) ≡ at s (at n rs)
at-undo_referrer name n s none rs = refl
at-undo_referrer name n s (some (subject, d)) rs = at-pop_referrer name n (to_string subject) s d rs

pub undone-LooksSame :
    (name : Text) (r : Reference) (key media_type : Text) (body : Bytes)
    (o : Option (Digest × ReferrerDescriptor)) (σ : InMemoryState)
    → LooksSame σ (undone name r key o σ (applied name r key media_type body o σ))
undone-LooksSame name r key media_type body o σ = (
  (λ n.
      at-prune name n _
      ∙ at-undo name n (insert text_eq key (media_type, body))
          (put_back key (lookup text_eq key (at name σ.manifests))) σ.manifests
          (put_back-insert key (media_type, body) (at name σ.manifests))),
  (
    (λ n. at-prune name n _ ∙ at-undo_tag name n key r σ.tags),
    (λ n s. ap (at s) (at-prune name n _) ∙ at-undo_referrer name n s o σ.referrers),
  ),
)

saved_or-err :
    (undo : InMemoryState → InMemoryState) (σ : InMemoryState) (o : Option Text)
    (e : BlobStoreError) (τ : InMemoryState)
    → saved_or undo σ o ≡ (err e, τ)
    → undo σ ≡ τ
saved_or-err undo σ none e τ h = absurd (ground arith)
saved_or-err undo σ (some x) e τ h = ap (λ r. r.1) h

module _ (save : InMemoryState → Option Text) where
  pub put-LooksSame :
      (name : Text) (r : Reference) (d : Digest) (media_type : Text) (body : Bytes)
      (o : Option (Digest × ReferrerDescriptor)) (e : BlobStoreError) (σ τ : InMemoryState)
      → put_manifest_with_referrer save name r d media_type body o σ ≡ (err e, τ)
      → LooksSame σ τ
  unfolding put_manifest_with_referrer
  put-LooksSame name r d media_type body o e σ τ h =
      subst (LooksSame σ) (saved_or-err (undone name r (to_string d) o σ) _ (save _) e τ h)
        (undone-LooksSame name r (to_string d) media_type body o σ)

  pub register-LooksSame :
      (name : Text) (subject : Digest) (d : ReferrerDescriptor) (e : BlobStoreError)
      (σ τ : InMemoryState)
      → register_referrer save name subject d σ ≡ (err e, τ)
      → LooksSame σ τ
  unfolding register_referrer
  register-LooksSame name subject d e σ τ h =
      subst (LooksSame σ) (saved_or-err (unregistered name (to_string subject)) _ (save _) e τ h) (
        (λ n. at-prune name n σ.manifests),
        (
          (λ n. at-prune name n σ.tags),
          (λ n s.
              ap (at s) (at-prune name n _)
              ∙ at-pop_referrer name n (to_string subject) s d σ.referrers),
        ),
      )
