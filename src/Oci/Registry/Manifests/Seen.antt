-- ===== src/Oci/Registry/Manifests/Seen.antt =====
-- What the reading methods show after a put: all of it where it was saved, nothing where not.
use mathlib.Core.Path.{subst}
use ferro_protocols.Prelude.{
  ℕ, ◌≡◌, refl, sym, ap, ◌∙◌, Bytes, List, [], ◌∷◌, ◌++◌, Option, none, some, arith, Option-cases,
  inl, inr,
}
use ferro_protocols.Prelude.Result.{ok, err}
use ferro_protocols.Prelude.Maps.{lookup, insert, lookup-insert_same}
use ferro_protocols.Prelude.Texts.{Text, text_eq, text_eq_iff}
use ferro_protocols.Blob.Digest.{Digest, to_string}
use ferro_protocols.Blob.Digest
use ferro_protocols.Blob.Memory.{BlobStoreError}
use ferro_protocols.Oci.Reference.{Reference, tag, digest}
use ferro_protocols.Oci.Registry.{ReferrerDescriptor, InMemoryState}
use ferro_protocols.Oci.Registry.Tables.{at, entry, at-entry}
use ferro_protocols.Oci.Registry.Lists.{list_tags, page, keys}
use ferro_protocols.Oci.Registry.Manifests.{
  push, get_manifest, in_repo, of_reference, of_key, key_of, list_referrers, filtered, add_tag,
  add_referrer, applied, undone, saved_or, put_manifest_with_referrer, register_referrer,
}
use ferro_protocols.Oci.Registry.Manifests.Rollback.{LooksSame, put-LooksSame, register-LooksSame}

in_repo_lem :
    (name : Text) (r : Reference) (σ : InMemoryState) (o : Option (List (Text × (Text × Bytes))))
    → lookup text_eq name σ.manifests ≡ o
    → in_repo name r σ o ≡ of_reference (at name σ.manifests) (key_of (at name σ.tags) r)
unfolding lookup
in_repo_lem name (tag t) σ none e = elim (Option-cases (lookup text_eq t (at name σ.tags))) [
  | inl q ↦ ground (arith, q)
  | inr (k, q) ↦ ground (arith, q, e)
]
in_repo_lem name (digest d) σ none e = ground (arith, e)
in_repo_lem name r σ (some ms) e = ground (arith, e)

pub get_manifest_lem :
    (name : Text) (r : Reference) (σ : InMemoryState)
    → get_manifest name r σ ≡ of_reference (at name σ.manifests) (key_of (at name σ.tags) r)
unfolding get_manifest
get_manifest_lem name r σ = in_repo_lem name r σ (lookup text_eq name σ.manifests) refl

-- Every read has the same answer in both states.
abbrev pub ReadsSame : InMemoryState → InMemoryState → Type 0
ReadsSame σ τ =
    ((name : Text) (r : Reference) → get_manifest name r τ ≡ get_manifest name r σ)
    × (((name : Text) (last : Option Text) (n : Option ℕ)
          → list_tags name last n τ ≡ list_tags name last n σ)
        × ((name : Text) (subject : Digest) (artifact_type : Option Text)
            → list_referrers name subject artifact_type τ
              ≡ list_referrers name subject artifact_type σ))

pub LooksSame-ReadsSame : (σ τ : InMemoryState) → LooksSame σ τ → ReadsSame σ τ
unfolding list_tags list_referrers
LooksSame-ReadsSame σ τ (ms, (ts, rs)) = (
  (λ name r.
      get_manifest_lem name r τ
      ∙ ap (λ m. of_reference m (key_of (at name τ.tags) r)) (ms name)
      ∙ ap (λ t. of_reference (at name σ.manifests) (key_of t r)) (ts name)
      ∙ sym (get_manifest_lem name r σ)),
  (
    (λ name last n. ap (λ t. page last n (keys t)) (ts name)),
    (λ name subject a. ap (filtered a) (rs name (to_string subject))),
  ),
)

module _ (save : InMemoryState → Option Text) where
  -- A put of a manifest, with its tag and its referrer, that ends in an error, as when the snapshot
  -- cannot be written: every manifest, every listing of tags and every listing of referrers reads
  -- as it did before.
  pub put_manifest-ReadsSame :
      (name : Text) (r : Reference) (d : Digest) (media_type : Text) (body : Bytes)
      (o : Option (Digest × ReferrerDescriptor)) (e : BlobStoreError) (σ τ : InMemoryState)
      → put_manifest_with_referrer save name r d media_type body o σ ≡ (err e, τ)
      → ReadsSame σ τ
  put_manifest-ReadsSame name r d media_type body o e σ τ h =
      LooksSame-ReadsSame σ τ (put-LooksSame save name r d media_type body o e σ τ h)

  -- A registration of a referrer that ends in an error: every manifest, every listing of tags and
  -- every listing of referrers reads as it did before.
  pub register_referrer-ReadsSame :
      (name : Text) (subject : Digest) (d : ReferrerDescriptor) (e : BlobStoreError)
      (σ τ : InMemoryState)
      → register_referrer save name subject d σ ≡ (err e, τ)
      → ReadsSame σ τ
  register_referrer-ReadsSame name subject d e σ τ h =
      LooksSame-ReadsSame σ τ (register-LooksSame save name subject d e σ τ h)

saved_or-ok :
    (undo : InMemoryState → InMemoryState) (σ : InMemoryState) (o : Option Text) (τ : InMemoryState)
    → saved_or undo σ o ≡ (ok tt, τ)
    → σ ≡ τ
saved_or-ok undo σ none τ h = ap (λ r. r.1) h
saved_or-ok undo σ (some x) τ h = absurd (ground arith)

-- What a put shows: the manifest by its digest and by its tag, and its referrer as the last one.
abbrev pub Shows :
    Text
    → Reference
    → Digest
    → Text
    → Bytes
    → Option (Digest × ReferrerDescriptor)
    → InMemoryState
    → InMemoryState
    → Type 0
Shows name r d media_type body o σ τ =
    (get_manifest name (digest d) τ ≡ ok (some (d, (media_type, body))))
    × (((t : Text) → r ≡ tag t → get_manifest name (tag t) τ ≡ ok (some (d, (media_type, body))))
        × ((subject : Digest) (x : ReferrerDescriptor)
            → o ≡ some (subject, x)
            → list_referrers name subject none τ ≡ list_referrers name subject none σ ++ x ∷ []))

of_key_found :
    (d : Digest) (m : Text × Bytes) (ms : List (Text × (Text × Bytes)))
    → Digest.parse (to_string d) ≡ ok d
    → of_key (to_string d) (lookup text_eq (to_string d) (insert text_eq (to_string d) m ms))
      ≡ ok (some (d, m))
of_key_found d m ms valid =
    ground (arith, valid, lookup-insert_same text_eq text_eq_iff (to_string d) m ms)

applied-Shows :
    (name : Text) (r : Reference) (d : Digest) (media_type : Text) (body : Bytes)
    (o : Option (Digest × ReferrerDescriptor)) (σ : InMemoryState)
    → Digest.parse (to_string d) ≡ ok d
    → Shows name r d media_type body o σ (applied name r (to_string d) media_type body o σ)
unfolding list_referrers
applied-Shows name r d media_type body o σ valid = (
  get_manifest_lem name (digest d) τ ∙ ap (λ m. of_reference m (some key)) stored ∙ found,
  (
    (λ t q.
        get_manifest_lem name (tag t) τ
        ∙ ap (λ m. of_reference m (key_of (at name τ.tags) (tag t))) stored
        ∙ ap (of_reference (insert text_eq key (media_type, body) (at name σ.manifests)))
            (tagged t q)
        ∙ found),
    (λ subject x q.
        ap (λ p. at (to_string subject) (at name (add_referrer name p σ.referrers))) q
        ∙ ap (at (to_string subject))
            (at-entry name (entry (to_string subject) (push x)) σ.referrers)
        ∙ at-entry (to_string subject) (push x) (at name σ.referrers)),
  ),
)
  where
    key : Text
    key = to_string d

    τ : InMemoryState
    τ = applied name r key media_type body o σ

    stored : at name τ.manifests ≡ insert text_eq key (media_type, body) (at name σ.manifests)
    stored = at-entry name (insert text_eq key (media_type, body)) σ.manifests

    found :
        of_key key
          (lookup text_eq key (insert text_eq key (media_type, body) (at name σ.manifests)))
        ≡ ok (some (d, (media_type, body)))
    found = of_key_found d (media_type, body) (at name σ.manifests) valid

    tagged : (t : Text) → r ≡ tag t → key_of (at name τ.tags) (tag t) ≡ some key
    tagged t q =
        ap (λ p. lookup text_eq t (at name (add_tag name p key σ.tags))) q
        ∙ ap (lookup text_eq t) (at-entry name (insert text_eq t key) σ.tags)
        ∙ lookup-insert_same text_eq text_eq_iff t key (at name σ.tags)

module _ (save : InMemoryState → Option Text) where
  -- A put of a manifest that succeeds, under a digest whose text is read back as it: the manifest
  -- is read by that digest, and by the tag where it was put under one; and the referrer that came
  -- with it is listed after those that its subject had.
  pub put_manifest-Shows :
      (name : Text) (r : Reference) (d : Digest) (media_type : Text) (body : Bytes)
      (o : Option (Digest × ReferrerDescriptor)) (σ τ : InMemoryState)
      → Digest.parse (to_string d) ≡ ok d
      → put_manifest_with_referrer save name r d media_type body o σ ≡ (ok tt, τ)
      → Shows name r d media_type body o σ τ
  unfolding put_manifest_with_referrer
  put_manifest-Shows name r d media_type body o σ τ valid h =
      subst (Shows name r d media_type body o σ)
        (saved_or-ok (undone name r (to_string d) o σ) _ (save _) τ h)
        (applied-Shows name r d media_type body o σ valid)
