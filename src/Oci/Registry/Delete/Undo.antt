-- ===== src/Oci/Registry/Delete/Undo.antt =====
-- A deletion that is not saved: what it took away is put back where it was.
use ferro_protocols.Prelude.{
  ℕ, suc, ◌≡◌, refl, sym, ap, ◌∙◌, true, false, List, [], ◌∷◌, ◌++◌, append_assoc, length,
  length-append, none, some, ◌⊎◌, arith, Bool-cases, inl, inr,
}
use ferro_protocols.Prelude.Maps.{lookup, insert, lookup-insert_same, lookup-insert_other}
use ferro_protocols.Prelude.Texts.{Text, text_eq, text_eq_iff}
use ferro_protocols.Oci.Registry.{ReferrerDescriptor}
use ferro_protocols.Oci.Registry.Tables.{at, entry, at-entry, at-entry_other}
use ferro_protocols.Oci.Registry.Lists.{keys}
use ferro_protocols.Oci.Registry.Lists.Order.{Distinct, Absent, has}
use ferro_protocols.Oci.Registry.Delete.{
  kept_tags, removed_tags, is_of, kept_list, removed_list, keep, kept_subjects, with_subject,
  removed_referrers, insert_at, insert_place, replay, retag,
}

-- The removed referrers of one subject, put back in the opposite order.
unfoldable replay_list :
    List (ℕ × ReferrerDescriptor) → List ReferrerDescriptor → List ReferrerDescriptor
replay_list [] ds = ds
replay_list (x ∷ xs) ds = insert_place x (replay_list xs ds)

insert_at-append :
    (xs : List ReferrerDescriptor) (d : ReferrerDescriptor) (ds : List ReferrerDescriptor)
    → insert_at (length xs) d (xs ++ ds) ≡ xs ++ d ∷ ds
unfolding insert_at
insert_at-append [] d ds = refl
insert_at-append (x ∷ xs) d ds = ap (λ t. x ∷ t) (insert_at-append xs d ds)

replay_list-append :
    (xs : List (ℕ × ReferrerDescriptor)) (x : ℕ × ReferrerDescriptor) (ds : List ReferrerDescriptor)
    → replay_list (xs ++ x ∷ []) ds ≡ replay_list xs (insert_place x ds)
unfolding replay_list
replay_list-append [] x ds = refl
replay_list-append (y ∷ xs) x ds = ap (insert_place y) (replay_list-append xs x ds)

module _ (key : Text) where
  shifted :
      (xs ds : List ReferrerDescriptor) (x : ReferrerDescriptor)
      → replay_list
          (removed_list key (length (xs ++ x ∷ [])) ds)
          ((xs ++ x ∷ []) ++ kept_list key ds)
        ≡ (xs ++ x ∷ []) ++ ds
      → replay_list (removed_list key (suc (length xs)) ds) (xs ++ x ∷ kept_list key ds)
        ≡ xs ++ x ∷ ds
  shifted xs ds x h =
      let n : length (xs ++ x ∷ []) ≡ suc (length xs) = omega (arith, length-append xs (x ∷ [])) in
      ap (λ k. replay_list (removed_list key k ds) (xs ++ x ∷ kept_list key ds)) (sym n)
      ∙ ap (replay_list (removed_list key (length (xs ++ x ∷ [])) ds))
          (sym (append_assoc xs (x ∷ []) (kept_list key ds)))
      ∙ h
      ∙ append_assoc xs (x ∷ []) ds

  replay_list-removed_list :
      (xs ds : List ReferrerDescriptor)
      → replay_list (removed_list key (length xs) ds) (xs ++ kept_list key ds) ≡ xs ++ ds
  unfolding removed_list kept_list replay_list
  replay_list-removed_list xs [] = refl
  replay_list-removed_list xs (d ∷ ds) = elim (Bool-cases (is_of key d)) [
    | inl e ↦ ground (
      arith,
      e,
      replay_list-append (removed_list key (suc (length xs)) ds) (length xs, d)
          (xs ++ kept_list key ds),
      insert_at-append xs d (kept_list key ds),
      shifted xs ds d (replay_list-removed_list (xs ++ d ∷ []) ds),
    )
    | inr e ↦ ground (arith, e, shifted xs ds d (replay_list-removed_list (xs ++ d ∷ []) ds))
  ]

Absent-lookup :
    {V : Type 0} (j : Text) (m : List (Text × V)) → Absent j (keys m) → lookup text_eq j m ≡ none
unfolding lookup
Absent-lookup j [] a = refl
Absent-lookup j ((k, v) ∷ m) (h, a) = ground (arith, Absent-lookup j m a)

at-keep_other :
    (j s : Text) (ds : List ReferrerDescriptor) (m : List (Text × List ReferrerDescriptor))
    → text_eq s j ≡ false
    → at s (keep j ds m) ≡ at s m
unfolding lookup
at-keep_other j s [] m h = refl
at-keep_other j s (d ∷ ds) m h = ground arith

at-keep_same :
    (j s : Text) (ds : List ReferrerDescriptor) (m : List (Text × List ReferrerDescriptor))
    → text_eq s j ≡ true
    → at s m ≡ []
    → at s (keep j ds m) ≡ ds
unfolding lookup
at-keep_same j s [] m h a = a
at-keep_same j s (d ∷ ds) m h a = ground arith

module _ (key : Text) where
  pub at-kept_subjects :
      (s : Text) (m : List (Text × List ReferrerDescriptor))
      → Distinct (keys m)
      → at s (kept_subjects key m) ≡ kept_list key (at s m)
  unfolding kept_subjects kept_list lookup
  at-kept_subjects s [] u = refl
  at-kept_subjects s ((j, ds) ∷ m) (a, u) = elim (Bool-cases (text_eq s j)) [
    | inl e ↦
        let gone : at s m ≡ [] = ground (arith, text_eq_iff s j, Absent-lookup j m a) in
        at-keep_same j s (kept_list key ds) (kept_subjects key m) e
          (at-kept_subjects s m u ∙ ap (kept_list key) gone)
        ∙ ground (arith, e)
    | inr e ↦
        at-keep_other j s (kept_list key ds) (kept_subjects key m) e
        ∙ at-kept_subjects s m u
        ∙ ground (arith, e)
  ]

  at-replay_same :
      (s j : Text) (xs : List (ℕ × ReferrerDescriptor))
      (ys : List (Text × (ℕ × ReferrerDescriptor))) (m : List (Text × List ReferrerDescriptor))
      → text_eq s j ≡ true
      → at s (replay (with_subject j xs ++ ys) m) ≡ replay_list xs (at s (replay ys m))
  unfolding replay replay_list
  at-replay_same s j [] ys m e = refl
  at-replay_same s j (x ∷ xs) ys m e =
      let same : s ≡ j = (text_eq_iff s j).0 e in
      ap (λ k. at k (entry j (insert_place x) (replay (with_subject j xs ++ ys) m))) same
      ∙ at-entry j (insert_place x) (replay (with_subject j xs ++ ys) m)
      ∙ ap (λ k. insert_place x (at k (replay (with_subject j xs ++ ys) m))) (sym same)
      ∙ ap (insert_place x) (at-replay_same s j xs ys m e)

  at-replay_other :
      (s j : Text) (xs : List (ℕ × ReferrerDescriptor))
      (ys : List (Text × (ℕ × ReferrerDescriptor))) (m : List (Text × List ReferrerDescriptor))
      → text_eq s j ≡ false
      → at s (replay (with_subject j xs ++ ys) m) ≡ at s (replay ys m)
  unfolding replay
  at-replay_other s j [] ys m e = refl
  at-replay_other s j (x ∷ xs) ys m e =
      at-entry_other j s (insert_place x) (replay (with_subject j xs ++ ys) m) e
      ∙ at-replay_other s j xs ys m e

  at-replay :
      (s : Text) (m n : List (Text × List ReferrerDescriptor))
      → Distinct (keys m)
      → at s (replay (removed_referrers key m) n)
        ≡ replay_list (removed_list key 0 (at s m)) (at s n)
  unfolding removed_referrers removed_list lookup replay replay_list
  at-replay s [] n u = refl
  at-replay s ((j, ds) ∷ m) n (a, u) = elim (Bool-cases (text_eq s j)) [
    | inl e ↦
        let gone : at s m ≡ [] = ground (arith, text_eq_iff s j, Absent-lookup j m a) in
        let rest : at s (replay (removed_referrers key m) n) ≡ at s n =
          at-replay s m n u ∙ ap (λ l. replay_list (removed_list key 0 l) (at s n)) gone in
        at-replay_same s j (removed_list key 0 ds) (removed_referrers key m) n e
        ∙ ground (arith, e, rest)
    | inr e ↦
        at-replay_other s j (removed_list key 0 ds) (removed_referrers key m) n e
        ∙ at-replay s m n u
        ∙ ground (arith, e)
  ]

  -- The lists of a repository's subjects, pruned and put back.
  pub at-replay-kept :
      (s : Text) (m : List (Text × List ReferrerDescriptor))
      → Distinct (keys m)
      → at s (replay (removed_referrers key m) (kept_subjects key m)) ≡ at s m
  at-replay-kept s m u =
      at-replay s m (kept_subjects key m) u
      ∙ ap (replay_list (removed_list key 0 (at s m))) (at-kept_subjects s m u)
      ∙ replay_list-removed_list key [] (at s m)

  retag_other :
      (t : Text) (ts : List Text) (m : List (Text × Text))
      → has t ts ≡ false
      → lookup text_eq t (retag key ts m) ≡ lookup text_eq t m
  unfolding has retag
  retag_other t [] m h = refl
  retag_other t (u ∷ ts) m h =
      retag_other t ts (insert text_eq u key m) (ground arith)
      ∙ lookup-insert_other text_eq text_eq_iff u t key m (ground arith)

  retag_same :
      (t : Text) (ts : List Text) (m : List (Text × Text))
      → has t ts ≡ true
      → lookup text_eq t (retag key ts m) ≡ some key
  unfolding has retag
  retag_same t [] m h = absurd (ground arith)
  retag_same t (u ∷ ts) m h = elim (Bool-cases (has t ts)) [
    | inl e ↦ retag_same t ts (insert text_eq u key m) e
    | inr e ↦
        let same : t ≡ u = ground (arith, text_eq_iff t u) in
        retag_other t ts (insert text_eq u key m) e
        ∙ ap (λ x. lookup text_eq x (insert text_eq u key m)) same
        ∙ lookup-insert_same text_eq text_eq_iff u key m
  ]

  -- A tag of the map was removed, or is still what it was.
  abbrev Sorted : Text → List (Text × Text) → Type 0
  Sorted t m =
      ((has t (removed_tags key m) ≡ true) × (lookup text_eq t m ≡ some key))
      ⊎ ((has t (removed_tags key m) ≡ false)
          × (lookup text_eq t (kept_tags key m) ≡ lookup text_eq t m))

  removed_tags-Sorted : (t : Text) (m : List (Text × Text)) → Distinct (keys m) → Sorted t m
  unfolding has removed_tags kept_tags lookup
  removed_tags-Sorted t [] u = inr (refl, refl)
  removed_tags-Sorted t ((j, v) ∷ m) (a, u) = elim (Bool-cases (text_eq t j)) [
    | inl e ↦
        let gone : lookup text_eq t m ≡ none =
          ground (arith, text_eq_iff t j, Absent-lookup j m a) in
        elim (removed_tags-Sorted t m u) [
          | inl (h, k) ↦ absurd (ground arith)
          | inr (h, k) ↦ elim (Bool-cases (text_eq v key)) [
            | inl q ↦ inl (ground (arith, text_eq_iff v key))
            | inr q ↦ inr (ground arith)
          ]
        ]
    | inr e ↦ elim (removed_tags-Sorted t m u) [
      | inl (h, k) ↦ inl (ground arith)
      | inr (h, k) ↦ inr (ground arith)
    ]
  ]

  -- The tags of a repository, pruned and put back.
  pub lookup-retag :
      (t : Text) (m : List (Text × Text))
      → Distinct (keys m)
      → lookup text_eq t (retag key (removed_tags key m) (kept_tags key m)) ≡ lookup text_eq t m
  lookup-retag t m u = elim (removed_tags-Sorted t m u) [
    | inl (h, k) ↦ retag_same t (removed_tags key m) (kept_tags key m) h ∙ sym k
    | inr (h, k) ↦ retag_other t (removed_tags key m) (kept_tags key m) h ∙ k
  ]
