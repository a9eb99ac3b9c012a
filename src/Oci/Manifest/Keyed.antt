-- ===== src/Oci/Manifest/Keyed.antt =====
-- Manifests whose keys are the SHA-256 of their bodies, in a map that is changed.
use ferro_protocols.Prelude.{
  ◌≡◌, refl, sym, ap, ◌∙◌, Bytes, Option, some, arith, Bool-cases, inl, inr,
}
use ferro_protocols.Prelude.Maps.{
  lookup, insert, remove, lookup-insert_same, lookup-insert_other, lookup-remove_same,
  lookup-remove_other,
}
use ferro_protocols.Prelude.Texts.{Text, text_eq, text_eq_iff}
use ferro_protocols.Blob.Digest.{Hasher, sha256_of, to_string}
use ferro_protocols.Oci.Registry.{Manifests}
use ferro_protocols.Oci.Registry.Tables.{
  at, entry, change, at-entry, at-entry_other, at-change, at-change_other,
}

-- The key of a manifest is the text of the SHA-256 of its body.
abbrev pub IsAddressed : Hasher → Manifests → Type 0
IsAddressed h ms =
    (n k : Text) (m : Text × Bytes)
    → lookup text_eq k (at n ms) ≡ some m
    → k ≡ to_string (sha256_of h m.1)

module _ (h : Hasher) where
  some_lem : (m m' : Text × Bytes) → ◌≡◌ {A = Option (Text × Bytes)} (some m) (some m') → m ≡ m'
  some_lem m m' e = cc

  pub entry-IsAddressed :
      (name key : Text) (m : Text × Bytes) (ms : Manifests)
      → key ≡ to_string (sha256_of h m.1)
      → IsAddressed h ms
      → IsAddressed h (entry name (insert text_eq key m) ms)
  entry-IsAddressed name key m ms e a n k x q = elim (Bool-cases (text_eq n name)) [
    | inl s ↦
        let found : lookup text_eq k (insert text_eq key m (at name ms)) ≡ some x =
          ap (lookup text_eq k) (sym (at-entry name (insert text_eq key m) ms))
          ∙ ap (λ j. lookup text_eq k (at j (entry name (insert text_eq key m) ms)))
              (sym ((text_eq_iff n name).0 s))
          ∙ q in
        elim (Bool-cases (text_eq k key)) [
          | inl t ↦
              let same : k ≡ key = (text_eq_iff k key).0 t in
              let is_m : m ≡ x = some_lem m x (
                sym (lookup-insert_same text_eq text_eq_iff key m (at name ms))
                ∙ ap (λ j. lookup text_eq j (insert text_eq key m (at name ms))) (sym same)
                ∙ found) in
              same ∙ e ∙ ap (λ y. to_string (sha256_of h y.1)) is_m
          | inr t ↦
              a name k x
                (sym (lookup-insert_other text_eq text_eq_iff key k m (at name ms) t) ∙ found)
        ]
    | inr s ↦
        a n k x
          (ap (lookup text_eq k) (sym (at-entry_other name n (insert text_eq key m) ms s)) ∙ q)
  ]

  pub change-IsAddressed :
      (name key : Text) (ms : Manifests)
      → IsAddressed h ms
      → IsAddressed h (change name (remove text_eq key) ms)
  unfolding remove
  change-IsAddressed name key ms a n k x q = elim (Bool-cases (text_eq n name)) [
    | inl s ↦
        let found : lookup text_eq k (remove text_eq key (at name ms)) ≡ some x =
          ap (lookup text_eq k) (sym (at-change name (remove text_eq key) ms refl))
          ∙ ap (λ j. lookup text_eq k (at j (change name (remove text_eq key) ms)))
              (sym ((text_eq_iff n name).0 s))
          ∙ q in
        elim (Bool-cases (text_eq k key)) [
          | inl t ↦ absurd (
              ground (
                arith,
                found,
                text_eq_iff k key,
                lookup-remove_same text_eq text_eq_iff key (at name ms),
              ))
          | inr t ↦
              a name k x
                (sym (lookup-remove_other text_eq text_eq_iff key k (at name ms) t) ∙ found)
        ]
    | inr s ↦
        a n k x (ap (lookup text_eq k) (sym (at-change_other name n (remove text_eq key) ms s)) ∙ q)
  ]

  pub same-IsAddressed :
      (ms ns : Manifests) → ((n : Text) → at n ns ≡ at n ms) → IsAddressed h ms → IsAddressed h ns
  same-IsAddressed ms ns e a n k x q = a n k x (ap (lookup text_eq k) (sym (e n)) ∙ q)
