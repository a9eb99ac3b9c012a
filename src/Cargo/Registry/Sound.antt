-- ===== src/Cargo/Registry/Sound.antt =====
-- The registry's invariant: its records are tidy and the blob store holds every tarball they map.
-- A version that is added to a sound registry leaves it sound.
use mathlib.Core.Path.{subst}
use ferro_protocols.Prelude.{
  ◌≡◌, ◌≢◌, refl, sym, ap, ◌∙◌, true, false, List, [], ◌∷◌, ◌++◌, Option, none, some, arith,
  Bool-cases, inl, inr,
}
use ferro_protocols.Prelude.Maps.{lookup, insert, lookup-insert_same, lookup-insert_other}
use ferro_protocols.Prelude.Texts.{Text, text_eq, text_eq_iff}
use ferro_protocols.Blob.Digest.{Digest}
use ferro_protocols.Blob.Interface.{BlobStore, Held}
use ferro_protocols.Cargo.Index.{IndexEntry}
use ferro_protocols.Cargo.Registry.{
  CrateRecord, Crates, CargoState, has_version, with_version, record_or_default, add_version,
}
use ferro_protocols.Cargo.Registry.Kept.{IsTidy, IsTidyRecord}

has_version-append :
    (v : Text) (e : IndexEntry) (es : List IndexEntry)
    → has_version v (es ++ e ∷ []) ≡ false
    → (has_version v es ≡ false) × (text_eq e.vers v ≡ false)
unfolding has_version
has_version-append v e [] h = ground arith
has_version-append v e (x ∷ es) h = ground (arith, has_version-append v e es)

append_not_nil : {A : Type 0} (xs : List A) (x : A) → xs ++ x ∷ [] ≢ []
append_not_nil [] x e = absurd (cc)
append_not_nil (y ∷ xs) x e = absurd (cc)

other_version : (a b : Text) → text_eq a b ≡ false → text_eq b a ≡ false
other_version a b h = ground (arith, text_eq_iff a b, text_eq_iff b a)

pub some_injective : {A : Type 0} {a b : A} → ◌≡◌ {A = Option A} (some a) (some b) → a ≡ b
some_injective e = cc

pub true-false : true ≡ false → ⊥
true-false e = cc

some-none : {A : Type 0} {a : A} → ◌≡◌ {A = Option A} none (some a) → ⊥
some-none e = cc

no_tarball : (v : Text) → lookup {V = Digest} text_eq v [] ≡ none
unfolding lookup
no_tarball v = refl

module _ {S : Type 0} (B : BlobStore S) where
  -- The store holds every tarball of the record.
  abbrev pub HoldsRecord : S → CrateRecord → Type 0
  HoldsRecord s rec =
      (vers : Text) (d : Digest) → lookup text_eq vers rec.tarballs ≡ some d → Held B d s

  abbrev pub IsGood : S → CrateRecord → Type 0
  IsGood s rec = IsTidyRecord rec × HoldsRecord s rec

  -- Every record is tidy, and the store holds its tarballs.
  abbrev pub IsSound : CargoState S → Type 0
  IsSound σ =
      (key : Text) (rec : CrateRecord) → lookup text_eq key σ.crates ≡ some rec → IsGood σ.blobs rec

  pub IsTidy-of : (σ : CargoState S) → IsSound σ → IsTidy σ.crates
  IsTidy-of σ h key rec e = (h key rec e).0

  with_version-IsGood :
      (s : S) (e : IndexEntry) (d : Digest) (rec : CrateRecord)
      → ((vers : Text)
          → has_version vers rec.entries ≡ false
          → lookup text_eq vers rec.tarballs ≡ none)
      → HoldsRecord s rec
      → Held B d s
      → IsGood s (with_version e d rec)
  with_version-IsGood s e d rec only holds held = (
    (
      append_not_nil rec.entries e,
      λ v h.
          let (a, b) = has_version-append v e rec.entries h in
          lookup-insert_other text_eq text_eq_iff e.vers v d rec.tarballs (other_version e.vers v b)
          ∙ only v a,
    ),
    λ v x h. elim (Bool-cases (text_eq v e.vers)) [
      | inl q ↦ held_at v x h ((text_eq_iff v e.vers).0 q)
      | inr q ↦
          holds v x (sym (lookup-insert_other text_eq text_eq_iff e.vers v d rec.tarballs q) ∙ h)
    ],
  )
    where
      held_at :
          (v : Text) (x : Digest)
          → lookup text_eq v (insert text_eq e.vers d rec.tarballs) ≡ some x
          → v ≡ e.vers
          → Held B x s
      held_at v x h q =
          subst (λ y. Held B y s)
            (some_injective (
              sym (lookup-insert_same text_eq text_eq_iff e.vers d rec.tarballs)
              ∙ ap (λ w. lookup text_eq w (insert text_eq e.vers d rec.tarballs)) (sym q)
              ∙ h))
            held

  default-IsGood :
      (s : S) (e : IndexEntry) (d : Digest) (o : Option CrateRecord)
      → ((rec : CrateRecord) → o ≡ some rec → IsGood s rec)
      → Held B d s
      → IsGood s (with_version e d (record_or_default o))
  default-IsGood s e d none h held =
      with_version-IsGood s e d (record_or_default none) (λ v x. no_tarball v)
        (λ v x y. absurd (some-none (sym (no_tarball v) ∙ y))) held
  default-IsGood s e d (some rec) h held =
      with_version-IsGood s e d rec ((h rec refl).0.1) ((h rec refl).1) held

  -- A version added to sound crates, whose blob is held.
  pub add_version-IsSound :
      (key : Text) (e : IndexEntry) (d : Digest) (crates : Crates) (s : S)
      → IsSound (record { blobs = s; crates = crates })
      → Held B d s
      → IsSound (record { blobs = s; crates = add_version key e d crates })
  unfolding add_version
  add_version-IsSound key e d crates s h held k rec q = elim (Bool-cases (text_eq k key)) [
    | inl same ↦
        subst (IsGood s)
          (some_injective (
            sym (lookup-insert_same text_eq text_eq_iff key w crates)
            ∙ ap (λ j. lookup text_eq j (insert text_eq key w crates))
                (sym ((text_eq_iff k key).0 same))
            ∙ q))
          (default-IsGood s e d (lookup text_eq key crates) (h key) held)
    | inr other ↦ h k rec (sym (lookup-insert_other text_eq text_eq_iff key k w crates other) ∙ q)
  ]
    where
      w : CrateRecord
      w = with_version e d (record_or_default (lookup text_eq key crates))
