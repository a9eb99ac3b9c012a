-- ===== src/Cargo/Registry/Added.antt =====
-- What a publish adds to the crates, and what it leaves.
use mathlib.Core.Path.{subst}
use ferro_protocols.Prelude.{
  ◌≡◌, ◌≢◌, refl, sym, ap, ◌∙◌, true, false, List, [], ◌∷◌, ◌++◌, Option, none, some, arith, All,
  Bool-cases, inl, inr,
}
use ferro_protocols.Prelude.Maps.{lookup, insert, lookup-insert_same, lookup-insert_other}
use ferro_protocols.Prelude.Texts.{Text, text_eq, text_eq_iff}
use ferro_protocols.Blob.Digest.{Digest}
use ferro_protocols.Cargo.Name.{canonical_name}
use ferro_protocols.Cargo.Index.{IndexEntry}
use ferro_protocols.Cargo.Registry.{
  CrateRecord, Crates, Prepared, has_version, display_conflict, check_existing, with_version,
  record_or_default, add_version,
}
use ferro_protocols.Cargo.Registry.Kept.{not_refused}

abbrev pub record_before : Option CrateRecord → CrateRecord
record_before none = record { entries = []; tarballs = []; owners = [] }
record_before (some rec) = rec

-- The record of the crate has one version more, which no entry of it had, and the tarball of that
-- version; its other tarballs and its owners, and the other crates, are as they were.
pub record IsAdded (name : Text) (entry : IndexEntry) (digest : Digest) (before after : Crates)
    : Type 0 where
  pub fresh :
      All
        (λ e. e.vers ≢ entry.vers)
        (record_before (lookup text_eq (canonical_name name) before)).entries
  pub rec : CrateRecord
  pub found : lookup text_eq (canonical_name name) after ≡ some rec
  pub added :
      rec.entries
      ≡ (record_before (lookup text_eq (canonical_name name) before)).entries ++ entry ∷ []
  pub owned : rec.owners ≡ (record_before (lookup text_eq (canonical_name name) before)).owners
  pub mapped : lookup text_eq entry.vers rec.tarballs ≡ some digest
  pub others :
      (v : Text)
      → v ≢ entry.vers
      → lookup text_eq v rec.tarballs
        ≡ lookup text_eq v (record_before (lookup text_eq (canonical_name name) before)).tarballs
  pub kept : (k : Text) → k ≢ canonical_name name → lookup text_eq k after ≡ lookup text_eq k before

not_text_eq : (s t : Text) → s ≢ t → text_eq s t ≡ false
not_text_eq s t n = elim (Bool-cases (text_eq s t)) [
  | inl e ↦ absurd (n ((text_eq_iff s t).0 e))
  | inr e ↦ e
]

has_version-All :
    (vers : Text) (es : List IndexEntry) → has_version vers es ≡ false → All (λ e. e.vers ≢ vers) es
unfolding has_version
has_version-All vers [] h = tt
has_version-All vers (e ∷ es) h = (
  (λ q.
      let same : text_eq e.vers vers ≡ true = (text_eq_iff e.vers vers).1 q in
      ground (arith, same)),
  has_version-All vers es (ground arith),
)

or_default-before : (o : Option CrateRecord) → record_or_default o ≡ record_before o
or_default-before none = refl
or_default-before (some rec) = refl

absent :
    (p : Prepared) (o : Option CrateRecord)
    → check_existing p o ≡ none
    → has_version p.entry.vers (record_or_default o).entries ≡ false
unfolding check_existing has_version
absent p none h = refl
absent p (some rec) h = not_refused p rec (display_conflict p.name rec.entries) h

with_version-IsAdded :
    (p : Prepared) (crates : Crates) (old : CrateRecord)
    → record_before (lookup text_eq (canonical_name p.name) crates) ≡ old
    → has_version p.entry.vers old.entries ≡ false
    → IsAdded p.name p.entry p.digest crates
        (insert text_eq (canonical_name p.name) (with_version p.entry p.digest old) crates)
with_version-IsAdded p crates old e h =
    let key = canonical_name p.name in
    let w = with_version p.entry p.digest old in
    record {
      fresh =
          subst (λ r. All (λ x. x.vers ≢ p.entry.vers) r.entries) (sym e)
            (has_version-All p.entry.vers old.entries h);
      rec = w;
      found = lookup-insert_same text_eq text_eq_iff key w crates;
      added = ap (λ r. r.entries ++ p.entry ∷ []) (sym e);
      owned = ap (λ r. r.owners) (sym e);
      mapped = lookup-insert_same text_eq text_eq_iff p.entry.vers p.digest old.tarballs;
      others = (λ v n.
          lookup-insert_other text_eq text_eq_iff p.entry.vers v p.digest old.tarballs
            (not_text_eq v p.entry.vers n)
          ∙ ap (λ r. lookup text_eq v r.tarballs) (sym e));
      kept = (λ k n. lookup-insert_other text_eq text_eq_iff key k w crates (not_text_eq k key n));
    }

pub add_version-IsAdded :
    (p : Prepared) (crates : Crates)
    → check_existing p (lookup text_eq (canonical_name p.name) crates) ≡ none
    → IsAdded p.name p.entry p.digest crates
        (add_version (canonical_name p.name) p.entry p.digest crates)
unfolding add_version
add_version-IsAdded p crates h =
    let o = lookup text_eq (canonical_name p.name) crates in
    with_version-IsAdded p crates (record_or_default o) (sym (or_default-before o)) (absent p o h)
