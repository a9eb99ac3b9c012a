-- ===== src/Cargo/Registry/Edited.antt =====
-- Edits of a crate's record: one that is refused or not saved leaves every crate as it was, one
-- that is saved changes that record only.
use ferro_protocols.Prelude.{
  ◌≡◌, refl, sym, ap, ◌∙◌, Bool, List, [], ◌∷◌, Option, none, some, arith,
}
use ferro_protocols.Prelude.Result.{Result, ok, err}
use ferro_protocols.Prelude.Maps.{lookup, insert, lookup-restore}
use ferro_protocols.Prelude.Texts.{Text, text_eq, text_eq_iff}
use ferro_protocols.Cargo.Error.{CargoError}
use ferro_protocols.Cargo.Name.{validate_name, canonical_name}
use ferro_protocols.Cargo.Index.{IndexEntry}
use ferro_protocols.Cargo.Registry.{CrateRecord, Crates}
use ferro_protocols.Cargo.Registry.Edit.{
  flag_of, set_flag, with_entries, with_owners, edit_owners, kept, edit, flag_entry, flag_record,
  if_valid, set_yanked, own_record, mutate_owners,
}

-- An error comes with crates that read as they did before.
abbrev pub KeepsOnError : Crates → Result CargoError Unit × Crates → Type 0
KeepsOnError crates (ok _, after) = Unit
KeepsOnError crates (err e, after) = (k : Text) → lookup text_eq k after ≡ lookup text_eq k crates

set_flag-flag_of :
    (version : Text) (b previous : Bool) (es : List IndexEntry)
    → flag_of version es ≡ some previous
    → set_flag version previous (set_flag version b es) ≡ es
unfolding set_flag flag_of
set_flag-flag_of version b previous [] h = refl
set_flag-flag_of version b previous (e ∷ es) h =
    ground (arith, set_flag-flag_of version b previous es)

module _ (save : Crates → Option Text) where
  kept-KeepsOnError :
      (key : Text) (rec w : CrateRecord) (crates : Crates) (o : Option Text)
      → lookup text_eq key crates ≡ some rec
      → KeepsOnError crates (kept save key rec (insert text_eq key w crates) o)
  kept-KeepsOnError key rec w crates none h = tt
  kept-KeepsOnError key rec w crates (some e) h =
      λ k. lookup-restore text_eq text_eq_iff key k rec w crates h

  edit-KeepsOnError :
      (key : Text) (rec restored w : CrateRecord) (crates : Crates)
      → rec ≡ restored
      → lookup text_eq key crates ≡ some rec
      → KeepsOnError crates (edit save key w restored crates)
  edit-KeepsOnError key rec restored w crates same h =
      kept-KeepsOnError key restored w crates (save (insert text_eq key w crates))
        (h ∙ ap some same)

  flag_entry-KeepsOnError :
      (name version : Text) (yanked : Bool) (crates : Crates) (rec : CrateRecord) (o : Option Bool)
      → flag_of version rec.entries ≡ o
      → lookup text_eq (canonical_name name) crates ≡ some rec
      → KeepsOnError crates (flag_entry save name version yanked crates rec o)
  flag_entry-KeepsOnError name version yanked crates rec none f h = λ k. refl
  flag_entry-KeepsOnError name version yanked crates rec (some previous) f h =
      edit-KeepsOnError (canonical_name name) rec
        (with_entries (set_flag version previous (set_flag version yanked rec.entries)) rec)
        (with_entries (set_flag version yanked rec.entries) rec) crates
        (ap (λ es. with_entries es rec)
          (sym (set_flag-flag_of version yanked previous rec.entries f)))
        h

  flag_record-KeepsOnError :
      (name version : Text) (yanked : Bool) (crates : Crates) (o : Option CrateRecord)
      → lookup text_eq (canonical_name name) crates ≡ o
      → KeepsOnError crates (flag_record save name version yanked crates o)
  flag_record-KeepsOnError name version yanked crates none h = λ k. refl
  flag_record-KeepsOnError name version yanked crates (some rec) h =
      flag_entry-KeepsOnError name version yanked crates rec (flag_of version rec.entries) refl h

  own_record-KeepsOnError :
      (name : Text) (logins : List Text) (remove : Bool) (crates : Crates) (o : Option CrateRecord)
      → lookup text_eq (canonical_name name) crates ≡ o
      → KeepsOnError crates (own_record save name logins remove crates o)
  own_record-KeepsOnError name logins remove crates none h = λ k. refl
  own_record-KeepsOnError name logins remove crates (some rec) h =
      edit-KeepsOnError (canonical_name name) rec (with_owners rec.owners rec)
        (with_owners (edit_owners remove logins rec.owners) rec) crates refl h

  if_valid-KeepsOnError :
      (crates : Crates) (o : Option CargoError) (r : Result CargoError Unit × Crates)
      → KeepsOnError crates r
      → KeepsOnError crates (if_valid save crates o r)
  if_valid-KeepsOnError crates none r h = h
  if_valid-KeepsOnError crates (some e) r h = λ k. refl

  -- A yank or unyank that fails, on any branch, leaves the record of every crate as it was; one
  -- that could not be saved included.
  pub set_yanked-KeepsOnError :
      (name version : Text) (yanked : Bool) (crates : Crates)
      → KeepsOnError crates (set_yanked save name version yanked crates)
  unfolding set_yanked
  set_yanked-KeepsOnError name version yanked crates =
      let r = lookup text_eq (canonical_name name) crates in
      if_valid-KeepsOnError crates (validate_name name)
        (flag_record save name version yanked crates r)
        (flag_record-KeepsOnError name version yanked crates r refl)

  -- A change of owners that fails, on any branch, leaves the record of every crate as it was; one
  -- that could not be saved included.
  pub mutate_owners-KeepsOnError :
      (name : Text) (logins : List Text) (remove : Bool) (crates : Crates)
      → KeepsOnError crates (mutate_owners save name logins remove crates)
  unfolding mutate_owners
  mutate_owners-KeepsOnError name logins remove crates =
      let r = lookup text_eq (canonical_name name) crates in
      if_valid-KeepsOnError crates (validate_name name)
        (own_record save name logins remove crates r)
        (own_record-KeepsOnError name logins remove crates r refl)
