-- ===== src/Cargo/Registry/Edit.antt =====
-- handlers.rs: `set_yanked` and `mutate_owners`, which edit the record of a crate and put the old
-- value back when the change could not be saved.
use ferro_protocols.Prelude.{
  ℕ, ◌+◌, max, Bool, false, List, [], ◌∷◌, ◌++◌, Option, none, some, ◌||◌, if◌then◌else◌,
}
use ferro_protocols.Prelude.Result.{Result, ok, err}
use ferro_protocols.Prelude.Maps.{lookup, insert}
use ferro_protocols.Prelude.Texts.{Text, text_eq}
use ferro_protocols.Cargo.Error.{CargoError, not_found, persistence}
use ferro_protocols.Cargo.Name.{validate_name, canonical_name}
use ferro_protocols.Cargo.Index.{IndexEntry}
use ferro_protocols.Cargo.Registry.{Owner, CrateRecord, Crates}

-- `entries.iter().find(|e| e.vers == version)`, its flag
unfoldable pub flag_of : Text → List IndexEntry → Option Bool
flag_of version [] = none
flag_of version (e ∷ es) = if text_eq e.vers version then some e.yanked else flag_of version es

abbrev pub with_flag : Bool → IndexEntry → IndexEntry
with_flag yanked e = record {
  name = e.name;
  vers = e.vers;
  deps = e.deps;
  cksum = e.cksum;
  features = e.features;
  yanked = yanked;
  links = e.links;
  v = e.v;
  features2 = e.features2;
  rust_version = e.rust_version;
}

-- The assignment to the flag of the entry found.
unfoldable pub set_flag : Text → Bool → List IndexEntry → List IndexEntry
set_flag version yanked [] = []
set_flag version yanked (e ∷ es) =
    let rest = set_flag version yanked es in
    if text_eq e.vers version then with_flag yanked e ∷ es else e ∷ rest

abbrev pub with_entries : List IndexEntry → CrateRecord → CrateRecord
with_entries es rec = record { entries = es; tarballs = rec.tarballs; owners = rec.owners }

abbrev pub with_owners : List Owner → CrateRecord → CrateRecord
with_owners os rec = record { entries = rec.entries; tarballs = rec.tarballs; owners = os }

-- Whether a user's login is in the list.
unfoldable pub is_login : Text → List Text → Bool
is_login login [] = false
is_login login (l ∷ ls) = text_eq l login || is_login login ls

unfoldable pub is_owner : Text → List Owner → Bool
is_owner login [] = false
is_owner login (o ∷ os) = text_eq o.login login || is_owner login os

unfoldable pub remove_owners : List Text → List Owner → List Owner
remove_owners logins [] = []
remove_owners logins (o ∷ os) =
    let rest = remove_owners logins os in if is_login o.login logins then rest else o ∷ rest

unfoldable pub max_id : List Owner → ℕ
max_id [] = 0
max_id (o ∷ os) = max o.id (max_id os)

unfoldable pub add_owners : ℕ → List Text → List Owner → List Owner
add_owners next_id [] os = os
add_owners next_id (login ∷ logins) os =
    if is_owner login os
    then add_owners next_id logins os
    else add_owners (next_id + 1) logins
        (os ++ record { id = next_id; login = login; name = none } ∷ [])

unfoldable pub edit_owners : Bool → List Text → List Owner → List Owner
edit_owners remove logins os =
    if remove then remove_owners logins os else add_owners (max_id os + 1) logins os

module _ (save : Crates → Option Text) where
  -- The answer to a change of one record, which `restored` undoes when it was not saved.
  abbrev pub kept : Text → CrateRecord → Crates → Option Text → Result CargoError Unit × Crates
  kept key restored crates none = (ok tt, crates)
  kept key restored crates (some e) = (err (persistence e), insert text_eq key restored crates)

  abbrev pub edit : Text → CrateRecord → CrateRecord → Crates → Result CargoError Unit × Crates
  edit key changed restored crates =
      let now = insert text_eq key changed crates in kept key restored now (save now)

  abbrev pub flag_entry :
      Text → Text → Bool → Crates → CrateRecord → Option Bool → Result CargoError Unit × Crates
  flag_entry name version yanked crates rec none =
      (err (not_found (name ++ b' ' ∷ version)), crates)
  flag_entry name version yanked crates rec (some previous) =
      let changed = set_flag version yanked rec.entries in
      edit (canonical_name name) (with_entries changed rec)
        (with_entries (set_flag version previous changed) rec) crates

  abbrev pub flag_record :
      Text → Text → Bool → Crates → Option CrateRecord → Result CargoError Unit × Crates
  flag_record name version yanked crates none = (err (not_found name), crates)
  flag_record name version yanked crates (some rec) =
      flag_entry name version yanked crates rec (flag_of version rec.entries)

  abbrev pub if_valid :
      Crates → Option CargoError → Result CargoError Unit × Crates → Result CargoError Unit × Crates
  if_valid crates none r = r
  if_valid crates (some e) r = (err e, crates)

  unfoldable pub set_yanked : Text → Text → Bool → Crates → Result CargoError Unit × Crates
  set_yanked name version yanked crates =
      if_valid crates (validate_name name)
        (flag_record name version yanked crates (lookup text_eq (canonical_name name) crates))

  abbrev pub own_record :
      Text → List Text → Bool → Crates → Option CrateRecord → Result CargoError Unit × Crates
  own_record name logins remove crates none = (err (not_found name), crates)
  own_record name logins remove crates (some rec) =
      edit (canonical_name name) (with_owners (edit_owners remove logins rec.owners) rec)
        (with_owners rec.owners rec) crates

  unfoldable pub mutate_owners : Text → List Text → Bool → Crates → Result CargoError Unit × Crates
  mutate_owners name logins remove crates =
      if_valid crates (validate_name name)
        (own_record name logins remove crates (lookup text_eq (canonical_name name) crates))
