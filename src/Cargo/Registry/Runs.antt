-- ===== src/Cargo/Registry/Runs.antt =====
-- Any sequence of requests: publishes, yanks and changes of owners, saved or not.
use mathlib.Core.Path.{subst}
use ferro_protocols.Prelude.{
  ◌≡◌, ◌≢◌, refl, sym, ap, ◌∙◌, Bool, Bytes, List, [], ◌∷◌, Option, none, some, arith, Bool-cases,
  inl, inr,
}
use ferro_protocols.Prelude.Result.{Result}
use ferro_protocols.Prelude.Maps.{lookup, insert, lookup-insert_same, lookup-insert_other}
use ferro_protocols.Prelude.Texts.{Text, text_eq, text_eq_iff}
use ferro_protocols.Blob.Interface.{BlobStore, IsBlobStore}
use ferro_protocols.Cargo.Error.{CargoError}
use ferro_protocols.Cargo.Name.{canonical_name, validate_name}
use ferro_protocols.Cargo.Index.{IndexEntry}
use ferro_protocols.Cargo.Registry.{CrateRecord, Crates, CargoState, Env, has_version}
use ferro_protocols.Cargo.Registry.Ingest.{handle_publish}
use ferro_protocols.Cargo.Registry.Edit.{
  flag_of, set_flag, with_entries, with_owners, edit_owners, kept, edit, flag_entry, flag_record,
  if_valid, set_yanked, own_record, mutate_owners,
}
use ferro_protocols.Cargo.Registry.Held.{handle_publish-IsSound}
use ferro_protocols.Cargo.Registry.Sound.{some_injective, IsSound, IsGood}

-- A request that may change the state, with the outcome of its snapshot.
pub data Request : Type 0 where
  publish : Bytes → (Crates → Option Text) → Request
  yank : Text → Text → Bool → (Crates → Option Text) → Request
  owners : Text → List Text → Bool → (Crates → Option Text) → Request

module _ {S : Type 0} (B : BlobStore S) (env : Env) where
  unfoldable pub serve : Request → CargoState S → CargoState S
  serve (publish body save) σ = (handle_publish B save env body σ).1
  serve (yank name version yanked save) σ = record σ {
    crates = (set_yanked save name version yanked σ.crates).1;
  }
  serve (owners name logins remove save) σ = record σ {
    crates = (mutate_owners save name logins remove σ.crates).1;
  }

  unfoldable pub serve_all : List Request → CargoState S → CargoState S
  serve_all [] σ = σ
  serve_all (r ∷ rs) σ = serve_all rs (serve r σ)

has_version-set_flag :
    (v version : Text) (b : Bool) (es : List IndexEntry)
    → has_version v (set_flag version b es) ≡ has_version v es
unfolding has_version set_flag
has_version-set_flag v version b [] = refl
has_version-set_flag v version b (e ∷ es) = ground (arith, has_version-set_flag v version b es)

set_flag_not_nil :
    (version : Text) (b : Bool) (es : List IndexEntry) → es ≢ [] → set_flag version b es ≢ []
unfolding set_flag
set_flag_not_nil version b [] n e = n refl
set_flag_not_nil version b (x ∷ es) n e = absurd (ground arith)

module _ {S : Type 0} (B : BlobStore S) (s : S) where
  -- The crates are sound with this store.
  abbrev Fine : Crates → Type 0
  Fine crates = IsSound B (record { blobs = s; crates = crates })

  insert-Fine :
      (key : Text) (w : CrateRecord) (crates : Crates)
      → IsGood B s w
      → Fine crates
      → Fine (insert text_eq key w crates)
  insert-Fine key w crates good fine k rec e = elim (Bool-cases (text_eq k key)) [
    | inl same ↦
        subst (IsGood B s)
          (some_injective (
            sym (lookup-insert_same text_eq text_eq_iff key w crates)
            ∙ ap (λ j. lookup text_eq j (insert text_eq key w crates))
                (sym ((text_eq_iff k key).0 same))
            ∙ e))
          good
    | inr other ↦
        fine k rec (sym (lookup-insert_other text_eq text_eq_iff key k w crates other) ∙ e)
  ]

  set_flag-IsGood :
      (version : Text) (b : Bool) (es : List IndexEntry) (rec : CrateRecord)
      → IsGood B s (with_entries es rec)
      → IsGood B s (with_entries (set_flag version b es) rec)
  set_flag-IsGood version b es rec ((ne, only), holds) = (
    (
      set_flag_not_nil version b es ne,
      λ v h. only v (sym (has_version-set_flag v version b es) ∙ h),
    ),
    holds,
  )

  module _ (save : Crates → Option Text) where
    kept-Fine :
        (key : Text) (restored : CrateRecord) (crates : Crates) (o : Option Text)
        → IsGood B s restored
        → Fine crates
        → Fine (kept save key restored crates o).1
    kept-Fine key restored crates none good fine = fine
    kept-Fine key restored crates (some e) good fine = insert-Fine key restored crates good fine

    edit-Fine :
        (key : Text) (changed restored : CrateRecord) (crates : Crates)
        → IsGood B s changed
        → IsGood B s restored
        → Fine crates
        → Fine (edit save key changed restored crates).1
    edit-Fine key changed restored crates good back fine =
        kept-Fine key restored (insert text_eq key changed crates)
          (save (insert text_eq key changed crates)) back (insert-Fine key changed crates good fine)

    flag_entry-Fine :
        (name version : Text) (b : Bool) (crates : Crates) (rec : CrateRecord) (o : Option Bool)
        → IsGood B s rec
        → Fine crates
        → Fine (flag_entry save name version b crates rec o).1
    flag_entry-Fine name version b crates rec none good fine = fine
    flag_entry-Fine name version b crates rec (some previous) good fine =
        let changed : List IndexEntry = set_flag version b rec.entries in
        let now : IsGood B s (with_entries changed rec) =
          set_flag-IsGood version b rec.entries rec good in
        edit-Fine (canonical_name name) (with_entries changed rec)
          (with_entries (set_flag version previous changed) rec) crates now
          (set_flag-IsGood version previous changed rec now) fine

    flag_record-Fine :
        (name version : Text) (b : Bool) (crates : Crates) (o : Option CrateRecord)
        → lookup text_eq (canonical_name name) crates ≡ o
        → Fine crates
        → Fine (flag_record save name version b crates o).1
    flag_record-Fine name version b crates none h fine = fine
    flag_record-Fine name version b crates (some rec) h fine =
        flag_entry-Fine name version b crates rec (flag_of version rec.entries)
          (fine (canonical_name name) rec h) fine

    own_record-Fine :
        (name : Text) (logins : List Text) (remove : Bool) (crates : Crates)
        (o : Option CrateRecord)
        → lookup text_eq (canonical_name name) crates ≡ o
        → Fine crates
        → Fine (own_record save name logins remove crates o).1
    own_record-Fine name logins remove crates none h fine = fine
    own_record-Fine name logins remove crates (some rec) h fine =
        let good : IsGood B s rec = fine (canonical_name name) rec h in
        edit-Fine (canonical_name name) (with_owners (edit_owners remove logins rec.owners) rec)
          (with_owners rec.owners rec) crates good good fine

    if_valid-Fine :
        (crates : Crates) (o : Option CargoError) (r : Result CargoError Unit × Crates)
        → Fine crates
        → Fine r.1
        → Fine (if_valid save crates o r).1
    if_valid-Fine crates none r fine h = h
    if_valid-Fine crates (some e) r fine h = fine

module _ {S : Type 0} (B : BlobStore S) (env : Env) (L : IsBlobStore B) where
  serve-IsSound : (r : Request) (σ : CargoState S) → IsSound B σ → IsSound B (serve B env r σ)
  unfolding serve set_yanked mutate_owners
  serve-IsSound (publish body save) σ h = handle_publish-IsSound B save L env body σ h
  serve-IsSound (yank name version yanked save) σ h =
      let found = lookup text_eq (canonical_name name) σ.crates in
      if_valid-Fine B σ.blobs save σ.crates (validate_name name)
        (flag_record save name version yanked σ.crates found) h
        (flag_record-Fine B σ.blobs save name version yanked σ.crates found refl h)
  serve-IsSound (owners name logins remove save) σ h =
      let found = lookup text_eq (canonical_name name) σ.crates in
      if_valid-Fine B σ.blobs save σ.crates (validate_name name)
        (own_record save name logins remove σ.crates found) h
        (own_record-Fine B σ.blobs save name logins remove σ.crates found refl h)

  -- Where the blob store keeps its promises, any sequence of publishes, yanks and changes of owners,
  -- refused, saved or not saved, leads from a sound registry to a sound one: every record is tidy
  -- and every tarball that a version maps to is in the blob store.
  pub serve_all-IsSound :
      (rs : List Request) (σ : CargoState S) → IsSound B σ → IsSound B (serve_all B env rs σ)
  unfolding serve_all
  serve_all-IsSound [] σ h = h
  serve_all-IsSound (r ∷ rs) σ h = serve_all-IsSound rs (serve B env r σ) (serve-IsSound r σ h)
