-- ===== src/Cargo/Registry/Kept.antt =====
-- A publish that fails leaves every crate as it was: the rollback undoes the version exactly.
use ferro_protocols.Prelude.{
  ◌≡◌, ◌≢◌, refl, ap, ◌∙◌, false, Bytes, List, [], ◌∷◌, ◌++◌, Option, none, some, ◌&&◌,
  if◌then◌else◌, arith,
}
use ferro_protocols.Prelude.Result.{Result, ok, err}
use ferro_protocols.Prelude.Maps.{
  lookup, insert, remove, lookup-restore, lookup-insert_same, remove-insert, lookup-remove_absent,
}
use ferro_protocols.Prelude.Texts.{Text, text_eq, text_eq_iff, text_eq_refl}
use ferro_protocols.Blob.Digest.{Digest}
use ferro_protocols.Blob.Memory.{BlobStoreError}
use ferro_protocols.Blob.Memory.Laws.{digest_eq_iff}
use ferro_protocols.Blob.Interface.{BlobStore}
use ferro_protocols.Cargo.Error.{CargoError}
use ferro_protocols.Cargo.Name.{canonical_name}
use ferro_protocols.Cargo.Index.{IndexEntry}
use ferro_protocols.Cargo.Registry.{
  CrateRecord, Crates, CargoState, Env, Prepared, prepare, has_version, display_conflict,
  check_version, check_existing, with_version, record_or_default, add_version,
}
use ferro_protocols.Cargo.Registry.Ingest.{
  without_version, without_tarball, rolled_back, is_nil, put_back, rollback_record,
  rollback_publish, saved, after_put, unless_refused, ingest, on_prepared, handle_publish,
}

-- A record has an entry, and a tarball only for a version that has an entry.
abbrev pub IsTidyRecord : CrateRecord → Type 0
IsTidyRecord rec =
    (rec.entries ≢ [])
    × ((vers : Text)
        → has_version vers rec.entries ≡ false
        → lookup text_eq vers rec.tarballs ≡ none)

abbrev pub IsTidy : Crates → Type 0
IsTidy crates =
    (key : Text) (rec : CrateRecord) → lookup text_eq key crates ≡ some rec → IsTidyRecord rec

without_version_absent :
    (vers : Text) (es : List IndexEntry)
    → has_version vers es ≡ false
    → without_version vers es ≡ es
unfolding without_version has_version
without_version_absent vers [] h = refl
without_version_absent vers (e ∷ es) h = ground (arith, without_version_absent vers es)

without_version_added :
    (e : IndexEntry) (es : List IndexEntry)
    → has_version e.vers es ≡ false
    → without_version e.vers (es ++ e ∷ []) ≡ es
unfolding without_version has_version
without_version_added e [] h = ground (arith, text_eq_refl e.vers)
without_version_added e (x ∷ es) h = ground (arith, without_version_added e es)

without_tarball_added :
    (vers : Text) (d : Digest) (ts : List (Text × Digest))
    → lookup text_eq vers ts ≡ none
    → without_tarball vers d (insert text_eq vers d ts) ≡ ts
without_tarball_added vers d ts h = ground (
  arith,
  lookup-insert_same text_eq text_eq_iff vers d ts,
  remove-insert text_eq text_eq_iff vers d ts h,
  (digest_eq_iff d d).1 refl,
)

-- The version is in no entry of the record, and has no tarball.
abbrev pub IsFresh : Text → CrateRecord → Type 0
IsFresh vers rec =
    (has_version vers rec.entries ≡ false) × (lookup text_eq vers rec.tarballs ≡ none)

rolled_back_lem :
    (e : IndexEntry) (d : Digest) (rec : CrateRecord)
    → IsFresh e.vers rec
    → rolled_back e.vers d (with_version e d rec) ≡ rec
rolled_back_lem e d rec (he, ht) =
    ap
      (λ es. record {
        entries = es;
        tarballs = without_tarball e.vers d (insert text_eq e.vers d rec.tarballs);
        owners = rec.owners;
      })
      (without_version_added e rec.entries he)
    ∙ ap (λ ts. record { entries = rec.entries; tarballs = ts; owners = rec.owners })
        (without_tarball_added e.vers d rec.tarballs ht)

-- The record that a publish found is the one that its rollback leaves.
abbrev pub Restores : Text → Crates → Crates → Type 0
Restores key crates back = (k : Text) → lookup text_eq k back ≡ lookup text_eq k crates

not_nil : {A : Type 0} (xs : List A) → xs ≢ [] → is_nil xs ≡ false
not_nil [] n = absurd (n refl)
not_nil (x ∷ xs) n = refl

put_back_kept :
    (key : Text) (rec : CrateRecord) (crates : Crates)
    → rec.entries ≢ []
    → put_back key rec crates ≡ insert text_eq key rec crates
put_back_kept key rec crates ne =
    ap
      (λ b.
        if b && (is_nil rec.tarballs && is_nil rec.owners)
        then remove text_eq key crates
        else insert text_eq key rec crates)
      (not_nil rec.entries ne)

put_back-some :
    (key : Text) (rec w : CrateRecord) (crates : Crates)
    → rec.entries ≢ []
    → lookup text_eq key crates ≡ some rec
    → Restores key crates (put_back key rec (insert text_eq key w crates))
put_back-some key rec w crates ne h k =
    ap (λ c. lookup text_eq k c) (put_back_kept key rec (insert text_eq key w crates) ne)
    ∙ lookup-restore text_eq text_eq_iff key k rec w crates h

put_back-none :
    (key : Text) (w : CrateRecord) (crates : Crates)
    → lookup text_eq key crates ≡ none
    → Restores key crates (put_back key (record_or_default none) (insert text_eq key w crates))
put_back-none key w crates h k = lookup-remove_absent text_eq text_eq_iff key k w crates h

-- What the checks found out about the record that is there: it is tidy and has no such version.
abbrev pub FoundFresh : Text → Option CrateRecord → Type 0
FoundFresh vers none = Unit
FoundFresh vers (some rec) = (rec.entries ≢ []) × IsFresh vers rec

IsFresh-default : (vers : Text) → IsFresh vers (record_or_default none)
unfolding has_version lookup
IsFresh-default vers = (refl, refl)

put_back_lem :
    (key : Text) (e : IndexEntry) (d : Digest) (crates : Crates) (o : Option CrateRecord)
    → lookup text_eq key crates ≡ o
    → FoundFresh e.vers o
    → Restores key crates (
        put_back key
          (rolled_back e.vers d (with_version e d (record_or_default o)))
          (insert text_eq key (with_version e d (record_or_default o)) crates))
put_back_lem key e d crates none h f k =
    ap
      (λ r.
        lookup text_eq k
          (put_back key r (insert text_eq key (with_version e d (record_or_default none)) crates)))
      (rolled_back_lem e d (record_or_default none) (IsFresh-default e.vers))
    ∙ put_back-none key (with_version e d (record_or_default none)) crates h k
put_back_lem key e d crates (some rec) h (ne, f) k =
    ap (λ r. lookup text_eq k (put_back key r (insert text_eq key (with_version e d rec) crates)))
      (rolled_back_lem e d rec f)
    ∙ put_back-some key rec (with_version e d rec) crates ne h k

-- The rollback of a version that was added.
pub rollback-add :
    (key : Text) (e : IndexEntry) (d : Digest) (crates : Crates)
    → FoundFresh e.vers (lookup text_eq key crates)
    → Restores key crates (rollback_publish (add_version key e d crates) key e.vers d)
unfolding rollback_publish add_version
rollback-add key e d crates f k =
    let w : CrateRecord = with_version e d (record_or_default (lookup text_eq key crates)) in
    ap (λ o. lookup text_eq k (rollback_record key e.vers d (insert text_eq key w crates) o))
      (lookup-insert_same text_eq text_eq_iff key w crates)
    ∙ put_back_lem key e d crates (lookup text_eq key crates) refl f k

pub not_refused :
    (p : Prepared) (rec : CrateRecord) (o : Option Text)
    → check_version p rec o ≡ none
    → has_version p.entry.vers rec.entries ≡ false
not_refused p rec none h = ground arith
not_refused p rec (some x) h = absurd (ground arith)

pub found_fresh :
    (p : Prepared) (o : Option CrateRecord)
    → check_existing p o ≡ none
    → ((rec : CrateRecord) → o ≡ some rec → IsTidyRecord rec)
    → FoundFresh p.entry.vers o
unfolding check_existing
found_fresh p none h t = tt
found_fresh p (some rec) h t =
    let (ne, only) = t rec refl in
    let absent : has_version p.entry.vers rec.entries ≡ false =
      not_refused p rec (display_conflict p.name rec.entries) h in
    (ne, (absent, only p.entry.vers absent))

module _ {S : Type 0} (B : BlobStore S) (save : Crates → Option Text) where
  -- An error comes with crates that read as they did before.
  abbrev pub KeepsCratesOnError : Crates → Result CargoError Unit × CargoState S → Type 0
  KeepsCratesOnError crates (ok _, σ) = Unit
  KeepsCratesOnError crates (err e, σ) =
      (k : Text) → lookup text_eq k σ.crates ≡ lookup text_eq k crates

  saved_lem :
      (key : Text) (e : IndexEntry) (d : Digest) (crates : Crates) (s : S) (o : Option Text)
      → FoundFresh e.vers (lookup text_eq key crates)
      → KeepsCratesOnError crates (saved B save key e.vers d (add_version key e d crates) s o)
  saved_lem key e d crates s none f = tt
  saved_lem key e d crates s (some x) f = λ k. rollback-add key e d crates f k

  after_put_lem :
      (p : Prepared) (crates : Crates) (r : Result BlobStoreError Unit × S)
      → FoundFresh p.entry.vers (lookup text_eq (canonical_name p.name) crates)
      → KeepsCratesOnError crates (after_put B save p crates r)
  after_put_lem p crates (err e, s) f = λ k. refl
  after_put_lem p crates (ok _, s) f =
      saved_lem (canonical_name p.name) p.entry p.digest crates s
        (save (add_version (canonical_name p.name) p.entry p.digest crates)) f

  unless_refused_lem :
      (p : Prepared) (σ : CargoState S) (o : Option CargoError)
      → IsTidy σ.crates
      → check_existing p (lookup text_eq (canonical_name p.name) σ.crates) ≡ o
      → KeepsCratesOnError σ.crates (unless_refused B save p σ o)
  unless_refused_lem p σ (some e) t h = λ k. refl
  unless_refused_lem p σ none t h = after_put_lem p σ.crates (B.put p.digest p.tarball σ.blobs) (
      found_fresh p (lookup text_eq (canonical_name p.name) σ.crates) h (t (canonical_name p.name)))

  ingest_lem :
      (p : Prepared) (σ : CargoState S)
      → IsTidy σ.crates
      → KeepsCratesOnError σ.crates (ingest B save p σ)
  unfolding ingest
  ingest_lem p σ t =
      unless_refused_lem p σ (check_existing p (lookup text_eq (canonical_name p.name) σ.crates)) t
        refl

  on_prepared_lem :
      (σ : CargoState S) (r : Result CargoError Prepared)
      → IsTidy σ.crates
      → KeepsCratesOnError σ.crates (on_prepared B save σ r)
  on_prepared_lem σ (err e) t = λ k. refl
  on_prepared_lem σ (ok p) t = ingest_lem p σ t

  -- Where every record is tidy, a publish that fails, on any branch, leaves the record of every
  -- crate as it was: a body, name, version or checksum refused, a conflict, a blob not stored, and
  -- a snapshot not saved, which is rolled back.
  pub handle_publish-KeepsCratesOnError :
      (env : Env) (body : Bytes) (σ : CargoState S)
      → IsTidy σ.crates
      → KeepsCratesOnError σ.crates (handle_publish B save env body σ)
  unfolding handle_publish
  handle_publish-KeepsCratesOnError env body σ t = on_prepared_lem σ (prepare env body) t
