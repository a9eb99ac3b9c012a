-- ===== src/Cargo/Registry/Held.antt =====
-- Publishing keeps the registry's invariant, also where the publish is rolled back.
use mathlib.Core.Path.{subst}
use ferro_protocols.Prelude.{
  ◌≡◌, ◌≢◌, refl, sym, ◌∙◌, false, Bytes, Option, none, some, if◌then◌else◌, Bool-cases, inl, inr,
}
use ferro_protocols.Prelude.Result.{Result, ok, err}
use ferro_protocols.Prelude.Maps.{lookup, any_value-lookup}
use ferro_protocols.Prelude.Texts.{Text, text_eq, text_eq_iff}
use ferro_protocols.Blob.Digest.{Digest, digest_eq}
use ferro_protocols.Blob.Memory.{BlobStoreError}
use ferro_protocols.Blob.Memory.Laws.{digest_eq_iff}
use ferro_protocols.Blob.Interface.{BlobStore, IsBlobStore, Held}
use ferro_protocols.Cargo.Error.{CargoError}
use ferro_protocols.Cargo.Name.{canonical_name}
use ferro_protocols.Cargo.Registry.{
  CrateRecord, Crates, CargoState, Env, Prepared, prepare, check_existing, add_version,
}
use ferro_protocols.Cargo.Registry.Kept.{FoundFresh, found_fresh, rollback-add, Restores}
use ferro_protocols.Cargo.Registry.Ingest.{
  has_tarball, digest_referenced_in, rollback_publish, drop_orphan, saved, after_put,
  unless_refused, ingest, on_prepared, handle_publish,
}
use ferro_protocols.Cargo.Registry.Sound.{IsSound, IsTidy-of, add_version-IsSound, true-false}

module _ {S : Type 0} (B : BlobStore S) where
  put-IsSound :
      IsBlobStore B
      → (d : Digest) (b : Bytes) (s : S) (crates : Crates)
      → IsSound B (record { blobs = s; crates = crates })
      → IsSound B (record { blobs = (B.put d b s).1; crates = crates })
  put-IsSound L d b s crates h key rec e =
      let (tidy, holds) = h key rec e in (tidy, λ v x q. L.put_keeps d x b s (holds v x q))

  restored-IsSound :
      (key : Text) (crates back : Crates) (s : S)
      → Restores key crates back
      → IsSound B (record { blobs = s; crates = crates })
      → IsSound B (record { blobs = s; crates = back })
  restored-IsSound key crates back s r h k rec e = h k rec (sym (r k) ∙ e)

  -- A digest that no version maps to is not the one of a version.
  unreferenced :
      (crates : Crates) (digest x : Digest) (key vers : Text) (rec : CrateRecord)
      → digest_referenced_in crates digest ≡ false
      → lookup text_eq key crates ≡ some rec
      → lookup text_eq vers rec.tarballs ≡ some x
      → x ≢ digest
  unfolding digest_referenced_in
  unreferenced crates digest x key vers rec h hk hv same = true-false (
      sym (
        any_value-lookup text_eq text_eq_iff (has_tarball digest) key rec crates hk (
          any_value-lookup text_eq text_eq_iff (λ d. digest_eq d digest) vers x rec.tarballs hv
            ((digest_eq_iff x digest).1 same)))
      ∙ h)

  drop_orphan-IsSound :
      IsBlobStore B
      → (crates : Crates) (digest : Digest) (s : S)
      → IsSound B (record { blobs = s; crates = crates })
      → IsSound B (record { blobs = drop_orphan B crates digest s; crates = crates })
  drop_orphan-IsSound L crates digest s h = elim (Bool-cases (digest_referenced_in crates digest)) [
    | inl e ↦
        subst
          (λ b.
            IsSound B (record { blobs = if b then s else (B.delete digest s).1; crates = crates }))
          (sym e) h
    | inr e ↦
        subst
          (λ b.
            IsSound B (record { blobs = if b then s else (B.delete digest s).1; crates = crates }))
          (sym e) (kept_without e)
  ]
    where
      kept_without :
          digest_referenced_in crates digest ≡ false
          → IsSound B (record { blobs = (B.delete digest s).1; crates = crates })
      kept_without e key rec q =
          let (tidy, holds) = h key rec q in
          (
            tidy,
            λ v x t.
                let (bytes, g) = holds v x t in
                (
                  bytes,
                  L.delete_keeps digest x s (unreferenced crates digest x key v rec e q t) ∙ g,
                ),
          )

  module _ (save : Crates → Option Text) (L : IsBlobStore B) where
    saved-IsSound :
        (p : Prepared) (crates : Crates) (s : S) (o : Option Text)
        → FoundFresh p.entry.vers (lookup text_eq (canonical_name p.name) crates)
        → IsSound B (record { blobs = s; crates = crates })
        → Held B p.digest s
        → IsSound B
            (saved B save
              (canonical_name p.name)
              p.entry.vers
              p.digest
              (add_version (canonical_name p.name) p.entry p.digest crates)
              s
              o).1
    saved-IsSound p crates s none f h held =
        add_version-IsSound B (canonical_name p.name) p.entry p.digest crates s h held
    saved-IsSound p crates s (some e) f h held =
        let key = canonical_name p.name in
        let back =
          rollback_publish (add_version key p.entry p.digest crates) key p.entry.vers p.digest in
        drop_orphan-IsSound L back p.digest s
          (restored-IsSound key crates back s (rollback-add key p.entry p.digest crates f) h)

    after_put-IsSound :
        (p : Prepared) (crates : Crates) (s : S) (r : Result BlobStoreError Unit × S)
        → B.put p.digest p.tarball s ≡ r
        → FoundFresh p.entry.vers (lookup text_eq (canonical_name p.name) crates)
        → IsSound B (record { blobs = r.1; crates = crates })
        → IsSound B (after_put B save p crates r).1
    after_put-IsSound p crates s (err e, s') q f h = h
    after_put-IsSound p crates s (ok _, s') q f h =
        saved-IsSound p crates s'
          (save (add_version (canonical_name p.name) p.entry p.digest crates)) f h
          (p.tarball, L.get-put p.digest p.tarball s s' q)

    unless_refused-IsSound :
        (p : Prepared) (σ : CargoState S) (o : Option CargoError)
        → check_existing p (lookup text_eq (canonical_name p.name) σ.crates) ≡ o
        → IsSound B σ
        → IsSound B (unless_refused B save p σ o).1
    unless_refused-IsSound p σ (some e) q h = h
    unless_refused-IsSound p σ none q h =
        after_put-IsSound p σ.crates σ.blobs (B.put p.digest p.tarball σ.blobs) refl
          (found_fresh p (lookup text_eq (canonical_name p.name) σ.crates) q
            (IsTidy-of B σ h (canonical_name p.name)))
          (put-IsSound L p.digest p.tarball σ.blobs σ.crates h)

    on_prepared-IsSound :
        (σ : CargoState S) (r : Result CargoError Prepared)
        → IsSound B σ
        → IsSound B (on_prepared B save σ r).1
    unfolding ingest
    on_prepared-IsSound σ (err e) h = h
    on_prepared-IsSound σ (ok p) h =
        unless_refused-IsSound p σ
          (check_existing p (lookup text_eq (canonical_name p.name) σ.crates)) refl h

    -- Where the blob store keeps its promises, a publish keeps the registry sound on every branch:
    -- every record is tidy and every tarball that a version maps to is in the blob store, also after
    -- a rollback, which deletes the blob only where no version maps to it.
    pub handle_publish-IsSound :
        (env : Env) (body : Bytes) (σ : CargoState S)
        → IsSound B σ
        → IsSound B (handle_publish B save env body σ).1
    unfolding handle_publish
    handle_publish-IsSound env body σ h = on_prepared-IsSound σ (prepare env body) h
