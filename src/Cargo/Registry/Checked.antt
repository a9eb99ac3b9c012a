-- ===== src/Cargo/Registry/Checked.antt =====
-- A body that passes the checks of `handle_publish` is a request as Cargo/Registry/Metadata has it.
use ferro_protocols.Prelude.{
  ◌≡◌, ◌≢◌, ◌⊎◌, inl, inr, refl, true, Bytes, [], ◌∷◌, Option, none, some, arith, sym, ap, ◌∙◌,
}
use ferro_protocols.Prelude.Result.{Result, ok, err, ◌>>◌, bind_parts}
use ferro_protocols.Prelude.Texts.{Text, codes, text_eq_iff}
use ferro_protocols.Blob.Digest.{sha256_of}
use ferro_protocols.Cargo.Error.{CargoError, invalid_publish, missing_name, missing_vers}
use ferro_protocols.Cargo.Name.{validate_name}
use ferro_protocols.Cargo.Index.{PublishManifest, or_version, into_index_entry}
use ferro_protocols.Cargo.Publish.{PublishRequest, parse}
use ferro_protocols.Cargo.Publish.Accepts.{IsBody, parse-IsBody}
use ferro_protocols.Cargo.Registry.{
  Env, check_cksum, coerced, or_fail, or_error, or_else, and_then, Prepared, prepare, prepared,
  check_request, str_at, vers_at, check_semver,
}
use mathlib.Core.Path.{subst}
use ferro_protocols.Cargo.Registry.Metadata.{
  HasText, HasVersion, ReadsFields, entry_of, digest_of, IsRequest,
}

and_then_parts :
    {A B : Type 0} (o : Option A) (f : A → Option B) (b : B)
    → and_then o f ≡ some b
    → (a : A) × ((o ≡ some a) × (f a ≡ some b))
and_then_parts none f b h = absurd (ground arith)
and_then_parts (some a) f b h = (a, (refl, h))

first_parts :
    {A B : Type 0} (o o' : Option A) (f : A → Option B) (b : B)
    → and_then (or_else o o') f ≡ some b
    → ((a : A) × ((o ≡ some a) × (f a ≡ some b)))
      ⊎ ((o ≡ none) × ((a : A) × ((o' ≡ some a) × (f a ≡ some b))))
first_parts none o' f b h = inr (refl, and_then_parts o' f b h)
first_parts (some a) o' f b h = inl (a, (refl, h))

or_fail_parts :
    {A : Type 0} (e : CargoError) (o : Option A) (a : A) → or_fail e o ≡ ok a → o ≡ some a
or_fail_parts e none a h = absurd (ground arith)
or_fail_parts e (some b) a h = ground arith

none_of : (o : Option CargoError) (u : Unit) → or_error o ≡ ok u → o ≡ none
none_of none u h = refl
none_of (some e) u h = absurd (ground arith)

coerced_ok : (r : Result Text PublishManifest) (m : PublishManifest) → coerced r ≡ ok m → r ≡ ok m
coerced_ok (ok n) m h = ground arith
coerced_ok (err e) m h = absurd (ground arith)

check_cksum_parts :
    (t computed : Text) (u : Unit)
    → check_cksum (some t) computed ≡ ok u
    → (t ≡ []) ⊎ (t ≡ computed)
unfolding check_cksum
check_cksum_parts [] computed u h = inl refl
check_cksum_parts (c ∷ s) computed u h = inr ((text_eq_iff (c ∷ s) computed).0 (ground arith))

or_version_first : (vers version : Text) → vers ≢ [] → or_version vers version ≡ vers
or_version_first [] version n = absurd (n refl)
or_version_first (c ∷ vers) version n = refl

some_injective : {A : Type 0} {a b : A} → ◌≡◌ {A = Option A} (some a) (some b) → a ≡ b
some_injective e = cc

-- What the handler takes to the lock.
abbrev pub made : (env : Env) → PublishRequest env.json.Value → PublishManifest → Prepared
made env r m = record {
  name = m.name;
  vers = (entry_of env r m).vers;
  entry = entry_of env r m;
  digest = digest_of env r;
  tarball = r.tarball;
}

prepared-made :
    (env : Env) (r : PublishRequest env.json.Value) (m : PublishManifest) (name vers : Text)
    → name ≡ m.name
    → vers ≡ or_version m.vers m.version
    → prepared env r.tarball name vers m ≡ made env r m
unfolding into_index_entry sha256_of
prepared-made env r m name vers e f = cc

ok_injective : {A : Type 0} {a b : A} → ◌≡◌ {A = Result CargoError A} (ok a) (ok b) → a ≡ b
ok_injective e = cc

module _ (env : Env) (laws : ReadsFields env) where
  semver_of :
      (vers : Text) (u : Unit) → check_semver env vers ≡ ok u → env.is_valid_semver vers ≡ true
  semver_of vers u h = ground arith

  -- The version that the handler has checked is the one that the reader takes.
  version_same :
      (v n : env.json.Value) (m : PublishManifest) (vers : Text)
      → env.json.get v (codes "name") ≡ some n
      → env.from_value v ≡ ok m
      → env.is_valid_semver vers ≡ true
      → HasVersion env.json v vers
      → vers ≡ or_version m.vers m.version
  version_same v n m vers e r valid (inl (x, (g, a))) =
      let same : vers ≡ m.vers = some_injective (sym a ∙ laws.vers v n x m e g r) in
      same
      ∙ sym (
          or_version_first m.vers m.version (λ q.
            let bad : env.is_valid_semver [] ≡ true =
              ap env.is_valid_semver (sym (same ∙ q)) ∙ valid in
            ground (arith, bad, laws.not_empty)))
  version_same v n m vers e r valid (inr (none_there, (x, (g, a)))) =
      some_injective (sym a ∙ laws.version v n x m e g r)
      ∙ ap (λ w. or_version w m.version) (sym (laws.no_vers v n m e none_there r))

  summed_lem :
      (v : env.json.Value) (computed : Text) (u : Unit)
      → check_cksum (str_at env v (codes "cksum")) computed ≡ ok u
      → (t : Text) → HasText env.json v (codes "cksum") t
      → (t ≡ []) ⊎ (t ≡ computed)
  summed_lem v computed u h t (x, (g, a)) =
      let declared : str_at env v (codes "cksum") ≡ some t = cc in
      check_cksum_parts t computed u (ap (λ o. check_cksum o computed) (sym declared) ∙ h)

  -- From the outcomes of the checks.
  checked-IsRequest :
      (body : Bytes) (r : PublishRequest env.json.Value) (m : PublishManifest) (name vers : Text)
      (u : Unit)
      → IsBody env.json body r
      → str_at env r.manifest (codes "name") ≡ some name
      → validate_name name ≡ none
      → vers_at env r.manifest ≡ some vers
      → env.is_valid_semver vers ≡ true
      → check_cksum (str_at env r.manifest (codes "cksum")) (env.hasher.sha256_hex r.tarball) ≡ ok u
      → env.from_value r.manifest ≡ ok m
      → IsRequest env body r m × (prepared env r.tarball name vers m ≡ made env r m)
  unfolding into_index_entry
  checked-IsRequest body r m name vers u laid en valid_name ev valid_vers sum read =
      let (n, (g, a)) = and_then_parts (env.json.get r.manifest (codes "name")) _ name en in
      let is_name : name ≡ m.name = some_injective (sym a ∙ laws.name r.manifest n m g read) in
      let has : HasVersion env.json r.manifest vers =
        first_parts (env.json.get r.manifest (codes "vers"))
          (env.json.get r.manifest (codes "version")) _ vers ev in
      let is_vers : vers ≡ or_version m.vers m.version =
        version_same r.manifest n m vers g read valid_vers has in
      (
        record {
          laid_out = laid;
          read = read;
          named = (n, (g, a ∙ ap some is_name));
          versioned = subst (HasVersion env.json r.manifest) is_vers has;
          valid_name = ap validate_name (sym is_name) ∙ valid_name;
          valid_vers = ap env.is_valid_semver (sym is_vers) ∙ valid_vers;
          summed = summed_lem r.manifest (env.hasher.sha256_hex r.tarball) u sum;
        },
        prepared-made env r m name vers is_name is_vers,
      )

  check_request-parts :
      (body : Bytes) (r : PublishRequest env.json.Value) (p : Prepared)
      → IsBody env.json body r
      → check_request env r ≡ ok p
      → (m : PublishManifest) × (IsRequest env body r m × (p ≡ made env r m))
  check_request-parts body r p laid h =
      let computed : Text = env.hasher.sha256_hex r.tarball in
      let named = or_fail (invalid_publish missing_name) (str_at env r.manifest (codes "name")) in
      let versioned = or_fail (invalid_publish missing_vers) (vers_at env r.manifest) in
      let summed = check_cksum (str_at env r.manifest (codes "cksum")) computed in
      let read = coerced (env.from_value r.manifest) in
      let (name, (e₁, h₁)) = bind_parts named _ p h in
      let (vers, (e₂, h₂)) = bind_parts (or_error (validate_name name) >> versioned) _ p h₁ in
      let (u, (e₃, h₃)) = bind_parts (or_error (validate_name name)) _ vers e₂ in
      let (m, (e₄, h₄)) = bind_parts (check_semver env vers >> summed >> read) _ p h₂ in
      let (w, (e₅, h₅)) = bind_parts (check_semver env vers >> summed) _ m e₄ in
      let (v, (e₆, h₆)) = bind_parts (check_semver env vers) _ w e₅ in
      let (request, same) =
        checked-IsRequest body r m name vers w laid
          (or_fail_parts _ (str_at env r.manifest (codes "name")) name e₁)
          (none_of (validate_name name) u e₃) (or_fail_parts _ (vers_at env r.manifest) vers h₃)
          (semver_of vers v e₆) h₆ (coerced_ok (env.from_value r.manifest) m h₅) in
      (m, (request, sym (ok_injective h₄) ∙ same))

  pub prepare-IsRequest :
      (body : Bytes) (p : Prepared)
      → prepare env body ≡ ok p
      → (r : PublishRequest env.json.Value) × ((m : PublishManifest) × (IsRequest env body r m
            × (p ≡ made env r m)))
  unfolding prepare
  prepare-IsRequest body p h =
      let (r, (e, h₁)) = bind_parts (parse env.json body) (check_request env) p h in
      (r, check_request-parts body r p (parse-IsBody env.json body r e) h₁)
