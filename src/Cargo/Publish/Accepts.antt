-- ===== src/Cargo/Publish/Accepts.antt =====
-- What a publish body that `parse` accepts looks like.
use ferro_protocols.Prelude.{
  ℕ, ◌≤◌, ◌≡◌, refl, sym, ap, ◌∙◌, Bytes, ◌++◌, length, take, drop, arith, length-take,
  take-append-drop, inl, inr, ◌⊎◌,
}
use ferro_protocols.Prelude.Result.{Result, ok, err, ◌>>=◌}
use ferro_protocols.Prelude.Texts.{Text}
use ferro_protocols.Prelude.Words.{from_le_bytes}
use ferro_protocols.Cargo.Error.{
  CargoError, invalid_publish, too_short, metadata_truncated, crate_truncated, Malformed,
}
use ferro_protocols.Cargo.Json.{Json}
use ferro_protocols.Cargo.Publish.{
  PublishRequest, read_u32_le, announced, split_prefixed, read_manifest, with_tarball,
  with_metadata, parse,
}

-- The body is four bytes that read as the length of `b`, then `b`, then `rest`.
abbrev pub IsPrefixed : Bytes → Bytes → Bytes → Type 0
IsPrefixed body b rest =
    (a : Bytes) × ((length a ≡ 4) × ((from_le_bytes a ≡ length b) × (body ≡ a ++ (b ++ rest))))

announced_parts :
    (e : Malformed) (n : ℕ) (r b rest : Bytes)
    → announced e (n, r) ≡ ok (b, rest)
    → (n ≡ length b) × (r ≡ b ++ rest)
announced_parts e n r b rest h = ground (arith, length-take n r, take-append-drop n r)

read_u32_le_parts :
    (body : Bytes)
    → (4 ≤ length body) × (read_u32_le body ≡ ok (from_le_bytes (take 4 body), drop 4 body))
      ⊎ (read_u32_le body ≡ err (invalid_publish too_short))
unfolding read_u32_le
read_u32_le_parts body = ground arith

not_ok : {A : Type 0} {e : CargoError} {a : A} → ◌≡◌ {A = Result CargoError A} (err e) (ok a) → ⊥
not_ok h = cc

split_prefixed_parts :
    (e : Malformed) (body b rest : Bytes)
    → split_prefixed e body ≡ ok (b, rest)
    → IsPrefixed body b rest
unfolding split_prefixed
split_prefixed_parts e body b rest h = elim (read_u32_le_parts body) [
  | inl (enough, r) ↦
      let (n, es) =
        announced_parts e (from_le_bytes (take 4 body)) (drop 4 body) b rest
          (ap (λ q. q >>= announced e) (sym r) ∙ h) in
      (
        take 4 body,
        (
          ground (arith, length-take 4 body),
          (n, sym (take-append-drop 4 body) ∙ ap (λ w. take 4 body ++ w) es),
        ),
      )
  | inr r ↦ absurd (not_ok (ap (λ q. q >>= announced e) (sym r) ∙ h))
]

module _ (json : Json) where
  abbrev pub IsBody : Bytes → PublishRequest json.Value → Type 0
  IsBody body r =
      (m : Bytes) × ((after : Bytes) × ((rest : Bytes) × (IsPrefixed body m after
            × ((json.from_slice m ≡ ok r.manifest) × IsPrefixed after r.tarball rest))))

  abbrev Tail : Bytes → json.Value → PublishRequest json.Value → Type 0
  Tail after v r = (v ≡ r.manifest) × ((rest : Bytes) × IsPrefixed after r.tarball rest)

  Tail-parts :
      (after : Bytes) (v : json.Value) (r : PublishRequest json.Value)
      (q : Result CargoError (Bytes × Bytes))
      → split_prefixed crate_truncated after ≡ q
      → (q >>= with_tarball json v) ≡ ok r
      → Tail after v r
  Tail-parts after v r (ok (t, rest)) e h =
      let same : (v ≡ r.manifest) × (t ≡ r.tarball) = (cc, cc) in
      (
        same.0,
        (
          rest,
          split_prefixed_parts crate_truncated after r.tarball rest
              (e ∙ ap (λ w. ok (w, rest)) same.1),
        ),
      )
  Tail-parts after v r (err x) e h = absurd (not_ok h)

  manifest_parts :
      (m after : Bytes) (r : PublishRequest json.Value) (q : Result Text json.Value)
      → json.from_slice m ≡ q
      → (read_manifest json q >>= λ v. split_prefixed crate_truncated after >>= with_tarball json v)
        ≡ ok r
      → (json.from_slice m ≡ ok r.manifest) × ((rest : Bytes) × IsPrefixed after r.tarball rest)
  manifest_parts m after r (ok v) e h =
      let (same, tail) = Tail-parts after v r (split_prefixed crate_truncated after) refl h in
      (e ∙ ap ok same, tail)
  manifest_parts m after r (err x) e h = absurd (not_ok h)

  IsBody-parts :
      (body : Bytes) (r : PublishRequest json.Value) (q : Result CargoError (Bytes × Bytes))
      → split_prefixed metadata_truncated body ≡ q
      → (q >>= with_metadata json) ≡ ok r
      → IsBody body r
  IsBody-parts body r (ok (m, after)) e h =
      let (read, (rest, tail)) = manifest_parts m after r (json.from_slice m) refl h in
      (m, (after, (rest, (split_prefixed_parts metadata_truncated body m after e, (read, tail)))))
  IsBody-parts body r (err x) e h = absurd (not_ok h)

  -- A body that `parse` accepts is a length prefix, that many bytes of JSON that serde_json reads
  -- as the manifest returned, a second length prefix, that many bytes, which are the tarball
  -- returned, and anything after them.
  pub parse-IsBody :
      (body : Bytes) (r : PublishRequest json.Value) → parse json body ≡ ok r → IsBody body r
  unfolding parse
  parse-IsBody body r h = IsBody-parts body r (split_prefixed metadata_truncated body) refl h
