-- ===== src/Cargo/Publish/RoundTrip.antt =====
-- The publish body that `encode` writes is what `parse` reads, and no shorter body is.
use ferro_protocols.Prelude.{
  ℕ, ◌≤◌, ◌<◌, ◌≡◌, ap, ◌∙◌, Bytes, ◌++◌, some, length, arith, append_assoc, length-append,
  take-append_self, drop-append_self,
}
use ferro_protocols.Prelude.Result.{ok, ◌>>=◌}
use ferro_protocols.Prelude.Words.{to_le_bytes, from_le_bytes-to_le_bytes, u32_max, u32_mod}
use ferro_protocols.Cargo.Error.{metadata_truncated, crate_truncated, Malformed}
use ferro_protocols.Cargo.Json.{Json}
use ferro_protocols.Cargo.Publish.{
  read_u32_le, announced, split_prefixed, u32_or_max, bytes_or_default, prefixed, read_manifest,
  with_tarball, with_metadata, parse, encode,
}

read_u32_le-append :
    (n : ℕ) (rest : Bytes) → n < u32_mod → read_u32_le (to_le_bytes n ++ rest) ≡ ok (n, rest)
unfolding read_u32_le to_le_bytes
read_u32_le-append n rest h = ground (arith, from_le_bytes-to_le_bytes n h)

announced-append :
    (e : Malformed) (b rest : Bytes) → announced e (length b, b ++ rest) ≡ ok (b, rest)
announced-append e b rest =
    ground (arith, length-append b rest, take-append_self b rest, drop-append_self b rest)

u32_or_max_lem : (n : ℕ) → n ≤ u32_max → u32_or_max n ≡ n
u32_or_max_lem n h = ground arith

split_prefixed-prefixed :
    (e : Malformed) (b rest : Bytes)
    → length b ≤ u32_max
    → split_prefixed e (prefixed b ++ rest) ≡ ok (b, rest)
unfolding split_prefixed
split_prefixed-prefixed e b rest h =
    ap (λ n. split_prefixed e ((to_le_bytes n ++ b) ++ rest)) (u32_or_max_lem (length b) h)
    ∙ ap (split_prefixed e) (append_assoc (to_le_bytes (length b)) b rest)
    ∙ ap (λ r. r >>= announced e) (read_u32_le-append (length b) (b ++ rest) (omega arith))
    ∙ announced-append e b rest

module _ (json : Json) (v : json.Value) (m : Bytes) (written : json.to_vec v ≡ some m) where
  metadata_lem : bytes_or_default (json.to_vec v) ≡ m
  metadata_lem = ap bytes_or_default written

  -- A manifest that serde_json writes and reads back, and a tarball, both within a `u32`, are what
  -- `parse` finds in the body of `encode`, whatever follows the body.
  pub parse-encode :
      (tarball rest : Bytes)
      → json.from_slice m ≡ ok v
      → length m ≤ u32_max
      → length tarball ≤ u32_max
      → parse json (encode json v tarball ++ rest) ≡ ok (record { manifest = v; tarball = tarball })
  unfolding parse encode
  parse-encode tarball rest r hm ht =
      ap (λ w. parse json ((prefixed w ++ prefixed tarball) ++ rest)) metadata_lem
      ∙ ap (parse json) (append_assoc (prefixed m) (prefixed tarball) rest)
      ∙ ap (λ q. q >>= with_metadata json)
          (split_prefixed-prefixed metadata_truncated m (prefixed tarball ++ rest) hm)
      ∙ ap
          (λ q. read_manifest json q >>= λ w.
            split_prefixed crate_truncated (prefixed tarball ++ rest) >>= with_tarball json w)
          r
      ∙ ap (λ q. q >>= with_tarball json v)
          (split_prefixed-prefixed crate_truncated tarball rest ht)
