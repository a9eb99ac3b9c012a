-- ===== src/Cargo/Publish.antt =====
-- crates/ferro-cargo-registry-server/src/publish.rs: the publish body, `len ‖ JSON ‖ len ‖ tarball`.
pub mod RoundTrip
pub mod Accepts
use ferro_protocols.Prelude.{
  ℕ, ◌≤◌, Bool, true, false, Bytes, List, [], ◌∷◌, ◌++◌, Option, none, some, length, take, drop,
  ltb, leb, if◌then◌else◌,
}
use ferro_protocols.Prelude.Result.{Result, ok, err, ◌>>=◌}
use ferro_protocols.Prelude.Texts.{Text}
use ferro_protocols.Prelude.Words.{to_le_bytes, from_le_bytes, u32_max}
use ferro_protocols.Cargo.Error.{
  CargoError, invalid_publish, too_short, metadata_truncated, crate_truncated, metadata_json,
  Malformed,
}
use ferro_protocols.Cargo.Json.{Json}

pub record PublishRequest (V : Type 0) : Type 0 where
  pub manifest : V
  pub tarball : Bytes

unfoldable pub read_u32_le : Bytes → Result CargoError (ℕ × Bytes)
read_u32_le body =
    if ltb (length body) 4
    then err (invalid_publish too_short)
    else ok (from_le_bytes (take 4 body), drop 4 body)

abbrev pub announced : Malformed → ℕ × Bytes → Result CargoError (Bytes × Bytes)
announced short (len, rest) =
    if ltb (length rest) len then err (invalid_publish short) else ok (take len rest, drop len rest)

-- A length prefix and the bytes it announces, cut from what follows them; `parse` does this twice
-- and names a different error.
unfoldable pub split_prefixed : Malformed → Bytes → Result CargoError (Bytes × Bytes)
split_prefixed short body = read_u32_le body >>= announced short

abbrev pub u32_or_max : ℕ → ℕ
u32_or_max n = if leb n u32_max then n else u32_max

abbrev pub bytes_or_default : Option Bytes → Bytes
bytes_or_default none = []
bytes_or_default (some b) = b

abbrev pub prefixed : Bytes → Bytes
prefixed b = to_le_bytes (u32_or_max (length b)) ++ b

module _ (json : Json) where
  abbrev pub read_manifest : Result Text json.Value → Result CargoError json.Value
  read_manifest (ok v) = ok v
  read_manifest (err e) = err (invalid_publish (metadata_json e))

  abbrev pub with_tarball :
      json.Value → Bytes × Bytes → Result CargoError (PublishRequest json.Value)
  with_tarball v (tarball, rest) = ok (record { manifest = v; tarball = tarball })

  abbrev pub with_metadata : Bytes × Bytes → Result CargoError (PublishRequest json.Value)
  with_metadata (metadata, rest) = read_manifest (json.from_slice metadata) >>= λ v.
      split_prefixed crate_truncated rest >>= with_tarball v

  unfoldable pub parse : Bytes → Result CargoError (PublishRequest json.Value)
  parse body = split_prefixed metadata_truncated body >>= with_metadata

  unfoldable pub encode : json.Value → Bytes → Bytes
  encode v tarball = prefixed (bytes_or_default (json.to_vec v)) ++ prefixed tarball
