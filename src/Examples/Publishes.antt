-- ===== src/Examples/Publishes.antt =====
-- The Cargo registry: names, a dependency and a publish body.
use ferro_protocols.Prelude.{◌≡◌, refl, [], ◌∷◌, ◌++◌, some, none, false, true, arith, Bytes}
use ferro_protocols.Prelude.Result.{ok}
use ferro_protocols.Prelude.Texts.{Text, codes, str_len, len_utf8}
use ferro_protocols.Prelude.Words.{from_le_bytes}
use ferro_protocols.Cargo.Name.{
  is_valid_name, canonical_name, index_path, extract_name_from_index_path,
}
use ferro_protocols.Cargo.Name.Laws.{index_path-extract}
use ferro_protocols.Cargo.Json.{Json}
use ferro_protocols.Cargo.Index.{PublishDep}
use ferro_protocols.Cargo.Publish.{PublishRequest, read_u32_le, split_prefixed, parse, encode}
use ferro_protocols.Cargo.Publish.RoundTrip.{parse-encode}
use ferro_protocols.Cargo.Publish.Accepts.{IsBody, parse-IsBody}

abbrev foo_bar : Text
foo_bar = codes "Foo-bar"

valid_lem : is_valid_name foo_bar ≡ true
unfolding is_valid_name str_len len_utf8
valid_lem = refl

index_path-extract_example :
    (p : Text) × ((m : Text) × ((index_path foo_bar ≡ some p)
        × ((extract_name_from_index_path p ≡ some m)
            × (canonical_name m ≡ canonical_name foo_bar))))
index_path-extract_example = index_path-extract foo_bar valid_lem

-- A dependency under another name.
abbrev renamed_dep : PublishDep
renamed_dep = record {
  name = codes "rand";
  version_req = codes "1";
  features = [];
  optional = false;
  default_features = true;
  target = none;
  kind = none;
  registry = none;
  explicit_name_in_toml = some (codes "rng");
}

-- Metadata that is one text, the crate's name, and stands for itself.
abbrev pub texts : Json
texts = record {
  Value = Bytes;
  from_slice = λ b. ok b;
  to_vec = λ v. some v;
  get = λ v field. some v;
  as_str = λ v. some v;
  as_array = λ v. none;
  as_object = λ v. none;
}

abbrev body : Bytes
body = encode texts foo_bar (b't' ∷ b'a' ∷ b'r' ∷ [])

parse-encode_example :
    parse texts (body ++ []) ≡ ok (record { manifest = foo_bar; tarball = b't' ∷ b'a' ∷ b'r' ∷ [] })
parse-encode_example =
    parse-encode texts foo_bar foo_bar refl (b't' ∷ b'a' ∷ b'r' ∷ []) [] refl (omega arith)
      (omega arith)

-- A body written out: one byte of metadata and one of the tarball.
abbrev small_body : Bytes
small_body = 1 ∷ 0 ∷ 0 ∷ 0 ∷ b'a' ∷ 1 ∷ 0 ∷ 0 ∷ 0 ∷ b't' ∷ []

abbrev small_request : PublishRequest Bytes
small_request = record { manifest = b'a' ∷ []; tarball = b't' ∷ [] }

small_lem : parse texts small_body ≡ ok small_request
unfolding parse split_prefixed read_u32_le from_le_bytes
small_lem = refl

parse-IsBody_example : IsBody texts small_body small_request
parse-IsBody_example = parse-IsBody texts small_body small_request small_lem
