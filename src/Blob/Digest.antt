-- ===== src/Blob/Digest.antt =====
-- crates/ferro-blob-store/src/digest.rs: `<algo>:<hex>` digests.
pub mod Laws
pub mod Texts
use ferro_protocols.Prelude.{
  ℕ, ◌+◌, ◌≡◌, refl, sym, ap, ◌∙◌, Bool, true, false, Bytes, List, [], ◌∷◌, ◌++◌, map, Option, none,
  some, length, ◌==◌, ◌&&◌, arith, if◌then◌else◌, not,
}
use ferro_protocols.Prelude.Result.{Result, ok, err, ◌>>=◌}
use ferro_protocols.Prelude.Texts.{
  Text, codes, text_eq, text_eq_iff, text_eq_refl, str_len, len_utf8, is_digit, is_hexdigit,
  to_lower, all_chars, find_not,
}
use ferro_protocols.Prelude.Cuts.{split_once}

pub data DigestAlgo : Type 0 where
  sha256 sha512 : DigestAlgo

unfoldable pub hex_len : DigestAlgo → ℕ
hex_len sha256 = 64
hex_len sha512 = 128

abbrev pub prefix : DigestAlgo → Text
prefix sha256 = codes "sha256"
prefix sha512 = codes "sha512"

unfoldable pub parse_prefix : Text → Option DigestAlgo
parse_prefix s =
    if text_eq s (codes "sha256")
    then some sha256
    else if text_eq s (codes "sha512")
    then some sha512
    else none

pub data DigestParseError : Type 0 where
  missing_separator : DigestParseError
  unsupported_algo : Text → DigestParseError
  -- algo, expected, actual
  bad_length : DigestAlgo → ℕ → ℕ → DigestParseError
  bad_hex : ℕ → DigestParseError

pub record Digest : Type 0 where
  pub algo : DigestAlgo
  pub hex : Text

-- `Result<(), DigestParseError>`, as the error if there is one
unfoldable pub validate_hex : DigestAlgo → Text → Option DigestParseError
validate_hex algo hex =
    if not (str_len hex == hex_len algo)
    then some (bad_length algo (hex_len algo) (str_len hex))
    else elim (find_not is_hexdigit hex) [ none ↦ none | some bad ↦ some (bad_hex bad) ]

unfoldable pub new : DigestAlgo → Text → Result DigestParseError Digest
new algo hex = elim (validate_hex algo hex) [
  | some e ↦ err e
  | none ↦ ok (record { algo = algo; hex = map to_lower hex })
]

-- `Display`
unfoldable pub to_string : Digest → Text
to_string d = prefix d.algo ++ b':' ∷ d.hex

-- The two steps of `FromStr` after the separator.
abbrev pub with_algo : Text → Text → Option DigestAlgo → Result DigestParseError Digest
with_algo p hex none = err (unsupported_algo p)
with_algo p hex (some algo) = new algo hex

abbrev pub after_split : Option (Text × Text) → Result DigestParseError Digest
after_split none = err missing_separator
after_split (some (p, hex)) = with_algo p hex (parse_prefix p)

-- `FromStr`
unfoldable pub parse : Text → Result DigestParseError Digest
parse s = after_split (split_once b':' s)

-- The sha2 and hex crates: the lower-case hex text of a hash.
pub record Hasher : Type 0 where
  pub sha256_hex : Bytes → Text
  pub sha512_hex : Bytes → Text

unfoldable pub sha256_of : Hasher → Bytes → Digest
sha256_of h bytes = record { algo = sha256; hex = h.sha256_hex bytes }

unfoldable pub sha512_of : Hasher → Bytes → Digest
sha512_of h bytes = record { algo = sha512; hex = h.sha512_hex bytes }

unfoldable pub digest_eq : Digest → Digest → Bool
digest_eq a b = elim a.algo [
  | sha256 ↦ elim b.algo [ sha256 ↦ text_eq a.hex b.hex | sha512 ↦ false ]
  | sha512 ↦ elim b.algo [ sha256 ↦ false | sha512 ↦ text_eq a.hex b.hex ]
]
