-- ===== src/Oci/Reference.antt =====
-- crates/ferro-oci-server/src/reference.rs: `Reference`, a tag or a digest.
pub mod Laws
use ferro_protocols.Prelude.{[], ◌∷◌, ◌++◌, Option, none, some, ◌||◌, if◌then◌else◌}
use ferro_protocols.Prelude.Result.{Result, ok, err}
use ferro_protocols.Prelude.Texts.{Text, codes, text_eq}
use ferro_protocols.Prelude.Cuts.{split_once}
use ferro_protocols.Blob.Digest.{Digest, DigestParseError, parse, to_string}
use ferro_protocols.Oci.Error.{OciError, digest_invalid, manifest_invalid}
use ferro_protocols.Oci.Error
use ferro_protocols.Oci.Name.{is_valid_tag}

pub data Reference : Type 0 where
  tag : Text → Reference
  digest : Digest → Reference

-- `Display`
unfoldable pub display : Reference → Text
display (tag t) = t
display (digest d) = to_string d

abbrev pub of_digest : Result DigestParseError Digest → Result OciError Reference
of_digest (ok d) = ok (digest d)
of_digest (err e) = err (Error.new digest_invalid)

abbrev pub after_colon : Text → Option (Text × Text) → Result OciError Reference
after_colon s (some (algo, hex)) =
    if text_eq algo (codes "sha256") || text_eq algo (codes "sha512")
    then of_digest (parse s)
    else err (Error.new manifest_invalid)
after_colon s none = if is_valid_tag s then ok (tag s) else err (Error.new manifest_invalid)

-- `FromStr`
unfoldable pub from_str : Text → Result OciError Reference
from_str s = after_colon s (split_once b':' s)
