-- ===== src/Oci/Reference/Laws.antt =====
-- References are printed and parsed back.
use ferro_protocols.Prelude.{◌≡◌, refl, ap, ◌∙◌, true, Option, none, some, ◌||◌, arith}
use ferro_protocols.Prelude.Result.{Result, ok, err}
use ferro_protocols.Prelude.Texts.{Text, codes, text_eq}
use ferro_protocols.Prelude.Cuts.{split_once}
use ferro_protocols.Blob.Digest.{
  DigestAlgo, sha256, sha512, Digest, DigestParseError, prefix, parse, to_string,
}
use ferro_protocols.Blob.Digest.Laws.{parse-to_string, parse-Parts, split_once-prefix}
use ferro_protocols.Oci.Name.{is_valid_tag}
use ferro_protocols.Oci.Reference.{
  Reference, tag, digest, display, of_digest, after_colon, from_str,
}

-- What a text that is read as a reference was.
abbrev Origin : Text → Option (Text × Text) → Reference → Type 0
Origin s o (tag t) = (t ≡ s) × ((o ≡ none) × (is_valid_tag s ≡ true))
Origin s o (digest d) = parse s ≡ ok d

of_digest-Origin :
    (s : Text) (o : Option (Text × Text)) (m : Result DigestParseError Digest) (r : Reference)
    → parse s ≡ m
    → of_digest m ≡ ok r
    → Origin s o r
of_digest-Origin s o (ok d) (tag t) e h = absurd (ground arith)
of_digest-Origin s o (ok d) (digest d') e h = ground arith
of_digest-Origin s o (err x) r e h = absurd (ground arith)

after_colon-Origin :
    (s : Text) (o : Option (Text × Text)) (r : Reference) → after_colon s o ≡ ok r → Origin s o r
after_colon-Origin s (some (a, b)) r h =
    of_digest-Origin s (some (a, b)) (parse s) r refl (ground arith)
after_colon-Origin s none (tag t) h = ground arith
after_colon-Origin s none (digest d) h = absurd (ground arith)

prefix_known :
    (a : DigestAlgo)
    → (text_eq (prefix a) (codes "sha256") || text_eq (prefix a) (codes "sha512")) ≡ true
unfolding text_eq
prefix_known sha256 = refl
prefix_known sha512 = refl

from_str-digest : (s : Text) (d : Digest) → parse s ≡ ok d → from_str (to_string d) ≡ ok (digest d)
unfolding from_str to_string
from_str-digest s d e =
    let (a, (h, (es, en))) = parse-Parts s d e in
    let again : parse (to_string d) ≡ ok d = parse-to_string a h d en in
    ground (arith, split_once-prefix d.algo d.hex, prefix_known d.algo, again)

-- If a text is read as a reference, the printed form of that reference is read as the same.
pub from_str-display : (s : Text) (r : Reference) → from_str s ≡ ok r → from_str (display r) ≡ ok r
unfolding from_str display
from_str-display s (tag t) h =
    let (e, o) = after_colon-Origin s (split_once b':' s) (tag t) h in ap from_str e ∙ h
from_str-display s (digest d) h =
    from_str-digest s d (after_colon-Origin s (split_once b':' s) (digest d) h)
