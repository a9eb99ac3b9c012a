-- ===== src/Examples/Stores.antt =====
-- Digests and blobs of crates/ferro-blob-store.
use ferro_protocols.Prelude.{◌≡◌, ◌↔◌, refl, [], ◌∷◌, ◌++◌, Bytes, replicate}
use ferro_protocols.Prelude.Result.{ok}
use ferro_protocols.Prelude.Maps.{insert, remove}
use ferro_protocols.Prelude.Texts.{Text, codes, text_eq, str_len, len_utf8}
use ferro_protocols.Blob.Digest.{
  sha256, Digest, Hasher, hex_len, validate_hex, new, parse, parse_prefix, sha256_of, digest_eq,
}
use ferro_protocols.Prelude.Cuts.{split_once}
use ferro_protocols.Blob.Digest.Texts.{IsDigestText, parse_iff}
use ferro_protocols.Blob.Memory.{Store, computed, put, delete}
use ferro_protocols.Blob.Memory.Implements.{memory-IsBlobStore}
use ferro_protocols.Blob.Interface.{IsBlobStore, memory}

-- 64 upper-case digits, and their digest.
abbrev upper : Text
upper = replicate 64 b'A'

abbrev lower_digest : Digest
lower_digest = record { algo = sha256; hex = replicate 64 b'a' }

new_lem : new sha256 upper ≡ ok lower_digest
unfolding new validate_hex str_len len_utf8 hex_len
new_lem = refl

parse_lem : parse (codes "sha256:" ++ upper) ≡ ok lower_digest
unfolding parse split_once parse_prefix text_eq new validate_hex str_len len_utf8 hex_len
parse_lem = refl

parse_iff_example :
    (parse (codes "sha256:" ++ upper) ≡ ok lower_digest)
    ↔ IsDigestText (codes "sha256:" ++ upper) lower_digest
parse_iff_example = parse_iff (codes "sha256:" ++ upper) lower_digest

-- A hash by which the digest of any bytes is these bytes.
abbrev pub naming : Hasher
naming = record { sha256_hex = λ b. b; sha512_hex = λ b. b }

abbrev pub digest_of : Bytes → Digest
digest_of b = record { algo = sha256; hex = b }

abbrev one_blob : Store
one_blob = (digest_of (b'x' ∷ []), b'x' ∷ []) ∷ []

put_lem : put naming (digest_of (b'x' ∷ [])) (b'x' ∷ []) [] ≡ ok one_blob
unfolding put computed sha256_of digest_eq text_eq insert
put_lem = refl

delete_lem : delete (digest_of (b'x' ∷ [])) one_blob ≡ ok []
unfolding delete digest_eq text_eq remove
delete_lem = refl

memory-IsBlobStore_example : IsBlobStore (memory naming)
memory-IsBlobStore_example = memory-IsBlobStore naming
