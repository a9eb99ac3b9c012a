-- ===== src/Cargo/Registry/Read/Cached.antt =====
-- A client that sends back the ETag it was given.
use mathlib.Core.Path.{subst}
use ferro_protocols.Prelude.{
  ℕ, ◌≡◌, refl, sym, ap, ◌∙◌, Bool, true, false, Bytes, [], ◌∷◌, ◌++◌, Option, none, some, ◌==◌,
  ◌||◌, if◌then◌else◌, arith,
}
use ferro_protocols.Prelude.Result.{Result, ok, err, ◌>>=◌}
use ferro_protocols.Prelude.Maps.{lookup}
use ferro_protocols.Prelude.Texts.{Text, text_eq, text_eq_refl, is_hexdigit, all_chars}
use ferro_protocols.Blob.Digest.{Hasher}
use ferro_protocols.Cargo.Error.{CargoError, not_found}
use ferro_protocols.Cargo.Name.{canonical_name}
use ferro_protocols.Cargo.Index.{IndexEntry}
use ferro_protocols.Cargo.Registry.{CrateRecord, Crates, or_fail}
use ferro_protocols.Cargo.Registry.Read.{
  strip_weak, any_candidate, etag_matches, Answer, not_modified, content, render_lines,
  sparse_index_etag, answer, serve_index,
}
use ferro_protocols.Prelude.Cuts.{is_whitespace, trim_start, end_with, trim_end, trim, split}

-- Neither white space nor a comma, and not the start of a weak tag.
abbrev is_plain : ℕ → Bool
is_plain c = is_hexdigit c || (c == b'"')

trim_end_plain : (s : Text) → all_chars is_plain s ≡ true → trim_end s ≡ s
unfolding trim_end is_whitespace
trim_end_plain [] p = refl
trim_end_plain (c ∷ []) p = ground arith
trim_end_plain (c ∷ d ∷ s) p = ap (end_with c) (trim_end_plain (d ∷ s) (ground arith))

split_plain : (s : Text) → all_chars is_plain s ≡ true → split b',' s ≡ s ∷ []
unfolding split
split_plain [] p = refl
split_plain (c ∷ s) p = ground (arith, split_plain s)

-- A text that starts with a quote, of plain characters.
trim_quoted : (s : Text) → all_chars is_plain s ≡ true → trim (b'"' ∷ s) ≡ b'"' ∷ s
unfolding trim trim_start is_whitespace
trim_quoted s p = trim_end_plain (b'"' ∷ s) (ground arith)

strip_quoted : (s : Text) → strip_weak (b'"' ∷ s) ≡ b'"' ∷ s
unfolding strip_weak
strip_quoted [] = refl
strip_quoted (c ∷ s) = refl

etag_matches_quoted :
    (s : Text) → all_chars is_plain s ≡ true → etag_matches (b'"' ∷ s) (b'"' ∷ s) ≡ true
unfolding etag_matches any_candidate text_eq
etag_matches_quoted s p =
    ground (arith, trim_quoted s p, split_plain (b'"' ∷ s) p, strip_quoted s, text_eq_refl s)

plain_append :
    (s : Text) → all_chars is_hexdigit s ≡ true → all_chars is_plain (s ++ b'"' ∷ []) ≡ true
plain_append [] h = refl
plain_append (c ∷ s) h = ground (arith, plain_append s)

empty_header : (etag : Text) → etag_matches [] etag ≡ false
unfolding etag_matches trim trim_start trim_end
empty_header etag = refl

tag_of :
    (s b t c : Text)
    → ◌≡◌ {A = Result CargoError Answer} (ok (content s b)) (ok (content t c))
    → s ≡ t
tag_of s b t c e = cc

not_ok : {A : Type 0} {e : CargoError} {a : A} → ◌≡◌ {A = Result CargoError A} (err e) (ok a) → ⊥
not_ok h = cc

module _ (to_line : IndexEntry → Option Text) (as_bytes : Text → Bytes) (h : Hasher)
    (hex : (b : Bytes) → all_chars is_hexdigit (h.sha256_hex b) ≡ true) where
  etag_matches_own :
      (body : Text)
      → etag_matches
          (sparse_index_etag to_line as_bytes h body)
          (sparse_index_etag to_line as_bytes h body)
        ≡ true
  unfolding sparse_index_etag
  etag_matches_own body =
      etag_matches_quoted (h.sha256_hex (as_bytes body) ++ b'"' ∷ [])
        (plain_append (h.sha256_hex (as_bytes body)) (hex (as_bytes body)))

  answer_again :
      (body tag text : Text)
      → ◌≡◌ {A = Result CargoError Answer}
          (ok (answer to_line as_bytes h body []))
          (ok (content tag text))
      → answer to_line as_bytes h body tag ≡ not_modified tag
  answer_again body tag text e =
      let etag : Text = sparse_index_etag to_line as_bytes h body in
      let given : answer to_line as_bytes h body [] ≡ content etag body =
        ap (λ b. if b then not_modified etag else content etag body) (empty_header etag) in
      subst (λ t. answer to_line as_bytes h body t ≡ not_modified t)
        (tag_of etag body tag text (ap ok (sym given) ∙ e))
        (ap (λ b. if b then not_modified etag else content etag body) (etag_matches_own body))

  again :
      (name tag text : Text) (o : Option CrateRecord)
      → (or_fail (not_found name) o >>= λ rec.
          ok (answer to_line as_bytes h (render_lines to_line as_bytes h rec.entries) []))
        ≡ ok (content tag text)
      → (or_fail (not_found name) o >>= λ rec.
          ok (answer to_line as_bytes h (render_lines to_line as_bytes h rec.entries) tag))
        ≡ ok (not_modified tag)
  again name tag text none e = absurd (not_ok e)
  again name tag text (some rec) e =
      ap ok (answer_again (render_lines to_line as_bytes h rec.entries) tag text e)

  -- Where the hash is written in hexadecimal digits: if a request without `If-None-Match` is answered
  -- with a tag and the index of a crate, the same request with that tag in `If-None-Match` is
  -- answered with the tag alone, as not modified.
  pub serve_index_again :
      (crates : Crates) (name tag text : Text)
      → serve_index to_line as_bytes h crates name [] ≡ ok (content tag text)
      → serve_index to_line as_bytes h crates name tag ≡ ok (not_modified tag)
  unfolding serve_index
  serve_index_again crates name tag text e =
      again name tag text (lookup text_eq (canonical_name name) crates) e
