-- ===== src/Cargo/Registry/Read.antt =====
-- handlers.rs: the sparse-index handlers with their ETag, and `render_lines` and `parse_lines` of
-- index.rs.
pub mod Cached
pub mod Lines
use ferro_protocols.Prelude.{
  ℕ, Bool, true, false, Bytes, List, [], ◌∷◌, ◌++◌, Option, none, some, leb, ◌==◌, ◌&&◌, ◌||◌,
  if◌then◌else◌,
}
use ferro_protocols.Prelude.Result.{Result, ok, err, ◌>>=◌}
use ferro_protocols.Prelude.Maps.{lookup}
use ferro_protocols.Prelude.Texts.{Text, codes, text_eq}
use ferro_protocols.Prelude.Cuts.{trim, split, lines}
use ferro_protocols.Blob.Digest.{Hasher}
use ferro_protocols.Cargo.Error.{CargoError, not_found}
use ferro_protocols.Cargo.Name.{canonical_name, extract_name_from_index_path}
use ferro_protocols.Cargo.Index.{IndexEntry}
use ferro_protocols.Cargo.Registry.{CrateRecord, Crates, or_fail}

-- `strip_prefix("W/").unwrap_or(candidate)`
unfoldable pub strip_weak : Text → Text
strip_weak [] = []
strip_weak (c ∷ []) = c ∷ []
strip_weak (c ∷ d ∷ s) = if (c == b'W') && (d == b'/') then s else c ∷ d ∷ s

unfoldable pub any_candidate : Text → List Text → Bool
any_candidate etag [] = false
any_candidate etag (c ∷ cs) = text_eq (strip_weak (trim c)) etag || any_candidate etag cs

abbrev pub raw_matches : Text → Text → Bool
raw_matches [] etag = false
raw_matches (c ∷ s) etag =
    if text_eq (c ∷ s) (codes "*") then true else any_candidate etag (split b',' (c ∷ s))

unfoldable pub etag_matches : Text → Text → Bool
etag_matches if_none_match etag = raw_matches (trim if_none_match) etag

-- What a handler answers: the ETag alone, or with the body.
pub data Answer : Type 0 where
  not_modified : Text → Answer
  content : Text → Text → Answer

-- `from_line` is serde_json's reading of an entry. The first line that is malformed is the error.
module _ (from_line : Text → Result Text IndexEntry) where
  unfoldable pub read_lines : List Text → Result Text (List IndexEntry)
  read_lines [] = ok []
  read_lines (line ∷ ls) =
      let rest = read_lines ls in
      if text_eq (trim line) []
      then rest
      else (from_line line >>= λ entry. rest >>= λ out. ok (entry ∷ out))

  unfoldable pub parse_lines : Text → Result Text (List IndexEntry)
  parse_lines text = read_lines (lines text)

-- `to_line` is serde_json's text of an entry, if it has one; `as_bytes` is the UTF-8 of a text.
module _ (to_line : IndexEntry → Option Text) (as_bytes : Text → Bytes) (h : Hasher) where
  abbrev pub line_of : Option Text → Text
  line_of none = []
  line_of (some line) = line ++ b'\n' ∷ []

  unfoldable pub render_lines : List IndexEntry → Text
  render_lines [] = []
  render_lines (e ∷ es) = line_of (to_line e) ++ render_lines es

  unfoldable pub sparse_index_etag : Text → Text
  sparse_index_etag body = b'"' ∷ (h.sha256_hex (as_bytes body) ++ b'"' ∷ [])

  abbrev pub answer : Text → Text → Answer
  answer body if_none_match =
      if etag_matches if_none_match (sparse_index_etag body)
      then not_modified (sparse_index_etag body)
      else content (sparse_index_etag body) body

  -- The header is empty where there is none, or none that is text.
  unfoldable pub serve_index : Crates → Text → Text → Result CargoError Answer
  serve_index crates name if_none_match =
      or_fail (not_found name) (lookup text_eq (canonical_name name) crates) >>= λ rec.
      ok (answer (render_lines rec.entries) if_none_match)

  unfoldable pub handle_sparse_index : Crates → Text → Text → Result CargoError Answer
  handle_sparse_index crates path if_none_match =
      or_fail (not_found path) (extract_name_from_index_path path) >>= λ name.
      serve_index crates name if_none_match
