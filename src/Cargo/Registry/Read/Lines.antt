-- ===== src/Cargo/Registry/Read/Lines.antt =====
-- A client that reads the lines of an index that was served to it.
use ferro_protocols.Prelude.{
  ℕ, ◌≡◌, refl, sym, ap, ◌∙◌, Bool, true, false, Bytes, List, [], ◌∷◌, ◌++◌, Option, some, ◌==◌,
  not, ◌&&◌, arith,
}
use ferro_protocols.Prelude.Result.{Result, ok, ◌>>=◌}
use ferro_protocols.Prelude.Maps.{lookup}
use ferro_protocols.Prelude.Texts.{Text, text_eq, all_chars}
use ferro_protocols.Prelude.Cuts.{is_whitespace, trim_start, end_with, trim_end, trim, lines}
use ferro_protocols.Blob.Digest.{Hasher}
use ferro_protocols.Cargo.Name.{canonical_name}
use ferro_protocols.Cargo.Index.{IndexEntry}
use ferro_protocols.Cargo.Registry.{CrateRecord, Crates}
use ferro_protocols.Cargo.Registry.Read.{
  content, read_lines, parse_lines, line_of, render_lines, answer, serve_index,
}

-- Neither a line feed nor a carriage return, which a JSON text escapes.
abbrev is_unbroken : ℕ → Bool
is_unbroken c = not (c == b'\n') && not (c == b'\r')

lines_unbroken :
    (s rest : Text)
    → all_chars is_unbroken s ≡ true
    → lines ((s ++ b'\n' ∷ []) ++ rest) ≡ s ∷ lines rest
unfolding lines
lines_unbroken [] rest p = refl
lines_unbroken (c ∷ s) rest p = ground (arith, lines_unbroken s rest)

brace_end : (s : Text) → text_eq (end_with b'{' s) [] ≡ false
unfolding is_whitespace text_eq
brace_end [] = refl
brace_end (x ∷ s) = refl

brace_not_blank : (t : Text) → text_eq (trim (b'{' ∷ t)) [] ≡ false
unfolding trim trim_start trim_end is_whitespace
brace_not_blank t = brace_end (trim_end t)

module _ (to_line : IndexEntry → Option Text) (from_line : Text → Result Text IndexEntry) where
  -- serde_json writes the entry as an object on one line, and reads it back.
  pub record IsWritten (e : IndexEntry) : Type 0 where
    pub line : Text
    pub line_lem : to_line e ≡ some (b'{' ∷ line)
    pub line-IsUnbroken : all_chars is_unbroken line ≡ true
    pub from_line_lem : from_line (b'{' ∷ line) ≡ ok e

  abbrev pub AllWritten : List IndexEntry → Type 0
  AllWritten [] = Unit
  AllWritten (e ∷ es) = IsWritten e × AllWritten es

  module _ (as_bytes : Text → Bytes) (h : Hasher) where
    parse_line :
        (line rest : Text) (e : IndexEntry)
        → all_chars is_unbroken line ≡ true
        → from_line (b'{' ∷ line) ≡ ok e
        → parse_lines from_line (line_of to_line as_bytes h (some (b'{' ∷ line)) ++ rest)
          ≡ (parse_lines from_line rest >>= λ out. ok (e ∷ out))
    unfolding parse_lines read_lines
    parse_line line rest e p r =
        ground (arith, lines_unbroken (b'{' ∷ line) rest, brace_not_blank line)

    parse_lines-render_lines :
        (es : List IndexEntry)
        → AllWritten es
        → parse_lines from_line (render_lines to_line as_bytes h es) ≡ ok es
    unfolding render_lines parse_lines read_lines lines
    parse_lines-render_lines [] w = refl
    parse_lines-render_lines (e ∷ es) (w, ws) =
        ap
          (λ line.
            parse_lines from_line
              (line_of to_line as_bytes h line ++ render_lines to_line as_bytes h es))
          w.line_lem
        ∙ parse_line w.line _ e w.line-IsUnbroken w.from_line_lem
        ∙ ap (λ out. out >>= λ es. ok (e ∷ es)) (parse_lines-render_lines es ws)

    content_lem :
        (entries : List IndexEntry) (header etag body : Text)
        → answer to_line as_bytes h (render_lines to_line as_bytes h entries) header
          ≡ content etag body
        → render_lines to_line as_bytes h entries ≡ body
    content_lem entries header etag body q = ground arith

    -- Where serde_json writes each entry of a crate as an object on one line and reads it back: if
    -- a request for the index of the crate, whatever its `If-None-Match`, is answered with a body,
    -- then `parse_lines` finds the entries of the crate in that body, all of them and in order.
    pub parse_lines-serve_index :
        (crates : Crates) (rec : CrateRecord) (name header etag body : Text)
        → lookup text_eq (canonical_name name) crates ≡ some rec
        → AllWritten rec.entries
        → serve_index to_line as_bytes h crates name header ≡ ok (content etag body)
        → parse_lines from_line body ≡ ok rec.entries
    unfolding serve_index
    parse_lines-serve_index crates rec name header etag body e w q =
        ap (parse_lines from_line) (sym (content_lem rec.entries header etag body (ground arith)))
        ∙ parse_lines-render_lines rec.entries w
