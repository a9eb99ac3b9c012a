-- ===== src/Oci/Name.antt =====
-- crates/ferro-oci-server/src/reference.rs: `validate_name` and `is_valid_tag`.
pub mod Grammar
pub mod Complete
pub mod Sound
use ferro_protocols.Prelude.{
  ℕ, Bool, true, false, List, [], ◌∷◌, ◌++◌, Option, none, some, ltb, ◌==◌, ◌&&◌, ◌||◌, not,
  if◌then◌else◌,
}
use ferro_protocols.Prelude.Texts.{
  Text, codes, text_eq, str_len, is_digit, is_lower, is_alphanumeric, all_chars,
}
use ferro_protocols.Prelude.Cuts.{split}
use ferro_protocols.Oci.Error.{OciError, new, name_invalid}

abbrev pub max_name_length : ℕ
max_name_length = 255

abbrev pub max_tag_length : ℕ
max_tag_length = 128

abbrev pub is_alnum : ℕ → Bool
is_alnum c = is_digit c || is_lower c

abbrev pub is_dash : ℕ → Bool
is_dash c = c == b'-'

unfoldable pub is_valid_separator : Text → Bool
is_valid_separator s =
    if text_eq s (codes ".") || (text_eq s (codes "_") || text_eq s (codes "__"))
    then true
    else not (text_eq s []) && all_chars is_dash s

-- The walk over a component, with the run of separators that it has read; a run that is not empty
-- is judged where it ends. The last character is no separator, as is tested before.
unfoldable pub walk : Text → Text → Bool
walk sep [] = text_eq sep [] || is_valid_separator sep
walk sep (c ∷ s) =
    let inside = walk (sep ++ c ∷ []) s in
    let after = walk [] s in
    if is_alnum c then (text_eq sep [] || is_valid_separator sep) && after else inside

abbrev pub last_or : ℕ → Text → ℕ
last_or c [] = c
last_or c (d ∷ s) = last_or d s

-- `validate_component(..).is_ok()`
unfoldable pub validate_component : Text → Bool
validate_component [] = false
validate_component (c ∷ s) = is_alnum c && (is_alnum (last_or c s) && walk [] (c ∷ s))

abbrev pub all_components : List Text → Bool
all_components [] = true
all_components (c ∷ cs) = validate_component c && all_components cs

-- The error, if there is one: each is `NAME_INVALID`.
unfoldable pub validate_name : Text → Option OciError
validate_name name =
    if str_len name == 0
    then some (new name_invalid)
    else if ltb max_name_length (str_len name)
    then some (new name_invalid)
    else if all_components (split b'/' name)
    then none
    else some (new name_invalid)

abbrev pub is_tag_start : ℕ → Bool
is_tag_start c = is_alphanumeric c || (c == b'_')

abbrev pub is_tag_char : ℕ → Bool
is_tag_char c = is_alphanumeric c || ((c == b'_') || ((c == b'.') || (c == b'-')))

abbrev pub is_tag_shape : Text → Bool
is_tag_shape [] = false
is_tag_shape (c ∷ s) = is_tag_start c && all_chars is_tag_char s

unfoldable pub is_valid_tag : Text → Bool
is_valid_tag tag =
    if (str_len tag == 0) || ltb max_tag_length (str_len tag) then false else is_tag_shape tag
