-- ===== src/Cargo/Name.antt =====
-- crates/ferro-cargo-registry-server/src/name.rs: crate names, their canonical key and index path.
pub mod Laws
use ferro_protocols.Prelude.{
  ℕ, ◌-◌, Bool, true, false, not, List, [], ◌∷◌, ◌++◌, map, Option, none, some, ltb, ◌==◌, ◌&&◌,
  ◌||◌, if◌then◌else◌,
}
use ferro_protocols.Prelude.Result.{Result, ok, err}
use ferro_protocols.Prelude.Texts.{
  Text, codes, text_eq, str_len, len_utf8, is_alphabetic, is_alphanumeric, to_lower, all_chars,
}
use ferro_protocols.Cargo.Error.{CargoError, invalid_name}

abbrev pub max_name_len : ℕ
max_name_len = 64

abbrev pub is_name_char : ℕ → Bool
is_name_char c = is_alphanumeric c || ((c == b'-') || (c == b'_'))

abbrev pub is_name_shape : Text → Bool
is_name_shape [] = false
is_name_shape (first ∷ rest) = is_alphabetic first && all_chars is_name_char rest

unfoldable pub is_valid_name : Text → Bool
is_valid_name name =
    if (str_len name == 0) || ltb max_name_len (str_len name) then false else is_name_shape name

unfoldable pub validate_name : Text → Option CargoError
validate_name name = if is_valid_name name then none else some (invalid_name name)

abbrev pub fold_dash : ℕ → ℕ
fold_dash c = if c == b'-' then b'_' else c

unfoldable pub canonical_name : Text → Text
canonical_name name = map fold_dash (map to_lower name)

unfoldable pub names_collide : Text → Text → Bool
names_collide a b = text_eq (canonical_name a) (canonical_name b)

abbrev pub push_first : ℕ → Option (Text × Text) → Option (Text × Text)
push_first c none = none
push_first c (some (a, b)) = some (c ∷ a, b)

-- A text cut at a byte; there is nothing past the end or inside a character.
unfoldable pub split_at : ℕ → Text → Option (Text × Text)
split_at n [] = if n == 0 then some ([], []) else none
split_at n (c ∷ s) =
    let rest = split_at (n - len_utf8 c) s in
    if n == 0 then some ([], c ∷ s) else if ltb n (len_utf8 c) then none else push_first c rest

-- `3/{&lower[0..1]}/{lower}` and `{&lower[0..2]}/{&lower[2..4]}/{lower}`: a cut inside a character is a panic, `none`.
abbrev pub path_of_three : Text → Option (Text × Text) → Option Text
path_of_three lower none = none
path_of_three lower (some (a, rest)) = some (codes "3/" ++ a ++ b'/' ∷ lower)

abbrev pub path_of_more : Text → Text → Option (Text × Text) → Option Text
path_of_more lower a none = none
path_of_more lower a (some (b, rest)) = some (a ++ b'/' ∷ b ++ b'/' ∷ lower)

abbrev pub path_from_two : Text → Option (Text × Text) → Option Text
path_from_two lower none = none
path_from_two lower (some (a, rest)) = path_of_more lower a (split_at 2 rest)

-- The `match lower.len()`.
abbrev pub path_by_len : ℕ → Text → Option Text
path_by_len len lower =
    if len == 0
    then some []
    else if len == 1
    then some (codes "1/" ++ lower)
    else if len == 2
    then some (codes "2/" ++ lower)
    else if len == 3
    then path_of_three lower (split_at 1 lower)
    else path_from_two lower (split_at 2 lower)

unfoldable pub index_path : Text → Option Text
index_path name = path_by_len (str_len (map to_lower name)) (map to_lower name)

-- `rsplitn(2, '/')`, its first piece: the text after the last separator.
unfoldable pub after_last : ℕ → Text → Option Text
after_last sep [] = none
after_last sep (c ∷ s) =
    let rest = after_last sep s in
    elim rest [ some t ↦ some t | none ↦ if c == sep then some s else none ]

abbrev pub or_whole : Text → Option Text → Text
or_whole s none = s
or_whole s (some t) = t

abbrev pub unless_empty : Text → Option Text
unless_empty [] = none
unless_empty (c ∷ s) = some (c ∷ s)

-- handlers.rs
unfoldable pub extract_name_from_index_path : Text → Option Text
extract_name_from_index_path path = unless_empty (or_whole path (after_last b'/' path))
