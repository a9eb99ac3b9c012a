-- ===== src/Cargo/Name/Laws.antt =====
-- Crate names: the canonical key, and the index path that leads back to it.
use ferro_protocols.Prelude.{
  ℕ, ◌+◌, ◌≤◌, ◌≡◌, ◌≢◌, refl, sym, ap, ◌∙◌, true, [], ◌∷◌, ◌++◌, map, Option, none, some, arith,
  length,
}
use ferro_protocols.Prelude.Texts.{Text, str_len, len_utf8, to_lower, all_chars}
use ferro_protocols.Cargo.Name.{
  is_name_char, is_name_shape, is_valid_name, fold_dash, canonical_name, split_at, index_path,
  after_last, or_whole, unless_empty, extract_name_from_index_path, push_first, path_of_three,
  path_of_more, path_from_two, path_by_len,
}

fold_twice :
    (s : Text)
    → map fold_dash (map to_lower (map fold_dash (map to_lower s))) ≡ map fold_dash (map to_lower s)
fold_twice [] = refl
fold_twice (c ∷ s) = ground (arith, fold_twice s)

-- Lower-casing a text changes nothing in its canonical form.
canonical_name-to_lower : (s : Text) → canonical_name (map to_lower s) ≡ canonical_name s
unfolding canonical_name
canonical_name-to_lower [] = refl
canonical_name-to_lower (c ∷ s) = ground (arith, canonical_name-to_lower s)

pub canonical_name_twice : (s : Text) → canonical_name (canonical_name s) ≡ canonical_name s
unfolding canonical_name
canonical_name_twice s = fold_twice s

name_chars-canonical :
    (s : Text)
    → all_chars is_name_char s ≡ true
    → (str_len s ≡ length s)
      × ((all_chars is_name_char (map fold_dash (map to_lower s)) ≡ true)
          × ((str_len (map fold_dash (map to_lower s)) ≡ length s)
              × (str_len (map to_lower s) ≡ length s)))
unfolding str_len len_utf8
name_chars-canonical [] h = ground arith
name_chars-canonical (c ∷ s) h = ground (arith, name_chars-canonical s)

no_slash : (s : Text) → all_chars is_name_char s ≡ true → after_last b'/' (map to_lower s) ≡ none
unfolding after_last
no_slash [] h = refl
no_slash (c ∷ s) h = ground (arith, no_slash s)

after_last-append :
    (sep : ℕ) (a b : Text) → after_last sep b ≡ none → after_last sep (a ++ sep ∷ b) ≡ some b
unfolding after_last
after_last-append sep [] b h = ground arith
after_last-append sep (c ∷ a) b h = ground (arith, after_last-append sep a b h)

name_char_len : (c : ℕ) → is_name_char c ≡ true → len_utf8 (to_lower c) ≡ 1
unfolding len_utf8
name_char_len c h = ground arith

split_first :
    (n c : ℕ) (s : Text) → len_utf8 c ≡ 1 → split_at (1 + n) (c ∷ s) ≡ push_first c (split_at n s)
unfolding split_at
split_first n c s h = ground arith

split_nothing : (s : Text) → split_at 0 s ≡ some ([], s)
unfolding split_at
split_nothing [] = refl
split_nothing (c ∷ s) = refl

split_two :
    (c d : ℕ) (s : Text)
    → len_utf8 c ≡ 1
    → len_utf8 d ≡ 1
    → split_at 2 (c ∷ d ∷ s) ≡ some (c ∷ d ∷ [], s)
split_two c d s hc hd =
    split_first 1 c (d ∷ s) hc
    ∙ ap (push_first c) (split_first 0 d s hd)
    ∙ ap (λ o. push_first c (push_first d o)) (split_nothing s)

-- The path ends in a separator and the lower-cased name.
abbrev LeadsTo : Option Text → Text → Type 0
LeadsTo o lower = (a : Text) × (o ≡ some (a ++ b'/' ∷ lower))

lower_len : (n : Text) → all_chars is_name_char n ≡ true → str_len (map to_lower n) ≡ length n
lower_len n h = (name_chars-canonical n h).1.1.1

long_path :
    (k : ℕ) (lower : Text) → 4 ≤ k → path_by_len k lower ≡ path_from_two lower (split_at 2 lower)
long_path k lower h = ground arith

long_path_leads :
    (a b c d : ℕ) (s lower : Text)
    → len_utf8 a ≡ 1
    → len_utf8 b ≡ 1
    → len_utf8 c ≡ 1
    → len_utf8 d ≡ 1
    → path_from_two lower (split_at 2 (a ∷ b ∷ c ∷ d ∷ s))
      ≡ some (a ∷ b ∷ b'/' ∷ c ∷ d ∷ b'/' ∷ lower)
long_path_leads a b c d s lower ha hb hc hd =
    ap (path_from_two lower) (split_two a b (c ∷ d ∷ s) ha hb)
    ∙ ap (path_of_more lower (a ∷ b ∷ [])) (split_two c d s hc hd)

index_path_leads :
    (n : Text) → n ≢ [] → all_chars is_name_char n ≡ true → LeadsTo (index_path n) (map to_lower n)
unfolding index_path
index_path_leads [] ne h = absurd (ne refl)
index_path_leads (a ∷ []) ne h =
    (b'1' ∷ [], ap (λ k. path_by_len k (map to_lower (a ∷ []))) (lower_len (a ∷ []) h))
index_path_leads (a ∷ b ∷ []) ne h =
    (b'2' ∷ [], ap (λ k. path_by_len k (map to_lower (a ∷ b ∷ []))) (lower_len (a ∷ b ∷ []) h))
index_path_leads (a ∷ b ∷ c ∷ []) ne h =
    let lower : Text = map to_lower (a ∷ b ∷ c ∷ []) in
    (
      b'3' ∷ b'/' ∷ to_lower a ∷ [],
      ap (λ k. path_by_len k lower) (lower_len (a ∷ b ∷ c ∷ []) h)
          ∙ ap (path_of_three lower) (
              split_first 0 (to_lower a) (to_lower b ∷ to_lower c ∷ [])
                (name_char_len a (ground arith))
              ∙ ap (push_first (to_lower a)) (split_nothing (to_lower b ∷ to_lower c ∷ []))),
    )
index_path_leads (a ∷ b ∷ c ∷ d ∷ s) ne h =
    let lower : Text = map to_lower (a ∷ b ∷ c ∷ d ∷ s) in
    (
      to_lower a ∷ to_lower b ∷ b'/' ∷ to_lower c ∷ to_lower d ∷ [],
      ap (λ k. path_by_len k lower) (lower_len (a ∷ b ∷ c ∷ d ∷ s) h)
          ∙ long_path (length (a ∷ b ∷ c ∷ d ∷ s)) lower (omega arith)
          ∙ long_path_leads (to_lower a) (to_lower b) (to_lower c) (to_lower d) (map to_lower s)
              lower (name_char_len a (ground arith)) (name_char_len b (ground arith))
              (name_char_len c (ground arith)) (name_char_len d (ground arith)),
    )

extract_lem :
    (a n : Text)
    → n ≢ []
    → all_chars is_name_char n ≡ true
    → extract_name_from_index_path (a ++ b'/' ∷ map to_lower n) ≡ some (map to_lower n)
unfolding extract_name_from_index_path
extract_lem a [] ne h = absurd (ne refl)
extract_lem a (c ∷ s) ne h =
    ap (λ o. unless_empty (or_whole (a ++ b'/' ∷ map to_lower (c ∷ s)) o))
      (after_last-append b'/' a (map to_lower (c ∷ s)) (no_slash (c ∷ s) h))

valid_parts : (n : Text) → is_valid_name n ≡ true → (n ≢ []) × (all_chars is_name_char n ≡ true)
unfolding is_valid_name str_len
valid_parts [] h = absurd (ground arith)
valid_parts (c ∷ s) h = ((λ e. cc), ground arith)

-- For a valid name, `index_path` returns a path without panicking, and the name that the index
-- handler takes from that path has the same canonical key, under which the crate is stored.
pub index_path-extract :
    (n : Text)
    → is_valid_name n ≡ true
    → (p : Text) × ((m : Text) × ((index_path n ≡ some p)
          × ((extract_name_from_index_path p ≡ some m) × (canonical_name m ≡ canonical_name n))))
index_path-extract n h =
    let (ne, chars) = valid_parts n h in
    let (a, e) = index_path_leads n ne chars in
    (
      a ++ b'/' ∷ map to_lower n,
      (map to_lower n, (e, (extract_lem a n ne chars, canonical_name-to_lower n))),
    )

shape-canonical : (n : Text) → is_name_shape n ≡ true → is_name_shape (canonical_name n) ≡ true
unfolding canonical_name
shape-canonical [] h = h
shape-canonical (c ∷ s) h = ground (arith, name_chars-canonical s)

canonical_len :
    (n : Text) → all_chars is_name_char n ≡ true → str_len (canonical_name n) ≡ str_len n
unfolding canonical_name
canonical_len n h = let (a, (b, (c, d))) = name_chars-canonical n h in c ∙ sym a

valid_again : (n : Text) → is_valid_name n ≡ true → is_valid_name (canonical_name n) ≡ true
unfolding is_valid_name
valid_again n h = ground (arith, canonical_len n (valid_parts n h).1, shape-canonical n)

-- The canonical key of a valid name is a valid name, and its own canonical key.
pub canonical_name-valid :
    (n : Text)
    → is_valid_name n ≡ true
    → (is_valid_name (canonical_name n) ≡ true)
      × (canonical_name (canonical_name n) ≡ canonical_name n)
canonical_name-valid n h = (valid_again n h, canonical_name_twice n)
