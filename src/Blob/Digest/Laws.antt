-- ===== src/Blob/Digest/Laws.antt =====
-- Digest texts: what `new` accepts is canonical, and `parse` reads the text of a digest back.
use mathlib.Core.Path.{subst}
use ferro_protocols.Prelude.{
  ℕ, ◌≡◌, refl, sym, ap, ◌∙◌, [], ◌∷◌, ◌++◌, map, Option, none, some, ◌==◌, arith, if◌then◌else◌,
}
use ferro_protocols.Prelude.Result.{ok}
use ferro_protocols.Prelude.Texts.{
  Text, codes, text_eq, text_eq_iff, str_len, len_utf8, is_hexdigit, to_lower, find_not,
}
use ferro_protocols.Blob.Digest.{
  DigestAlgo, sha256, sha512, prefix, parse_prefix, Digest, validate_hex, new, to_string, parse,
  with_algo, after_split,
}
use ferro_protocols.Prelude.Cuts.{split_once}

lower_twice : (s : Text) → map to_lower (map to_lower s) ≡ map to_lower s
lower_twice [] = refl
lower_twice (c ∷ s) = ground (arith, lower_twice s)

len_utf8-to_lower : (c : ℕ) → len_utf8 (to_lower c) ≡ len_utf8 c
unfolding len_utf8
len_utf8-to_lower c = ground arith

str_len-to_lower : (s : Text) → str_len (map to_lower s) ≡ str_len s
unfolding str_len
str_len-to_lower [] = refl
str_len-to_lower (c ∷ s) = cc (str_len-to_lower s, len_utf8-to_lower c)

hex-to_lower :
    (s : Text) → find_not is_hexdigit s ≡ none → find_not is_hexdigit (map to_lower s) ≡ none
hex-to_lower [] h = refl
hex-to_lower (c ∷ s) h = ground (arith, hex-to_lower s)

validate_hex-to_lower :
    (a : DigestAlgo) (s : Text) → validate_hex a s ≡ none → validate_hex a (map to_lower s) ≡ none
unfolding validate_hex
validate_hex-to_lower a s h = ground (arith, str_len-to_lower s, hex-to_lower s)

-- What `new` returns, taken apart.
pub new_parts :
    (a : DigestAlgo) (s : Text) (d : Digest)
    → new a s ≡ ok d
    → (validate_hex a s ≡ none) × (d ≡ record { algo = a; hex = map to_lower s })
unfolding new
new_parts a s d h = ground arith

new_again :
    (a : DigestAlgo) (s : Text)
    → validate_hex a s ≡ none
    → new a (map to_lower s) ≡ ok (record { algo = a; hex = map to_lower s })
unfolding new
new_again a s h = cc (validate_hex-to_lower a s h, lower_twice s)

pub split_once-prefix :
    (a : DigestAlgo) (s : Text) → split_once b':' (prefix a ++ b':' ∷ s) ≡ some (prefix a, s)
unfolding split_once
split_once-prefix sha256 s = refl
split_once-prefix sha512 s = refl

parse_prefix-prefix : (a : DigestAlgo) → parse_prefix (prefix a) ≡ some a
unfolding parse_prefix text_eq
parse_prefix-prefix sha256 = refl
parse_prefix-prefix sha512 = refl

pub parse-to_string_at :
    (a : DigestAlgo) (s : Text) → parse (to_string (record { algo = a; hex = s })) ≡ new a s
unfolding parse to_string
parse-to_string_at a s = ground (arith, split_once-prefix a s, parse_prefix-prefix a)

-- The text of a digest that `Digest::new` returned parses back to that digest.
pub parse-to_string :
    (a : DigestAlgo) (s : Text) (d : Digest) → new a s ≡ ok d → parse (to_string d) ≡ ok d
parse-to_string a s d h =
    let p = new_parts a s d h in
    ap (λ w. parse (to_string w)) p.1
    ∙ parse-to_string_at a (map to_lower s)
    ∙ new_again a s p.0
    ∙ ap ok (sym p.1)

split_step :
    (c x : ℕ) (s a b : Text) (o : Option (Text × Text))
    → ((a₁ b₁ : Text) → o ≡ some (a₁, b₁) → s ≡ a₁ ++ c ∷ b₁)
    → (if◌then◌else◌ {A = Option (Text × Text)}
          (x == c)
          (some ([], s))
          (elim o [ none ↦ none | some (u, v) ↦ some (x ∷ u, v) ])
        ≡ some (a, b))
    → (x ∷ s) ≡ a ++ c ∷ b
split_step c x s a b none ih h = ground arith
split_step c x s a b (some (u, v)) ih h = ground (arith, ih u v refl)

split_once_parts : (c : ℕ) (s a b : Text) → split_once c s ≡ some (a, b) → s ≡ a ++ c ∷ b
unfolding split_once
split_once_parts c [] a b h = cc
split_once_parts c (x ∷ s) a b h = split_step c x s a b (split_once c s) (split_once_parts c s) h

parse_prefix_parts : (p : Text) (a : DigestAlgo) → parse_prefix p ≡ some a → p ≡ prefix a
unfolding parse_prefix
parse_prefix_parts p a h =
    ground (arith, text_eq_iff p (codes "sha256"), text_eq_iff p (codes "sha512"))

abbrev pub Parts : Text → Digest → Type 0
Parts s d = (a : DigestAlgo) × ((h : Text) × ((s ≡ prefix a ++ b':' ∷ h) × (new a h ≡ ok d)))

with_algo-Parts :
    (p h : Text) (d : Digest) (o : Option DigestAlgo)
    → ((a : DigestAlgo) → o ≡ some a → p ≡ prefix a)
    → with_algo p h o ≡ ok d
    → Parts (p ++ b':' ∷ h) d
with_algo-Parts p h d none f e = absurd (ground arith)
with_algo-Parts p h d (some a) f e = (a, (h, (ap (λ w. w ++ b':' ∷ h) (f a refl), e)))

after_split-Parts :
    (s : Text) (d : Digest) (o : Option (Text × Text))
    → ((a b : Text) → o ≡ some (a, b) → s ≡ a ++ b':' ∷ b)
    → after_split o ≡ ok d
    → Parts s d
after_split-Parts s d none f e = absurd (ground arith)
after_split-Parts s d (some (p, h)) f e =
    subst (λ w. Parts w d) (sym (f p h refl))
      (with_algo-Parts p h d (parse_prefix p) (parse_prefix_parts p) e)

pub parse-Parts : (s : Text) (d : Digest) → parse s ≡ ok d → Parts s d
unfolding parse
parse-Parts s d e = after_split-Parts s d (split_once b':' s) (split_once_parts b':' s) e
