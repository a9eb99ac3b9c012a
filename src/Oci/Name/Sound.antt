-- ===== src/Oci/Name/Sound.antt =====
-- A name that is accepted is one of the grammar, and the two ways together.
use mathlib.Core.Path.{subst}
use ferro_protocols.Prelude.{
  ℕ, zero, suc, ◌≡◌, ◌↔◌, ◌≤◌, refl, sym, ap, ◌∙◌, inl, inr, Bool, true, false, List, [], ◌∷◌, ◌++◌,
  append_assoc, append-nil, none, length, ◌==◌, arith, Bool-cases,
}
use ferro_protocols.Prelude.Texts.{
  Text, codes, is_lower, text_eq, text_eq_iff, all_chars, str_len, len_utf8,
}
use ferro_protocols.Prelude.Cuts.{split, push_head}
use ferro_protocols.Oci.Name.{
  is_alnum, is_dash, is_valid_separator, walk, validate_component, all_components, validate_name,
}
use ferro_protocols.Oci.Name.Grammar.{
  Language, Alnum, Then, Star, Times, Plus, Run, Separator, Component, Name, Literal, Maybe,
}
use ferro_protocols.Oci.Name.Complete.{
  is_other, all_chars-append, ends, ends-append, Name-components,
}

all_chars-Times :
    (P : Language) (p : ℕ → Bool) (s : Text)
    → ((c : ℕ) → p c ≡ true → P (c ∷ []))
    → all_chars p s ≡ true
    → Times P (length s) s
all_chars-Times P p [] one h = refl
all_chars-Times P p (c ∷ s) one h =
    (c ∷ [], s, (refl, (one c (ground arith), all_chars-Times P p s one (ground arith))))

is_alnum-Alnum : (c : ℕ) → is_alnum c ≡ true → Alnum (c ∷ [])
is_alnum-Alnum c h = elim (Bool-cases (is_lower c)) [
  | inl e ↦ inl (c, (ground arith, (ground arith, refl)))
  | inr e ↦ inr (c, (ground arith, (ground arith, refl)))
]

is_dash-Literal : (c : ℕ) → is_dash c ≡ true → Literal (codes "-") (c ∷ [])
is_dash-Literal c h = ap (λ x. x ∷ []) (ground arith)

Run-of : (c : ℕ) (s : Text) → all_chars is_alnum (c ∷ s) ≡ true → Run (c ∷ s)
Run-of c s h = (
  c ∷ [],
  s,
  (
    refl,
    (
      is_alnum-Alnum c (ground arith),
      (length s, all_chars-Times Alnum is_alnum s is_alnum-Alnum (ground arith)),
    ),
  ),
)

Separator-of : (q : Text) → is_valid_separator q ≡ true → Separator q
unfolding is_valid_separator
Separator-of q h = elim (Bool-cases (text_eq q (codes "."))) [
  | inl e ↦ inl (inl ((text_eq_iff q (codes ".")).0 e))
  | inr e ↦ elim (Bool-cases (text_eq q (codes "_"))) [
    | inl f ↦ inl (inr ((text_eq_iff q (codes "_")).0 f))
    | inr f ↦ elim (Bool-cases (text_eq q (codes "__"))) [
      | inl g ↦ inr (inl ((text_eq_iff q (codes "__")).0 g))
      | inr g ↦ inr (inr (length q, all_chars-Times _ is_dash q is_dash-Literal (ground arith)))
    ]
  ]
]

abbrev Tail : Text → Type 0
Tail = Star (Then Separator Run)

abbrev Parts : Text → Type 0
Parts s = (r : Text) × (t : Text) × ((s ≡ r ++ t) × ((all_chars is_alnum r ≡ true) × Tail t))

-- What a walk that accepts has seen, with the separator that it was in.
abbrev Rest : Text → Text → Type 0
Rest [] s = Parts s
Rest (c ∷ q) s = Tail (c ∷ q ++ s)

other-ends : (q : Text) → all_chars is_other q ≡ true → ends q ≡ true → q ≡ []
other-ends [] h e = refl
other-ends (c ∷ []) h e = absurd (ground arith)
other-ends (c ∷ d ∷ q) h e = absurd (ground (arith, other-ends (d ∷ q)))

group :
    (q : Text) (c : ℕ) (s : Text)
    → is_valid_separator q ≡ true
    → is_alnum c ≡ true
    → Parts s
    → Tail (q ++ c ∷ s)
group q c s v h (r, t, (e, (k, (n, more)))) = (
  suc n,
  (
    q ++ c ∷ r,
    t,
    (
      ap (λ x. q ++ c ∷ x) e ∙ sym (append_assoc q (c ∷ r) t),
      ((q, c ∷ r, (refl, (Separator-of q v, Run-of c r (ground arith)))), more),
    ),
  ),
)

longer : (c : ℕ) (s : Text) → is_alnum c ≡ true → Parts s → Parts (c ∷ s)
longer c s h (r, t, (e, (k, more))) = (c ∷ r, t, (ap (λ x. c ∷ x) e, (ground arith, more)))

only-Tail : (s : Text) → Tail s → Parts s
only-Tail s t = ([], s, (refl, (refl, t)))

ends-later : (q : Text) (c : ℕ) (s : Text) → ends (q ++ c ∷ s) ≡ true → ends s ≡ true
ends-later q c [] h = refl
ends-later q c (d ∷ s) h = sym (ends-append (c ∷ []) s d) ∙ sym (ends-append q (d ∷ s) c) ∙ h

walk-Rest :
    (q s : Text) → all_chars is_other q ≡ true → ends (q ++ s) ≡ true → walk q s ≡ true → Rest q s
unfolding walk text_eq
walk-Rest [] [] h e w = ([], [], (refl, (refl, (zero, refl))))
walk-Rest (x ∷ q) [] h e w =
    absurd (ground (arith, other-ends (x ∷ q) h (ap ends (sym (append-nil (x ∷ q))) ∙ e)))
walk-Rest [] (c ∷ s) h e w = elim (Bool-cases (is_alnum c)) [
  | inl a ↦ longer c s a (walk-Rest [] s refl (ends-later [] c s e) (ground arith))
  | inr a ↦ only-Tail (c ∷ s) (walk-Rest (c ∷ []) s (ground arith) e (ground arith))
]
walk-Rest (x ∷ q) (c ∷ s) h e w = elim (Bool-cases (is_alnum c)) [
  | inl a ↦
      group (x ∷ q) c s (ground arith) a
        (walk-Rest [] s refl (ends-later (x ∷ q) c s e) (ground arith))
  | inr a ↦ subst Tail (append_assoc (x ∷ q) (c ∷ []) s) (
      walk-Rest (x ∷ (q ++ c ∷ [])) s (all_chars-append is_other (x ∷ q) (c ∷ []) h (ground arith))
        (ap ends (append_assoc (x ∷ q) (c ∷ []) s) ∙ e) (ground arith))
]

Component-of : (s : Text) → validate_component s ≡ true → Component s
unfolding validate_component walk text_eq
Component-of [] h = absurd (ground arith)
Component-of (c ∷ s) h =
    let (r, t, (e, (k, (n, more)))) =
      walk-Rest [] s refl (ends-later [] c s (ground arith)) (ground arith) in
    (c ∷ r, t, (ap (λ x. c ∷ x) e, (Run-of c r (ground arith), maybe_more n t more)))
  where
    maybe_more :
        (n : ℕ) (t : Text) → Times (Then Separator Run) n t → Maybe (Plus (Then Separator Run)) t
    maybe_more zero t e = inl e
    maybe_more (suc n) t (g, u, (e, (first, more))) = inr (g, u, (e, (first, (n, more))))

-- Texts after slashes, and what `split` took apart.
abbrev slashed : List Text → Text
slashed [] = []
slashed (y ∷ ys) = b'/' ∷ (y ++ slashed ys)

abbrev unsplit : List Text → Text
unsplit [] = []
unsplit (x ∷ xs) = x ++ slashed xs

unsplit-push_head : (c : ℕ) (xs : List Text) → unsplit (push_head c xs) ≡ c ∷ unsplit xs
unsplit-push_head c [] = refl
unsplit-push_head c (x ∷ xs) = refl

split_cons : (s : Text) → (x : Text) × (xs : List Text) × (split b'/' s ≡ x ∷ xs)
unfolding split
split_cons [] = ([], [], refl)
split_cons (c ∷ s) = elim (Bool-cases (c == b'/')) [
  | inl e ↦ ([], split b'/' s, ground arith)
  | inr e ↦ let (x, xs, f) = split_cons s in (c ∷ x, xs, ground (arith, f))
]

unsplit-split : (s : Text) → unsplit (split b'/' s) ≡ s
unfolding split
unsplit-split [] = refl
unsplit-split (c ∷ s) = elim (Bool-cases (c == b'/')) [
  | inl e ↦
      let (x, xs, f) = split_cons s in
      let whole : s ≡ x ++ slashed xs = sym (unsplit-split s) ∙ ap unsplit f in
      ground (arith, f, whole)
  | inr e ↦ ground (arith, unsplit-push_head c (split b'/' s), unsplit-split s)
]

components :
    (xs : List Text)
    → all_components xs ≡ true
    → Times (Then (Literal (codes "/")) Component) (length xs) (slashed xs)
components [] h = refl
components (x ∷ xs) h = (
  b'/' ∷ x,
  slashed xs,
  (
    refl,
    ((b'/' ∷ [], x, (refl, (refl, Component-of x (ground arith)))), components xs (ground arith)),
  ),
)

Name-of : (s : Text) → all_components (split b'/' s) ≡ true → Name s
Name-of s h =
    let (x, xs, e) = split_cons s in
    let both : all_components (x ∷ xs) ≡ true = ap all_components (sym e) ∙ h in
    (
      x,
      slashed xs,
      (
        sym (unsplit-split s) ∙ ap unsplit e,
        (Component-of x (ground arith), (length xs, components xs (ground arith))),
      ),
    )

not_empty : (s : Text) → all_components (split b'/' s) ≡ true → (str_len s == 0) ≡ false
unfolding split validate_component str_len len_utf8
not_empty [] h = absurd (ground arith)
not_empty (c ∷ s) h = ground arith

-- A name is accepted if and only if it is of the regular expression that the head of the file
-- gives, and has at most 255 bytes.
pub validate_name_iff :
    (name : Text) → (validate_name name ≡ none) ↔ (Name name × (str_len name ≤ 255))
unfolding validate_name
validate_name_iff name = (
  (λ h. (Name-of name (ground arith), ground arith)),
  (λ h. let parts = Name-components name h.0 in ground (arith, parts, not_empty name parts, h.1)),
)
