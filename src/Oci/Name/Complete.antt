-- ===== src/Oci/Name/Complete.antt =====
-- A name of the grammar is accepted, where it is not too long.
use mathlib.Core.Path.{subst}
use ferro_protocols.Prelude.{
  ℕ, zero, suc, ◌≡◌, refl, sym, ap, ◌∙◌, inl, inr, Bool, true, [], ◌∷◌, ◌++◌, append_assoc,
  append-nil, not, ◌==◌, ◌||◌, arith,
}
use ferro_protocols.Prelude.Texts.{Text, codes, text_eq, all_chars}
use ferro_protocols.Prelude.Cuts.{split}
use ferro_protocols.Oci.Name.{
  is_alnum, is_dash, is_valid_separator, walk, last_or, validate_component, all_components,
}
use ferro_protocols.Oci.Name.Grammar.{
  Language, Alnum, Then, Times, Run, Separator, Component, Name, Literal,
}

pub all_chars-append :
    (p : ℕ → Bool) (s t : Text)
    → all_chars p s ≡ true
    → all_chars p t ≡ true
    → all_chars p (s ++ t) ≡ true
all_chars-append p [] t h k = k
all_chars-append p (c ∷ s) t h k = ground (arith, all_chars-append p s t)

-- A text that is one character of a class.
abbrev pub One : (ℕ → Bool) → Language
One p s = (c : ℕ) × ((p c ≡ true) × (s ≡ c ∷ []))

Times-all_chars :
    (P : Language) (p : ℕ → Bool) (n : ℕ) (s : Text)
    → ((t : Text) → P t → One p t)
    → Times P n s
    → all_chars p s ≡ true
Times-all_chars P p zero s one e = ap (all_chars p) e
Times-all_chars P p (suc n) s one (a, b, (e, (first, t))) =
    let (c, (pc, ea)) = one a first in
    ap (all_chars p) (e ∙ ap (λ x. x ++ b) ea) ∙ ground (arith, Times-all_chars P p n b one t)

Alnum-One : (s : Text) → Alnum s → One is_alnum s
Alnum-One s (inl (c, (low, (high, e)))) = (c, (ground arith, e))
Alnum-One s (inr (c, (low, (high, e)))) = (c, (ground arith, e))

dash-One : (p : ℕ → Bool) → p b'-' ≡ true → (s : Text) → Literal (codes "-") s → One p s
dash-One p h s e = (b'-', (h, e))

-- A run starts with a character of its class, and holds no other.
Run-chars :
    (s : Text) → Run s → (c : ℕ) × (t : Text) × ((s ≡ c ∷ t) × (all_chars is_alnum (c ∷ t) ≡ true))
Run-chars s (a, b, (e, (first, (n, t)))) =
    let (c, (pc, ea)) = Alnum-One a first in
    (
      c,
      b,
      (e ∙ ap (λ x. x ++ b) ea, ground (arith, Times-all_chars Alnum is_alnum n b Alnum-One t)),
    )

abbrev pub is_other : ℕ → Bool
is_other c = not (is_alnum c)

abbrev is_plain : ℕ → Bool
is_plain c = not (c == b'/')

weaken :
    (p q : ℕ → Bool) (s : Text)
    → ((c : ℕ) → p c ≡ true → q c ≡ true)
    → all_chars p s ≡ true
    → all_chars q s ≡ true
weaken p q [] imp h = refl
weaken p q (c ∷ s) imp h = ground (arith, imp c, weaken p q s imp)

-- The last character, if there is one, is of `[a-z0-9]`.
abbrev pub ends : Text → Bool
ends [] = true
ends (c ∷ s) = is_alnum (last_or c s)

last_or-append : (c d : ℕ) (s t : Text) → last_or c (s ++ d ∷ t) ≡ last_or d t
last_or-append c d [] t = refl
last_or-append c d (x ∷ s) t = last_or-append x d s t

pub ends-append : (s t : Text) (c : ℕ) → ends (s ++ c ∷ t) ≡ ends (c ∷ t)
ends-append [] t c = refl
ends-append (x ∷ s) t c = ap is_alnum (last_or-append x c s t)

ends-alnum : (s : Text) → all_chars is_alnum s ≡ true → ends s ≡ true
ends-alnum [] h = refl
ends-alnum (c ∷ []) h = ground arith
ends-alnum (c ∷ d ∷ s) h = ends-alnum (d ∷ s) (ground arith)

walk-alnum : (r t : Text) → all_chars is_alnum r ≡ true → walk [] (r ++ t) ≡ walk [] t
unfolding walk text_eq
walk-alnum [] t h = refl
walk-alnum (c ∷ r) t h = ground (arith, walk-alnum r t)

walk-other : (p q t : Text) → all_chars is_other q ≡ true → walk p (q ++ t) ≡ walk (p ++ q) t
unfolding walk
walk-other p [] t h = ap (λ x. walk x t) (sym (append-nil p))
walk-other p (c ∷ q) t h = ground (arith, walk-other (p ++ c ∷ []) q t, append_assoc p (c ∷ []) q)

-- A separator of the grammar is one of the code.
Separator-other : (q : Text) → Separator q → all_chars is_other q ≡ true
Separator-other q (inl (inl e)) = ap (all_chars is_other) e
Separator-other q (inl (inr e)) = ap (all_chars is_other) e
Separator-other q (inr (inl e)) = ap (all_chars is_other) e
Separator-other q (inr (inr (n, t))) = Times-all_chars _ is_other n q (dash-One is_other refl) t

Separator-valid : (q : Text) → Separator q → (text_eq q [] || is_valid_separator q) ≡ true
unfolding text_eq is_valid_separator
Separator-valid q (inl (inl e)) = ap (λ x. text_eq x [] || is_valid_separator x) e
Separator-valid q (inl (inr e)) = ap (λ x. text_eq x [] || is_valid_separator x) e
Separator-valid q (inr (inl e)) = ap (λ x. text_eq x [] || is_valid_separator x) e
Separator-valid q (inr (inr (n, t))) =
    ground (arith, Times-all_chars _ is_dash n q (dash-One is_dash refl) t)

-- What the code asks of a text, but that it has a character: and it holds no slash.
abbrev IsGood : Text → Type 0
IsGood s = (walk [] s ≡ true) × ((ends s ≡ true) × (all_chars is_plain s ≡ true))

nil-IsGood : IsGood []
unfolding walk text_eq
nil-IsGood = (refl, (refl, refl))

-- A separator and a run before a text.
walk-group : (q r t : Text) → Separator q → Run r → walk [] (q ++ (r ++ t)) ≡ walk [] t
unfolding walk
walk-group q r t sep run =
    let (c, r', (e, h)) = Run-chars r run in
    walk-other [] q (r ++ t) (Separator-other q sep)
    ∙ ap (λ x. walk q (x ++ t)) e
    ∙ ground (arith, Separator-valid q sep, walk-alnum r' t)

alnum-IsGood : (r : Text) → all_chars is_alnum r ≡ true → (t : Text) → IsGood t → IsGood (r ++ t)
alnum-IsGood r h [] (w, (e, p)) = subst IsGood (sym (append-nil r)) (
  ap (walk []) (sym (append-nil r)) ∙ walk-alnum r [] h ∙ w,
  (ends-alnum r h, weaken is_alnum is_plain r (λ c k. ground arith) h),
)
alnum-IsGood r h (c ∷ t) (w, (e, p)) = (
  walk-alnum r (c ∷ t) h ∙ w,
  (
    ends-append r t c ∙ e,
    all_chars-append is_plain r (c ∷ t) (weaken is_alnum is_plain r (λ c k. ground arith) h) p,
  ),
)

Separator-plain : (q : Text) → Separator q → all_chars is_plain q ≡ true
Separator-plain q (inl (inl e)) = ap (all_chars is_plain) e
Separator-plain q (inl (inr e)) = ap (all_chars is_plain) e
Separator-plain q (inr (inl e)) = ap (all_chars is_plain) e
Separator-plain q (inr (inr (n, t))) = Times-all_chars _ is_plain n q (dash-One is_plain refl) t

ends-run : (q r t : Text) → Run r → ends (r ++ t) ≡ true → ends (q ++ (r ++ t)) ≡ true
ends-run q r t run h =
    let (c, r', (e, k)) = Run-chars r run in
    ap (λ x. ends (q ++ (x ++ t))) e
    ∙ ends-append q (r' ++ t) c
    ∙ ap (λ x. ends (x ++ t)) (sym e)
    ∙ h

Run-alnum : (r : Text) → Run r → all_chars is_alnum r ≡ true
Run-alnum r run = let (c, r', (e, k)) = Run-chars r run in ap (all_chars is_alnum) e ∙ k

group-IsGood : (g t : Text) → Then Separator Run g → IsGood t → IsGood (g ++ t)
group-IsGood g t (q, r, (e, (sep, run))) good =
    let (w, (s, p)) = alnum-IsGood r (Run-alnum r run) t good in
    subst IsGood (sym (append_assoc q r t) ∙ ap (λ x. x ++ t) (sym e)) (
      walk-group q r t sep run ∙ good.0,
      (ends-run q r t run s, all_chars-append is_plain q (r ++ t) (Separator-plain q sep) p),
    )

Times-IsGood : (n : ℕ) (s : Text) → Times (Then Separator Run) n s → IsGood s
Times-IsGood zero s e = subst IsGood (sym e) nil-IsGood
Times-IsGood (suc n) s (g, t, (e, (group, more))) =
    subst IsGood (sym e) (group-IsGood g t group (Times-IsGood n t more))

Component-IsGood : (s : Text) → Component s → IsGood s
Component-IsGood s (r, t, (e, (run, inl none_left))) =
    subst IsGood (sym (e ∙ ap (λ x. r ++ x) none_left))
      (alnum-IsGood r (Run-alnum r run) [] nil-IsGood)
Component-IsGood s (r, t, (e, (run, inr (g, u, (f, (group, (n, more))))))) = subst IsGood (sym e) (
    alnum-IsGood r (Run-alnum r run) t
      (subst IsGood (sym f) (group-IsGood g u group (Times-IsGood n u more))))

-- A good text that starts with `[a-z0-9]`.
started :
    (s : Text) (c : ℕ) (t : Text)
    → s ≡ c ∷ t
    → is_alnum c ≡ true
    → IsGood s
    → validate_component s ≡ true
unfolding validate_component
started s c t e h good =
    let (w, (l, p)) = subst IsGood e good in ap validate_component e ∙ ground arith

pub Component-validates : (s : Text) → Component s → validate_component s ≡ true
Component-validates s comp =
    let (r, t, (e, (run, rest))) = comp in
    let (c, r', (f, h)) = Run-chars r run in
    started s c (r' ++ t) (e ∙ ap (λ x. x ++ t) f) (ground arith) (Component-IsGood s comp)

split_plain : (s : Text) → all_chars is_plain s ≡ true → split b'/' s ≡ s ∷ []
unfolding split
split_plain [] h = refl
split_plain (c ∷ s) h = ground (arith, split_plain s)

split-slash :
    (s t : Text) → all_chars is_plain s ≡ true → split b'/' (s ++ b'/' ∷ t) ≡ s ∷ split b'/' t
unfolding split
split-slash [] t h = refl
split-slash (c ∷ s) t h = ground (arith, split-slash s t)

-- A component, then components after slashes.
joined :
    (n : ℕ) (a s : Text)
    → Component a
    → Times (Then (Literal (codes "/")) Component) n s
    → all_components (split b'/' (a ++ s)) ≡ true
joined zero a s comp e =
    ap (λ x. all_components (split b'/' x)) (ap (λ x. a ++ x) e ∙ append-nil a)
    ∙ ap all_components (split_plain a (Component-IsGood a comp).1.1)
    ∙ ground (arith, Component-validates a comp)
joined (suc n) a s comp (g, t, (e, ((l, b, (f, (slash, next))), more))) =
    let parts : a ++ s ≡ a ++ b'/' ∷ (b ++ t) =
      ap (λ x. a ++ x) (e ∙ ap (λ x. x ++ t) (f ∙ ap (λ x. x ++ b) slash)) in
    ap (λ x. all_components (split b'/' x)) parts
    ∙ ap all_components (split-slash a (b ++ t) (Component-IsGood a comp).1.1)
    ∙ ground (arith, Component-validates a comp, joined n b t next more)

pub Name-components : (s : Text) → Name s → all_components (split b'/' s) ≡ true
Name-components s (a, t, (e, (comp, (n, more)))) =
    ap (λ x. all_components (split b'/' x)) e ∙ joined n a t comp more
