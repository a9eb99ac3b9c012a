-- ===== src/Oci/Registry/Lists/Order.antt =====
-- The order on texts, and lists that are strictly in it.
use ferro_protocols.Prelude.{
  suc, length, ◌≡◌, refl, Bool, true, false, List, [], ◌∷◌, ◌++◌, ◌&&◌, ◌||◌, arith, Bool-cases,
  inl, inr,
}
use ferro_protocols.Prelude.Texts.{Text, text_eq, text_eq_iff}
use ferro_protocols.Oci.Registry.Lists.{text_lt, insert_sorted, sort, retain_after}

text_lt_irrefl : (s : Text) → text_lt s s ≡ false
unfolding text_lt
text_lt_irrefl [] = refl
text_lt_irrefl (c ∷ s) = ground (arith, text_lt_irrefl s)

pub text_lt_trans : (a b c : Text) → text_lt a b ≡ true → text_lt b c ≡ true → text_lt a c ≡ true
unfolding text_lt
text_lt_trans [] [] c h k = absurd (ground arith)
text_lt_trans [] (x ∷ b) [] h k = absurd (ground arith)
text_lt_trans [] (x ∷ b) (y ∷ c) h k = refl
text_lt_trans (x ∷ a) [] c h k = absurd (ground arith)
text_lt_trans (x ∷ a) (y ∷ b) [] h k = absurd (ground arith)
text_lt_trans (x ∷ a) (y ∷ b) (z ∷ c) h k = ground (arith, text_lt_trans a b c)

pub text_lt-total : (a b : Text) → text_lt a b ≡ false → text_eq b a ≡ false → text_lt b a ≡ true
unfolding text_lt text_eq
text_lt-total [] [] h e = absurd (ground arith)
text_lt-total [] (y ∷ b) h e = absurd (ground arith)
text_lt-total (x ∷ a) [] h e = refl
text_lt-total (x ∷ a) (y ∷ b) h e = ground (arith, text_lt-total a b)

pub text_lt-asym : (a b : Text) → text_lt a b ≡ true → text_lt b a ≡ false
text_lt-asym a b h = ground (arith, text_lt_trans a b a h, text_lt_irrefl a)

-- The members are above a text.
abbrev pub Above : Text → List Text → Type 0
Above x [] = Unit
Above x (y ∷ ys) = (text_lt x y ≡ true) × Above x ys

abbrev pub Strict : List Text → Type 0
Strict [] = Unit
Strict (x ∷ xs) = Above x xs × Strict xs

-- No member occurs twice.
abbrev pub Absent : Text → List Text → Type 0
Absent x [] = Unit
Absent x (y ∷ ys) = (text_eq x y ≡ false) × Absent x ys

abbrev pub Distinct : List Text → Type 0
Distinct [] = Unit
Distinct (x ∷ xs) = Absent x xs × Distinct xs

Above-trans : (x y : Text) (ys : List Text) → text_lt x y ≡ true → Above y ys → Above x ys
Above-trans x y [] h a = tt
Above-trans x y (z ∷ ys) h (b, a) = (text_lt_trans x y z h b, Above-trans x y ys h a)

Above-insert :
    (z x : Text) (ys : List Text) → text_lt z x ≡ true → Above z ys → Above z (insert_sorted x ys)
unfolding insert_sorted
Above-insert z x [] h a = (h, tt)
Above-insert z x (y ∷ ys) h (b, a) = ground (arith, Above-insert z x ys h a)

Strict-insert : (x : Text) (ys : List Text) → Absent x ys → Strict ys → Strict (insert_sorted x ys)
unfolding insert_sorted
Strict-insert x [] n s = (tt, tt)
Strict-insert x (y ∷ ys) (n, ns) (a, s) = elim (Bool-cases (text_lt y x)) [
  | inl e ↦ ground (arith, Above-insert y x ys e a, Strict-insert x ys ns s)
  | inr e ↦
      let lt : text_lt x y ≡ true = text_lt-total y x e n in ground (arith, Above-trans x y ys lt a)
]

Absent-insert :
    (z x : Text) (ys : List Text)
    → text_eq z x ≡ false
    → Absent z ys
    → Absent z (insert_sorted x ys)
unfolding insert_sorted
Absent-insert z x [] h a = (h, tt)
Absent-insert z x (y ∷ ys) h (b, a) = ground (arith, Absent-insert z x ys h a)

Absent-sort : (z : Text) (xs : List Text) → Absent z xs → Absent z (sort xs)
unfolding sort
Absent-sort z [] a = tt
Absent-sort z (x ∷ xs) (h, a) = Absent-insert z x (sort xs) h (Absent-sort z xs a)

pub Strict-sort : (xs : List Text) → Distinct xs → Strict (sort xs)
unfolding sort
Strict-sort [] d = tt
Strict-sort (x ∷ xs) (n, d) = Strict-insert x (sort xs) (Absent-sort x xs n) (Strict-sort xs d)

retain-Above : (c : Text) (xs : List Text) → Above c xs → retain_after c xs ≡ xs
unfolding retain_after
retain-Above c [] a = refl
retain-Above c (x ∷ xs) (h, a) = ground (arith, retain-Above c xs a)

Above-in : (x c : Text) (xs bs : List Text) → Above x (xs ++ c ∷ bs) → text_lt x c ≡ true
Above-in x c [] bs (h, a) = h
Above-in x c (y ∷ xs) bs (h, a) = Above-in x c xs bs a

-- In a strict list, what is kept after a member is what follows it.
pub retain_after-Strict :
    (xs bs : List Text) (c : Text) → Strict (xs ++ c ∷ bs) → retain_after c (xs ++ c ∷ bs) ≡ bs
unfolding retain_after
retain_after-Strict [] bs c (a, s) = ground (arith, text_lt_irrefl c, retain-Above c bs a)
retain_after-Strict (x ∷ xs) bs c (a, s) =
    ground (arith, retain_after-Strict xs bs c s, text_lt-asym x c (Above-in x c xs bs a))

insert_sorted-length : (x : Text) (ys : List Text) → length (insert_sorted x ys) ≡ suc (length ys)
unfolding insert_sorted
insert_sorted-length x [] = refl
insert_sorted-length x (y ∷ ys) = ground (arith, insert_sorted-length x ys)

pub length-sort : (xs : List Text) → length (sort xs) ≡ length xs
unfolding sort
length-sort [] = refl
length-sort (x ∷ xs) = ground (arith, insert_sorted-length x (sort xs), length-sort xs)

-- A text is a member.
unfoldable pub has : Text → List Text → Bool
has t [] = false
has t (x ∷ xs) = text_eq t x || has t xs

has-insert_sorted :
    (t x : Text) (ys : List Text) → has t (insert_sorted x ys) ≡ (text_eq t x || has t ys)
unfolding has insert_sorted
has-insert_sorted t x [] = refl
has-insert_sorted t x (y ∷ ys) = ground (arith, has-insert_sorted t x ys)

pub has-sort : (t : Text) (xs : List Text) → has t (sort xs) ≡ has t xs
unfolding has sort
has-sort t [] = refl
has-sort t (x ∷ xs) = ground (arith, has-insert_sorted t x (sort xs), has-sort t xs)

pub has-retain_after :
    (t c : Text) (xs : List Text) → has t (retain_after c xs) ≡ (text_lt c t && has t xs)
unfolding has retain_after
has-retain_after t c [] = ground arith
has-retain_after t c (x ∷ xs) = ground (arith, has-retain_after t c xs, text_eq_iff t x)

Above-retain : (z c : Text) (xs : List Text) → Above z xs → Above z (retain_after c xs)
unfolding retain_after
Above-retain z c [] a = tt
Above-retain z c (x ∷ xs) (h, a) = ground (arith, Above-retain z c xs a)

pub Strict-retain_after : (c : Text) (xs : List Text) → Strict xs → Strict (retain_after c xs)
unfolding retain_after
Strict-retain_after c [] s = tt
Strict-retain_after c (x ∷ xs) (a, s) =
    ground (arith, Above-retain x c xs a, Strict-retain_after c xs s)
