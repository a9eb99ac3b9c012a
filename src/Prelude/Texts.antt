-- ===== src/Prelude/Texts.antt =====
-- Texts as lists of code points (a Rust `&str` is walked by `chars`), their equality, and tables
-- keyed by them.
use Prim.Native.Nat.{ℕ, ◌+◌}
use Prim.Native.Char.{code}
use Prim.Native.String.{String}
use mathlib.Core.Path.{◌≡◌, refl}
use mathlib.Core.Logic.{◌↔◌}
use mathlib.Core.Bool.{Bool, true, false, ◌&&◌, ◌||◌}
use mathlib.Core.List.{List, [], ◌∷◌}
use mathlib.Core.Option.{Option, none, some}
use native.Mathlib.Omega.{arith}
use ferro_protocols.Prelude.Tests.{ltb, leb, ◌==◌, if◌then◌else◌}

abbrev pub Text : Type 0
Text = List ℕ

-- The code points of a literal.
abbrev pub codes : String → Text
codes String.[] = []
codes (String.◌∷◌ c s) = code c ∷ codes s

unfoldable pub text_eq : Text → Text → Bool
text_eq [] [] = true
text_eq [] (b ∷ t) = false
text_eq (a ∷ s) [] = false
text_eq (a ∷ s) (b ∷ t) = (a == b) && text_eq s t

pub text_eq_iff : (s t : Text) → (text_eq s t ≡ true) ↔ (s ≡ t)
unfolding text_eq
text_eq_iff [] [] = ((λ _. refl), (λ _. refl))
text_eq_iff [] (b ∷ t) = ((λ e. cc), (λ e. cc))
text_eq_iff (a ∷ s) [] = ((λ e. cc), (λ e. cc))
text_eq_iff (a ∷ s) (b ∷ t) = ground (arith, text_eq_iff s t)

pub text_eq_refl : (s : Text) → text_eq s s ≡ true
text_eq_refl s = (text_eq_iff s s).1 refl

-- `char::len_utf8`
unfoldable pub len_utf8 : ℕ → ℕ
len_utf8 c = if ltb c 0x80 then 1 else if ltb c 0x800 then 2 else if ltb c 0x1_0000 then 3 else 4

-- `str::len`, in bytes
unfoldable pub str_len : Text → ℕ
str_len [] = 0
str_len (c ∷ s) = len_utf8 c + str_len s

abbrev pub is_digit : ℕ → Bool
is_digit c = leb b'0' c && leb c b'9'

abbrev pub is_lower : ℕ → Bool
is_lower c = leb b'a' c && leb c b'z'

abbrev pub is_upper : ℕ → Bool
is_upper c = leb b'A' c && leb c b'Z'

-- `is_ascii_alphabetic`, `is_ascii_alphanumeric`, `is_ascii_hexdigit`
abbrev pub is_alphabetic : ℕ → Bool
is_alphabetic c = is_lower c || is_upper c

abbrev pub is_alphanumeric : ℕ → Bool
is_alphanumeric c = is_digit c || is_alphabetic c

abbrev pub is_hexdigit : ℕ → Bool
is_hexdigit c = is_digit c || ((leb b'a' c && leb c b'f') || (leb b'A' c && leb c b'F'))

-- `to_ascii_lowercase`
abbrev pub to_lower : ℕ → ℕ
to_lower c = if is_upper c then c + 32 else c

-- `chars().all(p)`
abbrev pub all_chars : (ℕ → Bool) → Text → Bool
all_chars p [] = true
all_chars p (c ∷ s) = p c && all_chars p s

-- `chars().find(|c| !p(c))`
abbrev pub find_not : (ℕ → Bool) → Text → Option ℕ
find_not p [] = none
find_not p (c ∷ s) = if p c then find_not p s else some c
