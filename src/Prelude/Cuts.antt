-- ===== src/Prelude/Cuts.antt =====
-- `str::trim`, `str::split`, `str::lines`, `str::split_once` and `str::strip_prefix`, and the number
-- that `str::parse` reads.
use ferro_protocols.Prelude.Tests.{leb, ◌==◌, if◌then◌else◌}
use ferro_protocols.Prelude.Texts.{Text, is_digit, all_chars}
use ferro_protocols.Prelude.Words.{u64_max}
use Prim.Native.Nat.{ℕ, ◌+◌, ◌-◌, ◌*◌}
use mathlib.Core.Bool.{Bool, false, ◌&&◌, ◌||◌}
use mathlib.Core.List.{List, [], ◌∷◌}
use mathlib.Core.Option.{Option, none, some}

-- `char::is_whitespace`
unfoldable pub is_whitespace : ℕ → Bool
is_whitespace c =
    (leb 9 c && leb c 13)
    || ((c == 0x20)
        || ((c == 0x85)
            || ((c == 0xa0)
                || ((c == 0x1680)
                    || ((leb 0x2000 c && leb c 0x200a)
                        || ((c == 0x2028)
                            || ((c == 0x2029)
                                || ((c == 0x202f) || ((c == 0x205f) || (c == 0x3000))))))))))

unfoldable pub trim_start : Text → Text
trim_start [] = []
trim_start (c ∷ s) = let rest = trim_start s in if is_whitespace c then rest else c ∷ s

abbrev pub end_with : ℕ → Text → Text
end_with c [] = if is_whitespace c then [] else c ∷ []
end_with c (x ∷ s) = c ∷ x ∷ s

unfoldable pub trim_end : Text → Text
trim_end [] = []
trim_end (c ∷ s) = end_with c (trim_end s)

-- `str::trim`
unfoldable pub trim : Text → Text
trim s = trim_end (trim_start s)

abbrev pub push_head : ℕ → List Text → List Text
push_head c [] = (c ∷ []) ∷ []
push_head c (x ∷ xs) = (c ∷ x) ∷ xs

-- `str::split` at a character
unfoldable pub split : ℕ → Text → List Text
split sep [] = [] ∷ []
split sep (c ∷ s) = let rest = split sep s in if c == sep then [] ∷ rest else push_head c rest

abbrev pub starts_with : ℕ → Text → Bool
starts_with x [] = false
starts_with x (c ∷ s) = c == x

-- `str::lines`: each ends with a line feed or with a carriage return and a line feed, but for the
-- last, which may have no end.
unfoldable pub lines : Text → List Text
lines [] = []
lines (c ∷ s) =
    let rest = lines s in
    if c == b'\n'
    then [] ∷ rest
    else if (c == b'\r') && starts_with b'\n' s
    then rest
    else push_head c rest

-- `split_once(sep)`: around the first separator
unfoldable pub split_once : ℕ → Text → Option (Text × Text)
split_once sep [] = none
split_once sep (c ∷ s) =
    let rest = split_once sep s in
    if c == sep then some ([], s) else elim rest [ none ↦ none | some (a, b) ↦ some (c ∷ a, b) ]

-- `strip_prefix`
unfoldable pub strip_prefix : Text → Text → Option Text
strip_prefix [] s = some s
strip_prefix (p ∷ ps) [] = none
strip_prefix (p ∷ ps) (c ∷ s) = let rest = strip_prefix ps s in if c == p then rest else none

-- The number that decimal digits denote, with what was read before them.
abbrev pub digits_from : ℕ → Text → ℕ
digits_from n [] = n
digits_from n (c ∷ s) = digits_from (n * 10 + (c - b'0')) s

abbrev pub decimal : Text → Option ℕ
decimal [] = none
decimal (c ∷ s) =
    if all_chars is_digit (c ∷ s) && leb (digits_from 0 (c ∷ s)) u64_max
    then some (digits_from 0 (c ∷ s))
    else none

-- `parse` of a `u64` or a 64-bit `usize`: digits after a `+` that may be left out.
unfoldable pub parse_u64 : Text → Option ℕ
parse_u64 [] = none
parse_u64 (c ∷ s) = if c == b'+' then decimal s else decimal (c ∷ s)
