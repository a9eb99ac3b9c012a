-- ===== src/Oci/Upload/Laws.antt =====
-- What a `Content-Range` that is accepted says, and how long it is.
use mathlib.Core.Path.{subst}
use ferro_protocols.Prelude.{
  ℕ, ◌≡◌, ◌↔◌, ◌+◌, ◌≤◌, [], ◌∷◌, Option, none, some, ltb, arith, Bool-cases, inl, inr, sym,
}
use ferro_protocols.Prelude.Result.{ok, bind_parts}
use ferro_protocols.Prelude.Texts.{Text}
use ferro_protocols.Prelude.Words.{u64_max}
use ferro_protocols.Prelude.Cuts.{trim, split_once, parse_u64, decimal}
use ferro_protocols.Oci.Upload.{ContentRange, parse, or_malformed, checked, checked_length}

decimal_small : (s : Text) (n : ℕ) → decimal s ≡ some n → n ≤ u64_max
decimal_small [] n h = absurd (ground arith)
decimal_small (c ∷ s) n h = ground arith

parse_u64_small : (s : Text) (n : ℕ) → parse_u64 s ≡ some n → n ≤ u64_max
unfolding parse_u64
parse_u64_small [] n h = absurd (ground arith)
parse_u64_small (c ∷ s) n h = ground (arith, decimal_small s n, decimal_small (c ∷ s) n)

abbrev pub IsRange : ContentRange → Type 0
IsRange r =
    (r.start ≤ r.end)
    × ((r.end ≤ u64_max)
        × (((checked_length r ≡ none) ↔ ((r.start ≡ 0) × (r.end ≡ u64_max)))
            × ((len : ℕ) → checked_length r ≡ some len → len + r.start ≡ r.end + 1)))

in_order :
    (start end : ℕ) → start ≤ end → end ≤ u64_max → IsRange (record { start = start; end = end })
unfolding checked_length
in_order start end h small =
    (h, (small, (((λ e. ground arith), (λ e. ground arith)), (λ len e. ground arith))))

checked-IsRange :
    (start end : ℕ) (r : ContentRange) → end ≤ u64_max → checked start end ≡ ok r → IsRange r
checked-IsRange start end r small h = elim (Bool-cases (ltb end start)) [
  | inl e ↦ absurd (ground arith)
  | inr e ↦
      let same : r ≡ record { start = start; end = end } = ground arith in
      subst IsRange (sym same) (in_order start end (ground arith) small)
]

or_malformed-some : {A : Type 0} (o : Option A) (a : A) → or_malformed o ≡ ok a → o ≡ some a
or_malformed-some none a h = absurd (ground arith)
or_malformed-some (some b) a h = ground arith

-- A `Content-Range` that is accepted has its start at most at its end, and its end is a 64-bit
-- number. Its length is refused for the one range from 0 to the last 64-bit number, and is
-- otherwise the number of its bytes.
pub parse-IsRange : (value : Text) (r : ContentRange) → parse value ≡ ok r → IsRange r
unfolding parse
parse-IsRange value r h =
    let ((s, e), (h1, k1)) = bind_parts (or_malformed (split_once b'-' _)) _ r h in
    let (start, (h2, k2)) = bind_parts (or_malformed (parse_u64 (trim s))) _ r k1 in
    let (end, (h3, k3)) = bind_parts (or_malformed (parse_u64 (trim e))) _ r k2 in
    checked-IsRange start end r
      (parse_u64_small (trim e) end (or_malformed-some (parse_u64 (trim e)) end h3)) k3
