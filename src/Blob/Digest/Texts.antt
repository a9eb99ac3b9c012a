-- ===== src/Blob/Digest/Texts.antt =====
-- Which texts are digests, said without the parser.
use mathlib.Core.Path.{subst}
use ferro_protocols.Prelude.{
  ℕ, ◌+◌, ◌≤◌, ◌≡◌, ◌⊎◌, ◌↔◌, inl, inr, refl, sym, ap, ◌∙◌, true, [], ◌∷◌, ◌++◌, map, none, length,
  leb, arith, Bool-cases,
}
use ferro_protocols.Prelude.Result.{ok}
use ferro_protocols.Prelude.Texts.{
  Text, codes, str_len, len_utf8, is_digit, is_hexdigit, to_lower, find_not,
}
use ferro_protocols.Blob.Digest.{
  DigestAlgo, sha256, sha512, Digest, hex_len, prefix, validate_hex, new, to_string, parse,
}
use ferro_protocols.Blob.Digest.Laws.{new_parts, parse-to_string_at, parse-Parts}

-- A hex digit and its lower case.
abbrev pub LowerDigit : ℕ → ℕ → Type 0
LowerDigit c l =
    ((b'0' ≤ c) × ((c ≤ b'9') × (l ≡ c)))
    ⊎ (((b'a' ≤ c) × ((c ≤ b'f') × (l ≡ c))) ⊎ ((b'A' ≤ c) × ((c ≤ b'F') × (l ≡ c + 32))))

-- Hex digits and their lower case.
abbrev pub Lowered : Text → Text → Type 0
Lowered [] [] = Unit
Lowered [] (l ∷ ls) = ⊥
Lowered (c ∷ cs) [] = ⊥
Lowered (c ∷ cs) (l ∷ ls) = LowerDigit c l × Lowered cs ls

abbrev pub Digits : DigestAlgo → Text → Text → Type 0
Digits sha256 s h = (length h ≡ 64) × (s ≡ codes "sha256:" ++ h)
Digits sha512 s h = (length h ≡ 128) × (s ≡ codes "sha512:" ++ h)

-- The name of the hash, a colon, and as many hex digits as the hash has; the digest keeps them in
-- lower case.
abbrev pub IsDigestText : Text → Digest → Type 0
IsDigestText s d = (h : Text) × (Digits d.algo s h × Lowered h d.hex)

hexdigit_lowered : (c : ℕ) → is_hexdigit c ≡ true → LowerDigit c (to_lower c)
hexdigit_lowered c h = elim (Bool-cases (is_digit c)) [
  | inl e ↦ inl (ground arith, (ground arith, ground arith))
  | inr e ↦ elim (Bool-cases (leb b'a' c)) [
    | inl f ↦ inr (inl (ground arith, (ground arith, ground arith)))
    | inr f ↦ inr (inr (ground arith, (ground arith, ground arith)))
  ]
]

hex-Lowered : (h : Text) → find_not is_hexdigit h ≡ none → Lowered h (map to_lower h)
hex-Lowered [] e = tt
hex-Lowered (c ∷ h) e = (hexdigit_lowered c (ground arith), hex-Lowered h (ground arith))

lowered_hexdigit : (c l : ℕ) → LowerDigit c l → (is_hexdigit c ≡ true) × (l ≡ to_lower c)
lowered_hexdigit c l (inl (a, (b, e))) = (ground arith, ground arith)
lowered_hexdigit c l (inr (inl (a, (b, e)))) = (ground arith, ground arith)
lowered_hexdigit c l (inr (inr (a, (b, e)))) = (ground arith, ground arith)

Lowered-hex : (h l : Text) → Lowered h l → (find_not is_hexdigit h ≡ none) × (l ≡ map to_lower h)
Lowered-hex [] [] t = (refl, refl)
Lowered-hex [] (l ∷ ls) t = absurd t
Lowered-hex (c ∷ h) [] t = absurd t
Lowered-hex (c ∷ h) (l ∷ ls) (d, t) =
    let (x, e) = lowered_hexdigit c l d in
    let (y, f) = Lowered-hex h ls t in (ground arith, ground arith)

-- Hex digits are one byte each.
str_len-hex : (h : Text) → find_not is_hexdigit h ≡ none → str_len h ≡ length h
unfolding str_len len_utf8
str_len-hex [] e = refl
str_len-hex (c ∷ h) e = ground (arith, str_len-hex h)

validate_hex-Digits :
    (a : DigestAlgo) (h : Text)
    → validate_hex a h ≡ none
    → Digits a (prefix a ++ b':' ∷ h) h × (find_not is_hexdigit h ≡ none)
unfolding validate_hex hex_len
validate_hex-Digits sha256 h e =
    let x : find_not is_hexdigit h ≡ none = ground arith in
    ((ground (arith, str_len-hex h), refl), x)
validate_hex-Digits sha512 h e =
    let x : find_not is_hexdigit h ≡ none = ground arith in
    ((ground (arith, str_len-hex h), refl), x)

Digits-new :
    (a : DigestAlgo) (s h l : Text)
    → Digits a s h
    → Lowered h l
    → parse s ≡ ok (record { algo = a; hex = l })
unfolding new validate_hex hex_len to_string
Digits-new sha256 s h l (n, e) t =
    let (x, f) = Lowered-hex h l t in
    ap parse e ∙ parse-to_string_at sha256 h ∙ ground (arith, str_len-hex h)
Digits-new sha512 s h l (n, e) t =
    let (x, f) = Lowered-hex h l t in
    ap parse e ∙ parse-to_string_at sha512 h ∙ ground (arith, str_len-hex h)

-- A text is read as a digest if and only if it is `sha256:` and 64 hex digits, or `sha512:` and 128
-- hex digits, and the digest is of that hash and has those digits, the upper-case ones in lower
-- case.
pub parse_iff : (s : Text) (d : Digest) → (parse s ≡ ok d) ↔ IsDigestText s d
parse_iff s d = (
  (λ e.
      let (a, (h, (es, en))) = parse-Parts s d e in
      let (valid, same) = new_parts a h d en in
      let (digits, hex) = validate_hex-Digits a h valid in
      subst (λ t. IsDigestText t d) (sym es)
        (subst (IsDigestText (prefix a ++ b':' ∷ h)) (sym same) (h, (digits, hex-Lowered h hex)))),
  (λ p. Digits-new d.algo s p.0 d.hex p.1.0 p.1.1),
)
