-- ===== src/Oci/Range/Laws.antt =====
-- A range that is served is the part of the body that it says.
use mathlib.Core.Path.{subst}
use ferro_protocols.Prelude.{
  ℕ, ◌+◌, ◌-◌, ◌≡◌, ◌≤◌, ◌<◌, refl, sym, ap, ◌∙◌, Bool, true, false, Bytes, [], ◌∷◌, ◌++◌, Option,
  none, some, length, length-take, length-drop, take, drop, take-append-drop, min, ltb, ◌==◌, ◌||◌,
  if◌then◌else◌, arith, Bool-cases, inl, inr,
}
use ferro_protocols.Prelude.Texts.{Text, codes}
use ferro_protocols.Prelude.Words.{u64_max}
use ferro_protocols.Prelude.Cuts.{split_once, strip_prefix, parse_u64}
use ferro_protocols.Oci.Range.{
  ByteRangeOutcome, range, unsatisfiable, ignore, contains, in_order, up_to, with_start, of_sides,
  of_spec, parse_byte_range, Served, full, partial, refused, serve_range, serve_outcome,
  range_or_full_response,
}

-- The bytes stand in the body from a place on.
abbrev pub StandsAt : ℕ → Bytes → Bytes → Type 0
StandsAt start part body =
    (before : Bytes) × (after : Bytes) × ((body ≡ before ++ (part ++ after))
      × (length before ≡ start))

-- What an answer says is so: the whole body; or a part of it from the start to the end of the range,
-- both of them places of the body; or a range that is refused, by the length of the body.
abbrev pub IsHonest : Bytes → Served → Type 0
IsHonest body (full b) = b ≡ body
IsHonest body (partial start end total b) =
    (start ≤ end)
    × ((end < total)
        × ((total ≡ length body) × ((length b ≡ end - start + 1) × StandsAt start b body)))
IsHonest body (refused total) = total ≡ length body

slice_lem :
    (start end : ℕ) (body : Bytes)
    → start ≤ end
    → end < length body
    → IsHonest body (partial start end (length body) (take (end - start + 1) (drop start body)))
slice_lem start end body h k =
    let rest : Bytes = drop start body in
    (
      h,
      (
        k,
        (
          refl,
          (
            ground (arith, length-take (end - start + 1) rest, length-drop start body),
            (
              take start body,
              drop (end - start + 1) rest,
              (
                sym (take-append-drop start body)
                    ∙ ap (λ r. take start body ++ r)
                        (sym (take-append-drop (end - start + 1) rest)),
                ground (arith, length-take start body),
              ),
            ),
          ),
        ),
      ),
    )

serve_range-IsHonest :
    (start end : ℕ) (body : Bytes) → start ≤ end → IsHonest body (serve_range start end body)
serve_range-IsHonest start end body h =
    elim (Bool-cases ((length body == 0) || ltb (length body - 1) start)) [
      | inl e ↦
          let q : serve_range start end body ≡ refused (length body) = ground (arith, e) in
          subst (IsHonest body) (sym q) refl
      | inr e ↦
          let last : ℕ = min end (length body - 1) in
          let q : serve_range start end body
              ≡ partial start last (length body) (take (last - start + 1) (drop start body)) =
            ground (arith, e) in
          subst (IsHonest body) (sym q)
            (slice_lem start last body (ground (arith, e, h)) (ground (arith, e)))
    ]

-- A range starts at most at its end.
abbrev IsOrdered : ByteRangeOutcome → Type 0
IsOrdered (range start end) = start ≤ end
IsOrdered unsatisfiable = Unit
IsOrdered ignore = Unit

in_order-IsOrdered : (start end : ℕ) → IsOrdered (in_order start end)
in_order-IsOrdered start end = elim (Bool-cases (ltb end start)) [
  | inl e ↦
      let q : in_order start end ≡ unsatisfiable = ground (arith, e) in subst IsOrdered (sym q) tt
  | inr e ↦
      let q : in_order start end ≡ range start end = ground (arith, e) in
      subst IsOrdered (sym q) (ground (arith, e))
]

up_to-IsOrdered : (start : ℕ) (o : Option ℕ) → IsOrdered (up_to start o)
up_to-IsOrdered start none = tt
up_to-IsOrdered start (some end) = in_order-IsOrdered start end

with_start-IsOrdered : (o : Option ℕ) (rhs : Text) → IsOrdered (with_start o rhs)
with_start-IsOrdered none rhs = tt
with_start-IsOrdered (some start) [] = in_order-IsOrdered start u64_max
with_start-IsOrdered (some start) (c ∷ rhs) = up_to-IsOrdered start (parse_u64 (c ∷ rhs))

of_sides-IsOrdered : (o : Option (Text × Text)) → IsOrdered (of_sides o)
of_sides-IsOrdered none = tt
of_sides-IsOrdered (some ([], rhs)) = tt
of_sides-IsOrdered (some (c ∷ lhs, rhs)) = with_start-IsOrdered (parse_u64 (c ∷ lhs)) rhs

of_spec-IsOrdered : (o : Option Text) → IsOrdered (of_spec o)
of_spec-IsOrdered none = tt
of_spec-IsOrdered (some spec) = either (contains b',' spec)
  where
    either : (b : Bool) → IsOrdered (if b then ignore else of_sides (split_once b'-' spec))
    either true = tt
    either false = of_sides-IsOrdered (split_once b'-' spec)

serve_outcome-IsHonest :
    (body : Bytes) (o : ByteRangeOutcome) → IsOrdered o → IsHonest body (serve_outcome body o)
serve_outcome-IsHonest body (range start end) h = serve_range-IsHonest start end body h
serve_outcome-IsHonest body unsatisfiable h = refl
serve_outcome-IsHonest body ignore h = refl

-- Whatever the header `Range` of a read of a manifest is: an answer with the full body has all of
-- it; an answer with a part has exactly the bytes of the range that it names, from a start that is
-- at most its end to an end inside the body, and names the length of the body; and a refusal names
-- that length.
pub range_or_full_response-IsHonest :
    (header : Option Text) (body : Bytes) → IsHonest body (range_or_full_response header body)
unfolding range_or_full_response parse_byte_range
range_or_full_response-IsHonest none body = refl
range_or_full_response-IsHonest (some raw) body =
    serve_outcome-IsHonest body _ (of_spec-IsOrdered (strip_prefix (codes "bytes=") raw))
