-- ===== src/Oci/Range.antt =====
-- crates/ferro-oci-server/src/handlers/manifest.rs: the header `Range` of a read of a manifest.
pub mod Laws
use ferro_protocols.Prelude.{
  ℕ, ◌+◌, ◌-◌, Bool, true, false, Bytes, List, [], ◌∷◌, Option, none, some, length, take, drop, min,
  ltb, ◌==◌, ◌||◌, if◌then◌else◌,
}
use ferro_protocols.Prelude.Texts.{Text, codes}
use ferro_protocols.Prelude.Words.{u64_max}
use ferro_protocols.Prelude.Cuts.{split_once, strip_prefix, parse_u64}

pub data ByteRangeOutcome : Type 0 where
  -- start and end
  range : ℕ → ℕ → ByteRangeOutcome
  unsatisfiable ignore : ByteRangeOutcome

abbrev pub contains : ℕ → Text → Bool
contains c [] = false
contains c (x ∷ s) = (x == c) || contains c s

abbrev pub in_order : ℕ → ℕ → ByteRangeOutcome
in_order start end = if ltb end start then unsatisfiable else range start end

abbrev pub up_to : ℕ → Option ℕ → ByteRangeOutcome
up_to start none = ignore
up_to start (some end) = in_order start end

abbrev pub with_end : ℕ → Text → ByteRangeOutcome
with_end start [] = in_order start u64_max
with_end start (c ∷ rhs) = up_to start (parse_u64 (c ∷ rhs))

abbrev pub with_start : Option ℕ → Text → ByteRangeOutcome
with_start none rhs = ignore
with_start (some start) rhs = with_end start rhs

abbrev pub of_sides : Option (Text × Text) → ByteRangeOutcome
of_sides none = ignore
of_sides (some ([], rhs)) = ignore
of_sides (some (c ∷ lhs, rhs)) = with_start (parse_u64 (c ∷ lhs)) rhs

abbrev pub of_spec : Option Text → ByteRangeOutcome
of_spec none = ignore
of_spec (some spec) = if contains b',' spec then ignore else of_sides (split_once b'-' spec)

unfoldable pub parse_byte_range : Text → ByteRangeOutcome
parse_byte_range raw = of_spec (strip_prefix (codes "bytes=") raw)

-- The answers 200, 206 with the range of the header `Content-Range`, and 416, over so many bytes.
pub data Served : Type 0 where
  full : Bytes → Served
  partial : ℕ → ℕ → ℕ → Bytes → Served
  refused : ℕ → Served

abbrev pub serve_range : ℕ → ℕ → Bytes → Served
serve_range start end body =
    let last = length body - 1 in
    if (length body == 0) || ltb last start
    then refused (length body)
    else partial start (min end last) (length body)
        (take ((min end last - start) + 1) (drop start body))

abbrev pub serve_outcome : Bytes → ByteRangeOutcome → Served
serve_outcome body ignore = full body
serve_outcome body unsatisfiable = refused (length body)
serve_outcome body (range start end) = serve_range start end body

-- The header, if there is one that is text.
unfoldable pub range_or_full_response : Option Text → Bytes → Served
range_or_full_response none body = full body
range_or_full_response (some raw) body = serve_outcome body (parse_byte_range raw)
