-- ===== src/Oci/Listing.antt =====
-- crates/ferro-oci-server/src/handlers/tags.rs and catalog.rs: listings with a link to the next page.
pub mod Pages
use ferro_protocols.Prelude.{
  ℕ, zero, suc, Bool, true, false, List, [], ◌∷◌, ◌++◌, Option, none, some, length, ◌==◌,
  if◌then◌else◌,
}
use ferro_protocols.Prelude.Result.{Result, ok, err}
use ferro_protocols.Prelude.Texts.{Text}
use ferro_protocols.Prelude.Cuts.{parse_u64}
use ferro_protocols.Oci.Error.{OciError}
use ferro_protocols.Oci.Name.{validate_name}
use ferro_protocols.Oci.Registry.{InMemoryState}
use ferro_protocols.Oci.Registry.Lists

-- The names of a page, and the cursor that its header `Link` gives, if it has one.
pub record Listing : Type 0 where
  pub names : List Text
  pub link : Option Text

abbrev pub last_of : List Text → Option Text
last_of [] = none
last_of (x ∷ []) = some x
last_of (x ∷ y ∷ xs) = last_of (y ∷ xs)

unfoldable pub next_cursor : Option ℕ → List Text → Option Text
next_cursor none names = none
next_cursor (some limit) names = if length names == limit then last_of names else none

abbrev pub number_of : Option Text → Option ℕ
number_of none = none
number_of (some s) = parse_u64 s

abbrev pub listing : Option Text → List Text → Listing
listing n names = record { names = names; link = next_cursor (number_of n) names }

abbrev pub unless_refused : Option OciError → Listing → Result OciError Listing
unless_refused none l = ok l
unless_refused (some e) l = err e

unfoldable pub list_tags :
    Text → Option Text → Option Text → InMemoryState → Result OciError Listing
list_tags name n last σ =
    unless_refused (validate_name name) (listing n (Lists.list_tags name last (number_of n) σ))

unfoldable pub list_catalog : Option Text → Option Text → InMemoryState → Listing
list_catalog n last σ = listing n (Lists.list_repositories last (number_of n) σ)
