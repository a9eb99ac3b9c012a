-- ===== src/Oci/Registry/Lists.antt =====
-- registry.rs: the tags of a repository and the repositories, in order and in pages.
pub mod Order
use ferro_protocols.Prelude.{
  ℕ, Bool, true, false, List, [], ◌∷◌, Option, none, some, map, take, ltb, ◌==◌, ◌||◌, ◌&&◌,
  if◌then◌else◌,
}
use ferro_protocols.Prelude.Texts.{Text}
use ferro_protocols.Oci.Registry.{InMemoryState}
use ferro_protocols.Oci.Registry.Tables.{at}

-- `<` of `str`: by code points, which is the order of the UTF-8 bytes.
unfoldable pub text_lt : Text → Text → Bool
text_lt [] [] = false
text_lt [] (d ∷ t) = true
text_lt (c ∷ s) [] = false
text_lt (c ∷ s) (d ∷ t) = ltb c d || ((c == d) && text_lt s t)

unfoldable pub insert_sorted : Text → List Text → List Text
insert_sorted x [] = x ∷ []
insert_sorted x (y ∷ ys) =
    let rest = insert_sorted x ys in if text_lt y x then y ∷ rest else x ∷ y ∷ ys

-- `sort`
unfoldable pub sort : List Text → List Text
sort [] = []
sort (x ∷ xs) = insert_sorted x (sort xs)

-- `retain(|t| t > cursor)`
unfoldable pub retain_after : Text → List Text → List Text
retain_after cursor [] = []
retain_after cursor (x ∷ xs) =
    let rest = retain_after cursor xs in if text_lt cursor x then x ∷ rest else rest

abbrev pub after_last : Option Text → List Text → List Text
after_last none xs = xs
after_last (some cursor) xs = retain_after cursor xs

-- `truncate`
abbrev pub truncate : Option ℕ → List Text → List Text
truncate none xs = xs
truncate (some limit) xs = take limit xs

abbrev pub keys : {V : Type 0} → List (Text × V) → List Text
keys [] = []
keys ((k, v) ∷ m) = k ∷ keys m

unfoldable pub page : Option Text → Option ℕ → List Text → List Text
page last n names = truncate n (after_last last (sort names))

-- A repository without tags answers as one that is not there.
unfoldable pub list_tags : Text → Option Text → Option ℕ → InMemoryState → List Text
list_tags name last n σ = page last n (keys (at name σ.tags))

unfoldable pub list_repositories : Option Text → Option ℕ → InMemoryState → List Text
list_repositories last n σ = page last n (keys σ.manifests)
