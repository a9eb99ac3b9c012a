-- ===== src/Oci/Listing/Pages.antt =====
-- What a listing shows, and a client that follows the links.
use mathlib.Core.Path.{subst, fun_ext}
use ferro_protocols.Prelude.{
  ℕ, zero, suc, ◌≡◌, ◌<◌, refl, sym, ap, ◌∙◌, Bool, true, false, List, [], ◌∷◌, ◌++◌, append_assoc,
  take, drop, length, length-take, length-drop, take-append-drop, take-all, Option, none, some,
  ◌==◌, ◌&&◌, arith, Bool-cases, inl, inr,
}
use ferro_protocols.Prelude.Result.{Result, ok, err}
use ferro_protocols.Prelude.Maps.{lookup}
use ferro_protocols.Prelude.Texts.{Text, text_eq}
use ferro_protocols.Prelude.Cuts.{parse_u64}
use ferro_protocols.Oci.Error.{OciError}
use ferro_protocols.Oci.Name.{validate_name}
use ferro_protocols.Oci.Registry.{InMemoryState}
use ferro_protocols.Oci.Registry.Tables.{at}
use ferro_protocols.Oci.Registry.Lists.{
  text_lt, insert_sorted, sort, retain_after, after_last, truncate, keys, page,
}
use ferro_protocols.Oci.Registry.Lists
use ferro_protocols.Oci.Registry.Lists.Order.{
  Strict, Distinct, Strict-sort, retain_after-Strict, length-sort, has, has-sort, has-retain_after,
  Strict-retain_after,
}
use ferro_protocols.Oci.Listing.{Listing, last_of, next_cursor, list_tags}

-- A client asks for pages of the same size, and follows the link of each: the names of all of them,
-- if it came to a page without a link.
abbrev pub and_then : List Text → Option (List Text) → Option (List Text)
and_then xs none = none
and_then xs (some ys) = some (xs ++ ys)

abbrev pub names_of : Result OciError Listing → List Text
names_of (ok l) = l.names
names_of (err e) = []

abbrev pub link_of : Result OciError Listing → Option Text
link_of (ok l) = l.link
link_of (err e) = none

unfoldable pub follow :
    (Option Text → Result OciError Listing) → ℕ → Option Text → Option (List Text)
follow ask zero last = none
follow ask (suc fuel) last = elim (link_of (ask last)) [
  | none ↦ some (names_of (ask last))
  | some cursor ↦ and_then (names_of (ask last)) (follow ask fuel (some cursor))
]

last_parts :
    (xs : List Text) (c : Text) → last_of xs ≡ some c → (ys : List Text) × (xs ≡ ys ++ c ∷ [])
last_parts [] c h = absurd (ground arith)
last_parts (x ∷ []) c h = ([], ground arith)
last_parts (x ∷ y ∷ xs) c h = let (ys, e) = last_parts (y ∷ xs) c h in (x ∷ ys, ap (λ t. x ∷ t) e)

last_some : (x : Text) (xs : List Text) → (c : Text) × (last_of (x ∷ xs) ≡ some c)
last_some x [] = (x, refl)
last_some x (y ∷ xs) = last_some y xs

last_of-some : (xs : List Text) → 0 < length xs → (c : Text) × (last_of xs ≡ some c)
last_of-some [] h = absurd (omega (arith, h))
last_of-some (x ∷ xs) h = last_some x xs

module _ (all : List Text) (strict : Strict all) (limit : ℕ) (positive : 0 < limit) where
  -- The page after a cursor, and its link.
  abbrev ask : Option Text → Result OciError Listing
  ask last =
      let p = take limit (after_last last all) in
      ok (record { names = p; link = next_cursor (some limit) p })

  -- The cursor is where this rest starts.
  abbrev IsAt : Option Text → List Text → Type 0
  IsAt last rest = (front : List Text) × ((all ≡ front ++ rest) × (after_last last all ≡ rest))

  moved :
      (last : Option Text) (rest : List Text) (c : Text)
      → IsAt last rest
      → last_of (take limit rest) ≡ some c
      → IsAt (some c) (drop limit rest)
  moved last rest c (front, (e, r)) h =
      let (ys, q) = last_parts (take limit rest) c h in
      let whole : all ≡ (front ++ ys) ++ c ∷ drop limit rest =
        e
        ∙ ap (λ t. front ++ t)
            (sym (take-append-drop limit rest) ∙ ap (λ t. t ++ drop limit rest) q)
        ∙ ap (λ t. front ++ t) (append_assoc ys (c ∷ []) (drop limit rest))
        ∙ sym (append_assoc front ys (c ∷ drop limit rest)) in
      (
        front ++ ys ++ c ∷ [],
        (
          whole ∙ ap (λ t. t) (sym (append_assoc (front ++ ys) (c ∷ []) (drop limit rest))),
          ap (retain_after c) whole
              ∙ retain_after-Strict (front ++ ys) (drop limit rest) c (subst Strict whole strict),
        ),
      )

  follow_lem :
      (fuel : ℕ) (last : Option Text) (rest : List Text)
      → length rest < fuel
      → IsAt last rest
      → follow ask fuel last ≡ some rest
  unfolding follow next_cursor
  follow_lem zero last rest l i = absurd (omega (arith, l))
  follow_lem (suc fuel) last rest l i = elim (Bool-cases (length (take limit rest) == limit)) [
    | inr e ↦
        let whole : take limit rest ≡ rest =
          take-all rest limit (ground (arith, e, length-take limit rest)) in
        ground (arith, i.1.1, whole, e)
    | inl e ↦
        let (c, h) = last_of-some (take limit rest) (ground (arith, e, positive)) in
        let more =
          follow_lem fuel (some c) (drop limit rest)
            (ground (arith, l, length-drop limit rest, length-take limit rest, e, positive))
            (moved last rest c i h) in
        ground (arith, i.1.1, e, h, more, take-append-drop limit rest)
  ]

-- A repository with tags whose names are distinct, as those of a map are, and a page size that is
-- a positive number: a client that follows the links from the first page gets every tag of the
-- repository once, in order, and comes to the last page after at most as many further pages as
-- there are tags.
pub follow-list_tags :
    (name n : Text) (limit : ℕ) (σ : InMemoryState)
    → validate_name name ≡ none
    → parse_u64 n ≡ some limit
    → 0 < limit
    → Distinct (keys (at name σ.tags))
    → follow (λ last. list_tags name (some n) last σ) (suc (length (keys (at name σ.tags)))) none
      ≡ some (sort (keys (at name σ.tags)))
unfolding list_tags Lists.list_tags page
follow-list_tags name n limit σ valid e positive distinct =
    let tags : List Text = keys (at name σ.tags) in
    let all : List Text = sort tags in
    let strict : Strict all = Strict-sort tags distinct in
    ap (λ a. follow a (suc (length tags)) none) (fun_ext (λ last. ground (arith, valid, e)))
    ∙ follow_lem all strict limit positive (suc (length tags)) none all
        (omega (arith, length-sort tags)) ([], (refl, refl))

abbrev pub is_after : Option Text → Text → Bool
is_after none t = true
is_after (some cursor) t = text_lt cursor t

abbrev pub is_key : {V : Type 0} → Option V → Bool
is_key none = false
is_key (some v) = true

has-keys :
    {V : Type 0} (t : Text) (m : List (Text × V)) → has t (keys m) ≡ is_key (lookup text_eq t m)
unfolding has lookup
has-keys t [] = refl
has-keys t ((k, v) ∷ m) = ground (arith, has-keys t m)

-- A repository with tags whose names are distinct, as those of a map are: what is listed without
-- a limit is strictly in order, and a name is in it if and only if it is a tag of the repository
-- that comes after the cursor, or any tag where there is no cursor.
pub list_tags_lem :
    (name : Text) (last : Option Text) (σ : InMemoryState)
    → Distinct (keys (at name σ.tags))
    → Strict (Lists.list_tags name last none σ)
      × ((t : Text)
          → has t (Lists.list_tags name last none σ)
            ≡ (is_after last t && is_key (lookup text_eq t (at name σ.tags))))
unfolding Lists.list_tags page
list_tags_lem name none σ distinct = (
  Strict-sort (keys (at name σ.tags)) distinct,
  (λ t. has-sort t (keys (at name σ.tags)) ∙ has-keys t (at name σ.tags)),
)
list_tags_lem name (some cursor) σ distinct =
    let tags : List Text = keys (at name σ.tags) in
    (
      Strict-retain_after cursor (sort tags) (Strict-sort tags distinct),
      (λ t. ground (
        arith,
        has-retain_after t cursor (sort tags),
        has-sort t tags,
        has-keys t (at name σ.tags),
      )),
    )
