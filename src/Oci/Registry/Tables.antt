-- ===== src/Oci/Registry/Tables.antt =====
-- Maps of maps: `entry(..).or_default()`, `get_mut`, and putting back what a key had.
use ferro_protocols.Prelude.{
  ◌≡◌, ap, ◌∙◌, false, List, [], ◌∷◌, Option, none, some, arith, Bool-cases, Option-cases, inl, inr,
}
use ferro_protocols.Prelude.Maps.{
  lookup, insert, remove, lookup-insert_same, lookup-insert_other, lookup-remove_same,
  lookup-remove_other, remove-insert,
}
use ferro_protocols.Prelude.Texts.{Text, text_eq, text_eq_iff}

module _ {V : Type 0} where
  abbrev pub or_nil : Option (List V) → List V
  or_nil none = []
  or_nil (some xs) = xs

  -- The list of a key, empty where there is none.
  abbrev pub at : Text → List (Text × List V) → List V
  at name m = or_nil (lookup text_eq name m)

  -- A change of the entry, which is made where there is none.
  abbrev pub entry : Text → (List V → List V) → List (Text × List V) → List (Text × List V)
  entry name f m = insert text_eq name (f (at name m)) m

  abbrev pub change_some :
      Text → (List V → List V) → List (Text × List V) → Option (List V) → List (Text × List V)
  change_some name f m none = m
  change_some name f m (some xs) = insert text_eq name (f xs) m

  -- A change of the entry, if there is one.
  abbrev pub change : Text → (List V → List V) → List (Text × List V) → List (Text × List V)
  change name f m = change_some name f m (lookup text_eq name m)

  abbrev pub drop_nil : Text → List (Text × List V) → Option (List V) → List (Text × List V)
  drop_nil name m (some []) = remove text_eq name m
  drop_nil name m (some (x ∷ xs)) = m
  drop_nil name m none = m

  -- The entry is removed if it is empty.
  abbrev pub prune : Text → List (Text × List V) → List (Text × List V)
  prune name m = drop_nil name m (lookup text_eq name m)

  pub at-entry :
      (name : Text) (f : List V → List V) (m : List (Text × List V))
      → at name (entry name f m) ≡ f (at name m)
  at-entry name f m = ap or_nil (lookup-insert_same text_eq text_eq_iff name _ m)

  pub at-entry_other :
      (name n : Text) (f : List V → List V) (m : List (Text × List V))
      → text_eq n name ≡ false
      → at n (entry name f m) ≡ at n m
  at-entry_other name n f m h = ap or_nil (lookup-insert_other text_eq text_eq_iff name n _ m h)

  pub at-change_other :
      (name n : Text) (f : List V → List V) (m : List (Text × List V))
      → text_eq n name ≡ false
      → at n (change name f m) ≡ at n m
  at-change_other name n f m h = elim (Option-cases (lookup text_eq name m)) [
    | inl e ↦ ground (arith, e)
    | inr (xs, e) ↦ ground (arith, e, lookup-insert_other text_eq text_eq_iff name n (f xs) m h)
  ]

  -- Where the change leaves nothing as it is, an absent entry counts as empty.
  pub at-change :
      (name : Text) (f : List V → List V) (m : List (Text × List V))
      → f [] ≡ []
      → at name (change name f m) ≡ f (at name m)
  at-change name f m h = elim (Option-cases (lookup text_eq name m)) [
    | inl e ↦ ground (arith, e)
    | inr (xs, e) ↦ ground (arith, e, lookup-insert_same text_eq text_eq_iff name (f xs) m)
  ]

  pub at-prune : (name n : Text) (m : List (Text × List V)) → at n (prune name m) ≡ at n m
  at-prune name n m = elim (Option-cases (lookup text_eq name m)) [
    | inl e ↦ ground (arith, e)
    | inr ([], e) ↦ elim (Bool-cases (text_eq n name)) [
      | inl q ↦ ground (arith, e, text_eq_iff n name, lookup-remove_same text_eq text_eq_iff name m)
      | inr q ↦ ground (arith, e, lookup-remove_other text_eq text_eq_iff name n m q)
    ]
    | inr (x ∷ xs, e) ↦ ground (arith, e)
  ]

-- What a key had, put back.
module _ {V : Type 0} where
  abbrev pub put_back : Text → Option V → List (Text × V) → List (Text × V)
  put_back k none m = remove text_eq k m
  put_back k (some v) m = insert text_eq k v m

  insert-twice :
      (k : Text) (v w : V) (m : List (Text × V))
      → lookup text_eq k m ≡ some v
      → insert text_eq k v (insert text_eq k w m) ≡ m
  unfolding lookup insert
  insert-twice k v w [] h = absurd (ground arith)
  insert-twice k v w ((j, x) ∷ m) h = ground (arith, insert-twice k v w m)

  pub put_back-insert :
      (k : Text) (w : V) (m : List (Text × V))
      → put_back k (lookup text_eq k m) (insert text_eq k w m) ≡ m
  put_back-insert k w m = elim (Option-cases (lookup text_eq k m)) [
    | inl e ↦
        ap (λ o. put_back k o (insert text_eq k w m)) e ∙ remove-insert text_eq text_eq_iff k w m e
    | inr (v, e) ↦ ap (λ o. put_back k o (insert text_eq k w m)) e ∙ insert-twice k v w m e
  ]
