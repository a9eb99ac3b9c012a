-- ===== src/Prelude/Maps.antt =====
-- A map as a list of keys and values, in which a key stands once: `HashMap` and `BTreeMap` are
-- read through `get`, so the order of the list is not seen.
use mathlib.Core.Path.{◌≡◌, refl, sym, ap, ◌∙◌}
use mathlib.Core.Logic.{◌↔◌, inl, inr}
use mathlib.Core.Bool.{Bool, true, false, ◌||◌}
use mathlib.Core.List.{List, [], ◌∷◌}
use mathlib.Core.Option.{Option, none, some}
use native.Mathlib.Omega.{arith}
use ferro_protocols.Prelude.Tests.{if◌then◌else◌, Bool-cases}

module _ {ℓ κ} {K : Type ℓ} {V : Type κ} where
  unfoldable pub lookup : (K → K → Bool) → K → List (K × V) → Option V
  lookup eq k [] = none
  lookup eq k ((j, v) ∷ m) = if eq k j then some v else lookup eq k m

  unfoldable pub insert : (K → K → Bool) → K → V → List (K × V) → List (K × V)
  insert eq k w [] = (k, w) ∷ []
  insert eq k w ((j, v) ∷ m) = if eq k j then (j, w) ∷ m else (j, v) ∷ insert eq k w m

  unfoldable pub remove : (K → K → Bool) → K → List (K × V) → List (K × V)
  remove eq k [] = []
  remove eq k ((j, v) ∷ m) = if eq k j then remove eq k m else (j, v) ∷ remove eq k m

  -- A value of some key passes the test.
  unfoldable pub any_value : (V → Bool) → List (K × V) → Bool
  any_value p [] = false
  any_value p ((_, v) ∷ m) = p v || any_value p m

module _ {ℓ κ} {K : Type ℓ} {V : Type κ} (eq : K → K → Bool)
    (eq_iff : (a b : K) → (eq a b ≡ true) ↔ (a ≡ b)) where
  pub lookup-insert_same :
      (k : K) (v : V) (m : List (K × V)) → lookup eq k (insert eq k v m) ≡ some v
  unfolding lookup insert
  lookup-insert_same k v [] = ground (arith, (eq_iff k k).1 refl)
  lookup-insert_same k v ((j, w) ∷ m) = ground (arith, lookup-insert_same k v m)

  pub lookup-insert_other :
      (k i : K) (v : V) (m : List (K × V))
      → eq i k ≡ false
      → lookup eq i (insert eq k v m) ≡ lookup eq i m
  unfolding lookup insert
  lookup-insert_other k i v [] h = ground arith
  lookup-insert_other k i v ((j, w) ∷ m) h =
      ground (arith, lookup-insert_other k i v m h, eq_iff k j)

  pub lookup-remove_same : (k : K) (m : List (K × V)) → lookup eq k (remove eq k m) ≡ none
  unfolding lookup remove
  lookup-remove_same k [] = refl
  lookup-remove_same k ((j, w) ∷ m) = ground (arith, lookup-remove_same k m)

  pub lookup-remove_other :
      (k i : K) (m : List (K × V)) → eq i k ≡ false → lookup eq i (remove eq k m) ≡ lookup eq i m
  unfolding lookup remove
  lookup-remove_other k i [] h = refl
  lookup-remove_other k i ((j, w) ∷ m) h =
      ground (arith, lookup-remove_other k i m h, eq_iff k j, eq_iff i j, eq_iff i k)

  -- A value found passes the test of `any_value`.
  pub any_value-lookup :
      (p : V → Bool) (k : K) (v : V) (m : List (K × V))
      → lookup eq k m ≡ some v
      → p v ≡ true
      → any_value p m ≡ true
  unfolding lookup any_value
  any_value-lookup p k v [] h t = cc
  any_value-lookup p k v ((j, w) ∷ m) h t = ground (arith, any_value-lookup p k v m)

  -- A value put back where another had replaced it.
  pub lookup-restore :
      (k i : K) (v w : V) (m : List (K × V))
      → lookup eq k m ≡ some v
      → lookup eq i (insert eq k v (insert eq k w m)) ≡ lookup eq i m
  lookup-restore k i v w m h = elim (Bool-cases (eq i k)) [
    | inl e ↦
        let same : i ≡ k = (eq_iff i k).0 e in
        ap (λ j. lookup eq j (insert eq k v (insert eq k w m))) same
        ∙ lookup-insert_same k v (insert eq k w m)
        ∙ sym h
        ∙ ap (λ j. lookup eq j m) (sym same)
    | inr e ↦ lookup-insert_other k i v (insert eq k w m) e ∙ lookup-insert_other k i w m e
  ]

  remove_absent : (k : K) (m : List (K × V)) → lookup eq k m ≡ none → remove eq k m ≡ m
  unfolding lookup remove
  remove_absent k [] h = refl
  remove_absent k ((j, v) ∷ m) h = ground (arith, remove_absent k m)

  -- A key that was not there, put in and taken out again.
  pub remove-insert :
      (k : K) (v : V) (m : List (K × V)) → lookup eq k m ≡ none → remove eq k (insert eq k v m) ≡ m
  unfolding lookup insert remove
  remove-insert k v [] h = ground (arith, (eq_iff k k).1 refl)
  remove-insert k v ((j, w) ∷ m) h = ground (arith, remove-insert k v m)

  pub lookup-remove_absent :
      (k i : K) (w : V) (m : List (K × V))
      → lookup eq k m ≡ none
      → lookup eq i (remove eq k (insert eq k w m)) ≡ lookup eq i m
  lookup-remove_absent k i w m h = ap (lookup eq i) (remove-insert k w m h)
