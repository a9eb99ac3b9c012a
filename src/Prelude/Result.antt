-- ===== src/Prelude/Result.antt =====
-- Rust's `Result`, with the bind that the `?` operator makes.
use mathlib.Core.Path.{◌≡◌, refl}

pub data Result {ℓ} (E A : Type ℓ) : Type ℓ where
  ok : A → Result E A
  err : E → Result E A

infixl 5 ◌>>=◌ ◌>>◌
abbrev pub ◌>>=◌ {ℓ} : {E A B : Type ℓ} → Result E A → (A → Result E B) → Result E B
ok a >>= f = f a
err e >>= f = err e

abbrev pub ◌>>◌ {ℓ} : {E B : Type ℓ} → Result E (Unit {ℓ}) → Result E B → Result E B
m >> k = m >>= λ _. k

-- What a chain that returns a value went through.
pub bind_parts {ℓ} :
    {E A B : Type ℓ} (m : Result E A) (f : A → Result E B) (b : B)
    → m >>= f ≡ ok b
    → (a : A) × ((m ≡ ok a) × (f a ≡ ok b))
bind_parts (ok a) f b h = (a, (refl, h))
bind_parts (err e) f b h = absurd (elim_err h)
  where
    elim_err : ◌≡◌ {A = Result _ _} (err e) (ok b) → ⊥
    elim_err q = cc
