-- ===== src/Base/Results.antt =====
-- The (value, error) results of Go functions as sums, and their chains.
use mathlib.Core.Path.{◌≡◌, refl}
use mathlib.Core.Logic.{◌⊎◌, inl, inr}

infixl 5 ◌>>=◌
-- An error ends the chain.
unfoldable pub ◌>>=◌ {ℓ κ υ} : {E : Type ℓ} {A : Type κ} {B : Type υ} → E ⊎ A → (A → E ⊎ B) → E ⊎ B
inl e >>= f = inl e
inr a >>= f = f a

-- A chain that succeeds passes through a value.
pub bind-inr {ℓ κ υ} :
    {E : Type ℓ} {A : Type κ} {B : Type υ} (m : E ⊎ A) (f : A → E ⊎ B) (b : B)
    → (m >>= f) ≡ inr b
    → (a : A) × ((m ≡ inr a) × (f a ≡ inr b))
unfolding ◌>>=◌
bind-inr (inl e) f b h = absurd (by_error h)
  where
    by_error : inl e ≡ inr b → ⊥
    by_error h = cc
bind-inr (inr a) f b h = (a, (refl, h))

pub inr_injective {ℓ κ} :
    {E : Type ℓ} {A : Type κ} (m : E ⊎ A) (a b : A) → m ≡ inr a → m ≡ inr b → a ≡ b
inr_injective m a b e f = cc
