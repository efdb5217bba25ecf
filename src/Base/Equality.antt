-- ===== src/Base/Equality.antt =====
-- Boolean equality as an instance argument.
use Prim.Native.Nat.{ℕ}
use mathlib.Core.Path.{◌≡◌, refl}
use mathlib.Core.Logic.{◌↔◌}
use mathlib.Core.Bool.{Bool, true, false, ◌&&◌}
use mathlib.Core.List.{List, [], ◌∷◌}
use native.Mathlib.Omega.{arith}
use yabber.Base.Tests.{eqb, eqb_iff}

-- A test that decides whether two values are the same, as the == of Go does.
pub record Eq {ℓ} (A : Type ℓ) : Type ℓ where
  pub test : A → A → Bool
  pub test_iff : (x y : A) → (test x y ≡ true) ↔ (x ≡ y)

abbrev pub ◌==◌ {ℓ} : {A : Type ℓ} ⦃same : Eq A⦄ → A → A → Bool
◌==◌ ⦃same⦄ x y = same.test x y

infix 50 ◌==◌
pub ==_iff {ℓ} : {A : Type ℓ} ⦃e : Eq A⦄ (a b : A) → ((a == b) ≡ true) ↔ (a ≡ b)
==_iff ⦃e⦄ = e.test_iff

pub ==_refl {ℓ} : {A : Type ℓ} ⦃e : Eq A⦄ (a : A) → (a == a) ≡ true
==_refl ⦃e⦄ a = (e.test_iff a a).1 refl

pub ==_false {ℓ} : {A : Type ℓ} ⦃e : Eq A⦄ (a b : A) → (a == b) ≡ false → ¬ (a ≡ b)
==_false ⦃e⦄ a b h same = ground (arith, e.test_iff a b)

instance abbrev pub nat_eq : Eq ℕ
nat_eq = record { test = eqb; test_iff = eqb_iff }

abbrev pub bool_test : Bool → Bool → Bool
bool_test true b = b
bool_test false true = false
bool_test false false = true

pub bool_test_iff : (a b : Bool) → (bool_test a b ≡ true) ↔ (a ≡ b)
bool_test_iff true true = ground arith
bool_test_iff true false = ground arith
bool_test_iff false true = ground arith
bool_test_iff false false = ground arith

instance abbrev pub bool_eq : Eq Bool
bool_eq = record { test = bool_test; test_iff = bool_test_iff }

abbrev pub list_test : List ℕ → List ℕ → Bool
list_test [] [] = true
list_test [] (y ∷ ys) = false
list_test (x ∷ xs) [] = false
list_test (x ∷ xs) (y ∷ ys) = eqb x y && list_test xs ys

pub list_test_refl : (xs : List ℕ) → list_test xs xs ≡ true
list_test_refl [] = refl
list_test_refl (x ∷ xs) = ground (arith, list_test_refl xs)

pub list_test_sound : (xs ys : List ℕ) → list_test xs ys ≡ true → xs ≡ ys
list_test_sound [] [] h = refl
list_test_sound [] (y ∷ ys) h = cc
list_test_sound (x ∷ xs) [] h = cc
list_test_sound (x ∷ xs) (y ∷ ys) h = ground (arith, list_test_sound xs ys)

pub list_test_iff : (xs ys : List ℕ) → (list_test xs ys ≡ true) ↔ (xs ≡ ys)
list_test_iff xs ys = (list_test_sound xs ys, λ e. ground (arith, list_test_refl xs))

instance abbrev pub bytes_eq : Eq (List ℕ)
bytes_eq = record { test = list_test; test_iff = list_test_iff }

pub pair_test_iff {ℓ κ} :
    {A : Type ℓ} {B : Type κ} (ea : Eq A) (eb : Eq B) (p q : A × B)
    → ((ea.test p.0 q.0 && eb.test p.1 q.1) ≡ true) ↔ (p ≡ q)
pair_test_iff ea eb (a, b) (c, d) = ground (arith, ea.test_iff a c, eb.test_iff b d)

instance abbrev pub pair_eq {ℓ κ} : {A : Type ℓ} {B : Type κ} ⦃ea : Eq A⦄ ⦃eb : Eq B⦄ → Eq (A × B)
pair_eq ⦃ea⦄ ⦃eb⦄ = record {
  test = λ p q. ea.test p.0 q.0 && eb.test p.1 q.1;
  test_iff = pair_test_iff ea eb;
}
