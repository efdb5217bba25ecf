-- ===== src/Base/Maps.antt =====
-- Go maps as association lists.
use mathlib.Core.Path.{◌≡◌, refl}
use mathlib.Core.Bool.{Bool}
use mathlib.Core.List.{List, [], ◌∷◌}
use mathlib.Core.Option.{Option, none, some}
use native.Mathlib.Omega.{arith}
use yabber.Base.Tests.{if◌then◌else◌, is_some}
use mathlib.Core.Logic.{◌≢◌}
use yabber.Base.Equality.{Eq, ◌==◌, ==_refl}

abbrev pub Dict {ℓ κ} : Type ℓ → Type κ → Type (ℓ ⊔ κ)
Dict K V = List (K × V)

module _ {ℓ κ} {K : Type ℓ} {V : Type κ} ⦃e : Eq K⦄ where
  unfoldable pub lookup : K → Dict K V → Option V
  lookup key [] = none
  lookup key ((own, value) ∷ entries) = if own == key then some value else lookup key entries

  unfoldable pub has : K → Dict K V → Bool
  unfolding lookup
  has k m = is_some (lookup k m)

  unfoldable pub insert : K → V → Dict K V → Dict K V
  insert key value [] = (key, value) ∷ []
  insert key value ((own, old) ∷ entries) =
      if own == key then (own, value) ∷ entries else (own, old) ∷ insert key value entries

  unfoldable pub delete : K → Dict K V → Dict K V
  delete k [] = []
  delete k ((own, old) ∷ entries) =
      let rest = delete k entries in if own == k then rest else (own, old) ∷ rest

  -- What a map has under one key after the insertion under another.
  pub lookup-insert :
      (key other : K) (value : V) (dict : Dict K V)
      → lookup other (insert key value dict)
        ≡ (if key == other then some value else lookup other dict)
  unfolding insert lookup
  lookup-insert key other value [] = refl
  lookup-insert key other value ((i, w) ∷ dict) =
      let rest = lookup-insert key other value dict in
      ground (arith, rest, e.test_iff i other, e.test_iff i key, e.test_iff key other)

  pub lookup-delete :
      (k j : K) (m : Dict K V) → lookup j (delete k m) ≡ (if k == j then none else lookup j m)
  unfolding lookup delete
  lookup-delete k j [] = ground arith
  lookup-delete k j ((i, w) ∷ m) =
      ground (arith, e.test_iff k j, e.test_iff i k, e.test_iff i j, lookup-delete k j m)

  pub lookup-insert_self : (k : K) (v : V) (m : Dict K V) → lookup k (insert k v m) ≡ some v
  lookup-insert_self k v m = simp (lookup-insert, ==_refl)

  pub lookup-insert_ne :
      (k j : K) (v : V) (m : Dict K V) → k ≢ j → lookup j (insert k v m) ≡ lookup j m
  lookup-insert_ne k j v m h = ground (arith, lookup-insert k j v m, e.test_iff k j)

  pub lookup-delete_self : (k : K) (m : Dict K V) → lookup k (delete k m) ≡ none
  lookup-delete_self k m = simp (lookup-delete, ==_refl)

  pub lookup-delete_ne : (k j : K) (m : Dict K V) → k ≢ j → lookup j (delete k m) ≡ lookup j m
  lookup-delete_ne k j m h = ground (arith, lookup-delete k j m, e.test_iff k j)
