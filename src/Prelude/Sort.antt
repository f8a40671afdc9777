-- ===== src/Prelude/Sort.antt =====
-- JavaScript's stable `sort`, by the test whether one element must come strictly before another.
use Prim.Native.Nat.{ℕ, ◌+◌, ◌≤◌}
use mathlib.Core.Path.{◌≡◌, refl}
use mathlib.Core.Bool.{Bool, true, false}
use mathlib.Core.List.{List, [], ◌∷◌, map}
use native.Mathlib.Omega.{arith}
use yuhi.Prelude.Tests.{if◌then◌else◌}
use yuhi.Prelude.Lists.{All, filter}

module _ {ℓ} {A : Type ℓ} (before : A → A → Bool) where
  -- `x` stood ahead of `ys`, and stays ahead of all that need not come before it.
  unfoldable pub insert_sorted : A → List A → List A
  insert_sorted x [] = x ∷ []
  insert_sorted x (y ∷ ys) = if before y x then y ∷ insert_sorted x ys else x ∷ y ∷ ys

  unfoldable pub sort : List A → List A
  unfolding insert_sorted
  sort [] = []
  sort (x ∷ xs) = insert_sorted x (sort xs)

  -- No element must come before the one that stands ahead of it.
  abbrev pub IsSorted : List A → Type 0
  IsSorted [] = Unit
  IsSorted (x ∷ []) = Unit
  IsSorted (x ∷ y ∷ ys) = (before y x ≡ false) × IsSorted (y ∷ ys)

  module _ (asym : (x y : A) → before x y ≡ true → before y x ≡ false) where
    insert_sorted-IsSorted : (x : A) (ys : List A) → IsSorted ys → IsSorted (insert_sorted x ys)
    unfolding insert_sorted
    insert_sorted-IsSorted x [] h = tt
    insert_sorted-IsSorted x (y ∷ []) h = ground (arith, asym y x)
    insert_sorted-IsSorted x (y ∷ z ∷ zs) h =
        ground (arith, asym y x, insert_sorted-IsSorted x (z ∷ zs))

    pub sort-IsSorted : (xs : List A) → IsSorted (sort xs)
    unfolding sort
    sort-IsSorted [] = tt
    sort-IsSorted (x ∷ xs) = insert_sorted-IsSorted x (sort xs) (sort-IsSorted xs)

module _ {ℓ κ} {A : Type ℓ} (before : A → A → Bool) (P : A → Type κ) where
  insert_sorted-All : (x : A) (ys : List A) → P x → All P ys → All P (insert_sorted before x ys)
  unfolding insert_sorted
  insert_sorted-All x [] h k = (h, tt)
  insert_sorted-All x (y ∷ ys) h (k, ks) = ground (arith, insert_sorted-All x ys h ks)

  pub sort-All : (xs : List A) → All P xs → All P (sort before xs)
  unfolding sort
  sort-All [] h = tt
  sort-All (x ∷ xs) (h, hs) = insert_sorted-All x (sort before xs) h (sort-All xs hs)

-- The sum of a weight over a list; it does not change when the list is sorted.
module _ {ℓ} {A : Type ℓ} (weight : A → ℕ) where
  unfoldable pub total : List A → ℕ
  total [] = 0
  total (x ∷ xs) = weight x + total xs

module _ {ℓ} {A : Type ℓ} (before : A → A → Bool) (weight : A → ℕ) where
  total-insert_sorted :
      (x : A) (ys : List A) → total weight (insert_sorted before x ys) ≡ weight x + total weight ys
  unfolding total insert_sorted
  total-insert_sorted x [] = refl
  total-insert_sorted x (y ∷ ys) = ground (arith, total-insert_sorted x ys)

  pub total-sort : (xs : List A) → total weight (sort before xs) ≡ total weight xs
  unfolding total sort
  total-sort [] = refl
  total-sort (x ∷ xs) = omega (arith, total-insert_sorted x (sort before xs), total-sort xs)

module _ {ℓ} {A : Type ℓ} where
  pub total-filter :
      (p : A → Bool) (weight : A → ℕ) (xs : List A)
      → total weight (filter p xs) ≡ total (λ x. if p x then weight x else 0) xs
  unfolding total filter
  total-filter p weight [] = refl
  total-filter p weight (x ∷ xs) = ground (arith, total-filter p weight xs)

  pub total_le : (w v : A → ℕ) (xs : List A) → ((x : A) → w x ≤ v x) → total w xs ≤ total v xs
  unfolding total
  total_le w v [] h = omega arith
  total_le w v (x ∷ xs) h = omega (arith, h x, total_le w v xs h)

  pub total-eq : (w v : A → ℕ) (xs : List A) → All (λ x. w x ≡ v x) xs → total w xs ≡ total v xs
  unfolding total
  total-eq w v [] h = refl
  total-eq w v (x ∷ xs) (h, hs) = omega (arith, h, total-eq w v xs hs)

module _ {ℓ κ} {A : Type ℓ} {B : Type κ} where
  pub total-map :
      (g : B → A) (weight : A → ℕ) (xs : List B)
      → total weight (map g xs) ≡ total (λ x. weight (g x)) xs
  unfolding total
  total-map g weight [] = refl
  total-map g weight (x ∷ xs) = omega (arith, total-map g weight xs)
