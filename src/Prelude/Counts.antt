-- ===== src/Prelude/Counts.antt =====
-- Counts of the rows of a query: bounds, a weaker test, a mapped table.
use Prim.Native.Nat.{◌≤◌}
use mathlib.Core.Path.{◌≡◌, refl, ap}
use mathlib.Core.Bool.{Bool, true}
use mathlib.Core.List.{List, [], ◌∷◌, map}
use native.Mathlib.Omega.{arith}
use trackrelay.Prelude.Lists.{length}
use trackrelay.Prelude.Rows.{count_rows}

module _ {ℓ} {A : Type ℓ} where
  pub count_rows-le : (p : A → Bool) (xs : List A) → count_rows p xs ≤ length xs
  count_rows-le p [] = omega arith
  count_rows-le p (x ∷ xs) = ground (arith, count_rows-le p xs)

  pub count_rows_mono :
      (p q : A → Bool) (xs : List A)
      → ((x : A) → p x ≡ true → q x ≡ true)
      → count_rows p xs ≤ count_rows q xs
  count_rows_mono p q [] f = omega arith
  count_rows_mono p q (x ∷ xs) f = ground (arith, f x, count_rows_mono p q xs f)

module _ {ℓ κ} {A : Type ℓ} {B : Type κ} where
  pub count_rows-map :
      (p : B → Bool) (f : A → B) (xs : List A)
      → count_rows p (map f xs) ≡ count_rows (λ a. p (f a)) xs
  count_rows-map p f [] = refl
  count_rows-map p f (x ∷ xs) = ground (arith, count_rows-map p f xs)

module _ {ℓ κ ι} {A : Type ℓ} {B : Type κ} {C : Type ι} where
  pub map-map : (g : B → C) (f : A → B) (xs : List A) → map g (map f xs) ≡ map (λ a. g (f a)) xs
  map-map g f [] = refl
  map-map g f (x ∷ xs) = ap (λ ys. g (f x) ∷ ys) (map-map g f xs)

module _ {ℓ} {A : Type ℓ} where
  pub map_same : (f : A → A) (xs : List A) → ((x : A) → f x ≡ x) → map f xs ≡ xs
  map_same f [] same = refl
  map_same f (x ∷ xs) same = cc (same x, map_same f xs same)
