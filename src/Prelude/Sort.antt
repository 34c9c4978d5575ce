-- ===== src/Prelude/Sort.antt =====
-- `sorted`, as an insertion sort by a Boolean order: what it keeps of a list.
use Prim.Native.Nat.{suc}
use mathlib.Core.Path.{◌≡◌, refl}
use mathlib.Core.Logic.{inl, inr}
use mathlib.Core.Bool.{Bool, false, ◌||◌}
use mathlib.Core.List.{List, [], ◌∷◌}
use native.Mathlib.Omega.{arith}
use trackrelay.Prelude.Tests.{if◌then◌else◌, Bool-cases}
use trackrelay.Prelude.Lists.{length}
use trackrelay.Prelude.Classes.{Equality, ◌==◌}
use trackrelay.Prelude.Dicts.{member, Nodup}

module _ {ℓ} {A : Type ℓ} (le : A → A → Bool) where
  abbrev pub insert_by : A → List A → List A
  insert_by a [] = a ∷ []
  insert_by a (x ∷ xs) = let rest = insert_by a xs in if le a x then a ∷ x ∷ xs else x ∷ rest

  unfoldable pub sort_by : List A → List A
  sort_by [] = []
  sort_by (x ∷ xs) = insert_by x (sort_by xs)

  length-insert_by : (a : A) (xs : List A) → length (insert_by a xs) ≡ suc (length xs)
  length-insert_by a [] = refl
  length-insert_by a (x ∷ xs) = ground (arith, length-insert_by a xs)

  pub length-sort_by : (xs : List A) → length (sort_by xs) ≡ length xs
  unfolding sort_by
  length-sort_by [] = refl
  length-sort_by (x ∷ xs) = ground (arith, length-insert_by x (sort_by xs), length-sort_by xs)

module _ {ℓ} {A : Type ℓ} ⦃e : Equality A⦄ (le : A → A → Bool) where
  member-insert_by :
      (k a : A) (xs : List A) → member k (insert_by le a xs) ≡ (a == k || member k xs)
  member-insert_by k a [] = refl
  member-insert_by k a (x ∷ xs) = ground (arith, member-insert_by k a xs)

  pub member-sort_by : (k : A) (xs : List A) → member k (sort_by le xs) ≡ member k xs
  unfolding sort_by
  member-sort_by k [] = refl
  member-sort_by k (x ∷ xs) =
      ground (arith, member-insert_by k x (sort_by le xs), member-sort_by k xs)

  insert_by-Nodup :
      (a : A) (xs : List A) → member a xs ≡ false → Nodup xs → Nodup (insert_by le a xs)
  insert_by-Nodup a [] new u = (refl, tt)
  insert_by-Nodup a (x ∷ xs) new u = elim (Bool-cases (le a x)) [
    | inl first ↦ rw first (new, u)
    | inr later ↦ rw later (
      ground (arith, new, u.0, member-insert_by x a xs, e.equal_iff a x, e.equal_iff x a),
      insert_by-Nodup a xs (ground (arith, new)) u.1,
    )
  ]

  pub sort_by-Nodup : (xs : List A) → Nodup xs → Nodup (sort_by le xs)
  unfolding sort_by
  sort_by-Nodup [] u = tt
  sort_by-Nodup (x ∷ xs) u =
      insert_by-Nodup x (sort_by le xs) (ground (arith, u.0, member-sort_by x xs))
        (sort_by-Nodup xs u.1)
