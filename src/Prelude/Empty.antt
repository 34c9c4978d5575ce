-- ===== src/Prelude/Empty.antt =====
-- What an empty set, union, difference or query says of the lists it was made from.
use mathlib.Core.Path.{◌≡◌, refl, ap}
use mathlib.Core.Logic.{inl, inr}
use mathlib.Core.Bool.{Bool, true, false}
use mathlib.Core.List.{List, [], ◌∷◌, map}
use native.Mathlib.Omega.{arith}
use trackrelay.Prelude.Tests.{Bool-cases}
use trackrelay.Prelude.Lists.{length, All}
use trackrelay.Prelude.Rows.{select}
use trackrelay.Prelude.Classes.{Equality, beq_refl}
use trackrelay.Prelude.Dicts.{member, set_of, union, difference, keys, member-set_of, member-union}

module _ {ℓ} {K : Type ℓ} ⦃e : Equality K⦄ where
  empty_of_member : (xs : List K) → ((k : K) → member k xs ≡ false) → xs ≡ []
  empty_of_member [] h = refl
  empty_of_member (x ∷ xs) h = absurd (ground (arith, h x, beq_refl x))

  pub empty-set_of : (xs : List K) → set_of xs ≡ [] → xs ≡ []
  empty-set_of xs h = empty_of_member xs (λ k. ground (arith, ap (member k) h, member-set_of k xs))

  pub empty-union : (s t : List K) → union s t ≡ [] → (s ≡ []) × (t ≡ [])
  empty-union s t h = (
    empty_of_member s (λ k. ground (arith, ap (member k) h, member-union k s t)),
    empty_of_member t (λ k. ground (arith, ap (member k) h, member-union k s t)),
  )

  -- A set less another is empty when the other has all of it.
  pub difference-All : (s t : List K) → difference s t ≡ [] → All (λ k. member k t ≡ true) s
  difference-All [] t h = tt
  difference-All (k ∷ s) t h = elim (Bool-cases (member k t)) [
    | inl there ↦ (there, difference-All s t (ground (arith, h, there)))
    | inr absent ↦ absurd (ground (arith, h, absent))
  ]

module _ {ℓ} {A : Type ℓ} where
  pub empty-select : (p : A → Bool) (xs : List A) → select p xs ≡ [] → All (λ x. p x ≡ false) xs
  empty-select p [] h = tt
  empty-select p (x ∷ xs) h = elim (Bool-cases (p x)) [
    | inl taken ↦ absurd (ground (arith, h, taken))
    | inr left ↦ (left, empty-select p xs (ground (arith, h, left)))
  ]

  pub empty-length : (xs : List A) → length xs ≡ 0 → xs ≡ []
  empty-length [] h = refl
  empty-length (x ∷ xs) h = absurd (ground (arith, h))

module _ {ℓ κ} {A : Type ℓ} {B : Type κ} where
  pub empty-map : (f : A → B) (xs : List A) → map f xs ≡ [] → xs ≡ []
  empty-map f [] h = refl
  empty-map f (x ∷ xs) h = absurd (ground (arith, h))

module _ {ℓ κ ι} {A : Type ℓ} {B : Type κ} where
  pub All-of_map :
      (P : B → Type ι) (f : A → B) (xs : List A) → All P (map f xs) → All (λ a. P (f a)) xs
  All-of_map P f [] h = tt
  All-of_map P f (x ∷ xs) h = (h.0, All-of_map P f xs h.1)

module _ {ℓ κ} {K : Type ℓ} {V : Type κ} ⦃e : Equality K⦄ where
  pub empty-keys : (d : List (K × V)) → keys d ≡ [] → d ≡ []
  empty-keys [] h = refl
  empty-keys ((k, v) ∷ d) h = absurd (ground (arith, h))
