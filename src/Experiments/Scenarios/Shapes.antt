-- ===== src/Experiments/Scenarios/Shapes.antt =====
-- The reordered events of a scenario are the events of the normal manifest.
use trackrelay.Prelude.{
  All, ◌==◌, string_equality, nat_equality, option_equality, pair_equality, Equality, member,
  select, exists_row, exists_row-append, String, ◌≡◌, refl, Bool, true, false, ◌&&◌, ◌||◌, List, [],
  ◌∷◌, map, arith,
}
use trackrelay.Domain.Shipment.{status_equality}
use trackrelay.Experiments.Manifest.{ManifestEvent}
use trackrelay.Experiments.Scenarios.{reversed, reversed_histories}

-- Two lists of which every test finds an element, or none.
abbrev pub SameEvents : List ManifestEvent → List ManifestEvent → Type 0
SameEvents xs ys = (q : ManifestEvent → Bool) → exists_row q xs ≡ exists_row q ys

exists_row-reversed {ℓ} :
    {A : Type ℓ} (q : A → Bool) (xs : List A) → exists_row q (reversed xs) ≡ exists_row q xs
exists_row-reversed q [] = refl
exists_row-reversed q (x ∷ xs) =
    ground (arith, exists_row-append q (reversed xs) (x ∷ []), exists_row-reversed q xs)

exists_row-select {ℓ} :
    {A : Type ℓ} (q p : A → Bool) (xs : List A)
    → exists_row q (select p xs) ≡ exists_row (λ x. p x && q x) xs
exists_row-select q p [] = refl
exists_row-select q p (x ∷ xs) = ground (arith, exists_row-select q p xs)

-- What the reversed histories of the numbers have, one event more.
histories-cons :
    (q : ManifestEvent → Bool) (numbers : List String) (e : ManifestEvent) (es : List ManifestEvent)
    → exists_row q (reversed_histories numbers (e ∷ es))
      ≡ ((member e.tracking_number numbers && q e) || exists_row q (reversed_histories numbers es))
histories-cons q [] e es = refl
histories-cons q (number ∷ numbers) e es = ground (
  arith,
  exists_row-append q (reversed (select (λ x. x.tracking_number == number) (e ∷ es)))
      (reversed_histories numbers (e ∷ es)),
  exists_row-append q (reversed (select (λ x. x.tracking_number == number) es))
      (reversed_histories numbers es),
  exists_row-reversed q (select (λ x. x.tracking_number == number) (e ∷ es)),
  exists_row-reversed q (select (λ x. x.tracking_number == number) es),
  exists_row-select q (λ x. x.tracking_number == number) (e ∷ es),
  exists_row-select q (λ x. x.tracking_number == number) es,
  histories-cons q numbers e es,
  string_equality.equal_iff e.tracking_number number,
  string_equality.equal_iff number e.tracking_number,
)

histories-nil :
    (q : ManifestEvent → Bool) (numbers : List String)
    → exists_row q (reversed_histories numbers []) ≡ false
histories-nil q [] = refl
histories-nil q (number ∷ numbers) = histories-nil q numbers

pub histories-SameEvents :
    (numbers : List String) (es : List ManifestEvent)
    → All (λ e. member e.tracking_number numbers ≡ true) es
    → SameEvents (reversed_histories numbers es) es
histories-SameEvents numbers [] h q = histories-nil q numbers
histories-SameEvents numbers (e ∷ es) h q =
    ground (arith, h.0, histories-cons q numbers e es, histories-SameEvents numbers es h.1 q)

pub member-map {ℓ} :
    {A : Type ℓ} {K : Type 0} ⦃eq : Equality K⦄ (f : A → K) (k : K) (xs : List A)
    → member k (map f xs) ≡ exists_row (λ x. f x == k) xs
member-map f k [] = refl
member-map f k (x ∷ xs) = ground (arith, member-map f k xs)
