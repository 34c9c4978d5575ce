-- ===== src/Models/Constraints.antt =====
-- What the constraints of the tables amount to, as an invariant of the database.
use trackrelay.Prelude.{
  ◌≡◌, refl, false, List, [], ◌∷◌, ◌++◌, ◌==◌, Equality, nat_equality, string_equality,
  pair_equality, arith, exists_row, exists_row-append,
}

-- No two rows have one key.
module _ {ℓ κ} {A : Type ℓ} {K : Type κ} ⦃e : Equality K⦄ (key : A → K) where
  abbrev pub Unique : List A → Type 0
  Unique [] = Unit
  Unique (x ∷ xs) = (exists_row (λ y. key y == key x) xs ≡ false) × Unique xs

  pub Unique-append :
      (xs : List A) (x : A)
      → Unique xs
      → exists_row (λ y. key y == key x) xs ≡ false
      → Unique (xs ++ x ∷ [])
  Unique-append [] x u h = (refl, tt)
  Unique-append (y ∷ ys) x u h = (
    ground (
      arith,
      u.0,
      h,
      exists_row-append (λ z. key z == key y) ys (x ∷ []),
      e.equal_iff (key x) (key y),
      e.equal_iff (key y) (key x),
    ),
    Unique-append ys x u.1 (ground (arith, h)),
  )
