-- ===== src/Prelude/Rows.antt =====
-- Tables as lists of rows in insertion order, and what the program's SQL does with them:
-- `select … where`, a scalar query, an update and a count.
use Prim.Native.Nat.{ℕ, suc}
use mathlib.Core.Path.{◌≡◌, refl, ap}
use mathlib.Core.Bool.{Bool, true, false, ◌||◌}
use mathlib.Core.Option.{Option, none, some}
use mathlib.Core.List.{List, [], ◌∷◌, ◌++◌}
use native.Mathlib.Omega.{arith}
use trackrelay.Prelude.Tests.{if◌then◌else◌}
use trackrelay.Prelude.Lists.{length, All}

module _ {ℓ} {A : Type ℓ} where
  -- `select(Row).where(p)`
  abbrev pub select : (A → Bool) → List A → List A
  select p [] = []
  select p (x ∷ xs) = let rest = select p xs in if p x then x ∷ rest else rest

  -- the first row of a query, or `None`
  abbrev pub scalar : (A → Bool) → List A → Option A
  scalar p [] = none
  scalar p (x ∷ xs) = let rest = scalar p xs in if p x then some x else rest

  -- whether a query has a row
  abbrev pub exists_row : (A → Bool) → List A → Bool
  exists_row p [] = false
  exists_row p (x ∷ xs) = p x || exists_row p xs

  -- `update … where p`
  abbrev pub update_rows : (A → Bool) → (A → A) → List A → List A
  update_rows p f [] = []
  update_rows p f (x ∷ xs) = (if p x then f x else x) ∷ update_rows p f xs

  -- `select(func.count()).where(p)`
  abbrev pub count_rows : (A → Bool) → List A → ℕ
  count_rows p xs = length (select p xs)

module _ {ℓ} {A : Type ℓ} where
  pub exists_row-append :
      (p : A → Bool) (xs ys : List A)
      → exists_row p (xs ++ ys) ≡ (exists_row p xs || exists_row p ys)
  exists_row-append p [] ys = refl
  exists_row-append p (x ∷ xs) ys = ground (arith, exists_row-append p xs ys)

  pub scalar-append :
      (p : A → Bool) (xs ys : List A)
      → scalar p (xs ++ ys) ≡ elim (scalar p xs) [ none ↦ scalar p ys | some x ↦ some x ]
  scalar-append p [] ys = refl
  scalar-append p (x ∷ xs) ys = ground (arith, scalar-append p xs ys)

  pub select-append :
      (p : A → Bool) (xs ys : List A) → select p (xs ++ ys) ≡ select p xs ++ select p ys
  select-append p [] ys = refl
  select-append p (x ∷ xs) ys = ground (arith, select-append p xs ys)

  pub exists_row-eq-scalar :
      (p : A → Bool) (xs : List A)
      → exists_row p xs ≡ elim (scalar p xs) [ none ↦ false | some _ ↦ true ]
  exists_row-eq-scalar p [] = refl
  exists_row-eq-scalar p (x ∷ xs) = ground (arith, exists_row-eq-scalar p xs)

  pub scalar_holds : (p : A → Bool) (xs : List A) (x : A) → scalar p xs ≡ some x → p x ≡ true
  scalar_holds p [] x h = ground arith
  scalar_holds p (y ∷ xs) x h = ground (arith, scalar_holds p xs x)

  pub length-update_rows :
      (p : A → Bool) (f : A → A) (xs : List A) → length (update_rows p f xs) ≡ length xs
  length-update_rows p f [] = refl
  length-update_rows p f (x ∷ xs) = ap suc (length-update_rows p f xs)

  -- A query whose test an update leaves alone finds the same rows.
  pub exists_row-update_rows :
      (q p : A → Bool) (f : A → A) (xs : List A)
      → ((x : A) → q (f x) ≡ q x)
      → exists_row q (update_rows p f xs) ≡ exists_row q xs
  exists_row-update_rows q p f [] same = refl
  exists_row-update_rows q p f (x ∷ xs) same =
      ground (arith, same x, exists_row-update_rows q p f xs same)

module _ {ℓ κ ι} {A : Type ℓ} where
  -- What holds of each row after an update, from the rows that it reaches and the others.
  pub All-update_rows :
      (P : A → Type κ) (Q : A → Type ι) (p : A → Bool) (f : A → A) (xs : List A)
      → ((x : A) → P x → p x ≡ true → Q (f x))
      → ((x : A) → P x → p x ≡ false → Q x)
      → All P xs
      → All Q (update_rows p f xs)
  All-update_rows P Q p f [] hit miss h = tt
  All-update_rows P Q p f (x ∷ xs) hit miss h =
      (reached (p x) (hit x h.0) (miss x h.0), All-update_rows P Q p f xs hit miss h.1)
    where
      reached : (b : Bool) → (b ≡ true → Q (f x)) → (b ≡ false → Q x) → Q (if b then f x else x)
      reached true t e = t refl
      reached false t e = e refl

module _ {ℓ} {A : Type ℓ} where
  -- A query that an update leaves alone finds the same row, updated if the update reaches it.
  pub scalar-update_rows :
      (q p : A → Bool) (f : A → A) (xs : List A)
      → ((x : A) → q (f x) ≡ q x)
      → scalar q (update_rows p f xs)
        ≡ elim (scalar q xs) [ none ↦ none | some x ↦ some (if p x then f x else x) ]
  scalar-update_rows q p f [] same = refl
  scalar-update_rows q p f (x ∷ xs) same = ground (arith, same x, scalar-update_rows q p f xs same)

  -- A query for other rows than those updated finds the same row.
  pub scalar-update_rows_ne :
      (q p : A → Bool) (f : A → A) (xs : List A)
      → ((x : A) → q (f x) ≡ q x)
      → ((x : A) → p x ≡ true → q x ≡ false)
      → scalar q (update_rows p f xs) ≡ scalar q xs
  scalar-update_rows_ne q p f [] same apart = refl
  scalar-update_rows_ne q p f (x ∷ xs) same apart =
      ground (arith, same x, apart x, scalar-update_rows_ne q p f xs same apart)
