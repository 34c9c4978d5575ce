-- ===== src/Prelude/Distinct.antt =====
-- Lists without repeats: they are their own sets and dicts, and what is selected from them has no
-- repeats either.
use Prim.Native.Nat.{suc}
use mathlib.Core.Path.{◌≡◌, refl, ap, sym, ◌∙◌}
use mathlib.Core.Logic.{inl, inr}
use mathlib.Core.Bool.{Bool, true, false}
use mathlib.Core.Option.{some}
use mathlib.Core.List.{List, [], ◌∷◌, ◌++◌, map, append_assoc, append-nil}
use native.Mathlib.Omega.{arith}
use trackrelay.Prelude.Tests.{Bool-cases, Option-cases}
use trackrelay.Prelude.Lists.{length, All, All-map_imp, All-append}
use trackrelay.Prelude.Rows.{select}
use trackrelay.Prelude.Classes.{Equality, beq_refl, pair_equality}
use trackrelay.Prelude.Dicts.{
  member, is_subset, add_all, set_of, Nodup, member-append, lookup, put, put_all, dict_of, keys,
  values, member-eq-lookup,
}

module _ {ℓ} {K : Type ℓ} ⦃e : Equality K⦄ where
  -- No element of `xs` is in `s`.
  abbrev Avoids : List K → List K → Type 0
  Avoids s xs = All (λ x. member x s ≡ false) xs

  Avoids-one : (s xs : List K) (k : K) → member k xs ≡ false → Avoids s xs → Avoids (s ++ k ∷ []) xs
  Avoids-one s [] k new h = tt
  Avoids-one s (x ∷ xs) k new h = (
    ground (arith, h.0, new, member-append x s (k ∷ []), e.equal_iff x k, e.equal_iff k x),
    Avoids-one s xs k (ground (arith, new)) h.1,
  )

  add_all_new : (s xs : List K) → Nodup xs → Avoids s xs → add_all s xs ≡ s ++ xs
  unfolding add_all
  add_all_new s [] u h = sym (append-nil s)
  add_all_new s (x ∷ xs) u h =
      rw (h.0)
        (add_all_new (s ++ x ∷ []) xs u.1 (Avoids-one s xs x u.0 h.1) ∙ append_assoc s (x ∷ []) xs)

  Avoids-nil : (xs : List K) → Avoids [] xs
  Avoids-nil [] = tt
  Avoids-nil (x ∷ xs) = (refl, Avoids-nil xs)

  -- A list without repeats is its own set.
  pub set_of-eq : (xs : List K) → Nodup xs → set_of xs ≡ xs
  unfolding add_all
  set_of-eq xs u = add_all_new [] xs u (Avoids-nil xs)

  member-select :
      (p : K → Bool) (k : K) (xs : List K) → member k xs ≡ false → member k (select p xs) ≡ false
  member-select p k [] h = refl
  member-select p k (x ∷ xs) h = ground (arith, h, member-select p k xs)

  pub select-Nodup : (p : K → Bool) (xs : List K) → Nodup xs → Nodup (select p xs)
  select-Nodup p [] u = tt
  select-Nodup p (x ∷ xs) u = elim (Bool-cases (p x)) [
    | inl taken ↦ rw taken (member-select p x xs u.0, select-Nodup p xs u.1)
    | inr left ↦ rw left (select-Nodup p xs u.1)
  ]

module _ {ℓ} {K : Type ℓ} ⦃e : Equality K⦄ where
  -- A list has its own elements, and a subset the elements of the set.
  pub All-member : (xs : List K) → All (λ x. member x xs ≡ true) xs
  All-member [] = tt
  All-member (x ∷ xs) = (
    ground (arith, beq_refl x),
    All-map_imp (λ y. member y xs ≡ true) (λ y. member y (x ∷ xs) ≡ true) xs
        (λ y h. ground (arith, h)) (All-member xs),
  )

  pub is_subset-All : (s t : List K) → is_subset s t ≡ true → All (λ k. member k t ≡ true) s
  is_subset-All [] t h = tt
  is_subset-All (k ∷ s) t h = (ground (arith, h), is_subset-All s t (ground (arith, h)))

module _ {ℓ κ} {K : Type ℓ} {A : Type κ} ⦃e : Equality K⦄ (key : A → K) where
  member-map-select :
      (p : A → Bool) (k : K) (xs : List A)
      → member k (map key xs) ≡ false
      → member k (map key (select p xs)) ≡ false
  member-map-select p k [] h = refl
  member-map-select p k (x ∷ xs) h = ground (arith, h, member-map-select p k xs)

  pub Nodup-map-select :
      (p : A → Bool) (xs : List A) → Nodup (map key xs) → Nodup (map key (select p xs))
  Nodup-map-select p [] u = tt
  Nodup-map-select p (x ∷ xs) u = elim (Bool-cases (p x)) [
    | inl taken ↦ rw taken (member-map-select p (key x) xs u.0, Nodup-map-select p xs u.1)
    | inr left ↦ rw left (Nodup-map-select p xs u.1)
  ]

module _ {ℓ κ ι} {K : Type ℓ} {V : Type κ} {A : Type ι} ⦃e : Equality K⦄ where
  -- The keys of `{key(x): value(x) for x in xs}` before repeats are dropped.
  pub keys-map :
      (key : A → K) (value : A → V) (xs : List A)
      → keys (map (λ x. (key x, value x)) xs) ≡ map key xs
  keys-map key value [] = refl
  keys-map key value (x ∷ xs) = ap (λ ks. key x ∷ ks) (keys-map key value xs)

module _ {ℓ κ} {K : Type ℓ} {V : Type κ} ⦃e : Equality K⦄ where
  -- A key of a dict has a value.
  pub member-lookup :
      (k : K) (d : List (K × V)) → member k (keys d) ≡ true → (v : V) × (lookup k d ≡ some v)
  member-lookup k d h = elim (Option-cases (lookup k d)) [
    | inl missing ↦ absurd (ground (arith, h, missing, member-eq-lookup k d))
    | inr found ↦ found
  ]

  put_new :
      (k : K) (v : V) (d : List (K × V)) → member k (keys d) ≡ false → put k v d ≡ d ++ (k, v) ∷ []
  put_new k v [] h = refl
  put_new k v ((j, w) ∷ d) h = ground (arith, h, put_new k v d)

  keys-append : (c d : List (K × V)) → keys (c ++ d) ≡ keys c ++ keys d
  keys-append [] d = refl
  keys-append ((k, v) ∷ c) d = ap (λ ks. k ∷ ks) (keys-append c d)

  put_all_new :
      (d items : List (K × V))
      → Nodup (keys items)
      → Avoids (keys d) (keys items)
      → put_all d items ≡ d ++ items
  unfolding put_all
  put_all_new d [] u h = sym (append-nil d)
  put_all_new d ((k, v) ∷ items) u h = rw (put_new k v d h.0) (
      put_all_new (d ++ (k, v) ∷ []) items u.1
        (rw (keys-append d ((k, v) ∷ [])) (Avoids-one (keys d) (keys items) k u.0 h.1))
      ∙ append_assoc d ((k, v) ∷ []) items)

  -- Items without a repeated key are their own dict.
  pub dict_of-eq : (items : List (K × V)) → Nodup (keys items) → dict_of items ≡ items
  unfolding put_all
  dict_of-eq items u = put_all_new [] items u (Avoids-nil (keys items))

  pub member-keys-select :
      (p : K × V → Bool) (k : K) (d : List (K × V))
      → member k (keys d) ≡ false
      → member k (keys (select p d)) ≡ false
  member-keys-select p k [] h = refl
  member-keys-select p k ((j, v) ∷ d) h = elim (Bool-cases (p (j, v))) [
    | inl taken ↦ rw taken (ground (arith, h, member-keys-select p k d))
    | inr left ↦ rw left (ground (arith, h, member-keys-select p k d))
  ]

  pub keys-select-Nodup :
      (p : K × V → Bool) (d : List (K × V)) → Nodup (keys d) → Nodup (keys (select p d))
  keys-select-Nodup p [] u = tt
  keys-select-Nodup p ((k, v) ∷ d) u = elim (Bool-cases (p (k, v))) [
    | inl taken ↦ rw taken (member-keys-select p k d u.0, keys-select-Nodup p d u.1)
    | inr left ↦ rw left (keys-select-Nodup p d u.1)
  ]

  -- A dict has as many keys, and as many values, as items.
  pub length-keys : (d : List (K × V)) → length (keys d) ≡ length d
  length-keys [] = refl
  length-keys ((k, v) ∷ d) = ap suc (length-keys d)

  pub length-values : (d : List (K × V)) → length (values d) ≡ length d
  length-values [] = refl
  length-values ((k, v) ∷ d) = ap suc (length-values d)

  -- The items that a test on the key selects have keys that pass it.
  pub keys-select-All :
      (p : K → Bool) (d : List (K × V)) → All (λ k. p k ≡ true) (keys (select (λ item. p item.0) d))
  keys-select-All p [] = tt
  keys-select-All p ((k, v) ∷ d) = elim (Bool-cases (p k)) [
    | inl taken ↦ rw taken (taken, keys-select-All p d)
    | inr left ↦ rw left (keys-select-All p d)
  ]

module _ {ℓ κ} {K : Type ℓ} {V : Type κ} ⦃e : Equality K⦄ ⦃f : Equality V⦄ where
  member_item :
      (k : K) (v : V) (d : List (K × V)) → member (k, v) d ≡ true → member k (keys d) ≡ true
  member_item k v [] h = absurd (ground (arith, h))
  member_item k v ((j, w) ∷ d) h = ground (arith, h, member_item k v d)

  -- An item of a dict is what its key is looked up to.
  pub lookup_item :
      (k : K) (v : V) (d : List (K × V))
      → Nodup (keys d)
      → member (k, v) d ≡ true
      → lookup k d ≡ some v
  lookup_item k v [] u h = absurd (ground (arith, h))
  lookup_item k v ((j, w) ∷ d) u h =
      ground
        (arith, h, u.0, e.equal_iff j k, f.equal_iff w v, member_item k v d, lookup_item k v d u.1)

module _ {ℓ κ ι} {K : Type ℓ} {V : Type κ} ⦃e : Equality K⦄ where
  -- What holds of the keys of the items holds of the keys.
  pub keys-All : (P : K → Type ι) (d : List (K × V)) → All (λ item. P item.0) d → All P (keys d)
  keys-All P [] h = tt
  keys-All P ((k, v) ∷ d) h = (h.0, keys-All P d h.1)

module _ {ℓ κ ι} {A : Type ℓ} where
  pub All-and :
      (P : A → Type κ) (Q : A → Type ι) (xs : List A)
      → All P xs
      → All Q xs
      → All (λ x. P x × Q x) xs
  All-and P Q [] h g = tt
  All-and P Q (x ∷ xs) h g = ((h.0, g.0), All-and P Q xs h.1 g.1)

module _ {ℓ κ} {K : Type ℓ} ⦃e : Equality K⦄ (P : K → Type κ) where
  All-add_all : (s xs : List K) → All P s → All P xs → All P (add_all s xs)
  unfolding add_all
  All-add_all s [] hs hx = hs
  All-add_all s (x ∷ xs) hs hx = elim (Bool-cases (member x s)) [
    | inl old ↦ rw (old) (All-add_all s xs hs hx.1)
    | inr new ↦ rw (new) (All-add_all (s ++ x ∷ []) xs (All-append P s (x ∷ []) hs (hx.0, tt)) hx.1)
  ]

  -- What holds of the elements of a list holds of its set's.
  pub All-set_of : (xs : List K) → All P xs → All P (set_of xs)
  unfolding add_all
  All-set_of xs h = All-add_all [] xs tt h
