-- ===== src/Prelude/Dicts.antt =====
-- Python's dicts and sets over keys with an equality: association lists and lists in insertion
-- order, in which no key stands twice.
use Prim.Native.Nat.{◌+◌, ◌≤◌}
use mathlib.Core.Path.{◌≡◌, refl}
use mathlib.Core.Logic.{inl, inr}
use mathlib.Core.Bool.{Bool, true, false, not, ◌&&◌, ◌||◌}
use mathlib.Core.Option.{Option, none, some}
use mathlib.Core.List.{List, [], ◌∷◌, ◌++◌}
use native.Mathlib.Omega.{arith}
use trackrelay.Prelude.Tests.{if◌then◌else◌, Bool-cases}
use trackrelay.Prelude.Lists.{length, length-append, All}
use trackrelay.Prelude.Rows.{select, count_rows}
use trackrelay.Prelude.Classes.{Equality, ◌==◌}

module _ {ℓ} {K : Type ℓ} ⦃e : Equality K⦄ where
  -- `k in s`
  abbrev pub member : K → List K → Bool
  member k [] = false
  member k (x ∷ xs) = x == k || member k xs

  -- `s.add(k)`
  abbrev pub add : K → List K → List K
  add k s = if member k s then s else s ++ k ∷ []

  -- `set(xs)`, on top of a set
  unfoldable pub add_all : List K → List K → List K
  add_all s [] = s
  add_all s (x ∷ xs) = add_all (add x s) xs

  abbrev pub set_of : List K → List K
  unfolding add_all
  set_of xs = add_all [] xs

  -- `s | t` and `s - t`
  abbrev pub union : List K → List K → List K
  unfolding add_all
  union s t = add_all s t

  abbrev pub difference : List K → List K → List K
  difference s t = select (λ k. not (member k t)) s

  -- `s == t` for sets
  abbrev pub is_subset : List K → List K → Bool
  is_subset [] t = true
  is_subset (k ∷ s) t = member k t && is_subset s t

  abbrev pub same_set : List K → List K → Bool
  same_set s t = is_subset s t && is_subset t s

  -- No key stands twice.
  abbrev pub Nodup : List K → Type 0
  Nodup [] = Unit
  Nodup (x ∷ xs) = (member x xs ≡ false) × Nodup xs

  pub member-append : (k : K) (xs ys : List K) → member k (xs ++ ys) ≡ (member k xs || member k ys)
  member-append k [] ys = refl
  member-append k (x ∷ xs) ys = ground (arith, member-append k xs ys)

  Nodup-append_one : (s : List K) (k : K) → Nodup s → member k s ≡ false → Nodup (s ++ k ∷ [])
  Nodup-append_one [] k u h = (refl, tt)
  Nodup-append_one (x ∷ s) k u h = (
    ground (arith, u.0, h, member-append x s (k ∷ []), e.equal_iff x k, e.equal_iff k x),
    Nodup-append_one s k u.1 (ground (arith, h)),
  )

  add-Nodup : (k : K) (s : List K) → Nodup s → Nodup (add k s)
  add-Nodup k s u = elim (Bool-cases (member k s)) [
    | inl old ↦ rw old u
    | inr new ↦ rw new (Nodup-append_one s k u new)
  ]

  pub add_all-Nodup : (s xs : List K) → Nodup s → Nodup (add_all s xs)
  unfolding add_all
  add_all-Nodup s [] u = u
  add_all-Nodup s (x ∷ xs) u = add_all-Nodup (add x s) xs (add-Nodup x s u)

  member-add : (k x : K) (s : List K) → member k (add x s) ≡ (member k s || x == k)
  member-add k x s = ground (arith, member-append k s (x ∷ []), e.equal_iff x k)

  pub member-add_all :
      (k : K) (s xs : List K) → member k (add_all s xs) ≡ (member k s || member k xs)
  unfolding add_all
  member-add_all k s [] = ground arith
  member-add_all k s (x ∷ xs) = ground (arith, member-add_all k (add x s) xs, member-add k x s)

  count_member_mono :
      (k : K) (ks xs : List K)
      → count_rows (λ x. member x ks) xs ≤ count_rows (λ x. member x (k ∷ ks)) xs
  count_member_mono k ks [] = omega arith
  count_member_mono k ks (x ∷ xs) = ground (arith, count_member_mono k ks xs)

  -- A key that is in a list and not yet counted is counted at least once more.
  count_member-lt :
      (k : K) (ks xs : List K)
      → member k ks ≡ false
      → member k xs ≡ true
      → count_rows (λ x. member x ks) xs + 1 ≤ count_rows (λ x. member x (k ∷ ks)) xs
  count_member-lt k ks [] new there = absurd (cc)
  count_member-lt k ks (x ∷ xs) new there = ground (
    arith,
    new,
    count_member_mono k ks xs,
    count_member-lt k ks xs,
    e.equal_iff x k,
    e.equal_iff k x,
  )

  -- Distinct keys that all stand in a list are no more than its elements that are among them.
  pub length-le-count_rows :
      (ks xs : List K)
      → Nodup ks
      → All (λ k. member k xs ≡ true) ks
      → length ks ≤ count_rows (λ x. member x ks) xs
  length-le-count_rows [] xs u h = omega arith
  length-le-count_rows (k ∷ ks) xs u h =
      omega (arith, length-le-count_rows ks xs u.1 h.1, count_member-lt k ks xs u.0 h.0)

module _ {ℓ} {K : Type ℓ} ⦃e : Equality K⦄ where
  length-add : (k : K) (s : List K) → length (add k s) ≤ length s + 1
  length-add k s = ground (arith, length-append s (k ∷ []))

  length-add_all : (s xs : List K) → length (add_all s xs) ≤ length s + length xs
  unfolding add_all
  length-add_all s [] = omega arith
  length-add_all s (x ∷ xs) = omega (arith, length-add_all (add x s) xs, length-add x s)

  pub length-set_of : (xs : List K) → length (set_of xs) ≤ length xs
  unfolding add_all
  length-set_of xs = omega (arith, length-add_all [] xs)

  pub set_of-Nodup : (xs : List K) → Nodup (set_of xs)
  unfolding add_all
  set_of-Nodup xs = add_all-Nodup [] xs tt

  pub union-Nodup : (s t : List K) → Nodup s → Nodup (union s t)
  unfolding add_all
  union-Nodup s t u = add_all-Nodup s t u

  pub member-set_of : (k : K) (xs : List K) → member k (set_of xs) ≡ member k xs
  unfolding add_all
  member-set_of k xs = member-add_all k [] xs

  pub member-union : (k : K) (s t : List K) → member k (union s t) ≡ (member k s || member k t)
  unfolding add_all
  member-union k s t = member-add_all k s t

module _ {ℓ κ} {K : Type ℓ} {V : Type κ} ⦃e : Equality K⦄ where
  -- `d.get(k)`
  abbrev pub lookup : K → List (K × V) → Option V
  lookup k [] = none
  lookup k ((j, v) ∷ d) = if j == k then some v else lookup k d

  -- `d[k] = v`: a key keeps its place.
  abbrev pub put : K → V → List (K × V) → List (K × V)
  put k v [] = (k, v) ∷ []
  put k v ((j, w) ∷ d) = if j == k then (j, v) ∷ d else (j, w) ∷ put k v d

  -- `{k: v for …}`, on top of a dict
  unfoldable pub put_all : List (K × V) → List (K × V) → List (K × V)
  put_all d [] = d
  put_all d ((k, v) ∷ items) = put_all (put k v d) items

  abbrev pub dict_of : List (K × V) → List (K × V)
  unfolding put_all
  dict_of items = put_all [] items

  abbrev pub keys : List (K × V) → List K
  keys [] = []
  keys ((k, v) ∷ d) = k ∷ keys d

  abbrev pub values : List (K × V) → List V
  values [] = []
  values ((k, v) ∷ d) = v ∷ values d

  pub member-put :
      (j k : K) (v : V) (d : List (K × V))
      → member j (keys (put k v d)) ≡ (member j (keys d) || k == j)
  member-put j k v [] = ground arith
  member-put j k v ((i, w) ∷ d) =
      ground (arith, member-put j k v d, e.equal_iff i k, e.equal_iff i j, e.equal_iff k j)

  pub put-Nodup : (k : K) (v : V) (d : List (K × V)) → Nodup (keys d) → Nodup (keys (put k v d))
  put-Nodup k v [] u = (refl, tt)
  put-Nodup k v ((i, w) ∷ d) u = elim (Bool-cases (i == k)) [
    | inl own ↦ rw own u
    | inr other ↦ rw other (
      ground (arith, u.0, other, member-put i k v d, e.equal_iff i k, e.equal_iff k i),
      put-Nodup k v d u.1,
    )
  ]

  pub put_all-Nodup : (d items : List (K × V)) → Nodup (keys d) → Nodup (keys (put_all d items))
  unfolding put_all
  put_all-Nodup d [] u = u
  put_all-Nodup d ((k, v) ∷ items) u = put_all-Nodup (put k v d) items (put-Nodup k v d u)

  pub member-put_all :
      (j : K) (d items : List (K × V))
      → member j (keys (put_all d items)) ≡ (member j (keys d) || member j (keys items))
  unfolding put_all
  member-put_all j d [] = ground arith
  member-put_all j d ((k, v) ∷ items) =
      ground (arith, member-put_all j (put k v d) items, member-put j k v d)

  pub lookup-put :
      (j k : K) (v : V) (d : List (K × V))
      → lookup j (put k v d) ≡ (if k == j then some v else lookup j d)
  lookup-put j k v [] = refl
  lookup-put j k v ((i, w) ∷ d) =
      ground (arith, lookup-put j k v d, e.equal_iff i k, e.equal_iff i j, e.equal_iff k j)

  pub member-eq-lookup :
      (k : K) (d : List (K × V))
      → member k (keys d) ≡ elim (lookup k d) [ none ↦ false | some _ ↦ true ]
  member-eq-lookup k [] = refl
  member-eq-lookup k ((j, v) ∷ d) = ground (arith, member-eq-lookup k d)

  pub dict_of-Nodup : (items : List (K × V)) → Nodup (keys (dict_of items))
  unfolding put_all
  dict_of-Nodup items = put_all-Nodup [] items tt

  pub member-dict_of :
      (k : K) (items : List (K × V)) → member k (keys (dict_of items)) ≡ member k (keys items)
  unfolding put_all
  member-dict_of k items = member-put_all k [] items
