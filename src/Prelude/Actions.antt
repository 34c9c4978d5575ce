-- ===== src/Prelude/Actions.antt =====
-- Actions on a state that may raise: what was written before the raise stays written.
use trackrelay.Prelude.{◌≡◌, refl}
use trackrelay.Prelude.Errors.{Error, Result, ok, err, Exec}

infixl 5 ◌>>=◌ ◌>>◌
abbrev pub ◌>>=◌ {ℓ} : {S A B : Type ℓ} → Exec S A → (A → Exec S B) → Exec S B
◌>>=◌ m f s = let (r, s') = m s in elim r [ ok a ↦ f a s' | err e ↦ (err e, s') ]

abbrev pub ◌>>◌ {ℓ} : {S B : Type ℓ} → Exec S (Unit {ℓ}) → Exec S B → Exec S B
m >> k = m >>= λ _. k

abbrev pub pure {ℓ} : {S A : Type ℓ} → A → Exec S A
pure a s = (ok a, s)

abbrev pub raise {ℓ} : {S A : Type ℓ} → Error → Exec S A
raise e s = (err e, s)

abbrev pub lift {ℓ} : {S A : Type ℓ} → Result A → Exec S A
lift r s = (r, s)

-- What a block leaves: what its first action leaves, if that raises, and otherwise what the rest
-- makes of it.
module _ {ℓ} {S A B : Type ℓ} where
  resumed : Result A → (A → Exec S B) → S → Result B × S
  resumed r f s = elim r [ ok a ↦ f a s | err e ↦ (err e, s) ]

  resumed_keeps {κ} :
      (P : S → Type κ) (r : Result A) (f : A → Exec S B) (s : S)
      → P s
      → ((a : A) → r ≡ ok a → P (f a s).1)
      → P (resumed r f s).1
  unfolding resumed
  resumed_keeps P (ok a) f s raised returned = returned a refl
  resumed_keeps P (err e) f s raised returned = raised

  pub bind_keeps {κ} :
      (P : S → Type κ) (m : Exec S A) (f : A → Exec S B) (s : S)
      → P (m s).1
      → ((a : A) → (m s).0 ≡ ok a → P (f a (m s).1).1)
      → P ((m >>= f) s).1
  unfolding resumed
  bind_keeps P m f s raised returned = resumed_keeps P (m s).0 f (m s).1 raised returned
