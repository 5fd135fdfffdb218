-- ===== src/Monad/Inversion.antt =====
-- What a successful action says about its parts.
use bitcoin_processing.Base.{◌⊎◌, inl, inr, ◌≡◌, refl}
use bitcoin_processing.Monad.{Error, Fault, Outcome, ok, err, panic, M, ◌>>=◌}

pub Outcome-cases :
    {A : Type 0} (r : Outcome A)
    → ((a : A) × (r ≡ ok a)) ⊎ ((e : Error) × (r ≡ err e)) ⊎ ((x : Fault) × (r ≡ panic x))
Outcome-cases (ok a) = inl (a, refl)
Outcome-cases (err e) = inr (inl (e, refl))
Outcome-cases (panic x) = inr (inr (x, refl))

module _ {S A B : Type 0} where
  result_parts :
      (r : Outcome A) (s : S) (f : A → M S B) {b : B}
      → (elim r as (λ x. Outcome B × S) [
        | ok a ↦ f a s
        | err e ↦ (err e, s)
        | panic p ↦ (panic p, s)
      ]).0
        ≡ ok b
      → (a : A) × (r ≡ ok a) × ((f a s).0 ≡ ok b)
  result_parts (ok a) s f h = (a, refl, h)
  result_parts (err e) s f h = cc
  result_parts (panic p) s f h = cc

  -- Where a sequence returns a result, both parts do.
  pub >>=-result :
      (m : M S A) (f : A → M S B) (s : S) {b : B}
      → ((m >>= f) s).0 ≡ ok b
      → (a : A) × ((m s).0 ≡ ok a) × ((f a (m s).1).0 ≡ ok b)
  >>=-result m f s h = result_parts (m s).0 (m s).1 f h

  -- What follows a result is what the second part does.
  pub >>=-of_ok :
      (m : M S A) (f : A → M S B) (s : S) {a : A} → (m s).0 ≡ ok a → (m >>= f) s ≡ f a (m s).1
  >>=-of_ok m f s h = rw (h, ◌>>=◌)

-- What a result says; an error or a panic says nothing.
abbrev pub Result : {A : Type 0} → (A → Type 0) → Outcome A → Type 0
Result P (ok a) = P a
Result P (err e) = Unit
Result P (panic p) = Unit

module _ {S A B : Type 0} where
  step :
      (r : Outcome A) (s : S) (f : A → M S B) (P : Outcome B × S → Type 0)
      → ((a : A) → r ≡ ok a → P (f a s))
      → ((e : Error) → r ≡ err e → P (err e, s))
      → ((x : Fault) → r ≡ panic x → P (panic x, s))
      → P (elim r as (λ x. Outcome B × S) [
        | ok a ↦ f a s
        | err e ↦ (err e, s)
        | panic p ↦ (panic p, s)
      ])
  step (ok a) s f P h k l = h a refl
  step (err e) s f P h k l = k e refl
  step (panic p) s f P h k l = l p refl

  -- A sequence by what its first part does.
  pub by_first :
      (m : M S A) (f : A → M S B) (s : S) (P : Outcome B × S → Type 0)
      → ((a : A) → (m s).0 ≡ ok a → P (f a (m s).1))
      → ((e : Error) → (m s).0 ≡ err e → P (err e, (m s).1))
      → ((x : Fault) → (m s).0 ≡ panic x → P (panic x, (m s).1))
      → P ((m >>= f) s)
  by_first m f s P h k l = step (m s).0 (m s).1 f P h k l

pub Result-ok : {A : Type 0} (P : A → Type 0) (r : Outcome A) {a : A} → Result P r → r ≡ ok a → P a
Result-ok P r h e = rw e at h

pub Result-of :
    {A : Type 0} (P : A → Type 0) (r : Outcome A) → ((a : A) → r ≡ ok a → P a) → Result P r
Result-of P (ok a) h = h a refl
Result-of P (err e) h = tt
Result-of P (panic p) h = tt
