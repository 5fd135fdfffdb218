-- ===== src/Monad/Keeps.antt =====
-- Actions that leave a part of the state alone, however they end.
use bitcoin_processing.Base.{Bool, true, false, ◌⊎◌, inl, inr, ◌≡◌, refl, ◌∙◌, if◌then◌else◌}
use bitcoin_processing.Monad.{
  Error, Outcome, ok, err, panic, M, catch, skip, Fault, gets, lift, pure, fail, throw, ◌>>=◌, ◌>>◌,
}
use bitcoin_processing.Monad.Inversion.{Outcome-cases, >>=-of_ok}

pub record Keeps {S X A : Type 0} (p : S → X) (m : M S A) : Type 0 where
  pub kept : (w : S) → p (m w).1 ≡ p w

module _ {S X : Type 0} (p : S → X) where
  then_parts :
      {A B : Type 0} (r : Outcome A) (s : S) (f : A → M S B)
      → ((a : A) → Keeps p (f a))
      → p
          (elim r as (λ x. Outcome B × S) [
            | ok a ↦ f a s
            | err e ↦ (err e, s)
            | panic x ↦ (panic x, s)
          ]).1
        ≡ p s
  then_parts (ok a) s f h = (h a).kept s
  then_parts (err e) s f h = refl
  then_parts (panic x) s f h = refl

  catch_parts :
      {A : Type 0} (r : Outcome A) (s : S) (f : Error → M S A)
      → ((e : Error) → Keeps p (f e))
      → p
          (elim r as (λ x. Outcome A × S) [
            | ok a ↦ (ok a, s)
            | err e ↦ f e s
            | panic x ↦ (panic x, s)
          ]).1
        ≡ p s
  catch_parts (ok a) s f h = refl
  catch_parts (err e) s f h = (h e).kept s
  catch_parts (panic x) s f h = refl

  module _ {A B : Type 0} where
    pub Keeps->>= :
        (m : M S A) (f : A → M S B) → Keeps p m → ((a : A) → Keeps p (f a)) → Keeps p (m >>= f)
    Keeps->>= m f h k = record { kept = λ w. then_parts (m w).0 (m w).1 f k ∙ h.kept w }

    pub Keeps->> : (m : M S A) (k : M S B) → Keeps p m → Keeps p k → Keeps p (m >> k)
    Keeps->> m k h i = Keeps->>= m (λ _. k) h (λ _. i)

  module _ {A B : Type 0} where
    -- Either the first part decides, or it gives a result and the second part runs.
    pub >>=-cases :
        (m : M S A) (f : A → M S B) (w : S)
        → (p ((m >>= f) w).1 ≡ p (m w).1)
          ⊎ ((a : A) × ((m w).0 ≡ ok a) × ((m >>= f) w ≡ f a (m w).1))
    >>=-cases m f w = elim (Outcome-cases (m w).0) [
      | inl (a, e) ↦ inr (a, e, >>=-of_ok m f w e)
      | inr (inl (x, e)) ↦ inl (rw (e, ◌>>=◌))
      | inr (inr (x, e)) ↦ inl (rw (e, ◌>>=◌))
    ]

    -- A second part that leaves `p` alone does not count.
    pub after_first :
        (m : M S A) (f : A → M S B)
        → ((a : A) → Keeps p (f a))
        → (w : S) → p ((m >>= f) w).1 ≡ p (m w).1
    after_first m f k w = then_parts (m w).0 (m w).1 f k

  pub Keeps-catch :
      {A : Type 0} (m : M S A) (f : Error → M S A)
      → Keeps p m
      → ((e : Error) → Keeps p (f e))
      → Keeps p (catch m f)
  Keeps-catch m f h k = record { kept = λ w. catch_parts (m w).0 (m w).1 f k ∙ h.kept w }

  pub Keeps-gets : {A : Type 0} (f : S → A) → Keeps p (gets f)
  Keeps-gets f = record { kept = λ w. refl }

  pub Keeps-lift : {A : Type 0} (r : Outcome A) → Keeps p (lift r)
  Keeps-lift r = record { kept = λ w. refl }

  pub Keeps-pure : {A : Type 0} (x : A) → Keeps p (pure x)
  Keeps-pure x = record { kept = λ w. refl }

  pub Keeps-fail : {A : Type 0} (e : Error) → Keeps p (fail {A = A} e)
  Keeps-fail e = record { kept = λ w. refl }

  pub Keeps-throw : {A : Type 0} (x : Fault) → Keeps p (throw {A = A} x)
  Keeps-throw x = record { kept = λ w. refl }

  pub Keeps-skip : Keeps p skip
  Keeps-skip = record { kept = λ w. refl }

  pub Keeps-if :
      {A : Type 0} (c : Bool) {m k : M S A} → Keeps p m → Keeps p k → Keeps p (if c then m else k)
  Keeps-if true h i = h
  Keeps-if false h i = i
