-- ===== src/Storage/Outcomes.antt =====
-- How MakeTransactIfAvailable ends.
use bitcoin_processing.Base.{true, ◌↔◌, ◌≡◌, ◌⊎◌, inl, inr, arith, Bool-cases}
use bitcoin_processing.Monad.{ok, M}
use bitcoin_processing.Monad.Inversion.{Outcome-cases}
use bitcoin_processing.Storage.{Sql, make_transact_if_available}

module _ {S A : Type 0} (sql : Sql S) (f : M S A) where
  -- A result means that the function ran and gave it, and that its state was committed or, without
  -- a database, is simply there.
  pub transact-result :
      (s : S) {a : A}
      → (make_transact_if_available sql f s).0 ≡ ok a
      → (v : S) × ((f v).0 ≡ ok a)
        × (((make_transact_if_available sql f s).1 ≡ (f v).1)
            ⊎ ((make_transact_if_available sql f s).1 ≡ (sql.commit (f v).1).1))
  unfolding make_transact_if_available
  transact-result s h = elim (Bool-cases sql.available) [
    | inl e ↦ ((sql.begin s).1, ground arith, ground arith)
    | inr e ↦ (s, ground arith, ground arith)
  ]

  -- With a database whose rollback restores the state that a transaction began with, a transaction
  -- that began leaves one of two states: the one it began with, or, where the function gave a
  -- result, the one after the commit of what the function did. In the second case the call returns
  -- that result exactly when the commit succeeded.
  pub make_transact_if_available_atomic :
      (s : S)
      → sql.available ≡ true
      → ((before now : S) → sql.roll_back before now ≡ before)
      → (sql.begin s).0 ≡ ok tt
      → ((make_transact_if_available sql f s).1 ≡ (sql.begin s).1)
        ⊎ ((a : A) × ((f (sql.begin s).1).0 ≡ ok a)
            × ((make_transact_if_available sql f s).1 ≡ (sql.commit (f (sql.begin s).1).1).1)
            × (((sql.commit (f (sql.begin s).1).1).0 ≡ ok tt)
                ↔ ((make_transact_if_available sql f s).0 ≡ ok a)))
  unfolding make_transact_if_available
  make_transact_if_available_atomic s h back began =
      let v = (sql.begin s).1 in
      elim (Outcome-cases (f v).0) [
        | inl (a, e) ↦ inr (a, e, ground arith, (λ k. ground arith, λ k. ground arith))
        | inr (inl (x, e)) ↦ inl (ground (arith, back v (f v).1))
        | inr (inr (x, e)) ↦ inl (ground (arith, back v (f v).1))
      ]
