-- ===== src/Storage.antt =====
-- storage/storage.go: MakeTransactIfAvailable. The SQL driver is a parameter.
pub mod Outcomes
pub mod Meta
mod Tests
use bitcoin_processing.Base.{Bool, true, false}
use bitcoin_processing.Monad.{Outcome, ok, err, panic, M}

-- `available` says that there is a database (`db != nil`); `roll_back before now` is the state
-- after the transaction that began at `before` is abandoned at `now`.
pub record Sql (S : Type 0) : Type 0 where
  pub available : Bool
  pub begin : M S (Unit {0})
  pub commit : M S (Unit {0})
  pub roll_back : S → S → S

module _ {S A : Type 0} (sql : Sql S) (f : M S A) where
  abbrev pub finish : S → Outcome A × S → Outcome A × S
  finish before (ok a, s) =
      let (r, s') = sql.commit s in
      elim r [ ok _ ↦ (ok a, s') | err e ↦ (err e, s') | panic p ↦ (panic p, s') ]
  finish before (err e, s) = (err e, sql.roll_back before s)
  finish before (panic p, s) = (panic p, sql.roll_back before s)

  unfoldable pub make_transact_if_available : M S A
  make_transact_if_available s = elim sql.available [
    | false ↦ f s
    | true ↦
        let (r, before) = sql.begin s in
        elim r [
          | ok _ ↦ finish before (f before)
          | err e ↦ (err e, before)
          | panic p ↦ (panic p, before)
        ]
  ]
