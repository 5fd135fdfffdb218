-- ===== src/Wallet/Frame.antt =====
-- Parts of a state that an action leaves alone.
pub mod Sending
pub mod Paying
pub use bitcoin_processing.Monad.Keeps.{
  Keeps, Keeps->>=, Keeps->>, >>=-cases, after_first, Keeps-catch, Keeps-gets, Keeps-lift,
  Keeps-pure, Keeps-fail, Keeps-throw, Keeps-skip, Keeps-if,
}
use bitcoin_processing.Base.{
  ℕ, zero, suc, Bool, true, false, arith, ◌⊎◌, inl, inr, Bool-cases, ◌≡◌, refl, ◌∙◌, if◌then◌else◌,
}
use bitcoin_processing.Monad.{
  Error, Outcome, ok, err, panic, M, catch, skip, Fault, gets, lift, pure, fail, throw, ◌>>=◌, ◌>>◌,
}
use bitcoin_processing.Monad.Inversion.{Outcome-cases, >>=-of_ok}
use bitcoin_processing.Storage.{make_transact_if_available, finish}
use bitcoin_processing.Types.Transaction.{Transaction}
use bitcoin_processing.Wallet.Interfaces.{
  Backend, World, on_db, set_tx, with_tx, transact, wallet_sql,
}

-- A part of the wallet's state that neither the database nor the argument `tx` is part of.
pub record Apart {Db Node X : Type 0} (p : World Db Node → X) : Type 0 where
  pub apart_db : (w : World Db Node) (d : Db) → p (record w { db = d }) ≡ p w
  pub apart_tx : (w : World Db Node) (t : Transaction) → p (record w { tx = t }) ≡ p w

-- A database transaction, for a part of the state that the database is no part of.
module _ {Db Node X : Type 0} (b : Backend Db Node) (p : World Db Node → X)
    (outside : (w : World Db Node) (d : Db) → p (record w { db = d }) ≡ p w) where
  ended :
      {A : Type 0} (m : M (World Db Node) A) (w : World Db Node) (r : Outcome A × World Db Node)
      → p (finish (wallet_sql b) m w r).1 ≡ p r.1
  ended m w (ok x, s) = ground (arith, outside s (b.sql.commit s.db).1)
  ended m w (err e, s) = outside s _
  ended m w (panic f, s) = outside s _

  pub Keeps-transact_outside :
      {A : Type 0} (m : M (World Db Node) A) → Keeps p m → Keeps p (transact b m)
  unfolding transact make_transact_if_available
  Keeps-transact_outside m h = record {
    kept = λ w. elim (Bool-cases b.sql.available) [
      | inl e ↦ ground (
        arith,
        h.kept (record w { db = (b.sql.begin w.db).1 }),
        outside w (b.sql.begin w.db).1,
        ended m (record w { db = (b.sql.begin w.db).1 })
            (m (record w { db = (b.sql.begin w.db).1 })),
      )
      | inr e ↦ ground (arith, h.kept w)
    ];
  }

module _ {Db Node X : Type 0} (b : Backend Db Node) (p : World Db Node → X) (a : Apart p) where
  pub Keeps-on_db : {A : Type 0} (m : M Db A) → Keeps p (on_db m)
  Keeps-on_db m = record { kept = λ w. a.apart_db w (m w.db).1 }

  pub Keeps-set_tx : (f : Transaction → Transaction) → Keeps p (set_tx f)
  Keeps-set_tx f = record { kept = λ w. a.apart_tx w (f w.tx) }

  pub Keeps-with_tx :
      {A : Type 0} (t : Transaction) (m : M (World Db Node) A) → Keeps p m → Keeps p (with_tx t m)
  Keeps-with_tx t m h = record {
    kept = λ w.
        a.apart_tx (m (record w { tx = t })).1 w.tx ∙ h.kept (record w { tx = t }) ∙ a.apart_tx w t;
  }

  pub Keeps-transact : {A : Type 0} (m : M (World Db Node) A) → Keeps p m → Keeps p (transact b m)
  Keeps-transact m h = Keeps-transact_outside b p a.apart_db m h

pub ruleset frame_rules = (
  Keeps->>=, Keeps->>, Keeps-catch, Keeps-if, Keeps-gets, Keeps-lift, Keeps-pure, Keeps-fail,
  Keeps-throw, Keeps-skip, Keeps-on_db, Keeps-set_tx, Keeps-with_tx, Keeps-transact,
)
