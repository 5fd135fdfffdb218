-- ===== src/Wallet/Send/Saving.antt =====
-- The outcome of a withdrawal is saved, or the process ends.
use bitcoin_processing.Base.{
  ℕ, zero, suc, String, ◌≡◌, refl, ap, ◌∙◌, ◌⊎◌, inl, inr, arith, Bool-cases, if◌then◌else◌,
}
use bitcoin_processing.Base.Int.{ℤ, pos, ◌+ℤ◌}
use bitcoin_processing.Monad.{
  Error, Fault, Outcome, aborting, ok, err, panic, M, gets, skip, ◌>>=◌, ◌>>◌,
}
use bitcoin_processing.Monad.Keeps.{
  Keeps, Keeps->>=, Keeps->>, Keeps-gets, Keeps-lift, Keeps-skip, Keeps-if,
}
use bitcoin_processing.Monad.Inversion.{Outcome-cases}
use bitcoin_processing.Types.Status.{TransactionStatus}
use bitcoin_processing.Types.Transaction.{Transaction}
use bitcoin_processing.Events.Types.{EventType}
use bitcoin_processing.Wallet.Frame.{Keeps-transact_outside}
use bitcoin_processing.Wallet.Interfaces.{
  Backend, World, on_db, set_tx, store_transaction, transact, wallet_sql,
}
use bitcoin_processing.Storage.{finish, make_transact_if_available}
use bitcoin_processing.Monad.Inversion.{>>=-result}
use bitcoin_processing.Wallet.Notify.{
  notify_tx, report, notify_round, notify_rounds, notify_transaction,
}
use bitcoin_processing.Wallet.Send.Internal.{KeepsArgument}
use bitcoin_processing.Wallet.Send.{
  persist_withdraw_result_with_retry, store_sent, handle_withdrawal_success,
}

module _ {S : Type 0} (m : M S (Unit {0})) where
  tried_again :
      (n : ℕ) (w : S) {x : Error}
      → (m w).0 ≡ err x
      → persist_withdraw_result_with_retry m (suc n) w
        ≡ persist_withdraw_result_with_retry m n (m w).1
  unfolding persist_withdraw_result_with_retry
  tried_again n w e = ground arith

  -- What every attempt leaves alone is so in the attempt that succeeds.
  persist-Keeps :
      {X : Type 0} (p : S → X) (n : ℕ) (w : S)
      → Keeps p m
      → ((v : S) × (p v ≡ p w)
          × ((m v).0 ≡ ok tt)
          × (persist_withdraw_result_with_retry m n w ≡ m v))
        ⊎ ((x : Fault) × ((persist_withdraw_result_with_retry m n w).0 ≡ panic x))
  unfolding persist_withdraw_result_with_retry
  persist-Keeps p zero w k = elim (Outcome-cases (m w).0) [
    | inl (a, e) ↦ inl (w, refl, e, ground arith)
    | inr (inl (x, e)) ↦ inr (aborting, ground arith)
    | inr (inr (x, e)) ↦ inr (x, ground arith)
  ]
  persist-Keeps p (suc n) w k = elim (Outcome-cases (m w).0) [
    | inl (a, e) ↦ inl (w, refl, e, ground arith)
    | inr (inl (x, e)) ↦ rw (tried_again n w e) (elim (persist-Keeps p n (m w).1 k) [
      | inl (v, same, saved, ends) ↦ inl (v, same ∙ k.kept w, saved, ends)
      | inr failed ↦ inr failed
    ])
    | inr (inr (x, e)) ↦ inr (x, ground arith)
  ]

  -- However often saving fails: persistWithdrawResultWithRetry ends just like one of the attempts,
  -- which succeeded, or it panics. It never goes on without having saved.
  pub persist_withdraw_result_with_retry_ends :
      (n : ℕ) (w : S)
      → ((v : S) × ((m v).0 ≡ ok tt) × (persist_withdraw_result_with_retry m n w ≡ m v))
        ⊎ ((x : Fault) × ((persist_withdraw_result_with_retry m n w).0 ≡ panic x))
  persist_withdraw_result_with_retry_ends n w =
      elim (persist-Keeps (λ v. tt {0}) n w (record { kept = λ v. refl })) [
        | inl (v, same, saved, ends) ↦ inl (v, saved, ends)
        | inr failed ↦ inr failed
      ]

-- The hash and the status of the transaction that is being sent.
abbrev sent_as : {Db Node : Type 0} → World Db Node → String × TransactionStatus
sent_as w = (w.tx.hash, w.tx.status)

module _ {Db Node : Type 0} (b : Backend Db Node) (keeps : KeepsArgument b) where
  stored_parts :
      (w : World Db Node) (r : Outcome (Transaction × Transaction)) (d : Db)
      → ((p : Transaction × Transaction) → r ≡ ok p → sent_as (record w { tx = p.0 }) ≡ sent_as w)
      → sent_as
          (((λ (v : World Db Node). (r, record v { db = d })) >>= λ p.
              λ v. (ok p.1, record v { tx = p.0 }))
            w).1
        ≡ sent_as w
  stored_parts w (ok p) d h = h p refl
  stored_parts w (err e) d h = refl
  stored_parts w (panic x) d h = refl

  Keeps-store_transaction : Keeps sent_as (store_transaction b)
  Keeps-store_transaction = record {
    kept = λ w.
        let run = b.storage.store_transaction w.tx w.db in
        stored_parts w run.0 run.1
          (λ p e. ap (λ (t : Transaction). (t.hash, t.status)) (keeps.same_argument w.tx w.db p e));
  }

  Keeps-on_db : {A : Type 0} (m : M Db A) → Keeps (sent_as {Db = Db} {Node = Node}) (on_db m)
  Keeps-on_db m = record { kept = λ w. refl }

  Keeps-notify_tx : (et : EventType) (t : Transaction) → Keeps sent_as (notify_tx b et t)
  unfolding notify_tx
  Keeps-notify_tx et t = record { kept = λ w. refl }

  Keeps-report : (i : ℤ) → Keeps sent_as (report b i)
  Keeps-report i = record {
    kept = λ w.
        (Keeps->>= sent_as (on_db (b.storage.update_reported_confirmations w.tx i))
            (λ _. set_tx (λ t. record t { reported_confirmations = i }))
            (Keeps-on_db (b.storage.update_reported_confirmations w.tx i))
            (λ _. record { kept = λ v. refl })).kept
          w;
  }

  Keeps-round : (i : ℤ) → Keeps sent_as (notify_round b i)
  unfolding notify_round
  Keeps-round i =
      search (Keeps->>=, Keeps->>, Keeps-gets, Keeps-lift, Keeps-notify_tx, Keeps-report)

  Keeps-rounds : (n : ℕ) (i : ℤ) → Keeps sent_as (notify_rounds b n i)
  unfolding notify_rounds
  Keeps-rounds zero i = Keeps-skip sent_as
  Keeps-rounds (suc n) i =
      Keeps->>= sent_as (notify_round b i) (λ _. notify_rounds b n (i +ℤ pos 1)) (Keeps-round i)
        (λ _. Keeps-rounds n (i +ℤ pos 1))

  Keeps-notify_transaction : Keeps sent_as (notify_transaction b)
  unfolding notify_transaction
  Keeps-notify_transaction = search (Keeps->>=, Keeps-gets, Keeps-rounds)

  -- What is done in the database transaction after the money was sent.
  abbrev report_and_clear : Transaction → M (World Db Node) (Unit {0})
  report_and_clear tx =
      (if tx.cold_storage then skip else notify_transaction b) >> on_db b.storage.clear_wallet

  abbrev store_report_clear : M (World Db Node) (Unit {0})
  store_report_clear = store_transaction b >> (gets (λ w. w.tx) >>= report_and_clear)

  Keeps-report_and_clear : (tx : Transaction) → Keeps sent_as (report_and_clear tx)
  Keeps-report_and_clear tx =
      search (Keeps->>, Keeps-if, Keeps-skip, Keeps-notify_transaction, Keeps-on_db)

  Keeps-store_sent : Keeps sent_as (store_sent b)
  unfolding store_sent
  Keeps-store_sent =
      Keeps-transact_outside b sent_as (λ w d. refl) store_report_clear
        (Keeps->> sent_as (store_transaction b) (gets (λ w. w.tx) >>= report_and_clear)
          Keeps-store_transaction
          (Keeps->>= sent_as (gets (λ w. w.tx)) report_and_clear (Keeps-gets sent_as (λ w. w.tx))
            Keeps-report_and_clear))

  finished :
      {A : Type 0} (m : M (World Db Node) A) (before : World Db Node)
      (r : Outcome A × World Db Node) {a : A}
      → (finish (wallet_sql b) m before r).0 ≡ ok a
      → (x : A) × (r.0 ≡ ok x)
  finished m before (ok x, s) h = (x, refl)
  finished m before (err e, s) h = cc
  finished m before (panic p, s) h = cc

  begun :
      {A : Type 0} (m : M (World Db Node) A) (r : Outcome (Unit {0})) (before : World Db Node)
      {a : A}
      → (elim r as (λ x. Outcome A × World Db Node) [
        | ok _ ↦ finish (wallet_sql b) m before (m before)
        | err e ↦ (err e, before)
        | panic p ↦ (panic p, before)
      ]).0
        ≡ ok a
      → (x : A) × ((m before).0 ≡ ok x)
  begun m (ok u) before h = finished m before (m before) h
  begun m (err e) before h = cc
  begun m (panic p) before h = cc

  -- Where a database transaction succeeds, so did what ran in it.
  ran :
      {A : Type 0} (m : M (World Db Node) A) (w : World Db Node) {a : A}
      → (transact b m w).0 ≡ ok a
      → (d : Db) × (x : A) × ((m (record w { db = d })).0 ≡ ok x)
  unfolding transact make_transact_if_available
  ran m w {a = a} h = elim (Bool-cases b.sql.available) [
    | inl e ↦
        let run = b.sql.begin w.db in
        let (x, q) = begun m run.0 (record w { db = run.1 }) (rw e at h) in (run.1, x, q)
    | inr e ↦ (w.db, a, rw e at h)
  ]

  store_parts :
      (w : World Db Node) (r : Outcome (Transaction × Transaction)) (d : Db) {t : Transaction}
      → (((λ (v : World Db Node). (r, record v { db = d })) >>= λ p.
            λ v. (ok p.1, record v { tx = p.0 }))
          w).0
        ≡ ok t
      → (p : Transaction × Transaction) × (r ≡ ok p)
  store_parts w (ok p) d h = (p, refl)
  store_parts w (err e) d h = cc
  store_parts w (panic x) d h = cc

  stored_in :
      (v : World Db Node)
      → (store_sent b v).0 ≡ ok tt
      → (d : Db) × (p : Transaction × Transaction) × ((b.storage.store_transaction v.tx d).0 ≡ ok p)
  unfolding store_sent
  stored_in v h =
      let (d, x, q) = ran store_report_clear v h in
      let (t, stored, rest) =
        >>=-result (store_transaction b) (λ _. gets (λ w. w.tx) >>= report_and_clear)
          (record v { db = d }) q in
      let run = b.storage.store_transaction v.tx d in
      let (p, e) = store_parts (record v { db = d }) run.0 run.1 stored in (d, p, e)

  -- After the money was sent under a hash, handleWithdrawalSuccess panics, or it ends just like an
  -- attempt that succeeded in storing the transaction with this hash and the status new, and in
  -- what follows: however many attempts failed before. StoreTransaction changes the identifier of
  -- its argument and its mark of a fresh one at most.
  pub handle_withdrawal_success_saves :
      (h : String) (w : World Db Node)
      → ((v : World Db Node) × (v.tx.hash ≡ h)
          × (v.tx.status ≡ TransactionStatus.new)
          × ((store_sent b v).0 ≡ ok tt)
          × (handle_withdrawal_success b h w ≡ store_sent b v)
          × (d : Db) × (p : Transaction × Transaction) × ((b.storage.store_transaction v.tx d).0
              ≡ ok p))
        ⊎ ((x : Fault) × ((handle_withdrawal_success b h w).0 ≡ panic x))
  unfolding handle_withdrawal_success
  handle_withdrawal_success_saves h w =
      let start : World Db Node = record w {
        tx = record w.tx { status = TransactionStatus.new; hash = h };
      } in
      elim (persist-Keeps (store_sent b) sent_as 10 start Keeps-store_sent) [
        | inl (v, same, saved, ends) ↦
            let (d, p, stored) = stored_in v saved in
            inl (v, ap (λ x. x.0) same, ap (λ x. x.1) same, saved, ends, d, p, stored)
        | inr failed ↦ inr failed
      ]
