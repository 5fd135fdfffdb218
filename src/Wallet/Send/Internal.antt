-- ===== src/Wallet/Send/Internal.antt =====
-- What a transfer between accounts of the wallet stores (internalWithdrawBetweenOurAccounts of
-- wallet/withdraw.go).
use bitcoin_processing.Base.{
  ℕ, zero, suc, ◌-◌, ◌≤◌, ltb, Bool, true, false, List, [], ◌∷◌, ◌++◌, inl, inr, ◌≡◌, refl, sym, ap,
  ◌∙◌, arith, Bool-cases, if◌then◌else◌,
}
use mathlib.Core.List.{append_assoc}
use bitcoin_processing.Base.Int.{ℤ, pos, negsuc, ◌+ℤ◌}
use bitcoin_processing.Bitcoin.Fee.{fixed, same_fee_type}
use bitcoin_processing.Types.Status.{TransactionStatus}
use bitcoin_processing.Types.Direction.{TransactionDirection}
use bitcoin_processing.Types.Transaction.{Transaction}
use bitcoin_processing.Events.Types.{EventType, Account}
use bitcoin_processing.Monad.{fee_exceeds_amount, Outcome, ok, err, panic, M, fail, ◌>>=◌, ◌>>◌}
use bitcoin_processing.Monad.Inversion.{>>=-result, >>=-of_ok}
use bitcoin_processing.Monad.Keeps.{Keeps, Keeps->>=, Keeps->>, Keeps-gets, Keeps-lift, Keeps-skip}
use bitcoin_processing.Storage.{make_transact_if_available}
use bitcoin_processing.Wallet.Interfaces.{
  Storage, Backend, World, on_db, with_tx, set_tx, transact, store_transaction,
  schedule_pending_tx_update,
}
use bitcoin_processing.Wallet.Notify.{
  notify_tx, report, notify_round, notify_rounds, notify_transaction,
}
use bitcoin_processing.Wallet.Send.{
  outgoing_half, incoming_half, internal_transfer, internal_withdraw_between_our_accounts,
}

-- A database with a list of what StoreTransaction was called with; a rollback does not undo calls.
abbrev pub Recorded : Type 0 → Type 0
Recorded Db = Db × List Transaction

abbrev pub on_inner : {Db A : Type 0} → M Db A → M (Recorded Db) A
on_inner m d = let (r, d') = m d.0 in (r, (d', d.1))

module _ {Db : Type 0} where
  abbrev pub recorded_storage : Storage Db → Storage (Recorded Db)
  recorded_storage s = record {
    get_last_seen_block_hash = on_inner s.get_last_seen_block_hash;
    set_last_seen_block_hash = λ h. on_inner (s.set_last_seen_block_hash h);
    store_transaction = λ t d. let (r, d') = s.store_transaction t d.0 in (r, (d', d.1 ++ t ∷ []));
    get_transaction_by_id = λ i. on_inner (s.get_transaction_by_id i);
    get_broadcasted_transactions_with_less_confirmations =
        λ n. on_inner (s.get_broadcasted_transactions_with_less_confirmations n);
    get_pending_transactions = on_inner s.get_pending_transactions;
    update_reported_confirmations = λ t i. on_inner (s.update_reported_confirmations t i);
    get_transactions_with_filter = λ x y. on_inner (s.get_transactions_with_filter x y);
    get_account_by_address = λ a. on_inner (s.get_account_by_address a);
    store_account = λ a. on_inner (s.store_account a);
    get_hot_wallet_address = on_inner s.get_hot_wallet_address;
    set_hot_wallet_address = λ a. on_inner (s.set_hot_wallet_address a);
    get_money_required_from_cold_storage = on_inner s.get_money_required_from_cold_storage;
    set_money_required_from_cold_storage = λ n. on_inner (s.set_money_required_from_cold_storage n);
    lock_wallet = λ t. on_inner (s.lock_wallet t);
    clear_wallet = on_inner s.clear_wallet;
    check_wallet_lock = on_inner s.check_wallet_lock;
  }

module _ {Db Node : Type 0} where
  abbrev pub recorded : Backend Db Node → Backend (Recorded Db) Node
  recorded b = record {
    storage = recorded_storage b.storage;
    sql = record {
      available = b.sql.available;
      begin = on_inner b.sql.begin;
      commit = on_inner b.sql.commit;
      roll_back = λ before now. (b.sql.roll_back before.0 now.0, now.1);
    };
    notify = λ et p. on_inner (b.notify et p);
    node_api = b.node_api;
    settings = b.settings;
  }

  -- What was stored so far.
  abbrev pub stored : World (Recorded Db) Node → List Transaction
  stored w = w.db.1

module _ {Db Node : Type 0} (b : Backend Db Node) where
  Keeps-on_inner : {A : Type 0} (m : M Db A) → Keeps (stored {Node = Node}) (on_db (on_inner m))
  Keeps-on_inner m = record { kept = λ w. refl }

  Keeps-notify_tx : (et : EventType) (t : Transaction) → Keeps stored (notify_tx (recorded b) et t)
  unfolding notify_tx
  Keeps-notify_tx et t = record { kept = λ w. refl }

  Keeps-report : (i : ℤ) → Keeps stored (report (recorded b) i)
  Keeps-report i = record {
    kept = λ w.
        (Keeps->>= stored (on_db (on_inner (b.storage.update_reported_confirmations w.tx i)))
            (λ _. set_tx (λ t. record t { reported_confirmations = i }))
            (Keeps-on_inner (b.storage.update_reported_confirmations w.tx i))
            (λ _. record { kept = λ v. refl })).kept
          w;
  }

  Keeps-round : (i : ℤ) → Keeps stored (notify_round (recorded b) i)
  unfolding notify_round
  Keeps-round i =
      search (Keeps->>=, Keeps->>, Keeps-gets, Keeps-lift, Keeps-notify_tx, Keeps-report)

  Keeps-rounds : (n : ℕ) (i : ℤ) → Keeps stored (notify_rounds (recorded b) n i)
  unfolding notify_rounds
  Keeps-rounds zero i = Keeps-skip stored
  Keeps-rounds (suc n) i =
      Keeps->>= stored (notify_round (recorded b) i)
        (λ _. notify_rounds (recorded b) n (i +ℤ pos 1)) (Keeps-round i)
        (λ _. Keeps-rounds n (i +ℤ pos 1))

  -- Reporting a transaction stores none.
  Keeps-notify_transaction : Keeps stored (notify_transaction (recorded b))
  unfolding notify_transaction
  Keeps-notify_transaction = search (Keeps->>=, Keeps-gets, Keeps-rounds)

  -- StoreTransaction, and the report of what it returned: one transaction more is stored.
  abbrev store_and_report : M (World (Recorded Db) Node) (Unit {0})
  store_and_report =
      store_transaction (recorded b) >>= λ t. with_tx t (notify_transaction (recorded b))

  -- The call of StoreTransaction, by what the storage gives.
  abbrev stored_with :
      Outcome (Transaction × Transaction) → Db → M (World (Recorded Db) Node) Transaction
  stored_with r d =
      (λ (v : World (Recorded Db) Node). (r, record v { db = (d, v.db.1 ++ v.tx ∷ []) })) >>= λ p.
      λ v. (ok p.1, record v { tx = p.0 })

  -- What is stored, and what the object is then.
  abbrev Stores :
      World (Recorded Db) Node
      → Outcome (Transaction × Transaction)
      → Outcome (Unit {0}) × World (Recorded Db) Node
      → Type 0
  Stores w r q =
      (p : Transaction × Transaction) × (r ≡ ok p)
      × (q.1.tx ≡ p.0)
      × (stored q.1 ≡ stored w ++ w.tx ∷ [])

  stored_parts :
      (r : Outcome (Transaction × Transaction)) (d : Db) (w : World (Recorded Db) Node)
      → ((stored_with r d >>= λ t. with_tx t (notify_transaction (recorded b))) w).0 ≡ ok tt
      → Stores w r ((stored_with r d >>= λ t. with_tx t (notify_transaction (recorded b))) w)
  stored_parts (ok p) d w h = (
    p,
    refl,
    refl,
    Keeps-notify_transaction.kept (record w { db = (d, w.db.1 ++ w.tx ∷ []); tx = p.1 }),
  )
  stored_parts (err e) d w h = cc
  stored_parts (panic x) d w h = cc

  store_and_report-stored :
      (w : World (Recorded Db) Node)
      → (store_and_report w).0 ≡ ok tt
      → Stores w (b.storage.store_transaction w.tx w.db.0).0 (store_and_report w)
  store_and_report-stored w h =
      stored_parts (b.storage.store_transaction w.tx w.db.0).0
        (b.storage.store_transaction w.tx w.db.0).1 w h

  -- What internal transfers rely on in StoreTransaction: of its argument it changes the identifier
  -- and the mark of a fresh transaction at most.
  pub record KeepsArgument : Type 0 where
    pub same_argument :
        (t : Transaction) (d : Db) (p : Transaction × Transaction)
        → (b.storage.store_transaction t d).0 ≡ ok p
        → p.0 ≡ (record t { id = p.0.id; fresh = p.0.fresh })

  -- The two halves of an internal transfer.
  abbrev pub outgoing : Transaction → Transaction
  outgoing t = record t {
    fee = if same_fee_type t.fee_type fixed then t.fee else 0;
    confirmations = b.settings.max_confirmations;
    status = TransactionStatus.fully_confirmed;
  }

  abbrev pub incoming : Account → Transaction → Bool → Transaction
  incoming account o fresh = record o {
    reported_confirmations = negsuc 0;
    direction = TransactionDirection.incoming;
    metainfo = account.metainfo;
    id = 0;
    amount = o.amount - o.fee;
    fresh = fresh;
  }

  abbrev pub both_halves : Bool → Account → Transaction → Bool → List Transaction
  both_halves cold account o fresh =
      if cold then incoming account o fresh ∷ [] else o ∷ incoming account o fresh ∷ []

  -- What an internal transfer stores between two states.
  abbrev pub Transfers :
      Bool → Account → Transaction → World (Recorded Db) Node → World (Recorded Db) Node → Type 0
  Transfers cold account o w v =
      (fresh : Bool) × (stored v ≡ stored w ++ both_halves cold account o fresh)

  refused_ok : ◌≡◌ {A = Outcome (Unit {0})} (err fee_exceeds_amount) (ok tt) → ⊥
  refused_ok h = cc

  credited :
      (account : Account) (w : World (Recorded Db) Node)
      → (incoming_half (recorded b) account w).0 ≡ ok tt
      → stored (incoming_half (recorded b) account w).1
        ≡ stored w ++ incoming account w.tx w.tx.fresh ∷ []
  credited account w h =
      let (p, r, t, s) =
        store_and_report-stored (record w { tx = incoming account w.tx w.tx.fresh }) h in
      s

  halves :
      (account : Account) (w : World (Recorded Db) Node) (cold : Bool)
      → KeepsArgument
      → w.tx.cold_storage ≡ cold
      → ((outgoing_half (recorded b) w.tx >> incoming_half (recorded b) account) w).0 ≡ ok tt
      → Transfers cold account w.tx w
          ((outgoing_half (recorded b) w.tx >> incoming_half (recorded b) account) w).1
  halves account w true keeps c h =
      let only : (outgoing_half (recorded b) w.tx >> incoming_half (recorded b) account) w
          ≡ incoming_half (recorded b) account w =
        rw c refl in
      (w.tx.fresh, ap (λ q. stored q.1) only ∙ credited account w (rw only at h))
  halves account w false keeps c h =
      let both : (outgoing_half (recorded b) w.tx >> incoming_half (recorded b) account) w
          ≡ (store_and_report >> incoming_half (recorded b) account) w =
        rw c refl in
      let second = λ (u : Unit {0}). incoming_half (recorded b) account in
      let (u, r, i) = >>=-result store_and_report second w (rw both at h) in
      let v = (store_and_report w).1 in
      let (p, e, t, s) = store_and_report-stored w r in
      let same : v.tx ≡ (record w.tx { id = p.0.id; fresh = p.0.fresh }) =
        t ∙ keeps.same_argument w.tx w.db.0 p e in
      let half : incoming account v.tx v.tx.fresh ≡ incoming account w.tx p.0.fresh =
        ap (λ x. incoming account x x.fresh) same in
      (
        p.0.fresh,
        ap (λ q. stored q.1) (both ∙ >>=-of_ok store_and_report second w r)
            ∙ credited account v i
            ∙ ap (λ l. l ++ incoming account v.tx v.tx.fresh ∷ []) s
            ∙ append_assoc (stored w) (w.tx ∷ []) (incoming account v.tx v.tx.fresh ∷ [])
            ∙ ap (λ x. stored w ++ w.tx ∷ x ∷ []) half,
      )

  -- The object as a transfer stores it first.
  abbrev confirmed : World (Recorded Db) Node → World (Recorded Db) Node
  confirmed w = record w {
    tx = record w.tx {
      confirmations = b.settings.max_confirmations;
      status = TransactionStatus.fully_confirmed;
    };
  }

  internal_transfer-Transfers :
      (account : Account) (w : World (Recorded Db) Node)
      → KeepsArgument
      → (internal_transfer (recorded b) account w).0 ≡ ok tt
      → Transfers w.tx.cold_storage account
          (confirmed w).tx
          w
          (internal_transfer (recorded b) account w).1
  unfolding internal_transfer
  internal_transfer-Transfers account w keeps h =
      halves account (confirmed w) w.tx.cold_storage keeps refl h

  -- A transaction of the database that succeeds stores what its function stores from the same
  -- object on.
  transact_parts :
      (f : M (World (Recorded Db) Node) (Unit {0})) (w : World (Recorded Db) Node)
      → (transact (recorded b) f w).0 ≡ ok tt
      → (d : Db) × ((f (record w { db = (d, w.db.1) })).0 ≡ ok tt)
        × (stored (transact (recorded b) f w).1 ≡ stored (f (record w { db = (d, w.db.1) })).1)
  unfolding transact make_transact_if_available
  transact_parts f w h = elim (Bool-cases b.sql.available) [
    | inl e ↦ ((b.sql.begin w.db.0).1, ground arith, ground arith)
    | inr e ↦ (w.db.0, ground arith, ground arith)
  ]

  -- A transfer to an address of one of the wallet's accounts that succeeds calls StoreTransaction
  -- for two transactions and no other: the outgoing one, fully confirmed, with the fee it names,
  -- or none where its fee type is not the fixed fee; and an incoming one, under a new identifier
  -- and with the metainfo of the account, that differs from it in nothing else but its amount,
  -- which is less by the fee. The amount covers the fee. A transfer to cold storage stores only
  -- the incoming one. StoreTransaction changes the identifier and the mark of a fresh
  -- transaction of its argument at most.
  pub internal_withdraw_stores :
      (account : Account) (w : World (Recorded Db) Node)
      → KeepsArgument
      → (internal_withdraw_between_our_accounts (recorded b) account w).0 ≡ ok tt
      → ((outgoing w.tx).fee ≤ w.tx.amount)
        × Transfers w.tx.cold_storage account
            (outgoing w.tx)
            w
            (internal_withdraw_between_our_accounts (recorded b) account w).1
  unfolding internal_withdraw_between_our_accounts schedule_pending_tx_update
  internal_withdraw_stores account w keeps h =
      let charged : World (Recorded Db) Node = record w {
        tx = record w.tx { fee = (outgoing w.tx).fee };
      } in
      let act = internal_withdraw_between_our_accounts (recorded b) account in
      elim (Bool-cases (ltb w.tx.amount (outgoing w.tx).fee)) [
        | inl e ↦
            let refused : act w ≡ fail fee_exceeds_amount charged = rw e refl in
            absurd (refused_ok (ap (λ r. r.0) (sym refused) ∙ h))
        | inr e ↦
            let transfer = transact (recorded b) (internal_transfer (recorded b) account) in
            let next =
              λ (u : Unit {0}). schedule_pending_tx_update {Db = Recorded Db} {Node = Node} in
            let opened : act w ≡ (transfer >>= next) charged = rw e refl in
            let (u, r, i) = >>=-result transfer next charged (rw opened at h) in
            let (d, k, s) = transact_parts (internal_transfer (recorded b) account) charged r in
            let (fresh, q) =
              internal_transfer-Transfers account (record charged { db = (d, w.db.1) }) keeps k in
            (
              ground arith,
              (fresh, ap (λ x. stored x.1) (opened ∙ >>=-of_ok transfer next charged r) ∙ s ∙ q),
            )
      ]
