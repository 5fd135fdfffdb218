-- ===== src/Wallet/Pending/Money.antt =====
-- The money required from cold storage is what the balance lacks for the pending withdrawals.
use bitcoin_processing.Base.{
  ℕ, ◌+◌, ◌-◌, ◌<◌, ◌^◌, ◌≡◌, ◌∙◌, inl, inr, true, false, List, [], ◌∷◌, arith, ltb, Bool-cases,
}
use bitcoin_processing.Base.Int.{
  ℤ, pos, ◌+ℤ◌, ◌-ℤ◌, to_int64, to_uint64, add64, sub64, add64-eq, sub64-eq, one_sign,
  to_int64-small, int_laws,
}
use bitcoin_processing.Types.Status.{TransactionStatus}
use bitcoin_processing.Types.Transaction.{Transaction}
use bitcoin_processing.Monad.{ok, M, pure, ◌>>=◌}
use bitcoin_processing.Monad.Inversion.{>>=-result, >>=-of_ok}
use bitcoin_processing.Storage.Outcomes.{transact-result}
use bitcoin_processing.Wallet.Interfaces.{Backend, World, wallet_sql, transact}
use bitcoin_processing.Wallet.Send.{update_pending_tx_status, send_withdrawal}
use bitcoin_processing.Wallet.Pending.{
  spend, overdraw, sort_by_amount, set_money_required, spend_unconfirmed, require_money,
  settle_unfunded, try_to_update_pending_txns,
}
use bitcoin_processing.Wallet.Pending.Amounts.{
  total, pay, total-sort, total-pay, pay_bounds, TooLarge, pay-TooLarge, spend_ok, overdraw_ok,
}

-- What the storage remembers as money required, and that a commit keeps it.
pub record MoneyLaws {Db Node : Type 0} (b : Backend Db Node) : Type 0 where
  pub money : Db → ℕ
  pub set_money_ok :
      (n : ℕ) (d : Db)
      → (b.storage.set_money_required_from_cold_storage n d).0 ≡ ok tt
      → money (b.storage.set_money_required_from_cold_storage n d).1 ≡ n
  pub commit_money : (d : Db) → money (b.sql.commit d).1 ≡ money d

-- `uint64(-availableBalance)` of a negative balance.
negated : (m n : ℕ) → m < n → n < 2 ^ 63 → to_uint64 (sub64 (pos 0) (pos m -ℤ pos n)) ≡ n - m
negated m n h k =
    rw (sub64-eq (pos 0) (pos m -ℤ pos n) (omega (int_laws, one_sign (pos 0 -ℤ (pos m -ℤ pos n)))))
      (unfold to_uint64 ◌-ℤ◌ in ground arith)

with_unconfirmed :
    (m unconf : ℕ) → m + unconf < 2 ^ 63 → add64 (pos m) (to_int64 unconf) ≡ pos (m + unconf)
with_unconfirmed m unconf h =
    rw
      (
        to_int64-small unconf (omega arith),
        add64-eq (pos m) (pos unconf) (omega (int_laws, one_sign (pos m +ℤ pos unconf))),
      )
      (omega int_laws)

unpaid :
    (m : ℕ) (t : Transaction) (ts : List Transaction) → m < t.amount → pay m (t ∷ ts) ≡ (m, t ∷ ts)
unfolding pay
unpaid m t ts h = ground arith

module _ {Db Node : Type 0} (b : Backend Db Node) (laws : MoneyLaws b) where
  transact_money :
      {A : Type 0} (f : M (World Db Node) A) (w : World Db Node) {a : A}
      → (transact b f w).0 ≡ ok a
      → (v : World Db Node) × ((f v).0 ≡ ok a)
        × (laws.money (transact b f w).1.db ≡ laws.money (f v).1.db)
  unfolding transact
  transact_money f w h =
      let (v, r, s) = transact-result (wallet_sql b) f w h in
      (v, r, ground (arith, laws.commit_money (f v).1.db))

  counted :
      (unconf : ℕ) (a : ℤ) (ts : List Transaction)
      → ltb 0 unconf ≡ true
      → spend_unconfirmed b unconf a ts
        ≡ spend
            (update_pending_tx_status b TransactionStatus.pending)
            (add64 a (to_int64 unconf))
            ts
  unfolding spend_unconfirmed
  counted unconf a ts e = rw e

  not_counted :
      (unconf : ℕ) (a : ℤ) (ts : List Transaction)
      → ltb 0 unconf ≡ false
      → spend_unconfirmed b unconf a ts ≡ pure (a, ts)
  unfolding spend_unconfirmed
  not_counted unconf a ts e = rw e

  -- What is left after the unconfirmed balance is counted in.
  unconfirmed_ok :
      (unconf m : ℕ) (t : Transaction) (ts : List Transaction) (w : World Db Node)
      {p : ℤ × List Transaction}
      → m + unconf < 2 ^ 63
      → total (t ∷ ts) < 2 ^ 63
      → m < t.amount
      → (spend_unconfirmed b unconf (pos m) (t ∷ ts) w).0 ≡ ok p
      → p ≡ (pos (pay (m + unconf) (t ∷ ts)).0, (pay (m + unconf) (t ∷ ts)).1)
  unconfirmed_ok unconf m t ts w {p} bm bt large h = elim (Bool-cases (ltb 0 unconf)) [
    | inl e ↦
        let h1 : (spend (update_pending_tx_status b TransactionStatus.pending) (pos (m + unconf))
              (t ∷ ts) w).0
            ≡ ok p =
          rw (counted unconf (pos m) (t ∷ ts) e, with_unconfirmed m unconf bm) at h in
        spend_ok (update_pending_tx_status b TransactionStatus.pending) (m + unconf) (t ∷ ts) w bm
          bt h1
    | inr e ↦
        let none_left : m + unconf ≡ m = ground arith in
        let h1 : ok (pos m, t ∷ ts) ≡ ok p = rw (not_counted unconf (pos m) (t ∷ ts) e) at h in
        rw (none_left, unpaid m t ts large) (cc h1)
  ]

  require_ok :
      (m : ℕ) (ts : List Transaction) (w : World Db Node)
      → m < 2 ^ 63
      → total ts < 2 ^ 63
      → TooLarge m ts
      → (require_money b (pos m) ts w).0 ≡ ok tt
      → laws.money (require_money b (pos m) ts w).1.db ≡ total ts - m
  unfolding require_money
  require_ok m [] w bm bt large h = ground (arith, laws.set_money_ok 0 w.db)
  require_ok m (t ∷ ts) w bm bt large h =
      let act = update_pending_tx_status b TransactionStatus.pending_cold_storage in
      let set = λ (left : ℤ). set_money_required b (to_uint64 (sub64 (pos 0) left)) in
      let (z, r, k) = >>=-result (overdraw act (pos m) (t ∷ ts)) set w h in
      let left = overdraw_ok act (pos m) (t ∷ ts) w bm (omega arith) r in
      let amount = negated m (total (t ∷ ts)) (omega arith) bt in
      let w1 = (overdraw act (pos m) (t ∷ ts) w).1 in
      let k1 : (set_money_required b (total (t ∷ ts) - m) w1).0 ≡ ok tt = rw (left, amount) at k in
      rw (>>=-of_ok (overdraw act (pos m) (t ∷ ts)) set w r, left, amount)
        (laws.set_money_ok (total (t ∷ ts) - m) w1.db k1)

  settle_ok :
      (unconf m : ℕ) (ts : List Transaction) (w : World Db Node)
      → m + unconf < 2 ^ 63
      → total ts < 2 ^ 63
      → TooLarge m ts
      → (settle_unfunded b unconf (pos m) ts w).0 ≡ ok tt
      → laws.money (settle_unfunded b unconf (pos m) ts w).1.db ≡ total ts - (m + unconf)
  settle_ok unconf m [] w bm bt large h =
      unfold settle_unfunded in ground (arith, laws.set_money_ok 0 w.db)
  settle_ok unconf m (t ∷ ts) w bm bt large h =
      let rest = λ (p : ℤ × List Transaction). require_money b p.0 p.1 in
      let body = spend_unconfirmed b unconf (pos m) (t ∷ ts) >>= rest in
      let (v, r, e) = transact_money body w (unfold settle_unfunded in h) in
      let (p, q, k) = >>=-result (spend_unconfirmed b unconf (pos m) (t ∷ ts)) rest v r in
      let after = unconfirmed_ok unconf m t ts v bm bt large q in
      let (m', us) = pay (m + unconf) (t ∷ ts) in
      let w1 = (spend_unconfirmed b unconf (pos m) (t ∷ ts) v).1 in
      let (less, fewer) = pay_bounds (m + unconf) (t ∷ ts) in
      let required =
        require_ok m' us w1 (omega arith) (omega arith) (pay-TooLarge (m + unconf) (t ∷ ts))
          (rw after at k) in
      let body_money : laws.money (body v).1.db ≡ total us - m' =
        rw (>>=-of_ok (spend_unconfirmed b unconf (pos m) (t ∷ ts)) rest v q, after) required in
      let settled : laws.money (settle_unfunded b unconf (pos m) (t ∷ ts) w).1.db ≡ total us - m' =
        unfold settle_unfunded in e ∙ body_money in
      omega (arith, settled, total-pay (m + unconf) (t ∷ ts))

  try_start :
      (w : World Db Node) (pending : List Transaction) (confirmed unconfirmed : ℕ)
      → (b.storage.get_pending_transactions w.db).0 ≡ ok pending
      → (b.node_api.get_confirmed_and_unconfirmed_balance w.node).0 ≡ ok (confirmed, unconfirmed)
      → try_to_update_pending_txns b w
        ≡ (spend (send_withdrawal b false) (to_int64 confirmed) (sort_by_amount pending)
              >>= λ (p : ℤ × List Transaction). settle_unfunded b unconfirmed p.0 p.1)
            (record w {
              db = (b.storage.get_pending_transactions w.db).1;
              node = (b.node_api.get_confirmed_and_unconfirmed_balance w.node).1;
            })
  unfolding try_to_update_pending_txns
  try_start w pending confirmed unconfirmed pe be = rw (pe, ◌>>=◌) (rw (be, ◌>>=◌))

  -- Where tryToUpdatePendingTxns succeeds, the money that it requires from cold storage is what the
  -- confirmed and the unconfirmed balance together lack for all pending withdrawals (none where
  -- they suffice). The amounts and the balance are assumed to fit into an int64.
  pub update_money_required :
      (w : World Db Node) (pending : List Transaction) (confirmed unconfirmed : ℕ)
      → (b.storage.get_pending_transactions w.db).0 ≡ ok pending
      → (b.node_api.get_confirmed_and_unconfirmed_balance w.node).0 ≡ ok (confirmed, unconfirmed)
      → confirmed + unconfirmed < 2 ^ 63
      → total pending < 2 ^ 63
      → (try_to_update_pending_txns b w).0 ≡ ok tt
      → laws.money (try_to_update_pending_txns b w).1.db ≡ total pending - (confirmed + unconfirmed)
  update_money_required w pending confirmed unconfirmed pe be bm bt h =
      let sorted = sort_by_amount pending in
      let act = send_withdrawal b false in
      let w2 : World Db Node = record w {
        db = (b.storage.get_pending_transactions w.db).1;
        node = (b.node_api.get_confirmed_and_unconfirmed_balance w.node).1;
      } in
      let settle = λ (p : ℤ × List Transaction). settle_unfunded b unconfirmed p.0 p.1 in
      let start : try_to_update_pending_txns b w
          ≡ (spend act (pos confirmed) sorted >>= settle) w2 =
        try_start w pending confirmed unconfirmed pe be
        ∙ rw (to_int64-small confirmed (omega arith)) in
      let (p, q, k) = >>=-result (spend act (pos confirmed) sorted) settle w2 (rw start at h) in
      let same = total-sort pending in
      let after = spend_ok act confirmed sorted w2 (omega arith) (omega arith) q in
      let (less, fewer) = pay_bounds confirmed sorted in
      let (m, us) = pay confirmed sorted in
      let w3 = (spend act (pos confirmed) sorted w2).1 in
      let settled =
        settle_ok unconfirmed m us w3 (omega arith) (omega arith) (pay-TooLarge confirmed sorted)
          (rw after at k) in
      rw (start, >>=-of_ok (spend act (pos confirmed) sorted) settle w2 q, after)
        (omega (arith, settled, total-pay confirmed sorted))
