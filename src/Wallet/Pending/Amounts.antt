-- ===== src/Wallet/Pending/Amounts.antt =====
-- The loops of tryToUpdatePendingTxns as sums of satoshi, in the range where an int64 does not
-- wrap around.
use bitcoin_processing.Base.{
  ℕ, ◌+◌, ◌-◌, ◌≤◌, ◌<◌, ◌^◌, ◌≡◌, refl, sym, ◌∙◌, inl, inr, true, false, List, [], ◌∷◌, arith, leb,
  leb→le, Bool-cases, if◌then◌else◌,
}
use bitcoin_processing.Base.Int.{
  ℤ, pos, pos_part, neg_part, ◌-ℤ◌, to_int64, sub64, sub64-eq, one_sign, to_int64-small, int_laws,
}
use bitcoin_processing.Types.Transaction.{Transaction}
use bitcoin_processing.Monad.{ok, M, pure, ◌>>=◌}
use bitcoin_processing.Monad.Inversion.{>>=-result}
use bitcoin_processing.Wallet.Interfaces.{World, with_tx}
use bitcoin_processing.Wallet.Pending.{affords, spend, overdraw, insert_by_amount, sort_by_amount}

abbrev pub total : List Transaction → ℕ
total [] = 0
total (t ∷ ts) = t.amount + total ts

-- The first transactions are paid for one by one, up to the first that is too large: the money
-- left, and the transactions from that one on.
unfoldable pub pay : ℕ → List Transaction → ℕ × List Transaction
pay m [] = (m, [])
pay m (t ∷ ts) = let rest = pay (m - t.amount) ts in if leb t.amount m then rest else (m, t ∷ ts)

total-insert :
    (t : Transaction) (ts : List Transaction) → total (insert_by_amount t ts) ≡ t.amount + total ts
unfolding insert_by_amount
total-insert t [] = refl
total-insert t (u ∷ us) = ground (arith, total-insert t us)

pub total-sort : (ts : List Transaction) → total (sort_by_amount ts) ≡ total ts
unfolding sort_by_amount
total-sort [] = refl
total-sort (t ∷ ts) = omega (arith, total-insert t (sort_by_amount ts), total-sort ts)

-- No money is made or lost by paying.
pub total-pay : (m : ℕ) (ts : List Transaction) → (pay m ts).0 + total ts ≡ m + total (pay m ts).1
unfolding pay
total-pay m [] = refl
total-pay m (t ∷ ts) = ground (arith, total-pay (m - t.amount) ts)

pub pay_bounds :
    (m : ℕ) (ts : List Transaction) → ((pay m ts).0 ≤ m) × (total (pay m ts).1 ≤ total ts)
unfolding pay
pay_bounds m [] = omega arith
pay_bounds m (t ∷ ts) = ground (arith, pay_bounds (m - t.amount) ts)

-- What is not paid for begins with a transaction that is too large.
abbrev pub TooLarge : ℕ → List Transaction → Type 0
TooLarge m [] = Unit
TooLarge m (t ∷ ts) = m < t.amount

pub pay-TooLarge : (m : ℕ) (ts : List Transaction) → TooLarge (pay m ts).0 (pay m ts).1
unfolding pay
pay-TooLarge m [] = tt
pay-TooLarge m (t ∷ ts) = elim (Bool-cases (leb t.amount m)) [
  | inl e ↦ rw (e, pay) (pay-TooLarge (m - t.amount) ts)
  | inr e ↦ rw (e, pay) (ground arith)
]

sub_amount :
    (m : ℕ) (t : Transaction)
    → m < 2 ^ 63
    → t.amount < 2 ^ 63
    → sub64 (pos m) (to_int64 t.amount) ≡ pos m -ℤ pos t.amount
sub_amount m t h k =
    rw (to_int64-small t.amount k)
      (sub64-eq (pos m) (pos t.amount) (omega (int_laws, one_sign (pos m -ℤ pos t.amount))))

sub_from :
    (a : ℤ) (t : Transaction)
    → pos_part a < 2 ^ 63
    → neg_part a + t.amount < 2 ^ 63
    → sub64 a (to_int64 t.amount) ≡ a -ℤ pos t.amount
sub_from a t h k =
    rw (to_int64-small t.amount (omega arith))
      (sub64-eq a (pos t.amount) (omega (int_laws, one_sign (a -ℤ pos t.amount))))

ok_value : {a b : ℤ} → ok a ≡ ok b → a ≡ b
ok_value h = cc

affords_lem :
    (m : ℕ) (t : Transaction) → m < 2 ^ 63 → t.amount < 2 ^ 63 → affords (pos m) t ≡ leb t.amount m
unfolding ◌-ℤ◌
affords_lem m t h k = rw (sub_amount m t h k) (ground arith)

minus_pos : (m a : ℕ) → a ≤ m → pos m -ℤ pos a ≡ pos (m - a)
unfolding ◌-ℤ◌
minus_pos m a h = ground arith

pay_paid :
    (m : ℕ) (t : Transaction) (ts : List Transaction)
    → leb t.amount m ≡ true
    → pay m (t ∷ ts) ≡ pay (m - t.amount) ts
unfolding pay
pay_paid m t ts e = rw e

pay_too_large :
    (m : ℕ) (t : Transaction) (ts : List Transaction)
    → leb t.amount m ≡ false
    → pay m (t ∷ ts) ≡ (m, t ∷ ts)
unfolding pay
pay_too_large m t ts e = rw e

module _ {Db Node : Type 0} (act : M (World Db Node) (Unit {0})) where
  pub spend_paid :
      (a : ℤ) (t : Transaction) (ts : List Transaction)
      → affords a t ≡ true
      → spend act a (t ∷ ts) ≡ (with_tx t act >>= λ _. spend act (sub64 a (to_int64 t.amount)) ts)
  unfolding spend
  spend_paid a t ts e = rw e

  pub spend_too_large :
      (a : ℤ) (t : Transaction) (ts : List Transaction)
      → affords a t ≡ false
      → spend act a (t ∷ ts) ≡ pure (a, t ∷ ts)
  unfolding spend
  spend_too_large a t ts e = rw e

  -- With `m` satoshi left, the loop that spends them ends like `pay`, where no action fails.
  pub spend_ok :
      (m : ℕ) (ts : List Transaction) (w : World Db Node) {p : ℤ × List Transaction}
      → m < 2 ^ 63
      → total ts < 2 ^ 63
      → (spend act (pos m) ts w).0 ≡ ok p
      → p ≡ (pos (pay m ts).0, (pay m ts).1)
  spend_ok m [] w bm bt h = unfold spend pay in ground arith
  spend_ok m (t ∷ ts) w {p} bm bt h = elim (Bool-cases (leb t.amount m)) [
    | inl e ↦
        let paid = affords_lem m t bm (omega arith) ∙ e in
        let left = sub_amount m t bm (omega arith) ∙ minus_pos m t.amount (leb→le t.amount m e) in
        let h1 : ((with_tx t act >>= λ _. spend act (pos (m - t.amount)) ts) w).0 ≡ ok p =
          rw (spend_paid (pos m) t ts paid, left) at h in
        let (_, _, h2) = >>=-result (with_tx t act) (λ _. spend act (pos (m - t.amount)) ts) w h1 in
        rw (pay_paid m t ts e)
          (spend_ok (m - t.amount) ts (with_tx t act w).1 (omega arith) (omega arith) h2)
    | inr e ↦
        let large = affords_lem m t bm (omega arith) ∙ e in
        let h1 : ok (pos m, t ∷ ts) ≡ ok p = rw (spend_too_large (pos m) t ts large) at h in
        rw (pay_too_large m t ts e) (cc h1)
  ]

  overdraw_step :
      (a : ℤ) (t : Transaction) (ts : List Transaction)
      → overdraw act a (t ∷ ts)
        ≡ (with_tx t act >>= λ _. overdraw act (sub64 a (to_int64 t.amount)) ts)
  unfolding overdraw
  overdraw_step a t ts = refl

  -- The loop over what is not covered subtracts all the amounts, where no action fails.
  pub overdraw_ok :
      (a : ℤ) (ts : List Transaction) (w : World Db Node) {z : ℤ}
      → pos_part a < 2 ^ 63
      → neg_part a + total ts < 2 ^ 63
      → (overdraw act a ts w).0 ≡ ok z
      → z ≡ a -ℤ pos (total ts)
  overdraw_ok a [] w bp bn h = unfold overdraw in sym (ok_value h) ∙ omega int_laws
  overdraw_ok a (t ∷ ts) w {z} bp bn h =
      let left = sub_from a t bp (omega arith) in
      let a' = a -ℤ pos t.amount in
      let h1 : ((with_tx t act >>= λ _. overdraw act a' ts) w).0 ≡ ok z =
        rw (overdraw_step a t ts, left) at h in
      let (_, _, h2) = >>=-result (with_tx t act) (λ _. overdraw act a' ts) w h1 in
      let ih =
        overdraw_ok a' ts (with_tx t act w).1 (omega (int_laws, one_sign a'))
          (omega (int_laws, one_sign a')) h2 in
      ih ∙ omega int_laws
