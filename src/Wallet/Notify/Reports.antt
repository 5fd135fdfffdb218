-- ===== src/Wallet/Notify/Reports.antt =====
-- notifyTransaction reports each number of confirmations once, in order.
use mathlib.Core.List.{append-nil, append_assoc}
use bitcoin_processing.Base.{
  sym, Bool-cases, if◌then◌else◌, ℕ, zero, suc, ◌≡◌, refl, ◌∙◌, ◌⊎◌, inl, inr, List, [], ◌∷◌, ◌++◌,
  arith,
}
use bitcoin_processing.Base.Int.{ℤ, pos, ◌+ℤ◌, ◌-ℤ◌, ◌≤ℤ◌, ltb_ℤ, ltb_ℤ→lt, ltb_ℤ→le, int_laws}
use bitcoin_processing.Util.{min64}
use bitcoin_processing.Types.Direction.{TransactionDirection, incoming, outgoing}
use bitcoin_processing.Types.Transaction.{Transaction}
use bitcoin_processing.Events.Types.{EventType, Payload, Notification}
use bitcoin_processing.Monad.{ok, panic, unexpected_direction}
use bitcoin_processing.Wallet.Interfaces.{Backend, World}
use bitcoin_processing.Wallet.Laws.{EventLaws, event}
use bitcoin_processing.Wallet.Notify.{
  get_transaction_notification_type, notification_at, tx_notification, rounds, notify_tx,
  notify_round, notify_rounds, notify_transaction,
}

-- The event for a number of confirmations: the first one has a type of its own.
abbrev pub expected_event : TransactionDirection → ℤ → EventType
expected_event incoming (pos zero) = EventType.new_incoming_tx
expected_event incoming _ = EventType.incoming_tx_confirmed
expected_event outgoing (pos zero) = EventType.new_outgoing_tx
expected_event outgoing _ = EventType.outgoing_tx_confirmed
expected_event _ _ = EventType.invalid

-- The event that is stored for confirmation `i` of a transaction.
abbrev round_event : ℤ → Transaction → ℤ → Notification
round_event max tx i =
    event (expected_event tx.direction i)
      (Payload.tx_data (tx_notification (notification_at max tx i)))

-- The events for `n` numbers of confirmations from `i` on, each sent after the one before it was
-- recorded as reported.
abbrev pub reports : ℤ → Transaction → ℕ → ℤ → List Notification
reports max tx zero i = []
reports max tx (suc n) i =
    round_event max (record tx { reported_confirmations = i -ℤ pos 1 }) i
    ∷ reports max tx n (i +ℤ pos 1)

event_type_cases :
    (i : ℤ) (d : TransactionDirection)
    → (get_transaction_notification_type i d ≡ ok (expected_event d i))
      ⊎ (get_transaction_notification_type i d ≡ panic unexpected_direction)
unfolding get_transaction_notification_type
event_type_cases i d = ground arith

reports_reported :
    (max : ℤ) (tx : Transaction) (r : ℤ) (n : ℕ) (i : ℤ)
    → reports max (record tx { reported_confirmations = r }) n i ≡ reports max tx n i
reports_reported max tx r zero i = refl
reports_reported max tx r (suc n) i = rw (reports_reported max tx r n (i +ℤ pos 1))

unreported_lem :
    (tx : Transaction) (r : ℤ)
    → tx.reported_confirmations ≡ r
    → record tx { reported_confirmations = r } ≡ tx
unreported_lem tx r e = λ k. record tx { reported_confirmations = sym e k }

next_prev : (i : ℤ) → i ≡ i +ℤ pos 1 -ℤ pos 1
next_prev i = omega int_laws

no_rounds : (i : ℤ) → i -ℤ pos 1 ≡ i +ℤ pos 0 -ℤ pos 1
no_rounds i = omega int_laws

next_rounds : (i : ℤ) (n : ℕ) → i +ℤ pos 1 +ℤ pos n -ℤ pos 1 ≡ i +ℤ pos (suc n) -ℤ pos 1
next_rounds i n = omega int_laws

-- What was reported last, after all rounds: the larger number.
abbrev pub later : ℤ → ℤ → ℤ
later r to = if ltb_ℤ r to then to else r

later-ge : (to r : ℤ) → to ≤ℤ later r to
later-ge to r = ground arith

last_reported : (r to : ℤ) → r +ℤ pos 1 +ℤ pos (rounds (r +ℤ pos 1) to) -ℤ pos 1 ≡ later r to
last_reported r to = elim (Bool-cases (ltb_ℤ r to)) [
  | inl e ↦ rw e (omega (int_laws, ltb_ℤ→lt r to e))
  | inr e ↦ rw e (omega (int_laws, ltb_ℤ→le r to e))
]

module _ {Db Node : Type 0} (b : Backend Db Node) (laws : EventLaws b) where
  round_ok :
      (i : ℤ) (w : World Db Node)
      → (notify_round b i w).0 ≡ ok tt
      → (laws.log (notify_round b i w).1.db
          ≡ laws.log w.db ++ round_event b.settings.max_confirmations w.tx i ∷ [])
        × ((notify_round b i w).1.tx ≡ record w.tx { reported_confirmations = i })
  unfolding notify_round notify_tx
  round_ok i w h = elim (event_type_cases i w.tx.direction) [
    | inl e ↦
        let p =
          Payload.tx_data (tx_notification (notification_at b.settings.max_confirmations w.tx i)) in
        let d = (b.notify (expected_event w.tx.direction i) p w.db).1 in
        ground
          (arith, laws.notify_ok (expected_event w.tx.direction i) p w.db, laws.report_log w.tx i d)
    | inr e ↦ ground arith
  ]

  -- `laws.log` after some rounds, and the number that was reported last.
  rounds_ok :
      (n : ℕ) (i : ℤ) (w : World Db Node)
      → w.tx.reported_confirmations ≡ i -ℤ pos 1
      → (notify_rounds b n i w).0 ≡ ok tt
      → (laws.log (notify_rounds b n i w).1.db
          ≡ laws.log w.db ++ reports b.settings.max_confirmations w.tx n i)
        × ((notify_rounds b n i w).1.tx
            ≡ record w.tx { reported_confirmations = i +ℤ pos n -ℤ pos 1 })
  unfolding notify_rounds
  rounds_ok zero i w r h =
      ground (arith, append-nil (laws.log w.db), unreported_lem w.tx _ (r ∙ no_rounds i))
  rounds_ok (suc n) i w r h =
      let w1 = (notify_round b i w).1 in
      let max = b.settings.max_confirmations in
      ground (
        arith,
        round_ok i w,
        rounds_ok n (i +ℤ pos 1) w1,
        next_prev i,
        next_rounds i n,
        unreported_lem w.tx _ r,
        reports_reported max w.tx i n (i +ℤ pos 1),
        append_assoc (laws.log w.db) (round_event max w.tx i ∷ [])
            (reports max w.tx n (i +ℤ pos 1)),
      )

  abbrev last_to_report : Transaction → ℤ
  last_to_report tx = min64 tx.confirmations b.settings.max_confirmations

  -- notifyTransaction, where it succeeds, stores one event for each number of confirmations above
  -- the one reported last, up to the transaction's confirmations or the maximum, whichever is
  -- less: in order, each with the type for its number, and none besides. What was reported last
  -- is then that number, or stays where it was larger.
  pub notify_transaction-reports :
      (w : World Db Node)
      → (notify_transaction b w).0 ≡ ok tt
      → (laws.log (notify_transaction b w).1.db
          ≡ laws.log w.db
            ++ reports b.settings.max_confirmations w.tx
                (rounds (w.tx.reported_confirmations +ℤ pos 1) (last_to_report w.tx))
                (w.tx.reported_confirmations +ℤ pos 1))
        × ((notify_transaction b w).1.tx ≡ record w.tx {
          reported_confirmations = later w.tx.reported_confirmations (last_to_report w.tx);
        })
  unfolding notify_transaction
  notify_transaction-reports w h =
      let r = w.tx.reported_confirmations in
      let to = last_to_report w.tx in
      let (l, t) = rounds_ok (rounds (r +ℤ pos 1) to) (r +ℤ pos 1) w (next_prev r) h in
      (l, rw (← last_reported r to) t)

  caught_up :
      (w : World Db Node)
      → last_to_report w.tx ≤ℤ w.tx.reported_confirmations
      → notify_transaction b w ≡ (ok tt, w)
  unfolding notify_transaction notify_rounds
  caught_up w h =
      let no_round : rounds (w.tx.reported_confirmations +ℤ pos 1) (last_to_report w.tx) ≡ 0 =
        omega int_laws in
      rw (no_round, notify_rounds)

  -- After a call of notifyTransaction that succeeds, another one on the same transaction stores
  -- nothing and changes nothing: no number of confirmations is reported twice.
  pub notify_transaction_twice :
      (w : World Db Node)
      → (notify_transaction b w).0 ≡ ok tt
      → notify_transaction b (notify_transaction b w).1 ≡ (ok tt, (notify_transaction b w).1)
  notify_transaction_twice w h = caught_up (notify_transaction b w).1 (
      rw (notify_transaction-reports w h).1
        (later-ge (last_to_report w.tx) w.tx.reported_confirmations))
