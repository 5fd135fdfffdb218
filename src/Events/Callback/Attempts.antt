-- ===== src/Events/Callback/Attempts.antt =====
-- How often events/httpcallback.go tries to deliver an event, and in which order.
use bitcoin_processing.Base.{
  ℕ, zero, suc, ◌+◌, ◌≤◌, Bool, true, false, Option, none, some, ◌⊎◌, inl, inr, Bool-cases, ◌≡◌,
  refl, sym, ◌∙◌, arith,
}
use bitcoin_processing.Events.Types.{NotificationWithSeq}
use bitcoin_processing.Monad.{
  Error, Fault, Outcome, ok, err, panic, M, catch, pure, modify, throw, ◌>>=◌, ◌>>◌,
}
use bitcoin_processing.Monad.Keeps.{Keeps, Keeps->>}
use bitcoin_processing.Storage.{make_transact_if_available, finish}
use bitcoin_processing.Events.Callback.{
  BrokerConfig, Broker, attempt, persist_http_callback_send_result_with_retry,
  handle_http_callback_error, on_events, broker_sql, broker_transact, send_data_to_http_callback,
  handle_early_error_preparing_http_callback, schedule_retry, pass_on, conclude, count_attempt,
  try_event, if_locked, deliver_one,
}

module _ {Db Net : Type 0} (c : BrokerConfig Db Net) where
  -- The state that attempts change: what the receiver is, and how often it was tried.
  abbrev pub attempts : Broker Db Net → Net × ℕ
  attempts w = (w.net, w.retries)

  Keeps-on_events : {A : Type 0} (m : M Db A) → Keeps attempts (on_events c m)
  Keeps-on_events m = record { kept = λ w. refl }

  ended :
      (m : M (Broker Db Net) (Unit {0})) (w : Broker Db Net)
      (r : Outcome (Unit {0}) × Broker Db Net)
      → attempts (finish (broker_sql c) m w r).1 ≡ attempts r.1
  ended m w (ok x, s) = ground arith
  ended m w (err e, s) = refl
  ended m w (panic f, s) = refl

  Keeps-broker_transact :
      (m : M (Broker Db Net) (Unit {0})) → Keeps attempts m → Keeps attempts (broker_transact c m)
  unfolding broker_transact make_transact_if_available
  Keeps-broker_transact m h = record {
    kept = λ w. elim (Bool-cases c.sql.available) [
      | inl e ↦ ground (
        arith,
        h.kept (record w { db = (c.sql.begin w.db).1 }),
        ended m (record w { db = (c.sql.begin w.db).1 })
            (m (record w { db = (c.sql.begin w.db).1 })),
      )
      | inr e ↦ ground (arith, h.kept w)
    ];
  }

  -- An action that ends with a result or a panic, and leaves the attempts alone.
  abbrev Settled : Broker Db Net → Outcome (Unit {0}) × Broker Db Net → Type 0
  Settled w (ok u, v) = attempts v ≡ attempts w
  Settled w (err e, v) = ⊥
  Settled w (panic x, v) = attempts v ≡ attempts w

  settle_catch :
      (r : Outcome (Unit {0})) (v : Broker Db Net) (f : Error → M (Broker Db Net) (Unit {0}))
      (w : Broker Db Net)
      → attempts v ≡ attempts w
      → ((e : Error) → Settled w (f e v))
      → Settled w (catch (λ _. (r, v)) f w)
  settle_catch (ok u) v f w h k = h
  settle_catch (err e) v f w h k = k e
  settle_catch (panic x) v f w h k = h

  Settled-trans :
      (r : Outcome (Unit {0}) × Broker Db Net) (v w : Broker Db Net)
      → attempts v ≡ attempts w
      → Settled v r
      → Settled w r
  Settled-trans (ok u, x) v w h k = k ∙ h
  Settled-trans (err e, x) v w h k = k
  Settled-trans (panic f, x) v w h k = k ∙ h

  persist_settles :
      (m : M (Broker Db Net) (Unit {0})) (n : ℕ)
      → Keeps attempts m
      → (w : Broker Db Net) → Settled w (persist_http_callback_send_result_with_retry m n w)
  unfolding persist_http_callback_send_result_with_retry
  persist_settles m zero h w =
      settle_catch (m w).0 (m w).1 (λ _. throw _) w (h.kept w) (λ e. h.kept w)
  persist_settles m (suc n) h w =
      settle_catch (m w).0 (m w).1 (λ _. persist_http_callback_send_result_with_retry m n) w
        (h.kept w)
        λ e.
          Settled-trans (persist_http_callback_send_result_with_retry m n (m w).1) (m w).1 w
            (h.kept w) (persist_settles m n h (m w).1)

  attempt_parts :
      {A : Type 0} (r : Outcome (Unit {0})) (v : Broker Db Net)
      (f : Option Error → M (Broker Db Net) A) (w : Broker Db Net)
      (P : Outcome A × Broker Db Net → Type 0)
      → ((o : Option Error) → P (f o v))
      → ((x : Fault) → P (panic x, v))
      → P ((attempt (λ _. (r, v)) >>= f) w)
  attempt_parts (ok u) v f w P h k = h none
  attempt_parts (err e) v f w P h k = h (some e)
  attempt_parts (panic x) v f w P h k = k x

  -- A sequence behind a call whose error is inspected.
  by_attempt :
      {A : Type 0} (m : M (Broker Db Net) (Unit {0})) (f : Option Error → M (Broker Db Net) A)
      (w : Broker Db Net) (P : Outcome A × Broker Db Net → Type 0)
      → ((o : Option Error) → P (f o (m w).1))
      → ((x : Fault) → P (panic x, (m w).1))
      → P ((attempt m >>= f) w)
  by_attempt m f w P h k = attempt_parts (m w).0 (m w).1 f w P h k

  -- How one event may end: passed on after a call of the receiver; not tried; tried, to be
  -- tried again; or a panic.
  abbrev pub Tried : NotificationWithSeq → Net × ℕ → Outcome Bool × Broker Db Net → Type 0
  Tried event (n, k) (ok true, v) = attempts v ≡ ((c.post event n).1, 0)
  Tried event (n, k) (ok false, v) =
      (attempts v ≡ (n, k))
      ⊎ ((attempts v ≡ ((c.post event n).1, k + 1))
          × (handle_http_callback_error c.http_callback_backoff (k + 1) ≡ true))
  Tried event (n, k) (err e, v) = ⊥
  Tried event (n, k) (panic x, v) =
      (attempts v ≡ (n, k)) ⊎ ((v.net ≡ (c.post event n).1) × (v.retries ≤ k + 1))

  then_ok :
      (event : NotificationWithSeq) (n : Net) (k : ℕ) (w : Broker Db Net) (b : Bool)
      (g : Broker Db Net → Broker Db Net) (r : Outcome (Unit {0}) × Broker Db Net)
      → attempts w ≡ ((c.post event n).1, k + 1)
      → Settled w r
      → ((v : Broker Db Net) → attempts v ≡ attempts w → Tried event (n, k) (ok b, g v))
      → Tried event (n, k) ((((λ _. r) >> modify g) >> pure b) w)
  then_ok event n k w b g (ok u, v) e s h = h v s
  then_ok event n k w b g (err x, v) e s h = s
  then_ok event n k w b g (panic x, v) e s h = inr (ground arith, ground arith)

  module _ (event : NotificationWithSeq) (n : Net) (k : ℕ) (w : Broker Db Net)
      (tried : attempts w ≡ ((c.post event n).1, k + 1)) where
    passed : Tried event (n, k) ((pass_on c event >> pure true) w)
    unfolding pass_on
    passed =
        then_ok event n k w true (λ w. record w { retries = 0; delay = 0 }) _ tried
          (persist_settles _ 10
            (Keeps-broker_transact _ (
              Keeps->> attempts (on_events c (c.storage.store_last_http_sent_seq event.seq))
                (on_events c c.storage.clear_http_callback) (Keeps-on_events _)
                (Keeps-on_events _)))
            w)
          (λ v e. ground arith)

    scheduled :
        handle_http_callback_error c.http_callback_backoff (k + 1) ≡ true
        → Tried event (n, k) ((schedule_retry c event >> pure false) w)
    unfolding schedule_retry
    scheduled h =
        then_ok event n k w false
          (λ w. record w {
            is_retrying = true;
            retrying_seq = event.seq;
            retry_timers = suc w.retry_timers;
          })
          _ tried (persist_settles _ 10 (Keeps-broker_transact _ (Keeps-on_events _)) w)
          (λ v e. inr (e ∙ tried, h))

    concluded : (sent : Option Error) → Tried event (n, k) (conclude c event sent (k + 1) w)
    concluded none = passed
    concluded (some e) =
        elim (Bool-cases (handle_http_callback_error c.http_callback_backoff (k + 1))) [
          | inl h ↦ rw h (scheduled h)
          | inr h ↦ rw h passed
        ]

  -- The answer counts as an attempt, whatever it is.
  sent_state :
      (event : NotificationWithSeq) (w : Broker Db Net)
      → (send_data_to_http_callback c event w).1 ≡ (record w { net = (c.post event w.net).1 })
  unfolding send_data_to_http_callback
  sent_state event w = ground arith

  try_event-Tried :
      (event : NotificationWithSeq) (w : Broker Db Net)
      → Tried event (attempts w) (try_event c event w)
  try_event-Tried event w =
      let v = (send_data_to_http_callback c event w).1 in
      by_attempt (send_data_to_http_callback c event) (count_attempt c event) w
        (Tried event (attempts w))
        (λ sent. rw (sent_state event w) (
          concluded event w.net w.retries
            (record w {
              net = (c.post event w.net).1;
              retries = w.retries + 1;
              delay = w.delay + 1;
            })
            refl sent))
        (λ x. inr (ground (arith, sent_state event w), ground (arith, sent_state event w)))

  locked : NotificationWithSeq → Broker Db Net → Broker Db Net
  locked event w = (broker_transact c (on_events c (c.storage.lock_http_callback event.seq)) w).1

  locked-attempts :
      (event : NotificationWithSeq) (w : Broker Db Net) → attempts (locked event w) ≡ attempts w
  unfolding locked
  locked-attempts event w = (Keeps-broker_transact _ (Keeps-on_events _)).kept w

  if_locked-Tried :
      (event : NotificationWithSeq) (o : Option Error) (w : Broker Db Net)
      → Tried event (attempts w) (if_locked c event o w)
  unfolding handle_early_error_preparing_http_callback
  if_locked-Tried event none w = try_event-Tried event w
  if_locked-Tried event (some e) w = inl refl

  pub deliver_one-Tried :
      (event : NotificationWithSeq) (w : Broker Db Net)
      → Tried event (attempts w) (deliver_one c event w)
  unfolding deliver_one locked
  deliver_one-Tried event w =
      by_attempt (broker_transact c (on_events c (c.storage.lock_http_callback event.seq)))
        (if_locked c event) w (Tried event (attempts w))
        (λ o. rw (sym (locked-attempts event w)) (if_locked-Tried event o (locked event w)))
        (λ x. inl (locked-attempts event w))
