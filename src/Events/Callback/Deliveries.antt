-- ===== src/Events/Callback/Deliveries.antt =====
-- What one round of events/httpcallback.go posts.
use bitcoin_processing.Base.{
  ℕ, suc, ◌+◌, ◌≤◌, Bool, true, false, not, ◌&&◌, Option, none, some, List, [], ◌∷◌, ◌++◌, ◌⊎◌, inl,
  inr, Bool-cases, ◌≡◌, refl, sym, ap, ◌∙◌, arith, if◌then◌else◌,
}
use bitcoin_processing.Base.Int.{ℤ, pos, negsuc, ◌+ℤ◌}
use bitcoin_processing.Events.Types.{EventType, same_event_type, NotificationWithSeq}
use bitcoin_processing.Monad.{Fault, Outcome, ok, err, panic, M, skip, ◌>>=◌}
use bitcoin_processing.Events.Callback.{
  BrokerConfig, Broker, handle_http_callback_error, handle_early_error_preparing_http_callback,
  deliver_one, deliver, read_or_none, deliver_read, send_after, send_unsent,
  send_http_callback_notifications,
}
use bitcoin_processing.Events.Callback.Attempts.{attempts, Tried, deliver_one-Tried}
use mathlib.Core.List.{append-nil, append_assoc}

-- The receiver with a list of what was posted to it.
abbrev pub recorded :
    {Db Net : Type 0} → BrokerConfig Db Net → BrokerConfig Db (Net × List NotificationWithSeq)
recorded c = record {
  storage = c.storage;
  sql = c.sql;
  post = λ e n. ((c.post e n.0).0, ((c.post e n.0).1, n.1 ++ e ∷ []));
  http_callback_backoff = c.http_callback_backoff;
}

-- The events that the callback is told of: all but new addresses.
abbrev pub reported : List NotificationWithSeq → List NotificationWithSeq
reported [] = []
reported (e ∷ es) =
    if same_event_type e.notification.event_type EventType.new_address
    then reported es
    else e ∷ reported es

module _ {Db Net : Type 0} (c : BrokerConfig Db Net) where
  abbrev pub RecordedBroker : Type 0
  RecordedBroker = Broker Db (Net × List NotificationWithSeq)

  abbrev pub posted : RecordedBroker → List NotificationWithSeq
  posted w = w.net.1

  -- The number of attempts, where the broker goes on and where it does not.
  abbrev pub Within : {A : Type 0} → ℕ → Outcome A × RecordedBroker → Type 0
  Within b (ok a, v) = v.retries ≤ b
  Within b (err e, v) = v.retries ≤ b
  Within b (panic x, v) = v.retries ≤ suc b

  -- A beginning of the events reported was posted, in order.
  abbrev pub PostedFrom : List NotificationWithSeq → RecordedBroker → RecordedBroker → Type 0
  PostedFrom es w v =
      (now : List NotificationWithSeq) × (later : List NotificationWithSeq) × (now ++ later
        ≡ reported es)
      × (posted v ≡ posted w ++ now)

  retry_within :
      (b k : ℕ)
      → c.http_callback_backoff ≡ pos (suc b)
      → handle_http_callback_error c.http_callback_backoff (k + 1) ≡ true
      → k + 1 ≤ b
  unfolding handle_http_callback_error
  retry_within b k h e = let e' = rw h at e in ground arith

  none_posted :
      (es : List NotificationWithSeq) (w v : RecordedBroker)
      → attempts (recorded c) v ≡ attempts (recorded c) w
      → PostedFrom es w v
  none_posted es w v h = ([], reported es, refl, ap (λ n. n.0.1) h ∙ sym (append-nil (posted w)))

  one_posted :
      (event : NotificationWithSeq) (es : List NotificationWithSeq) (w v : RecordedBroker)
      → v.net ≡ ((recorded c).post event w.net).1
      → reported (event ∷ es) ≡ event ∷ reported es
      → PostedFrom (event ∷ es) w v
  one_posted event es w v h s = (event ∷ [], reported es, sym s, ap (λ n. n.1) h)

  then_posted :
      (event : NotificationWithSeq) (es : List NotificationWithSeq) (w v u : RecordedBroker)
      → v.net ≡ ((recorded c).post event w.net).1
      → reported (event ∷ es) ≡ event ∷ reported es
      → PostedFrom es v u
      → PostedFrom (event ∷ es) w u
  then_posted event es w v u h s (now, later, p, q) = (
    event ∷ now,
    later,
    ap (λ l. event ∷ l) p ∙ sym s,
    q ∙ ap (λ n. n.1 ++ now) h ∙ append_assoc (posted w) (event ∷ []) now,
  )

  -- Where an event may be tried b + 1 times, the count of its attempts stays within that.
  abbrev pub Counted : {A : Type 0} → RecordedBroker → Outcome A × RecordedBroker → Type 0
  Counted w r = (b : ℕ) → c.http_callback_backoff ≡ pos (suc b) → w.retries ≤ b → Within b r

  abbrev pub Delivered :
      List NotificationWithSeq → RecordedBroker → Outcome (Unit {0}) × RecordedBroker → Type 0
  Delivered es w r = PostedFrom es w r.1 × Counted w r

  stopped :
      (event : NotificationWithSeq) (es : List NotificationWithSeq) (w v : RecordedBroker)
      → Tried (recorded c) event (attempts (recorded c) w) (ok false, v)
      → reported (event ∷ es) ≡ event ∷ reported es
      → Delivered (event ∷ es) w (ok tt, v)
  stopped event es w v (inl t) s =
      (none_posted (event ∷ es) w v t, λ b backoff k. ground (arith, ap (λ n. n.1) t))
  stopped event es w v (inr (t, again)) s = (
    one_posted event es w v (ap (λ n. n.0) t) s,
    λ b backoff k. ground (arith, ap (λ n. n.1) t, retry_within b w.retries backoff again),
  )

  halted :
      (event : NotificationWithSeq) (es : List NotificationWithSeq) (w v : RecordedBroker)
      (x : Fault)
      → Tried (recorded c) event (attempts (recorded c) w) (panic x, v)
      → reported (event ∷ es) ≡ event ∷ reported es
      → Delivered (event ∷ es) w (panic x, v)
  halted event es w v x (inl t) s =
      (none_posted (event ∷ es) w v t, λ b backoff k. ground (arith, ap (λ n. n.1) t))
  halted event es w v x (inr (t, m)) s =
      (one_posted event es w v t s, λ b backoff k. omega (arith, m))

  after_one :
      (event : NotificationWithSeq) (es : List NotificationWithSeq) (w : RecordedBroker)
      (r : Outcome Bool × RecordedBroker) (rest : M RecordedBroker (Unit {0}))
      → Tried (recorded c) event (attempts (recorded c) w) r
      → reported (event ∷ es) ≡ event ∷ reported es
      → ((v : RecordedBroker) → Delivered es v (rest v))
      → Delivered (event ∷ es) w (((λ _. r) >>= λ go_on. if go_on then rest else skip) w)
  after_one event es w (ok true, v) rest t s h =
      let none_left : v.retries ≡ 0 = ap (λ n. n.1) t in
      let (p, q) = h v in
      (
        then_posted event es w v (rest v).1 (ap (λ n. n.0) t) s p,
        λ b backoff k. q b backoff (omega arith),
      )
  after_one event es w (ok false, v) rest t s h = stopped event es w v t s
  after_one event es w (err e, v) rest t s h = absurd t
  after_one event es w (panic x, v) rest t s h = halted event es w v x t s

  deliver-Delivered :
      (es : List NotificationWithSeq) (w : RecordedBroker)
      → Delivered es w (deliver (recorded c) es w)
  unfolding deliver
  deliver-Delivered [] w = (none_posted [] w w refl, λ b backoff k. k)
  deliver-Delivered (e ∷ es) w =
      elim (Bool-cases (same_event_type e.notification.event_type EventType.new_address)) [
        | inl s ↦ rw s (deliver-Delivered es w)
        | inr s ↦
            let reports : reported (e ∷ es) ≡ e ∷ reported es = rw s refl in
            let all =
              after_one e es w (deliver_one (recorded c) e w) (deliver (recorded c) es)
                (deliver_one-Tried (recorded c) e w) reports (λ v. deliver-Delivered es v) in
            rw s (rw s at all)
      ]

  -- The events that a round goes through: those after the last one sent, where the storage gives
  -- both.
  abbrev pub Unsent : RecordedBroker → List NotificationWithSeq → Type 0
  Unsent w es =
      (seq : ℤ) × ((c.storage.get_last_http_sent_seq w.db).0 ≡ ok seq)
      × ((c.storage.get_events_from_seq (seq +ℤ pos 1) (c.storage.get_last_http_sent_seq w.db).1).0
          ≡ ok es)

  -- What a round posts: nothing, or a beginning of the unsent events.
  abbrev pub RoundPosts : RecordedBroker → RecordedBroker → Type 0
  RoundPosts w v =
      (posted v ≡ posted w) ⊎ ((es : List NotificationWithSeq) × Unsent w es × PostedFrom es w v)

  read_parts :
      {A B : Type 0} (r : Outcome A) (d : Db) (f : Option A → M RecordedBroker B)
      (w : RecordedBroker) (P : Outcome B × RecordedBroker → Type 0)
      → P (f none (record w { db = d }))
      → ((a : A) → r ≡ ok a → P (f (some a) (record w { db = d })))
      → ((x : Fault) → P (panic x, record w { db = d }))
      → P ((read_or_none (recorded c) (λ _. (r, d)) >>= f) w)
  read_parts (ok a) d f w P h k l = k a refl
  read_parts (err e) d f w P h k l = h
  read_parts (panic x) d f w P h k l = l x

  send_unsent-posts :
      (w : RecordedBroker)
      → RoundPosts w (send_unsent (recorded c) w).1 × Counted w (send_unsent (recorded c) w)
  unfolding send_unsent handle_early_error_preparing_http_callback
  send_unsent-posts w =
      let last = c.storage.get_last_http_sent_seq w.db in
      let P : Outcome (Unit {0}) × RecordedBroker → Type 0 = λ r. RoundPosts w r.1 × Counted w r in
      read_parts last.0 last.1 (send_after (recorded c)) w P (inl refl, λ b backoff k. k)
        (λ seq s.
          let events = c.storage.get_events_from_seq (seq +ℤ pos 1) last.1 in
          read_parts events.0 events.1 (deliver_read (recorded c)) (record w { db = last.1 }) P
            (inl refl, λ b backoff k. k)
            (λ es e.
              let (p, q) = deliver-Delivered es (record w { db = events.1 }) in
              (inr (es, (seq, s, e), p), q))
            (λ x. (inl refl, λ b backoff k. omega arith)))
        (λ x. (inl refl, λ b backoff k. omega arith))

  -- What one round of the HTTP callback posts: nothing, or, of the events that the storage gives
  -- after the last one sent, a beginning, in order, each once, and without those of new addresses;
  -- whatever the backoff and the attempts made before. Where an event may be tried b + 1 times and
  -- the count of its attempts is at most b before the round, it stays at most b while the broker
  -- goes on, and at most b + 1 where it panics.
  pub send_http_callback_notifications_posts :
      (is_retry : Bool) (w : RecordedBroker)
      → RoundPosts w (send_http_callback_notifications (recorded c) is_retry w).1
        × Counted w (send_http_callback_notifications (recorded c) is_retry w)
  unfolding send_http_callback_notifications
  send_http_callback_notifications_posts is_retry w =
      elim (Bool-cases (w.is_retrying && not is_retry)) [
        | inl h ↦ rw h (inl refl, λ b backoff k. k)
        | inr h ↦ rw h (
            send_unsent-posts (record w {
              is_retrying = false;
              retrying_seq = if w.is_retrying then negsuc 0 else w.retrying_seq;
            }))
      ]
