-- ===== src/Events/Broadcaster/Runs.antt =====
-- The event storage and the broadcaster, as they run together.
use mathlib.Core.List.{append_assoc}
use mathlib.Core.Path.{subst}
use bitcoin_processing.Base.{
  ℕ, ◌≤◌, ◌≡◌, inl, inr, refl, sym, ap, ◌∙◌, List, [], ◌∷◌, ◌++◌, All, All-keep, arith, Bool-cases,
  not, true, ◌==◌, drop, concat, drop-append, length-append,
}
use bitcoin_processing.Base.Int.{ℤ, pos, negsuc, pos_part, ltb_ℤ, leb_ℤ}
use bitcoin_processing.Util.{min_int}
use bitcoin_processing.Events.Types.{Notification, NotificationWithSeq}
use bitcoin_processing.Events.Memory.{
  EventStorage, InMemoryEventStorage, empty_storage, store_event, memory_storage,
}
use bitcoin_processing.Events.Memory.Numbers.{
  Numbered, store_event-Numbered, get_events_from_seq-drop, from_number, drop-from_number,
}
use bitcoin_processing.Events.Broadcaster.{
  Subscriber, Broadcaster, new_broadcaster, broadcast_events, broadcast, subscribe_from_seq,
  unsubscribe, close,
}
use bitcoin_processing.Events.Broadcaster.Delivery.{
  Progress, Delivered, AllDelivered, Complete, Good, broadcast_events_lem,
}
use bitcoin_processing.Monad.{ok}

-- The states that the storage and the broadcaster reach from their empty states, one operation at a
-- time. `start` says from which number on each channel asks for events.
pub data Run (start : ℕ → ℤ) : InMemoryEventStorage → Broadcaster → Type 0 where
  begins : Run start empty_storage new_broadcaster
  stores :
      {s : InMemoryEventStorage} {b : Broadcaster}
      → Run start s b
      → (n : Notification) → Run start (store_event n s).1 b
  broadcasts :
      {s : InMemoryEventStorage} {b : Broadcaster}
      → Run start s b
      → {b' : Broadcaster} → (broadcast memory_storage b s).0 ≡ ok b'
      → Run start s b'
  subscribes :
      {s : InMemoryEventStorage} {b : Broadcaster}
      → Run start s b
      → Run start s (subscribe_from_seq (start b.next_channel) b).1
  unsubscribes :
      {s : InMemoryEventStorage} {b : Broadcaster}
      → Run start s b
      → (ch : ℕ) → Run start s (unsubscribe ch b)
  closes : {s : InMemoryEventStorage} {b : Broadcaster} → Run start s b → Run start s (close b)

module _ (start : ℕ → ℕ) where
  broadcast_read :
      {Db : Type 0} (storage : EventStorage Db) (b : Broadcaster) (d : Db)
      {events : List NotificationWithSeq}
      → storage.get_events_from_seq b.min_seq d ≡ (ok events, d)
      → broadcast storage b d ≡ (ok (broadcast_events b events), d)
  unfolding broadcast
  broadcast_read storage b d h = ground arith

  broadcast_lem :
      (s : InMemoryEventStorage) (b : Broadcaster) (g : Good start s.events b)
      → broadcast memory_storage b s ≡ (ok (broadcast_events b (drop g.min s.events)), s)
  unfolding memory_storage
  broadcast_lem s b g =
      broadcast_read memory_storage b s (rw g.min_is (get_events_from_seq-drop g.min s))

  Progress-more :
      (st q : ℕ) (es : List NotificationWithSeq) (e : NotificationWithSeq)
      (sent : List (List NotificationWithSeq))
      → Progress st q es sent
      → Progress st q (es ++ e ∷ []) sent
  Progress-more st q es e sent (inl h) = inl h
  Progress-more st q es e sent (inr (l, k, p)) = inr (
    l,
    omega (arith, length-append es (e ∷ [])),
    ap (λ x. concat sent ++ x) (drop-append q es (e ∷ []) k)
        ∙ sym (append_assoc (concat sent) (drop q es) (e ∷ []))
        ∙ ap (λ x. x ++ e ∷ []) p
        ∙ sym (drop-append st es (e ∷ []) (omega arith)),
  )

  more :
      (m : ℕ) (es : List NotificationWithSeq) (e : NotificationWithSeq) (ss : List Subscriber)
      → AllDelivered start m es ss
      → AllDelivered start m (es ++ e ∷ []) ss
  more m es e [] d = tt
  more m es e (s ∷ ss) (d, ds) = (
    record {
      number = d.number;
      seq_is = d.seq_is;
      from_min = d.from_min;
      progress = Progress-more (start s.channel) d.number es e s.sent d.progress;
    },
    more m es e ss ds,
  )

  lower :
      (m m' : ℕ) (es : List NotificationWithSeq) (ss : List Subscriber)
      → m' ≤ m
      → AllDelivered start m es ss
      → AllDelivered start m' es ss
  lower m m' es [] l d = tt
  lower m m' es (s ∷ ss) l (d, ds) = (
    record {
      number = d.number;
      seq_is = d.seq_is;
      from_min = omega (arith, d.from_min);
      progress = d.progress;
    },
    lower m m' es ss l ds,
  )

  smaller :
      (a m : ℕ) (z : ℤ) → z ≡ pos m → (n : ℕ) × (min_int (pos a) z ≡ pos n) × (n ≤ a) × (n ≤ m)
  smaller a m z e = elim (Bool-cases (ltb_ℤ (pos a) z)) [
    | inl c ↦ (a, ground arith, omega arith, ground arith)
    | inr c ↦ (m, ground arith, ground arith, omega arith)
  ]

  module _ (asked : ℕ → ℤ) (natural : (ch : ℕ) → asked ch ≡ pos (start ch)) where
    Good-Run :
        (s : InMemoryEventStorage) (b : Broadcaster)
        → Run asked s b
        → Numbered 0 s.events × Good start s.events b
    unfolding new_broadcaster store_event subscribe_from_seq unsubscribe close
    Good-Run _ _ begins = (tt, record { min = 0; min_is = refl; delivered = tt })
    Good-Run _ _ (stores {s} {b} r n) =
        let (h, g) = Good-Run s b r in
        (
          store_event-Numbered n s h,
          record {
            min = g.min;
            min_is = g.min_is;
            delivered = more g.min s.events _ b.subs g.delivered;
          },
        )
    Good-Run _ _ (broadcasts {s} {b} r {b'} e) =
        let (h, g) = Good-Run s b r in
        let read = drop g.min s.events in
        let same : broadcast_events b read ≡ b' = cc (ap (λ x. x.0) (broadcast_lem s b g), e) in
        (
          h,
          subst (Good start s.events) same (broadcast_events_lem start s.events b g read h refl).0,
        )
    Good-Run _ _ (subscribes {s} {b} r) =
        let (h, g) = Good-Run s b r in
        let (m, e, from_new, from_old) = smaller (start b.next_channel) g.min b.min_seq g.min_is in
        (
          h,
          record {
            min = m;
            min_is = ap (λ z. min_int z b.min_seq) (natural b.next_channel) ∙ e;
            delivered = (
              record {
                number = start b.next_channel;
                seq_is = natural b.next_channel;
                from_min = from_new;
                progress = inl (refl, refl);
              },
              lower g.min m s.events b.subs from_old g.delivered,
            );
          },
        )
    Good-Run _ _ (unsubscribes {s} {b} r ch) =
        let (h, g) = Good-Run s b r in
        let kept =
          All-keep (λ x. Delivered (start x.channel) g.min s.events x) (λ x. not (x.channel == ch))
            b.subs g.delivered in
        (h, record { min = g.min; min_is = g.min_is; delivered = kept })
    Good-Run _ _ (closes {s} {b} r) =
        let (h, g) = Good-Run s b r in
        (h, record { min = g.min; min_is = g.min_is; delivered = tt })

  Complete-from_number :
      (es : List NotificationWithSeq) (ss : List Subscriber)
      → Numbered 0 es
      → Complete start es ss
      → All (λ s. concat s.sent ≡ from_number (pos (start s.channel)) es) ss
  Complete-from_number es [] h c = tt
  Complete-from_number es (s ∷ ss) h (c, cs) = (
    c ∙ drop-from_number 0 (start s.channel) (start s.channel) es h (omega arith),
    Complete-from_number es ss h cs,
  )

-- The number that a channel asks for events from, where it is not negative.
natural_of : (z : ℤ) → leb_ℤ (pos 0) z ≡ true → z ≡ pos (pos_part z)
natural_of (pos n) h = refl
natural_of (negsuc n) h = ground arith

-- With the in-memory storage, however storing events, broadcasts, subscriptions, cancelled
-- subscriptions and closing follow on each other from the start, where no subscription is from a
-- negative number: a broadcast succeeds, and every subscriber that is still there after it has then
-- been sent, in batches, exactly the events with the number it subscribed from or a larger one,
-- each once and in order.
pub broadcast_delivers :
    (start : ℕ → ℤ) (s : InMemoryEventStorage) (b : Broadcaster)
    → Run start s b
    → ((ch : ℕ) → leb_ℤ (pos 0) (start ch) ≡ true)
    → (b' : Broadcaster) × ((broadcast memory_storage b s).0 ≡ ok b')
      × All (λ x. concat x.sent ≡ from_number (start x.channel) s.events) b'.subs
broadcast_delivers start s b r from_zero =
    let number : ℕ → ℕ = λ ch. pos_part (start ch) in
    let natural : (ch : ℕ) → start ch ≡ pos (number ch) =
      λ ch. natural_of (start ch) (from_zero ch) in
    let (h, g) = Good-Run number start natural s b r in
    let read = drop g.min s.events in
    let done = (broadcast_events_lem number s.events b g read h refl).1 in
    let sent = Complete-from_number number s.events (broadcast_events b read).subs h done in
    let AllSent : (ℕ → ℤ) → Type 0 = λ f.
      All (λ x. concat x.sent ≡ from_number (f x.channel) s.events)
        (broadcast_events b read).subs in
    (
      broadcast_events b read,
      ap (λ x. x.0) (broadcast_lem number s b g),
      subst AllSent (λ i ch. sym (natural ch) i) sent,
    )
