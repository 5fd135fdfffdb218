-- ===== src/Events/Broadcaster/Delivery.antt =====
-- What the websocket subscribers are sent.
use mathlib.Core.List.{append-nil}
use mathlib.Core.Path.{subst}
use bitcoin_processing.Base.{
  ℕ, zero, suc, ◌+◌, ◌-◌, ◌≤◌, ◌<◌, ◌≡◌, ◌⊎◌, inl, inr, refl, sym, ap, ◌∙◌, List, [], ◌∷◌, ◌++◌,
  All, All-append, arith, length, drop, concat, concat_snoc, drop-length, drop_short, drop-drop,
  drop_nil, length-drop, Bool-cases,
}
use bitcoin_processing.Base.Int.{pos, ◌+ℤ◌}
use bitcoin_processing.Events.Types.{NotificationWithSeq}
use bitcoin_processing.Events.Memory.Numbers.{Numbered, Numbered-drop}
use bitcoin_processing.Events.Broadcaster.{
  Subscriber, Broadcaster, since, last_seq, is_full, send_batch, send_all, broadcast_events,
}

-- The state of a subscriber that asked for the events from `start` on: none was sent, or those from
-- `start` up to its number.
abbrev pub Progress : ℕ → ℕ → List NotificationWithSeq → List (List NotificationWithSeq) → Type 0
Progress start q es sent =
    ((q ≡ start) × (concat sent ≡ []))
    ⊎ ((start ≤ q) × (q ≤ length es) × (concat sent ++ drop q es ≡ drop start es))

pub record Delivered (start min : ℕ) (es : List NotificationWithSeq) (s : Subscriber) : Type 0 where
  pub number : ℕ
  pub seq_is : s.seq ≡ pos number
  pub from_min : min ≤ number
  pub progress : Progress start number es s.sent

since-drop :
    (k i q : ℕ) (es : List NotificationWithSeq)
    → Numbered k es
    → q ≡ i + k
    → since (pos q) es ≡ drop i es
unfolding since
since-drop k i q [] h l = sym (drop_nil i)
since-drop k zero q (e ∷ es) (h, hs) l = ground arith
since-drop k (suc i) q (e ∷ es) (h, hs) l =
    ground (arith, since-drop (suc k) i q es hs (omega arith))

next_number :
    (k : ℕ) (e : NotificationWithSeq) (es : List NotificationWithSeq)
    → Numbered k (e ∷ es)
    → last_seq e.seq es +ℤ pos 1 ≡ pos (k + length (e ∷ es))
unfolding last_seq ◌+ℤ◌
next_number k e [] (h, hs) = ground arith
next_number k e (y ∷ es) (h, hs) = ground (arith, next_number (suc k) y es hs)

-- What a subscriber is sent of the events that were read from the storage: those from its number.
batch_lem :
    (m q : ℕ) (es : List NotificationWithSeq)
    → Numbered 0 es
    → m ≤ q
    → since (pos q) (drop m es) ≡ drop q es
batch_lem m q es h l =
    let there : m + (q - m) ≡ q = omega arith in
    since-drop (0 + m) (q - m) q (drop m es) (Numbered-drop 0 m es h) (omega arith)
    ∙ drop-drop (q - m) m es
    ∙ ap (λ i. drop i es) there

all_sent :
    (start q : ℕ) (es : List NotificationWithSeq) (sent : List (List NotificationWithSeq))
    → Progress start q es sent
    → drop q es ≡ []
    → concat sent ≡ drop start es
all_sent start q es sent (inl (e, none_sent)) h = rw (← e) (none_sent ∙ sym h)
all_sent start q es sent (inr (_, _, p)) h =
    sym (append-nil (concat sent)) ∙ ap (λ x. concat sent ++ x) (sym h) ∙ p

sent_now :
    (start q : ℕ) (es : List NotificationWithSeq) (sent : List (List NotificationWithSeq))
    → Progress start q es sent
    → concat (sent ++ drop q es ∷ []) ≡ drop start es
sent_now start q es sent (inl (e, none_sent)) =
    concat_snoc sent (drop q es) ∙ ap (λ x. x ++ drop q es) none_sent ∙ ap (λ i. drop i es) e
sent_now start q es sent (inr (_, _, p)) = concat_snoc sent (drop q es) ∙ p

start_bound :
    (start q : ℕ) (es : List NotificationWithSeq) (sent : List (List NotificationWithSeq))
    → Progress start q es sent
    → q < length es
    → start ≤ length es
start_bound start q es sent (inl (e, _)) h = omega arith
start_bound start q es sent (inr (l, _, _)) h = omega arith

module _ (start : ℕ → ℕ) where
  abbrev pub AllDelivered : ℕ → List NotificationWithSeq → List Subscriber → Type 0
  AllDelivered m es ss = All (λ s. Delivered (start s.channel) m es s) ss

  -- All that was asked for has been sent.
  abbrev pub Complete : List NotificationWithSeq → List Subscriber → Type 0
  Complete es ss = All (λ s. concat s.sent ≡ drop (start s.channel) es) ss

  caught_up :
      (es : List NotificationWithSeq) (s : Subscriber) (q : ℕ)
      → concat s.sent ≡ drop (start s.channel) es
      → s.seq ≡ pos q
      → q ≡ length es
      → start s.channel ≤ q
      → Delivered (start s.channel) (length es) es s
  caught_up es s q h e l b = record {
    number = q;
    seq_is = e;
    from_min = omega arith;
    progress = inr (
      b,
      omega arith,
      ap (λ x. concat s.sent ++ x) (drop-length q es (omega arith))
          ∙ append-nil (concat s.sent)
          ∙ h,
    );
  }

  send_batch_lem :
      (m : ℕ) (es : List NotificationWithSeq) (s : Subscriber) (batch : List NotificationWithSeq)
      (d : Delivered (start s.channel) m es s)
      → batch ≡ drop d.number es
      → AllDelivered (length es) es (send_batch (pos (length es)) s batch)
        × Complete es (send_batch (pos (length es)) s batch)
  send_batch_lem m es s [] d e = (
    (
      record {
        number = d.number;
        seq_is = d.seq_is;
        from_min = drop_short d.number es (sym e);
        progress = d.progress;
      },
      tt,
    ),
    (all_sent (start s.channel) d.number es s.sent d.progress (sym e), tt),
  )
  send_batch_lem m es s (x ∷ batch) d e = elim (Bool-cases (is_full s)) [
    | inl f ↦ rw f (tt, tt)
    | inr f ↦
        let left : d.number < length es = ground (arith, drop-length d.number es) in
        let sent : concat (s.sent ++ (x ∷ batch) ∷ []) ≡ drop (start s.channel) es =
          rw e (sent_now (start s.channel) d.number es s.sent d.progress) in
        let s1 = record s { sent = s.sent ++ (x ∷ batch) ∷ []; seq = pos (length es) } in
        let below = start_bound (start s.channel) d.number es s.sent d.progress left in
        rw f ((caught_up es s1 (length es) sent refl refl below, tt), (sent, tt))
  ]

  send_all_lem :
      (m : ℕ) (es : List NotificationWithSeq) (ss : List Subscriber)
      → Numbered 0 es
      → AllDelivered m es ss
      → AllDelivered (length es) es (send_all (pos (length es)) (drop m es) ss)
        × Complete es (send_all (pos (length es)) (drop m es) ss)
  unfolding send_all
  send_all_lem m es [] h d = (tt, tt)
  send_all_lem m es (s ∷ ss) h (d, ds) =
      let batch = since s.seq (drop m es) in
      let read : batch ≡ drop d.number es = rw d.seq_is (batch_lem m d.number es h d.from_min) in
      let (k, c) = send_batch_lem m es s batch d read in
      let (ks, cs) = send_all_lem m es ss h ds in
      let sent = send_batch (pos (length es)) s batch in
      let others = send_all (pos (length es)) (drop m es) ss in
      (
        All-append (λ x. Delivered (start x.channel) (length es) es x) sent others k ks,
        All-append (λ x. concat x.sent ≡ drop (start x.channel) es) sent others c cs,
      )

  idle-Complete :
      (m : ℕ) (es : List NotificationWithSeq) (ss : List Subscriber)
      → drop m es ≡ []
      → AllDelivered m es ss
      → Complete es ss
  idle-Complete m es [] h d = tt
  idle-Complete m es (s ∷ ss) h (d, ds) =
      let none_left = drop-length d.number es (omega (arith, drop_short m es h, d.from_min)) in
      (
        all_sent (start s.channel) d.number es s.sent d.progress none_left,
        idle-Complete m es ss h ds,
      )

  -- The subscribers of a broadcaster, and its number: what every one was sent fits.
  pub record Good (es : List NotificationWithSeq) (b : Broadcaster) : Type 0 where
    pub min : ℕ
    pub min_is : b.min_seq ≡ pos min
    pub delivered : AllDelivered min es b.subs

  pub broadcast_events_lem :
      (es : List NotificationWithSeq) (b : Broadcaster) (g : Good es b)
      (read : List NotificationWithSeq)
      → Numbered 0 es
      → read ≡ drop g.min es
      → Good es (broadcast_events b read) × Complete es (broadcast_events b read).subs
  unfolding broadcast_events
  broadcast_events_lem es b g [] h r = (g, idle-Complete g.min es b.subs (sym r) g.delivered)
  broadcast_events_lem es b g (e ∷ read) h r =
      let numbered : Numbered (0 + g.min) (e ∷ read) =
        subst (Numbered (0 + g.min)) (sym r) (Numbered-drop 0 g.min es h) in
      let size : length (e ∷ read) ≡ length es - g.min = ap length r ∙ length-drop g.min es in
      let next : last_seq e.seq read +ℤ pos 1 ≡ pos (length es) =
        next_number (0 + g.min) e read numbered ∙ ap pos (omega arith) in
      let (k, c) = send_all_lem g.min es b.subs h g.delivered in
      rw (next, r) (record { min = length es; min_is = refl; delivered = k }, c)
