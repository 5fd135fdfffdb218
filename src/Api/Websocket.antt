-- ===== src/Api/Websocket.antt =====
-- api/websocket.go: the connection of one websocket subscriber. The websocket library is a
-- parameter: how the upgrade and the first message end, and which writes fail.
use mathlib.Core.List.{append-nil, append_assoc}
use bitcoin_processing.Base.{
  ℕ, Bool, List, [], ◌∷◌, ◌++◌, ◌≡◌, refl, ap, ◌∙◌, sym, length, inl, inr, ◌⊎◌, Bool-cases,
}
use bitcoin_processing.Base.Int.{ℤ}
use bitcoin_processing.Events.Types.{NotificationWithSeq}
use bitcoin_processing.Monad.{Outcome, ok, err, panic}

-- What the select of the loop receives: that the client closed the connection, that the queue was
-- closed, or a slice of events.
pub data Received : Type 0 where
  client_closed queue_closed : Received
  event_sequence : List NotificationWithSeq → Received

-- `write` says how WriteJSON ends, after the events written so far.
pub record Connection : Type 0 where
  pub upgrade : Outcome (Unit {0})
  pub read_seq : Outcome ℤ
  pub write : List NotificationWithSeq → NotificationWithSeq → Bool

-- What the handler did: the events written, the close messages of shutdownConnection, the calls of
-- SubscribeFromSeq and UnsubscribeFromSeq, and the calls of Close.
pub record Served : Type 0 where
  pub written : List NotificationWithSeq
  pub shutdowns : ℕ
  pub subscribed : List ℤ
  pub unsubscribed : ℕ
  pub closed : ℕ

abbrev pub idle : Served
idle = record { written = []; shutdowns = 0; subscribed = []; unsubscribed = 0; closed = 0 }

-- The loop over one slice: the events written, and whether all were.
abbrev pub write_all :
    (List NotificationWithSeq → NotificationWithSeq → Bool)
    → List NotificationWithSeq
    → List NotificationWithSeq
    → List NotificationWithSeq × Bool
write_all write written [] = (written, Bool.true)
write_all write written (e ∷ es) = elim (write written e) [
  | Bool.true ↦ write_all write (written ++ e ∷ []) es
  | Bool.false ↦ (written, Bool.false)
]

-- The events of the slices before the connection or the queue is closed.
abbrev pub offered : List Received → List NotificationWithSeq
offered [] = []
offered (client_closed ∷ rs) = []
offered (queue_closed ∷ rs) = []
offered (event_sequence es ∷ rs) = es ++ offered rs

-- The loop ends with the first event that cannot be written.
abbrev pub go_on :
    List NotificationWithSeq × Bool
    → (List NotificationWithSeq → List NotificationWithSeq)
    → List NotificationWithSeq
go_on (written, Bool.true) rest = rest written
go_on (written, Bool.false) rest = written

module _ (c : Connection) where
  unfoldable pub send_events : List Received → List NotificationWithSeq → List NotificationWithSeq
  send_events [] written = written
  send_events (client_closed ∷ rs) written = written
  send_events (queue_closed ∷ rs) written = written
  send_events (event_sequence es ∷ rs) written =
      let rest = send_events rs in go_on (write_all c.write written es) rest

  -- The two deferred calls, Close and UnsubscribeFromSeq, are made on every way out.
  abbrev pub serve_subscriber : Outcome ℤ → List Received → Served
  serve_subscriber (ok seq) rs = record {
    written = send_events rs [];
    shutdowns = 0;
    subscribed = seq ∷ [];
    unsubscribed = 1;
    closed = 1;
  }
  serve_subscriber _ rs = record idle { shutdowns = 1; closed = 1 }

  abbrev pub serve_upgraded : Outcome (Unit {0}) → List Received → Served
  serve_upgraded (ok u) rs = serve_subscriber c.read_seq rs
  serve_upgraded _ rs = idle

  unfoldable pub handle_websocket_connection : List Received → Served
  handle_websocket_connection rs = serve_upgraded c.upgrade rs

  -- A list that begins with another.
  abbrev Begins : List NotificationWithSeq → List NotificationWithSeq → Type 0
  Begins xs ys = (rest : List NotificationWithSeq) × (ys ≡ xs ++ rest)

  all_or_part :
      (written es : List NotificationWithSeq)
      → ((write_all c.write written es) ≡ (written ++ es, Bool.true))
        ⊎ (((write_all c.write written es).1 ≡ Bool.false)
            × Begins (write_all c.write written es).0 (written ++ es))
  all_or_part written [] =
      inl (ap (λ (l : List NotificationWithSeq). (l, Bool.true)) (sym (append-nil written)))
  all_or_part written (e ∷ es) = elim (Bool-cases (c.write written e)) [
    | inl h ↦
        rw (h, write_all)
          (rw (append_assoc written (e ∷ []) es) at (all_or_part (written ++ e ∷ []) es))
    | inr h ↦ rw (h, write_all) (inr (refl, (e ∷ es, refl)))
  ]

  stopped :
      (p : List NotificationWithSeq × Bool)
      (k : List NotificationWithSeq → List NotificationWithSeq)
      → p.1 ≡ Bool.false
      → go_on p k ≡ p.0
  stopped (written, Bool.true) k h = cc
  stopped (written, Bool.false) k h = refl

  send-Begins :
      (rs : List Received) (written : List NotificationWithSeq)
      → Begins (send_events rs written) (written ++ offered rs)
  unfolding send_events
  send-Begins [] written = (offered [], refl)
  send-Begins (client_closed ∷ rs) written = ([], refl)
  send-Begins (queue_closed ∷ rs) written = ([], refl)
  send-Begins (event_sequence es ∷ rs) written = elim (all_or_part written es) [
    | inl h ↦
        let (rest, q) = send-Begins rs (written ++ es) in
        rw h (rest, sym (append_assoc written es (offered rs)) ∙ q)
    | inr (f, (rest, q)) ↦
        let sent = (write_all c.write written es).0 in
        (
          rest ++ offered rs,
          sym (append_assoc written es (offered rs))
              ∙ ap (λ l. l ++ offered rs) q
              ∙ append_assoc sent rest (offered rs)
              ∙ ap (λ l. l ++ (rest ++ offered rs))
                  (sym (stopped (write_all c.write written es) (send_events rs) f)),
        )
  ]

  abbrev Sends : List Received → Served → Type 0
  Sends rs served =
      ((rest : List NotificationWithSeq) × (offered rs ≡ served.written ++ rest))
      × (served.unsubscribed ≡ length served.subscribed)

  -- How often the connection is closed: once, if there is one.
  abbrev pub closings : Outcome (Unit {0}) → ℕ
  closings (ok u) = 1
  closings _ = 0

  subscriber-Sends : (r : Outcome ℤ) (rs : List Received) → Sends rs (serve_subscriber r rs)
  subscriber-Sends (ok seq) rs = (send-Begins rs [], refl)
  subscriber-Sends (err e) rs = ((offered rs, refl), refl)
  subscriber-Sends (panic p) rs = ((offered rs, refl), refl)

  subscriber_closes : (r : Outcome ℤ) (rs : List Received) → (serve_subscriber r rs).closed ≡ 1
  subscriber_closes (ok seq) rs = refl
  subscriber_closes (err e) rs = refl
  subscriber_closes (panic p) rs = refl

  upgraded_closes :
      (r : Outcome (Unit {0})) (rs : List Received) → (serve_upgraded r rs).closed ≡ closings r
  upgraded_closes (ok u) rs = subscriber_closes c.read_seq rs
  upgraded_closes (err e) rs = refl
  upgraded_closes (panic p) rs = refl

  upgraded-Sends : (r : Outcome (Unit {0})) (rs : List Received) → Sends rs (serve_upgraded r rs)
  upgraded-Sends (ok u) rs = subscriber-Sends c.read_seq rs
  upgraded-Sends (err e) rs = ((offered rs, refl), refl)
  upgraded-Sends (panic p) rs = ((offered rs, refl), refl)

  -- What a subscriber is sent is the beginning of what its queue offers, slice by slice and in
  -- order, up to the closing of the connection or of the queue; the connection is closed once where
  -- the upgrade succeeded and not otherwise, and there are as many calls that end a subscription as
  -- begin one.
  pub handle_websocket_connection_sends :
      (rs : List Received)
      → ((rest : List NotificationWithSeq) × (offered rs
            ≡ (handle_websocket_connection rs).written ++ rest))
        × ((handle_websocket_connection rs).unsubscribed
            ≡ length (handle_websocket_connection rs).subscribed)
        × ((handle_websocket_connection rs).closed ≡ closings c.upgrade)
  unfolding handle_websocket_connection
  handle_websocket_connection_sends rs =
      let (begun, ended) = upgraded-Sends c.upgrade rs in
      (begun, ended, upgraded_closes c.upgrade rs)
