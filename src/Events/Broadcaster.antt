-- ===== src/Events/Broadcaster.antt =====
-- events/broadcaster.go: the websocket subscribers. A subscriber's channel is what was sent on it
-- so far and how many of these batches were received; a channel that is closed is dropped. The
-- mutex makes each method one step.
pub mod Delivery
pub mod Runs
use bitcoin_processing.Base.{
  ℕ, suc, Bool, List, [], ◌∷◌, ◌++◌, ◌-◌, ◌==◌, ltb, not, length, keep, if◌then◌else◌,
}
use bitcoin_processing.Base.Int.{ℤ, pos, ◌+ℤ◌, leb_ℤ}
use bitcoin_processing.Util.{min_int}
use bitcoin_processing.Events.Types.{NotificationWithSeq}
use bitcoin_processing.Events.Memory.{EventStorage}
use bitcoin_processing.Monad.{ok, err, panic, M}

abbrev pub channel_size : ℕ
channel_size = 10000

-- `seq` is the value of the map `subs` at this channel.
pub record Subscriber : Type 0 where
  pub channel : ℕ
  pub seq : ℤ
  pub sent : List (List NotificationWithSeq)
  pub received : ℕ

pub record Broadcaster : Type 0 where
  pub subs : List Subscriber
  pub min_seq : ℤ
  pub next_channel : ℕ

unfoldable pub new_broadcaster : Broadcaster
new_broadcaster = record { subs = []; min_seq = pos 0; next_channel = 0 }

-- `events[i:]` for the first event with a number of at least `seq`.
unfoldable pub since : ℤ → List NotificationWithSeq → List NotificationWithSeq
since seq [] = []
since seq (e ∷ es) = if leb_ℤ seq e.seq then e ∷ es else since seq es

-- `events[len(events)-1].Seq`
unfoldable pub last_seq : ℤ → List NotificationWithSeq → ℤ
last_seq seq [] = seq
last_seq seq (e ∷ es) = last_seq e.seq es

abbrev pub is_full : Subscriber → Bool
is_full s = not (ltb (length s.sent - s.received) channel_size)

-- A non-blocking send of one batch; a subscriber whose channel is full is disconnected.
abbrev pub send_batch : ℤ → Subscriber → List NotificationWithSeq → List Subscriber
send_batch next_seq s [] = s ∷ []
send_batch next_seq s (e ∷ es) =
    if is_full s then [] else record s { sent = s.sent ++ (e ∷ es) ∷ []; seq = next_seq } ∷ []

-- The loop over the subscribers.
unfoldable pub send_all : ℤ → List NotificationWithSeq → List Subscriber → List Subscriber
unfolding since
send_all next_seq events [] = []
send_all next_seq events (s ∷ ss) =
    send_batch next_seq s (since s.seq events) ++ send_all next_seq events ss

unfoldable pub broadcast_events : Broadcaster → List NotificationWithSeq → Broadcaster
broadcast_events b [] = b
broadcast_events b (e ∷ es) =
    let next_seq = last_seq e.seq es +ℤ pos 1 in
    record b { subs = send_all next_seq (e ∷ es) b.subs; min_seq = next_seq }

unfoldable pub broadcast : {Db : Type 0} → EventStorage Db → Broadcaster → M Db Broadcaster
broadcast storage b d =
    let (r, d') = storage.get_events_from_seq b.min_seq d in
    elim r [
      | ok events ↦ (ok (broadcast_events b events), d')
      | err e ↦ (err e, d')
      | panic p ↦ (panic p, d')
    ]

unfoldable pub subscribe_from_seq : ℤ → Broadcaster → ℕ × Broadcaster
subscribe_from_seq seq b = (
  b.next_channel,
  record b {
    subs = record { channel = b.next_channel; seq = seq; sent = []; received = 0 } ∷ b.subs;
    min_seq = min_int seq b.min_seq;
    next_channel = suc b.next_channel;
  },
)

unfoldable pub unsubscribe : ℕ → Broadcaster → Broadcaster
unsubscribe ch b = record b { subs = keep (λ s. not (s.channel == ch)) b.subs }

unfoldable pub close : Broadcaster → Broadcaster
close b = record b { subs = [] }
