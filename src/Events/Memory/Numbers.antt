-- ===== src/Events/Memory/Numbers.antt =====
-- The numbers that the in-memory event storage gives to events.
use bitcoin_processing.Base.{
  ltb, true, ℕ, zero, suc, ◌+◌, ◌≤◌, ◌≡◌, refl, sym, List, [], ◌∷◌, ◌++◌, arith, length, drop,
  drop_nil, get_elem?, some, keep, drop-length, length-append, get_elem?_last,
}
use bitcoin_processing.Base.Int.{ℤ, pos, negsuc, leb_ℤ}
use bitcoin_processing.Events.Types.{Notification, NotificationWithSeq}
use bitcoin_processing.Events.Memory.{
  InMemoryEventStorage, store_event, get_events_from_seq, get_next_event_from_seq,
}
use bitcoin_processing.Monad
use bitcoin_processing.Monad.{Outcome, ok, panic}

-- The events have the numbers from `k` on, in order.
abbrev pub Numbered : ℕ → List NotificationWithSeq → Type 0
Numbered k [] = Unit
Numbered k (e ∷ es) = (e.seq ≡ pos k) × Numbered (suc k) es

pub Numbered-snoc :
    (k : ℕ) (es : List NotificationWithSeq) (e : NotificationWithSeq)
    → Numbered k es
    → e.seq ≡ pos (k + length es)
    → Numbered k (es ++ e ∷ [])
Numbered-snoc k [] e h q = ground arith
Numbered-snoc k (x ∷ es) e (h, hs) q = (h, Numbered-snoc (suc k) es e hs (ground arith))

pub Numbered-drop :
    (k i : ℕ) (es : List NotificationWithSeq) → Numbered k es → Numbered (k + i) (drop i es)
Numbered-drop k zero es h = ground arith
Numbered-drop k (suc i) [] h = tt
Numbered-drop k (suc i) (e ∷ es) (h, hs) = ground (arith, Numbered-drop (suc k) i es hs)

-- The events with a number of at least `seq`.
abbrev pub from_number : ℤ → List NotificationWithSeq → List NotificationWithSeq
from_number seq es = keep (λ e. leb_ℤ seq e.seq) es

all_from :
    (k i : ℕ) (es : List NotificationWithSeq) → Numbered k es → i ≤ k → from_number (pos i) es ≡ es
all_from k i [] h l = refl
all_from k i (e ∷ es) (h, hs) l = ground (arith, all_from (suc k) i es hs (omega arith))

pub drop-from_number :
    (k i j : ℕ) (es : List NotificationWithSeq)
    → Numbered k es
    → j ≡ i + k
    → drop i es ≡ from_number (pos j) es
drop-from_number k i j [] h q = drop_nil i
drop-from_number k zero j (e ∷ es) (h, hs) q = sym (all_from k j (e ∷ es) (h, hs) (omega arith))
drop-from_number k (suc i) j (e ∷ es) (h, hs) q =
    ground (arith, drop-from_number (suc k) i j es hs (omega arith))

-- What the storage returns is what it holds behind the first `i` events.
pub get_events_from_seq-drop :
    (i : ℕ) (s : InMemoryEventStorage) → get_events_from_seq (pos i) s ≡ (ok (drop i s.events), s)
unfolding get_events_from_seq
get_events_from_seq-drop i s =
    ground (arith, drop-length i s.events, drop-length (length s.events) s.events)

-- Storing an event keeps the events numbered from 0 on without a gap.
pub store_event-Numbered :
    (n : Notification) (s : InMemoryEventStorage)
    → Numbered 0 s.events
    → Numbered 0 (store_event n s).1.events
unfolding store_event
store_event-Numbered n s h =
    ground
      (arith, Numbered-snoc 0 s.events (record { notification = n; seq = pos (length s.events) }) h)

-- What GetEventsFromSeq promises of the events of the storage; a negative number is out of range.
abbrev pub events_from : ℤ → List NotificationWithSeq → Outcome (List NotificationWithSeq)
events_from (pos i) es = ok (from_number (pos i) es)
events_from (negsuc i) es = panic Monad.negative_index

negative_index :
    (i : ℕ) (s : InMemoryEventStorage)
    → get_events_from_seq (negsuc i) s ≡ (panic Monad.negative_index, s)
unfolding get_events_from_seq
negative_index i s =
    let below : ltb 0 (length s.events + suc i) ≡ true = ground arith in rw below refl

-- As long as the events are numbered from 0 on without a gap, GetEventsFromSeq returns exactly the
-- events with this number or a larger one, in order, where the number is not negative, and panics
-- where it is; it changes nothing.
pub get_events_from_seq-from_number :
    (seq : ℤ) (s : InMemoryEventStorage)
    → Numbered 0 s.events
    → get_events_from_seq seq s ≡ (events_from seq s.events, s)
get_events_from_seq-from_number (pos i) s h =
    rw (← drop-from_number 0 i i s.events h (omega arith)) (get_events_from_seq-drop i s)
get_events_from_seq-from_number (negsuc i) s h = negative_index i s

number_at :
    (k i : ℕ) (es : List NotificationWithSeq) (e : NotificationWithSeq)
    → Numbered k es
    → get_elem? es i ≡ some e
    → e.seq ≡ pos (k + i)
number_at k i [] e h q = cc
number_at k zero (x ∷ es) e (h, hs) q = ground arith
number_at k (suc i) (x ∷ es) e (h, hs) q = ground (arith, number_at (suc k) i es e hs q)

-- An event that StoreEvent has just stored is the one that GetNextEventFromSeq gives for the
-- number that it got.
pub get_next_event-store_event :
    (n : Notification) (s : InMemoryEventStorage) (e : NotificationWithSeq)
    → (store_event n s).0 ≡ ok e
    → (get_next_event_from_seq e.seq (store_event n s).1).0 ≡ ok e
unfolding store_event get_next_event_from_seq
get_next_event-store_event n s e h =
    let stored : NotificationWithSeq = record { notification = n; seq = pos (length s.events) } in
    ground (arith, length-append s.events (stored ∷ []), get_elem?_last s.events stored)
