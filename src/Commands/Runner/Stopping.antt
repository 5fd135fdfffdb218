-- ===== src/Commands/Runner/Stopping.antt =====
-- How the process of cmd/bitcoin-processing stops.
use bitcoin_processing.Base.{
  Bool, true, false, Bool-cases, not, ◌&&◌, none, some, List, [], ◌∷◌, ◌++◌, ◌≡◌, ◌⊎◌, inl, inr,
  refl, ap, ◌∙◌, if◌then◌else◌,
}
use bitcoin_processing.Monad
use bitcoin_processing.Monad.{Error, Fault, Outcome, ok, err, panic}
use bitcoin_processing.Commands.Runner.{
  Component, event_broker, api_server, Process, Event, returned, shut_down, stop_called, stop_order,
  run_returned, begin_stopping, stop_next, return_from_main, unless_ended, happen_all, started,
}
use bitcoin_processing.Commands.Runner.Explained.{
  Happened, Triggers, StopOrder, Explained, happen_all-Explained, started-Explained,
}

StopOrder-prefix :
    (s t : List Component) → StopOrder s t → (later : List Component) × (s ++ later ≡ stop_order)
StopOrder-prefix _ _ StopOrder.before_all = (stop_order, refl)
StopOrder-prefix _ _ StopOrder.wallet_stopped = (event_broker ∷ api_server ∷ [], refl)
StopOrder-prefix _ _ StopOrder.broker_stopped = (api_server ∷ [], refl)
StopOrder-prefix _ _ StopOrder.all_stopped = ([], refl)

-- The calls of Stop that the stopping goroutine has left.
abbrev pub three_calls : List Event
three_calls = stop_called ∷ stop_called ∷ stop_called ∷ []

calls_done :
    (s t : List Component) (p : Process)
    → StopOrder s t
    → p.stops ≡ s
    → p.to_stop ≡ t
    → p.ended ≡ none
    → (happen_all three_calls p).stops ≡ stop_order
unfolding happen_all run_returned begin_stopping stop_next return_from_main
calls_done _ _ p StopOrder.before_all a b e = rw (e, b, a) refl
calls_done _ _ p StopOrder.wallet_stopped a b e = rw (e, b, a) refl
calls_done _ _ p StopOrder.broker_stopped a b e = rw (e, b, a) refl
calls_done _ _ p StopOrder.all_stopped a b e = rw (e, b, a) refl

both : {a b : Bool} → a ≡ true → b ≡ true → (a && not b) ≡ false
both h k = rw (h, k) refl

both_on : {a b : Bool} → a ≡ true → b ≡ false → (a && not b) ≡ true
both_on h k = rw (h, k) refl

going : (p : Process) → p.triggered ≡ true → p.stopping ≡ true → begin_stopping p ≡ p
unfolding begin_stopping
going p t e =
    ap (λ b. if b then record p { stopping = true; to_stop = stop_order } else p) (both t e)

going_on :
    (p : Process)
    → p.triggered ≡ true
    → p.stopping ≡ false
    → begin_stopping p ≡ (record p { stopping = true; to_stop = stop_order })
unfolding begin_stopping
going_on p t e =
    ap (λ b. if b then record p { stopping = true; to_stop = stop_order } else p) (both_on t e)

module _ (P : Event → Type 0) (p : Process) (x : Explained P p) where
  stopped : (later : List Component) × (p.stops ++ later ≡ stop_order)
  stopped = elim (Bool-cases p.stopping) [
    | inl e ↦ StopOrder-prefix p.stops p.to_stop (x.in_order e)
    | inr e ↦ (stop_order, rw (x.not_stopped e).0 refl)
  ]

  triggered_before : (p.stops ≡ []) ⊎ ((e : Event) × Triggers e × P e)
  triggered_before = elim (Bool-cases p.stopping) [
    | inl e ↦ inr (x.trigger (x.triggered_first e))
    | inr e ↦ inl (x.not_stopped e).0
  ]

  stopping_all :
      (c : Component)
      → p.running c ≡ false
      → p.ended ≡ none
      → (happen_all (shut_down ∷ three_calls) p).stops ≡ stop_order
  unfolding happen_all run_returned begin_stopping stop_next return_from_main
  stopping_all c r h =
      let triggered : p.triggered ≡ true = elim (Bool-cases p.triggered) [
        | inl e ↦ e
        | inr e ↦ let runs = x.none_yet e c in cc
      ] in
      let first : (happen_all (shut_down ∷ three_calls) p).stops
          ≡ (happen_all three_calls (begin_stopping p)).stops =
        ap (λ o. (happen_all three_calls (unless_ended o p (begin_stopping p))).stops) h in
      elim (Bool-cases p.stopping) [
        | inl e ↦
            let begun : begin_stopping p ≡ p = going p triggered e in
            first
            ∙ ap (λ q. (happen_all three_calls q).stops) begun
            ∙ calls_done p.stops p.to_stop p (x.in_order e) refl refl h
        | inr e ↦
            let q : Process = record p { stopping = true; to_stop = stop_order } in
            let begun : begin_stopping p ≡ q = going_on p triggered e in
            first
            ∙ ap (λ r. (happen_all three_calls r).stops) begun
            ∙ calls_done [] stop_order q StopOrder.before_all (x.not_stopped e).0 refl h
      ]

-- In whatever order the components return, signals arrive, `main` returns, and the stopping
-- goroutine goes on and makes its calls of Stop one after the other: `main` returns normally only
-- after each component returned without an error, and where the process ends otherwise, a component
-- returned an error or panicked. The calls of Stop made are a beginning of those on the wallet, the
-- broker and the server in this order, and one is made only after a component returned or a signal
-- arrived. Once a component returned, what the stopping goroutine has left to do, before the
-- process ends, makes all three.
pub main-Stops :
    (es : List Event)
    → ((happen_all es started).ended ≡ some (ok tt)
        → (c : Component) → Happened (returned c (ok tt)) es)
      × ((f : Fault)
          → (happen_all es started).ended ≡ some (panic f)
          → ((c : Component) × (e : Error) × Happened (returned c (err e)) es
              × (f ≡ Monad.stopped_abnormally))
            ⊎ ((c : Component) × Happened (returned c (panic f)) es))
      × ((later : List Component) × ((happen_all es started).stops ++ later ≡ stop_order))
      × (((happen_all es started).stops ≡ []) ⊎ ((e : Event) × Triggers e × Happened e es))
      × ((c : Component)
          → (happen_all es started).running c ≡ false
          → (happen_all es started).ended ≡ none
          → (happen_all (shut_down ∷ three_calls) (happen_all es started)).stops ≡ stop_order)
main-Stops es =
    let P : Event → Type 0 = λ e. Happened e es in
    let p = happen_all es started in
    let x : Explained P p = happen_all-Explained P es started (λ e h. h) (started-Explained P) in
    (x.ended_well, x.ended_badly, stopped P p x, triggered_before P p x, stopping_all P p x)
