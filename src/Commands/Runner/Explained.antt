-- ===== src/Commands/Runner/Explained.antt =====
-- What the state of the process of cmd/bitcoin-processing says of what happened to it.
use bitcoin_processing.Base.{
  Bool, true, false, Bool-cases, not, ◌&&◌, Option, none, some, List, [], ◌∷◌, ◌++◌, ◌≡◌, ◌⊎◌, inl,
  inr, refl, arith, if◌then◌else◌,
}
use bitcoin_processing.Monad
use bitcoin_processing.Monad.{Error, Fault, Outcome, ok, err, panic}
use bitcoin_processing.Commands.Runner.{
  Component, api_server, wallet, event_broker, same_component, Process, run_returned, Event,
  returned, signal, shut_down, stop_called, main_returned, begin_stopping, stop_first, stop_next,
  result_of, return_from_main, busy, happen, unless_ended, happen_all, started,
}

-- What happened holds of an event of the list.
pub data Happened : Event → List Event → Type 0 where
  now : (e : Event) (es : List Event) → Happened e (e ∷ es)
  later : (e e' : Event) (es : List Event) → Happened e es → Happened e (e' ∷ es)

abbrev pub Triggers : Event → Type 0
Triggers (returned c o) = Unit
Triggers signal = Unit
Triggers _ = ⊥

-- The calls of Stop that were made, and those that remain.
pub data StopOrder : List Component → List Component → Type 0 where
  before_all : StopOrder [] (wallet ∷ event_broker ∷ api_server ∷ [])
  wallet_stopped : StopOrder (wallet ∷ []) (event_broker ∷ api_server ∷ [])
  broker_stopped : StopOrder (wallet ∷ event_broker ∷ []) (api_server ∷ [])
  all_stopped : StopOrder (wallet ∷ event_broker ∷ api_server ∷ []) []

all_started : (c : Component) → started.running c ≡ true
all_started api_server = refl
all_started wallet = refl
all_started event_broker = refl

-- What the state says of what happened.
pub record Explained (P : Event → Type 0) (p : Process) : Type 0 where
  pub returned_well :
      p.failed ≡ false → (c : Component) → (p.running c ≡ true) ⊎ P (returned c (ok tt))
  pub with_error : p.failed ≡ true → (c : Component) × (e : Error) × P (returned c (err e))
  pub ended_well : p.ended ≡ some (ok tt) → (c : Component) → P (returned c (ok tt))
  pub ended_badly :
      (f : Fault)
      → p.ended ≡ some (panic f)
      → ((c : Component) × (e : Error) × P (returned c (err e)) × (f ≡ Monad.stopped_abnormally))
        ⊎ ((c : Component) × P (returned c (panic f)))
  pub trigger : p.triggered ≡ true → (e : Event) × Triggers e × P e
  pub none_yet : p.triggered ≡ false → (c : Component) → p.running c ≡ true
  pub triggered_first : p.stopping ≡ true → p.triggered ≡ true
  pub not_stopped : p.stopping ≡ false → (p.stops ≡ []) × (p.to_stop ≡ [])
  pub in_order : p.stopping ≡ true → StopOrder p.stops p.to_stop

idle : (p : Process) → busy p ≡ false → (c : Component) → p.running c ≡ false
idle p h api_server = ground arith
idle p h wallet = ground arith
idle p h event_broker = ground arith

module _ (P : Event → Type 0) where
  cleared :
      (f : Component → Bool) (c d : Component)
      → P (returned c (ok tt))
      → (f d ≡ true) ⊎ P (returned d (ok tt))
      → ((if same_component c d then false else f d) ≡ true) ⊎ P (returned d (ok tt))
  cleared f api_server api_server h k = inr h
  cleared f wallet wallet h k = inr h
  cleared f event_broker event_broker h k = inr h
  cleared f api_server wallet h k = k
  cleared f api_server event_broker h k = k
  cleared f wallet api_server h k = k
  cleared f wallet event_broker h k = k
  cleared f event_broker api_server h k = k
  cleared f event_broker wallet h k = k

  called :
      (s t : List Component) (c : Component) (cs : List Component)
      → StopOrder s t
      → t ≡ c ∷ cs
      → StopOrder (s ++ c ∷ []) cs
  called _ _ c cs before_all q =
      let same : wallet ≡ c = cc in
      let rest : event_broker ∷ api_server ∷ [] ≡ cs = cc in
      rw (← same, ← rest) StopOrder.wallet_stopped
  called _ _ c cs wallet_stopped q =
      let same : event_broker ≡ c = cc in
      let rest : api_server ∷ [] ≡ cs = cc in rw (← same, ← rest) StopOrder.broker_stopped
  called _ _ c cs broker_stopped q =
      let same : api_server ≡ c = cc in
      let rest : [] ≡ cs = cc in rw (← same, ← rest) StopOrder.all_stopped
  called _ _ c cs all_stopped q = cc

  result_well : (f : Bool) → some (result_of f) ≡ some (ok tt) → f ≡ false
  result_well true h = cc
  result_well false h = refl

  result_badly :
      (f : Bool) (x : Fault)
      → some (result_of f) ≡ some (panic x)
      → (f ≡ true) × (x ≡ Monad.stopped_abnormally)
  result_badly true x h = (refl, ground arith)
  result_badly false x h = cc

  returned_all :
      (p : Process)
      → Explained P p
      → busy p ≡ false
      → p.failed ≡ false
      → (c : Component) → P (returned c (ok tt))
  returned_all p x e well c = elim (x.returned_well well c) [
    | inl runs ↦ let stopped = idle p e c in cc
    | inr happened ↦ happened
  ]

  returned_error :
      (p : Process)
      → Explained P p
      → (f : Fault) → (p.failed ≡ true) × (f ≡ Monad.stopped_abnormally)
      → (c : Component) × (e : Error) × P (returned c (err e)) × (f ≡ Monad.stopped_abnormally)
  returned_error p x f (failed, same) =
      let (c, e, happened) = x.with_error failed in (c, e, happened, same)

  run_returned-Explained :
      (c : Component) (o : Outcome (Unit {0})) (p : Process)
      → P (returned c o)
      → Explained P p
      → Explained P (run_returned c o p)
  unfolding run_returned
  run_returned-Explained c (ok u) p h x = record {
    returned_well = λ k d. cleared p.running c d h (x.returned_well k d);
    with_error = x.with_error;
    ended_well = x.ended_well;
    ended_badly = x.ended_badly;
    trigger = λ k. (returned c (ok u), tt, h);
    none_yet = λ k c'. cc;
    triggered_first = λ k. refl;
    not_stopped = x.not_stopped;
    in_order = x.in_order;
  }
  run_returned-Explained c (err e) p h x = record {
    returned_well = λ k d. cc;
    with_error = λ k. (c, e, h);
    ended_well = x.ended_well;
    ended_badly = x.ended_badly;
    trigger = λ k. (returned c (err e), tt, h);
    none_yet = λ k c'. cc;
    triggered_first = λ k. refl;
    not_stopped = x.not_stopped;
    in_order = x.in_order;
  }
  run_returned-Explained c (panic y) p h x = record {
    returned_well = x.returned_well;
    with_error = x.with_error;
    ended_well = λ k d. cc;
    ended_badly = λ f k. let same : y ≡ f = ground arith in inr (c, rw (← same) h);
    trigger = x.trigger;
    none_yet = x.none_yet;
    triggered_first = x.triggered_first;
    not_stopped = x.not_stopped;
    in_order = x.in_order;
  }

  begin_stopping-Explained : (p : Process) → Explained P p → Explained P (begin_stopping p)
  unfolding begin_stopping
  begin_stopping-Explained p x = elim (Bool-cases (p.triggered && not p.stopping)) [
    | inl e ↦
        let first : p.stopping ≡ false = ground arith in
        let stops_none : p.stops ≡ [] = (x.not_stopped first).0 in
        rw e (record {
          returned_well = x.returned_well;
          with_error = x.with_error;
          ended_well = x.ended_well;
          ended_badly = x.ended_badly;
          trigger = x.trigger;
          none_yet = x.none_yet;
          triggered_first = λ k. ground arith;
          not_stopped = λ k. cc;
          in_order = λ k. rw stops_none StopOrder.before_all;
        })
    | inr e ↦ rw e x
  ]

  -- One call of Stop.
  stop_first-Explained :
      (t : List Component) (p : Process)
      → p.to_stop ≡ t
      → Explained P p
      → Explained P (stop_first t p)
  stop_first-Explained [] p q x = x
  stop_first-Explained (c ∷ cs) p q x = record {
    returned_well = x.returned_well;
    with_error = x.with_error;
    ended_well = x.ended_well;
    ended_badly = x.ended_badly;
    trigger = x.trigger;
    none_yet = x.none_yet;
    triggered_first = x.triggered_first;
    not_stopped = λ k. let (a, b) = x.not_stopped k in cc;
    in_order = λ k. called p.stops p.to_stop c cs (x.in_order k) q;
  }

  return_from_main-Explained : (p : Process) → Explained P p → Explained P (return_from_main p)
  unfolding return_from_main
  return_from_main-Explained p x = elim (Bool-cases (busy p)) [
    | inl e ↦ rw e x
    | inr e ↦ rw e (record {
      returned_well = x.returned_well;
      with_error = x.with_error;
      ended_well = λ k. returned_all p x e (result_well p.failed k);
      ended_badly = λ f k. inl (returned_error p x f (result_badly p.failed f k));
      trigger = x.trigger;
      none_yet = x.none_yet;
      triggered_first = x.triggered_first;
      not_stopped = x.not_stopped;
      in_order = x.in_order;
    })
  ]

  happen-Explained : (e : Event) (p : Process) → P e → Explained P p → Explained P (happen e p)
  unfolding run_returned begin_stopping stop_next return_from_main
  happen-Explained (returned c o) p h x = elim (Bool-cases (p.running c)) [
    | inl e ↦ rw e (run_returned-Explained c o p h x)
    | inr e ↦ rw e x
  ]
  happen-Explained signal p h x = record {
    returned_well = x.returned_well;
    with_error = x.with_error;
    ended_well = x.ended_well;
    ended_badly = x.ended_badly;
    trigger = λ k. (signal, tt, h);
    none_yet = λ k c. cc;
    triggered_first = λ k. refl;
    not_stopped = x.not_stopped;
    in_order = x.in_order;
  }
  happen-Explained shut_down p h x = begin_stopping-Explained p x
  happen-Explained stop_called p h x = stop_first-Explained p.to_stop p refl x
  happen-Explained main_returned p h x = return_from_main-Explained p x

  unless_ended-Explained :
      (o : Option (Outcome (Unit {0}))) (p q : Process)
      → Explained P p
      → Explained P q
      → Explained P (unless_ended o p q)
  unless_ended-Explained none p q x y = y
  unless_ended-Explained (some z) p q x y = x

  pub happen_all-Explained :
      (es : List Event) (p : Process)
      → ((e : Event) → Happened e es → P e)
      → Explained P p
      → Explained P (happen_all es p)
  unfolding happen_all
  happen_all-Explained [] p h x = x
  happen_all-Explained (e ∷ es) p h x =
      happen_all-Explained es (unless_ended p.ended p (happen e p))
        (λ d k. h d (Happened.later d e es k))
        (unless_ended-Explained p.ended p (happen e p) x
          (happen-Explained e p (h e (Happened.now e es)) x))

  pub started-Explained : Explained P started
  started-Explained = record {
    returned_well = λ k c. inl (all_started c);
    with_error = λ k. cc;
    ended_well = λ k. cc;
    ended_badly = λ f k. cc;
    trigger = λ k. cc;
    none_yet = λ k c. all_started c;
    triggered_first = λ k. cc;
    not_stopped = λ k. (refl, refl);
    in_order = λ k. cc;
  }
