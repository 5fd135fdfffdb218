-- ===== src/Commands/Runner.antt =====
-- cmd/bitcoin-processing: main.go, and the runner of componentrunner.go. The components run in
-- goroutines of their own, so from their start what happens is an explicit list of events: a
-- component's Run returns, a signal arrives, the goroutine that waits for either goes on or makes
-- its next call of Stop, or `main` returns. A call of Stop that blocks is one that never comes.
pub mod Explained
pub mod Stopping
use bitcoin_processing.Base.{
  Bool, true, false, not, ◌&&◌, ◌||◌, Option, none, some, List, [], ◌∷◌, ◌++◌, if◌then◌else◌,
}
use bitcoin_processing.Monad
use bitcoin_processing.Monad.{Fault, Outcome, ok, err, panic}

pub data Component : Type 0 where
  api_server wallet event_broker : Component

abbrev pub same_component : Component → Component → Bool
same_component api_server api_server = true
same_component wallet wallet = true
same_component event_broker event_broker = true
same_component _ _ = false

-- processingComponentRunner, whose WaitGroup counts the components that run, and `main`.
-- `triggered` says whether the select of the stopping goroutine can go on and `stopping` whether it
-- did; `stops` are the calls of Stop that the goroutine made, in order, and `to_stop` those that it
-- still makes. `ended` is how the process ended: `main` returned, or a component panicked.
pub record Process : Type 0 where
  pub running : Component → Bool
  pub failed : Bool
  pub triggered : Bool
  pub stopping : Bool
  pub stops : List Component
  pub to_stop : List Component
  pub ended : Option (Outcome (Unit {0}))

abbrev pub new_processing_component_runner : Process
new_processing_component_runner = record {
  running = λ c. false;
  failed = false;
  triggered = false;
  stopping = false;
  stops = [];
  to_stop = [];
  ended = none;
}

abbrev pub set_running : Component → Bool → Process → Process
set_running c b p = record p { running = λ x. if same_component c x then b else p.running x }

-- `run`
abbrev pub run : Component → Process → Process
run c p = set_running c true p

-- The rest of the goroutine of `run`: Run has returned.
unfoldable pub run_returned : Component → Outcome (Unit {0}) → Process → Process
run_returned c (ok u) p = record (set_running c false p) { triggered = true }
run_returned c (err e) p = record (set_running c false p) { triggered = true; failed = true }
run_returned c (panic x) p = record p { ended = some (panic x) }

-- The stopping goroutine of `main`: its select, and then one call of Stop after the other.
abbrev pub stop_order : List Component
stop_order = wallet ∷ event_broker ∷ api_server ∷ []

unfoldable pub begin_stopping : Process → Process
begin_stopping p =
    if p.triggered && not p.stopping then record p { stopping = true; to_stop = stop_order } else p

abbrev pub stop_first : List Component → Process → Process
stop_first [] p = p
stop_first (c ∷ cs) p = record p { to_stop = cs; stops = p.stops ++ c ∷ [] }

unfoldable pub stop_next : Process → Process
stop_next p = stop_first p.to_stop p

abbrev pub busy : Process → Bool
busy p = p.running api_server || p.running wallet || p.running event_broker

abbrev pub result_of : Bool → Outcome (Unit {0})
result_of failed = if failed then panic Monad.stopped_abnormally else ok tt

-- The end of `main`, behind `wait`.
unfoldable pub return_from_main : Process → Process
return_from_main p = if busy p then p else record p { ended = some (result_of p.failed) }

pub data Event : Type 0 where
  returned : Component → Outcome (Unit {0}) → Event
  signal : Event
  shut_down : Event
  stop_called : Event
  main_returned : Event

abbrev pub happen : Event → Process → Process
unfolding run_returned begin_stopping stop_next return_from_main
happen (returned c o) p = if p.running c then run_returned c o p else p
happen signal p = record p { triggered = true }
happen shut_down p = begin_stopping p
happen stop_called p = stop_next p
happen main_returned p = return_from_main p

-- Nothing happens in a process that has ended.
abbrev pub unless_ended : Option (Outcome (Unit {0})) → Process → Process → Process
unless_ended none p q = q
unless_ended (some o) p q = p

unfoldable pub happen_all : List Event → Process → Process
happen_all [] p = p
happen_all (e ∷ es) p = happen_all es (unless_ended p.ended p (happen e p))

abbrev pub started : Process
started = run event_broker (run wallet (run api_server new_processing_component_runner))
