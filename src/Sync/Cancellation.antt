-- ===== src/Sync/Cancellation.antt =====
-- Chapter 9/coop_cancellation.cpp: a worker that sleeps until its stop is requested, a callback on the
-- request, and a thread that requests it. The worker's mutex is its own, so nobody waits for it.
pub mod Lines
mod Examples
use c_programming_for_linux.Prelude.{
  Bool, true, false, List, [], ◌∷◌, Option, none, some, if◌then◌else◌,
}

pub data Turn : Type 0 where
  main_turn worker_turn stopper_turn : Turn

-- The lines printed, without the thread's number.
pub data Line : Type 0 where
  main_id currently_working callback_executed request_executed : Line

-- `joining` is `stopper.join()`, `destroying` the destructor of `worker` up to its join.
pub data MainPc : Type 0 where
  announcing constructing_worker constructing_callback constructing_stopper joining : MainPc
  destroying joining_worker finished : MainPc

pub data WorkerPc : Type 0 where
  absent waiting printing finished : WorkerPc

pub data StopperPc : Type 0 where
  absent requesting calling_back reporting finished : StopperPc

-- `printed` has the newest line first.
pub record State : Type 0 where
  pub stop_requested : Bool
  pub callback : Bool
  pub printed : List Line
  pub main_pc : MainPc
  pub worker_pc : WorkerPc
  pub stopper_pc : StopperPc

abbrev pub main_started : State
main_started = record {
  stop_requested = false;
  callback = false;
  printed = [];
  main_pc = MainPc.announcing;
  worker_pc = WorkerPc.absent;
  stopper_pc = StopperPc.absent;
}

pub main_step : MainPc → State → Option State
main_step MainPc.announcing s =
    some (record s { printed = main_id ∷ s.printed; main_pc = MainPc.constructing_worker })
main_step MainPc.constructing_worker s =
    some (record s { worker_pc = WorkerPc.waiting; main_pc = MainPc.constructing_callback })
main_step MainPc.constructing_callback s =
    some (record s { callback = true; main_pc = MainPc.constructing_stopper })
main_step MainPc.constructing_stopper s =
    some (record s { stopper_pc = StopperPc.requesting; main_pc = MainPc.joining })
main_step MainPc.joining s = elim s.stopper_pc [
  | StopperPc.finished ↦ some (record s { callback = false; main_pc = MainPc.destroying })
  | _ ↦ none
]
main_step MainPc.destroying s =
    some (record s { stop_requested = true; main_pc = MainPc.joining_worker })
main_step MainPc.joining_worker s = elim s.worker_pc [
  | WorkerPc.finished ↦ some (record s { main_pc = MainPc.finished })
  | _ ↦ none
]
main_step MainPc.finished s = none

-- The wait ends when the stop has been requested, which the predicate then confirms.
pub worker_step : WorkerPc → State → Option State
worker_step WorkerPc.absent s = none
worker_step WorkerPc.waiting s =
    if s.stop_requested then some (record s { worker_pc = WorkerPc.printing }) else none
worker_step WorkerPc.printing s =
    some (record s { printed = currently_working ∷ s.printed; worker_pc = WorkerPc.finished })
worker_step WorkerPc.finished s = none

-- `request_stop` runs the callback before it returns, and returns whether it made the request.
pub stopper_step : StopperPc → State → Option State
stopper_step StopperPc.absent s = none
stopper_step StopperPc.requesting s =
    if s.stop_requested
    then some (record s { stopper_pc = StopperPc.finished })
    else some (record s { stop_requested = true; stopper_pc = StopperPc.calling_back })
stopper_step StopperPc.calling_back s =
    if s.callback
    then some
        (record s { printed = callback_executed ∷ s.printed; stopper_pc = StopperPc.reporting })
    else some (record s { stopper_pc = StopperPc.reporting })
stopper_step StopperPc.reporting s =
    some (record s { printed = request_executed ∷ s.printed; stopper_pc = StopperPc.finished })
stopper_step StopperPc.finished s = none

pub step : Turn → State → Option State
unfolding main_step worker_step stopper_step
step main_turn s = main_step s.main_pc s
step worker_turn s = worker_step s.worker_pc s
step stopper_turn s = stopper_step s.stopper_pc s
