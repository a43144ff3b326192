-- ===== src/Sync/Latch.antt =====
-- Chapter 6/latch.cpp: main and a thread that wait on a latch until both threads have counted it down.
pub mod Release
mod Examples
use c_programming_for_linux.Prelude.{
  ℕ, ◌-◌, Bool, true, false, List, [], ◌∷◌, Option, none, some, ◌==◌, if◌then◌else◌,
}

pub data Turn : Type 0 where
  main_turn thread0 thread1 : Turn

-- The lines printed.
pub data Line : Type 0 where
  main_waiting main_finished : Line
  starting finished : ℕ → Line
  decrementing : Line

-- `arriving` is at the latch; `decrementing` and `ending` are at the lines before and after it.
pub data Pc : Type 0 where
  absent starting decrementing arriving waiting ending finished : Pc

pub data MainPc : Type 0 where
  constructing0 constructing1 announcing waiting ending joining finished : MainPc

-- `progress` is the latch's counter; `printed` has the newest line first.
pub record State : Type 0 where
  pub progress : ℕ
  pub main_pc : MainPc
  pub pc0 : Pc
  pub pc1 : Pc
  pub printed : List Line

abbrev pub main_started : State
main_started = record {
  progress = 2;
  main_pc = MainPc.constructing0;
  pc0 = Pc.absent;
  pc1 = Pc.absent;
  printed = [];
}

-- `progress.count_down()`
pub count_down : State → State
count_down s = record s { progress = s.progress - 1 }

pub is_finished : Pc → Bool
is_finished Pc.finished = true
is_finished pc = false

pub main_step : MainPc → State → Option State
unfolding is_finished
main_step MainPc.constructing0 s =
    some (record s { pc0 = Pc.starting; main_pc = MainPc.constructing1 })
main_step MainPc.constructing1 s =
    some (record s { pc1 = Pc.starting; main_pc = MainPc.announcing })
main_step MainPc.announcing s =
    some (record s { printed = Line.main_waiting ∷ s.printed; main_pc = MainPc.waiting })
main_step MainPc.waiting s =
    if s.progress == 0 then some (record s { main_pc = MainPc.ending }) else none
main_step MainPc.ending s =
    some (record s { printed = Line.main_finished ∷ s.printed; main_pc = MainPc.joining })
main_step MainPc.joining s =
    if is_finished s.pc0
    then if is_finished s.pc1 then some (record s { main_pc = MainPc.finished }) else none
    else none
main_step MainPc.finished s = none

-- The thread that counts down and goes on.
pub thread0_step : Pc → State → Option State
unfolding count_down
thread0_step Pc.starting s =
    some (record s { printed = Line.starting 0 ∷ s.printed; pc0 = Pc.decrementing })
thread0_step Pc.decrementing s =
    some (record s { printed = Line.decrementing ∷ s.printed; pc0 = Pc.arriving })
thread0_step Pc.arriving s = some (record (count_down s) { pc0 = Pc.ending })
thread0_step Pc.ending s =
    some (record s { printed = Line.finished 0 ∷ s.printed; pc0 = Pc.finished })
thread0_step _ s = none

-- The thread that arrives and waits.
pub thread1_step : Pc → State → Option State
unfolding count_down
thread1_step Pc.starting s =
    some (record s { printed = Line.starting 1 ∷ s.printed; pc1 = Pc.arriving })
thread1_step Pc.arriving s = some (record (count_down s) { pc1 = Pc.waiting })
thread1_step Pc.waiting s = if s.progress == 0 then some (record s { pc1 = Pc.ending }) else none
thread1_step Pc.ending s =
    some (record s { printed = Line.finished 1 ∷ s.printed; pc1 = Pc.finished })
thread1_step _ s = none

pub step : Turn → State → Option State
unfolding main_step thread0_step thread1_step
step main_turn s = main_step s.main_pc s
step thread0 s = thread0_step s.pc0 s
step thread1 s = thread1_step s.pc1 s
