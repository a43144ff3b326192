-- ===== src/Sync/Latch/Release.antt =====
-- Chapter 6/latch.cpp: who passes the latch when, and that the program ends.
use c_programming_for_linux.Prelude.{
  ℕ, suc, ◌+◌, ◌<◌, ◌≡◌, ◌≢◌, refl, inl, inr, Bool, true, false, List, [], ◌∷◌, none, some, ◌==◌,
  if◌then◌else◌, arith, run, run_inv, run_completes, Option-cases,
}
use c_programming_for_linux.Sync.Latch.{
  Turn, main_turn, thread0, thread1, Line, Pc, MainPc, State, main_started, count_down, is_finished,
  main_step, thread0_step, thread1_step, step,
}

-- The line is among those printed.
abbrev same_line : Line → Line → Bool
same_line Line.main_waiting Line.main_waiting = true
same_line Line.main_finished Line.main_finished = true
same_line (Line.starting n) (Line.starting m) = n == m
same_line (Line.finished n) (Line.finished m) = n == m
same_line Line.decrementing Line.decrementing = true
same_line l l' = false

abbrev pub has_line : Line → List Line → Bool
has_line l [] = false
has_line l (l' ∷ ls) = let rest = has_line l ls in if same_line l l' then true else rest

-- How often the thread is still to count down.
abbrev to_arrive : Pc → ℕ
to_arrive Pc.absent = 1
to_arrive Pc.starting = 1
to_arrive Pc.decrementing = 1
to_arrive Pc.arriving = 1
to_arrive pc = 0

abbrev is_absent : Pc → Bool
is_absent Pc.absent = true
is_absent pc = false

abbrev pub Fits0 : Pc → List Line → Type 0
Fits0 Pc.absent ls = Unit
Fits0 Pc.starting ls = Unit
Fits0 Pc.decrementing ls = has_line (Line.starting 0) ls ≡ true
Fits0 Pc.waiting ls = false ≡ true
Fits0 pc ls = has_line Line.decrementing ls ≡ true

abbrev Fits1 : Pc → ℕ → List Line → Type 0
Fits1 Pc.absent progress ls = Unit
Fits1 Pc.starting progress ls = Unit
Fits1 Pc.decrementing progress ls = false ≡ true
Fits1 Pc.arriving progress ls = has_line (Line.starting 1) ls ≡ true
Fits1 Pc.waiting progress ls = has_line (Line.starting 1) ls ≡ true
Fits1 pc progress ls = (has_line (Line.starting 1) ls ≡ true) × (progress ≡ 0)

abbrev MainFits : MainPc → ℕ → Pc → Pc → Type 0
MainFits MainPc.constructing0 progress pc0 pc1 = (pc0 ≡ Pc.absent) × (pc1 ≡ Pc.absent)
MainFits MainPc.constructing1 progress pc0 pc1 = (is_absent pc0 ≡ false) × (pc1 ≡ Pc.absent)
MainFits MainPc.announcing progress pc0 pc1 = (is_absent pc0 ≡ false) × (is_absent pc1 ≡ false)
MainFits MainPc.waiting progress pc0 pc1 = (is_absent pc0 ≡ false) × (is_absent pc1 ≡ false)
MainFits pc progress pc0 pc1 = (is_absent pc0 ≡ false) × (is_absent pc1 ≡ false) × (progress ≡ 0)

record Inv (s : State) : Type 0 where
  count : s.progress ≡ to_arrive s.pc0 + to_arrive s.pc1
  fits0 : Fits0 s.pc0 s.printed
  fits1 : Fits1 s.pc1 s.progress s.printed
  main_fits : MainFits s.main_pc s.progress s.pc0 s.pc1
  main_passed : has_line Line.main_finished s.printed ≡ true → s.progress ≡ 0
  passed : has_line (Line.finished 1) s.printed ≡ true → s.progress ≡ 0

main-Inv : (pc : MainPc) (s s' : State) → s.main_pc ≡ pc → Inv s → main_step pc s ≡ some s' → Inv s'
unfolding main_step
main-Inv MainPc.constructing0 s s' at v e = ground arith
main-Inv MainPc.constructing1 s s' at v e = ground arith
main-Inv MainPc.announcing s s' at v e = ground arith
main-Inv MainPc.waiting s s' at v e = ground arith
main-Inv MainPc.ending s s' at v e = ground arith
main-Inv MainPc.joining s s' at v e = ground arith
main-Inv MainPc.finished s s' at v e = ground arith

thread0-Inv : (pc : Pc) (s s' : State) → s.pc0 ≡ pc → Inv s → thread0_step pc s ≡ some s' → Inv s'
unfolding thread0_step count_down
thread0-Inv Pc.absent s s' at v e = ground arith
thread0-Inv Pc.starting s s' at v e = ground arith
thread0-Inv Pc.decrementing s s' at v e = ground arith
thread0-Inv Pc.arriving s s' at v e = ground arith
thread0-Inv Pc.waiting s s' at v e = ground arith
thread0-Inv Pc.ending s s' at v e = ground arith
thread0-Inv Pc.finished s s' at v e = ground arith

thread1-Inv : (pc : Pc) (s s' : State) → s.pc1 ≡ pc → Inv s → thread1_step pc s ≡ some s' → Inv s'
unfolding thread1_step count_down
thread1-Inv Pc.absent s s' at v e = ground arith
thread1-Inv Pc.starting s s' at v e = ground arith
thread1-Inv Pc.decrementing s s' at v e = ground arith
thread1-Inv Pc.arriving s s' at v e = ground arith
thread1-Inv Pc.waiting s s' at v e = ground arith
thread1-Inv Pc.ending s s' at v e = ground arith
thread1-Inv Pc.finished s s' at v e = ground arith

step-Inv : (t : Turn) (s s' : State) → Inv s → step t s ≡ some s' → Inv s'
unfolding step
step-Inv main_turn s s' v e = main-Inv s.main_pc s s' refl v e
step-Inv thread0 s s' v e = thread0-Inv s.pc0 s s' refl v e
step-Inv thread1 s s' v e = thread1-Inv s.pc1 s s' refl v e

run-Inv : (ts : List Turn) → Inv (run step ts main_started)
run-Inv ts = run_inv step Inv step-Inv ts main_started (record {
  count = refl;
  fits0 = tt;
  fits1 = tt;
  main_fits = (refl, refl);
  main_passed = λ e. absurd (ground (arith, e));
  passed = λ e. absurd (ground (arith, e));
})

abbrev main_left : MainPc → ℕ
main_left MainPc.constructing0 = 20
main_left MainPc.constructing1 = 12
main_left MainPc.announcing = 4
main_left MainPc.waiting = 3
main_left MainPc.ending = 2
main_left MainPc.joining = 1
main_left MainPc.finished = 0

abbrev pc_left : Pc → ℕ
pc_left Pc.absent = 0
pc_left Pc.starting = 5
pc_left Pc.decrementing = 4
pc_left Pc.arriving = 3
pc_left Pc.waiting = 2
pc_left Pc.ending = 1
pc_left Pc.finished = 0

abbrev work_left : State → ℕ
work_left s = main_left s.main_pc + (pc_left s.pc0 + pc_left s.pc1)

step-lowers : (t : Turn) (s s' : State) → Inv s → step t s ≡ some s' → work_left s' < work_left s
unfolding step main_step thread0_step thread1_step count_down
step-lowers main_turn s s' v e = ground arith
step-lowers thread0 s s' v e = ground arith
step-lowers thread1 s s' v e = ground arith

abbrev pub ended : State → Bool
ended s = elim s.main_pc [ MainPc.finished ↦ true | _ ↦ false ]

stuck_ended :
    (s : State)
    → Inv s
    → step main_turn s ≡ none
    → step thread0 s ≡ none
    → step thread1 s ≡ none
    → ended s ≡ true
unfolding step main_step thread0_step thread1_step is_finished
stuck_ended s v e0 e1 e2 = ground arith

some_moves : (s : State) → Inv s → ended s ≡ false → (t : Turn) × (step t s ≢ none)
some_moves s v h = elim (Option-cases (step main_turn s)) [
  | inr (s', e) ↦ (main_turn, λ stuck. ground (arith, e, stuck))
  | inl e0 ↦ elim (Option-cases (step thread0 s)) [
    | inr (s', e) ↦ (thread0, λ stuck. ground (arith, e, stuck))
    | inl e1 ↦ (thread1, λ e2. ground (arith, h, stuck_ended s v e0 e1 e2))
  ]
]

-- Under every schedule, once main or the waiting thread has printed its last line, the one thread has
-- announced its decrement, and once main has, the other has announced its arrival; from every state
-- that a schedule leads to, some further schedule ends the program.
pub latch_releases :
    (ts : List Turn)
    → let s = run step ts main_started in
      (has_line Line.main_finished s.printed ≡ true
        → (has_line Line.decrementing s.printed ≡ true)
          × (has_line (Line.starting 1) s.printed ≡ true))
      × (has_line (Line.finished 1) s.printed ≡ true → has_line Line.decrementing s.printed ≡ true)
      × ((us : List Turn) × (ended (run step us s) ≡ true))
latch_releases ts =
    let s = run step ts main_started in
    let v = run-Inv ts in
    (
      λ e. ground (arith, e, v.main_passed, v.count, v.fits0, v.fits1),
      λ e. ground (arith, e, v.passed, v.count, v.fits0),
      run_completes step Inv ended work_left step-Inv step-lowers some_moves (suc (work_left s)) s
          (omega arith) v,
    )
