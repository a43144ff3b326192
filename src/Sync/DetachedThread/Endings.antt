-- ===== src/Sync/DetachedThread/Endings.antt =====
-- Chapter 2/thread_creation_example.cpp: what each thread has printed when the process ends.
use c_programming_for_linux.Prelude.{
  ℕ, suc, ◌+◌, ◌<◌, ◌≡◌, ◌≢◌, refl, ◌⊎◌, inl, inr, Bool, true, false, List, [], ◌∷◌, none, some,
  arith, run, run_inv, run_completes, Option-cases,
}
use c_programming_for_linux.Sync.DetachedThread.{
  Turn, main_turn, detached_turn, joined_turn, before_detach, after_detach, before_join, after_join,
  Part, starting_detached, exiting_detached, MainPc, Pc, State, main_started, main_step,
  detached_step, joined_step, step,
}
use c_programming_for_linux.Sync.DetachedThread.Pieces.{
  detached_pieces, joined_pieces, main_pieces, before_last_line, all_lines, both_joined, Inv,
  step-Inv,
}

abbrev part_left : Part → ℕ
part_left Part.text = 3
part_left Part.result = 2
part_left Part.newline = 1

abbrev main_left : MainPc → ℕ
main_left MainPc.starting = 40
main_left MainPc.making1 = 39
main_left (MainPc.testing before_detach part) = 30 + part_left part
main_left MainPc.detaching = 30
main_left (MainPc.testing after_detach part) = 25 + part_left part
main_left MainPc.making2 = 25
main_left (MainPc.testing before_join part) = 10 + part_left part
main_left MainPc.joining = 10
main_left (MainPc.testing after_join part) = 5 + part_left part
main_left MainPc.exiting = 2
main_left MainPc.returning = 1
main_left MainPc.finished = 0

abbrev pc_left : Pc → ℕ
pc_left Pc.starting = 2
pc_left Pc.exiting = 1
pc_left pc = 0

abbrev work_left : State → ℕ
work_left s = main_left s.main_pc + (pc_left s.detached_pc + pc_left s.joined_pc)

step-lowers : (t : Turn) (s s' : State) → Inv s → step t s ≡ some s' → work_left s' < work_left s
unfolding step main_step detached_step joined_step
step-lowers main_turn s s' v e = ground (arith, v.main_fits)
step-lowers detached_turn s s' v e = ground arith
step-lowers joined_turn s s' v e = ground arith

abbrev pub has_ended : State → Bool
has_ended s = elim s.main_pc [ MainPc.finished ↦ true | _ ↦ false ]

stuck_joins :
    (s : State) → Inv s → has_ended s ≡ false → step main_turn s ≡ none → step joined_turn s ≢ none
unfolding step main_step joined_step
stuck_joins s v h e0 e1 = ground (arith, h, e0, e1, v.main_fits)

some_moves : (s : State) → Inv s → has_ended s ≡ false → (t : Turn) × (step t s ≢ none)
some_moves s v h = elim (Option-cases (step main_turn s)) [
  | inr (s', e) ↦ (main_turn, λ stuck. ground (arith, e, stuck))
  | inl e0 ↦ (joined_turn, stuck_joins s v h e0)
]

-- Under every schedule, when the process has ended: main has printed all of its pieces, in their order,
-- with a `joinable` of 1 before and 0 after the detach and the join; the joined thread has printed
-- both of its lines, and both stand before the line that follows the join begins. Of the detached
-- thread's two lines, none, the first or both are printed. From every state that a schedule leads to,
-- some further schedule ends the process.
pub process_ends :
    (ts : List Turn)
    → let s = run step ts main_started in
      (has_ended s ≡ true
        → (main_pieces s.printed ≡ all_lines)
          × (joined_pieces s.printed ≡ both_joined)
          × (joined_pieces (before_last_line s.printed) ≡ both_joined))
      × ((detached_pieces s.printed ≡ [])
          ⊎ (detached_pieces s.printed ≡ starting_detached ∷ [])
          ⊎ (detached_pieces s.printed ≡ exiting_detached ∷ starting_detached ∷ []))
      × ((us : List Turn) × (has_ended (run step us s) ≡ true))
process_ends ts =
    let s = run step ts main_started in
    let v : Inv s =
      run_inv step Inv step-Inv ts main_started
        (record { main_fits = (refl, refl); main = refl; joined = refl; detached = refl }) in
    (
      λ e. ground (arith, e, v.main_fits, v.main, v.joined),
      ground (arith, v.detached),
      run_completes step Inv has_ended work_left step-Inv step-lowers some_moves (suc (work_left s))
          s (omega arith) v,
    )
