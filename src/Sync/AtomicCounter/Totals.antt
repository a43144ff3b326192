-- ===== src/Sync/AtomicCounter/Totals.antt =====
-- Chapter 7/cpp_increment_atomic.cpp: the total, and that it fits the word.
use c_programming_for_linux.Prelude.{
  ℕ, ◌+◌, ◌^◌, ◌≤◌, ◌<◌, ◌≡◌, refl, List, some, arith, run, run_inv,
}
use c_programming_for_linux.Sync.AtomicCounter.{
  Thread, t1, t2, Pc, State, limit, main_started, step,
}

abbrev InLoop : ℕ → Pc → Type 0
InLoop i Pc.looping = i ≤ limit
InLoop i Pc.adding = i < limit
InLoop i Pc.finished = i ≡ limit

record Inv (s : State) : Type 0 where
  total : s.shared_resource ≡ s.i1 + s.i2
  in1 : InLoop s.i1 s.pc1
  in2 : InLoop s.i2 s.pc2

step-Inv : (t : Thread) (s s' : State) → Inv s → step t s ≡ some s' → Inv s'
unfolding step
step-Inv t1 s s' v e = ground arith
step-Inv t2 s s' v e = ground arith

-- Under every schedule the counter is the number of increments done, which is at most 2 ^ 32 - 2, so
-- the `uint32_t` does not wrap; when both loops have ended it is exactly that.
pub atomic_total :
    (ts : List Thread)
    → let s = run step ts main_started in
      (s.shared_resource ≡ s.i1 + s.i2)
      × (s.shared_resource + 2 ≤ 2 ^ 32)
      × (s.pc1 ≡ Pc.finished → s.pc2 ≡ Pc.finished → s.shared_resource + 2 ≡ 2 ^ 32)
atomic_total ts =
    let s = run step ts main_started in
    let v : Inv s =
      run_inv step Inv step-Inv ts main_started
        (record { total = refl; in1 = omega arith; in2 = omega arith }) in
    (
      v.total,
      ground (arith, v.total, v.in1, v.in2),
      λ e f. ground (arith, v.total, v.in1, v.in2, e, f),
    )
