-- ===== src/Sync/AtomicCounter/Examples.antt =====
-- Chapter 7/cpp_increment_atomic.cpp: a run of the two threads.
use c_programming_for_linux.Prelude.{◌+◌, ◌^◌, ◌≤◌, ◌≡◌, [], ◌∷◌, run}
use c_programming_for_linux.Sync.AtomicCounter.{t1, t2, Pc, main_started, step}
use c_programming_for_linux.Sync.AtomicCounter.Totals.{atomic_total}

atomic_total_example :
    let s = run step (t1 ∷ t2 ∷ t1 ∷ t2 ∷ []) main_started in
    (s.shared_resource ≡ s.i1 + s.i2)
    × (s.shared_resource + 2 ≤ 2 ^ 32)
    × (s.pc1 ≡ Pc.finished → s.pc2 ≡ Pc.finished → s.shared_resource + 2 ≡ 2 ^ 32)
atomic_total_example = atomic_total (t1 ∷ t2 ∷ t1 ∷ t2 ∷ [])
