-- ===== src/Sync/PosixSemaphore/Flag.antt =====
-- Chapter 7/posix_semaphore_example.c: the semaphore excludes nobody, and the flag does.
use c_programming_for_linux.Prelude.{
  ℕ, ◌+◌, ◌≤◌, ◌≡◌, ◌≢◌, refl, List, none, some, Bool, true, false, if◌then◌else◌, arith, run,
  run_inv,
}
use c_programming_for_linux.Sync.PosixSemaphore.{
  Thread, producer, consumer, Pc, State, main_started, step, producer_step, consumer_step,
}

-- Between `sem_wait` and `sem_post`.
abbrev pub inside : Pc → ℕ
inside Pc.checking = 1
inside Pc.reading = 1
inside (Pc.writing value) = 1
inside Pc.flagging = 1
inside Pc.posting = 1
inside _ = 0

-- In the branch that changes the counter and then the flag.
abbrev pub updating : Pc → Bool
updating Pc.reading = true
updating (Pc.writing value) = true
updating Pc.flagging = true
updating _ = false

-- The posts that no `sem_wait` pays for.
abbrev begun : Pc → ℕ
begun Pc.starting = 0
begun _ = 1

abbrev ended : Pc → ℕ
ended Pc.finished = 1
ended _ = 0

abbrev has_updated : Pc → Bool
has_updated Pc.flagging = true
has_updated _ = false

abbrev Read : ℕ → Pc → Type 0
Read expected (Pc.writing value) = value ≡ expected
Read expected _ = Unit {0}

abbrev resource_of : Bool → Pc → Pc → ℕ
resource_of flag p c =
    if has_updated p then 1 else if has_updated c then 0 else if flag then 1 else 0

pub record Inv (s : State) : Type 0 where
  pub posts :
      s.sem + inside s.produce_pc + inside s.consume_pc
      ≡ 1 + begun s.consume_pc + ended s.produce_pc + ended s.consume_pc
  pub started : s.produce_pc ≢ Pc.starting
  pub empty : updating s.produce_pc ≡ true → s.full_flag ≡ false
  pub full : updating s.consume_pc ≡ true → s.full_flag ≡ true
  pub value : s.shared_resource ≡ resource_of s.full_flag s.produce_pc s.consume_pc
  pub produce_read : Read 0 s.produce_pc
  pub consume_read : Read 1 s.consume_pc

producer-Inv : (s s' : State) → Inv s → producer_step s.produce_pc s ≡ some s' → Inv s'
unfolding producer_step
producer-Inv s s' v e = ground arith

consumer-Inv : (s s' : State) → Inv s → consumer_step s.consume_pc s ≡ some s' → Inv s'
unfolding consumer_step
consumer-Inv s s' v e = ground arith

step-Inv : (t : Thread) (s s' : State) → Inv s → step t s ≡ some s' → Inv s'
unfolding step
step-Inv producer s s' v e = producer-Inv s s' v e
step-Inv consumer s s' v e = consumer-Inv s s' v e

run-Inv : (ts : List Thread) → Inv (run step ts main_started)
run-Inv ts = run_inv step Inv step-Inv ts main_started (record {
  posts = refl;
  started = λ e. cc;
  empty = λ e. cc;
  full = λ e. cc;
  value = refl;
  produce_read = tt;
  consume_read = tt;
})

-- Under every schedule the two threads are never both in the branch that changes the shared
-- counter, and the counter is 0 or 1: it is 1 when the consumer is about to take one away.
pub flag_excludes :
    (ts : List Thread)
    → let s = run step ts main_started in
      (updating s.produce_pc ≡ true → updating s.consume_pc ≡ false)
      × (s.shared_resource ≤ 1)
      × (s.consume_pc ≡ Pc.reading → s.shared_resource ≡ 1)
flag_excludes ts =
    let v = run-Inv ts in
    (ground (arith, v.empty, v.full), ground arith, ground (arith, v.full, v.empty))

-- Under every schedule a thread that comes to `sem_wait` passes at once, also while the other
-- thread is between its `sem_wait` and its `sem_post`.
pub sem_wait_never_blocks :
    (ts : List Thread)
    → let s = run step ts main_started in
      (s.produce_pc ≡ Pc.waiting → step producer s ≢ none)
      × (s.consume_pc ≡ Pc.waiting → step consumer s ≢ none)
unfolding step producer_step consumer_step
sem_wait_never_blocks ts = let v = run-Inv ts in (λ a b. ground arith, λ a b. ground arith)
