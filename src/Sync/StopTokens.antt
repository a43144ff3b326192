-- ===== src/Sync/StopTokens.antt =====
-- Chapter 6/stop-source.cpp and Chapter 6/stop-token.cpp: workers that poll a stop token until main
-- requests the stop. The programs differ in the stop states: one that all workers share, or one for
-- each worker. A worker holds the number of its stop state.
pub mod Polling
pub mod Requests
pub mod Stopped
mod Examples
use c_programming_for_linux.Prelude.{
  ℕ, zero, suc, ◌+◌, Bool, true, false, List, [], ◌∷◌, ◌++◌, Option, none, some, if◌then◌else◌, set,
  get_elem?,
}

pub data Turn : Type 0 where
  main_turn : Turn
  worker_turn : ℕ → Turn

-- `testing` is the head of the loop, `stopping` the line after it.
pub data Pc : Type 0 where
  testing working sleeping stopping finished : Pc

-- `worked` counts the lines "is currently working".
pub record Worker : Type 0 where
  pub token : ℕ
  pub pc : Pc
  pub worked : ℕ

-- `joining` is the end of `my_threads`, which joins the workers.
pub data MainPc : Type 0 where
  starting requesting printing joining finished : MainPc

pub record State : Type 0 where
  pub stop_states : List Bool
  pub workers : List Worker
  pub to_start : List ℕ
  pub to_request : List ℕ
  pub main_pc : MainPc

abbrev pub main_started : List Bool → List ℕ → List ℕ → State
main_started stop_states tokens requests = record {
  stop_states = stop_states;
  workers = [];
  to_start = tokens;
  to_request = requests;
  main_pc = MainPc.starting;
}

-- `main` of stop-source.cpp: the workers copy one source.
abbrev pub stop_source : State
stop_source = main_started (false ∷ []) (0 ∷ 0 ∷ 0 ∷ []) (0 ∷ [])

-- `main` of stop-token.cpp: each `jthread` has its own.
abbrev pub stop_token : State
stop_token = main_started (false ∷ false ∷ false ∷ []) (0 ∷ 1 ∷ 2 ∷ []) (0 ∷ 1 ∷ 2 ∷ [])

pub stop_requested : List Bool → ℕ → Bool
stop_requested [] k = false
stop_requested (b ∷ bs) zero = b
stop_requested (b ∷ bs) (suc k) = stop_requested bs k

pub request_stop : List Bool → ℕ → List Bool
request_stop [] k = []
request_stop (b ∷ bs) zero = true ∷ bs
request_stop (b ∷ bs) (suc k) = b ∷ request_stop bs k

abbrev pub is_finished : Pc → Bool
is_finished Pc.finished = true
is_finished pc = false

-- What the destructor of `my_threads` waits for.
pub all_finished : List Worker → Bool
all_finished [] = true
all_finished (t ∷ ts) = let rest = all_finished ts in if is_finished t.pc then rest else false

pub main_step : MainPc → State → Option State
unfolding request_stop all_finished
main_step MainPc.starting s = elim s.to_start [
  | [] ↦ some (record s { main_pc = MainPc.requesting })
  | token ∷ tokens ↦ some (record s {
    workers = s.workers ++ record { token = token; pc = Pc.testing; worked = 0 } ∷ [];
    to_start = tokens;
  })
]
main_step MainPc.requesting s = elim s.to_request [
  | [] ↦ some (record s { main_pc = MainPc.printing })
  | k ∷ ks ↦ some (record s { stop_states = request_stop s.stop_states k; to_request = ks })
]
main_step MainPc.printing s = some (record s { main_pc = MainPc.joining })
main_step MainPc.joining s =
    if all_finished s.workers then some (record s { main_pc = MainPc.finished }) else none
main_step MainPc.finished s = none

-- The body of the loop of `worker`, and what follows it.
pub worker_body : List Bool → Worker → Pc → Option Worker
unfolding stop_requested
worker_body states t Pc.testing =
    if stop_requested states t.token
    then some (record t { pc = Pc.stopping })
    else some (record t { pc = Pc.working })
worker_body states t Pc.working = some (record t { worked = t.worked + 1; pc = Pc.sleeping })
worker_body states t Pc.sleeping = some (record t { pc = Pc.testing })
worker_body states t Pc.stopping = some (record t { pc = Pc.finished })
worker_body states t Pc.finished = none

pub worker_step : ℕ → State → Option State
unfolding worker_body
worker_step i s = elim (get_elem? s.workers i) [
  | none ↦ none
  | some t ↦ elim (worker_body s.stop_states t t.pc) [
    | none ↦ none
    | some t' ↦ some (record s { workers = set s.workers i t' })
  ]
]

pub step : Turn → State → Option State
unfolding main_step worker_step
step main_turn s = main_step s.main_pc s
step (worker_turn i) s = worker_step i s
