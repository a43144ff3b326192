-- ===== src/Sync/Event.antt =====
-- Chapter 10/shmem_coroutines.cpp: the `Event` that a coroutine awaits on one thread and another
-- thread notifies, with the message that goes through shared memory. What the system grants is an
-- argument; `shm_open` has succeeded, and made the region, which no earlier run has left. What is sent
-- is a pointer; 0 is the null pointer. An access to a region that is too short ends the program by a
-- signal. That both sides unmap the region after use is left out.
pub mod Delivery
pub mod Completion
mod Examples
use c_programming_for_linux.Prelude.{
  ℕ, Bool, true, false, Option, none, some, ◌==◌, ◌||◌, not, if◌then◌else◌,
}

pub data Thread : Type 0 where
  receiver_t sender_t : Thread

-- Which of the calls of `ftruncate` and `mmap` succeed.
pub record Granted : Type 0 where
  pub notify_sizes : Bool
  pub notify_maps : Bool
  pub receiver_sizes : Bool
  pub receiver_maps : Bool

-- The coroutine `receiver`: `handling`, `testing` and `storing` are `await_suspend`, with its
-- `coroutineHandle`, `notified` and `suspended`.
pub data Coroutine : Type 0 where
  handling testing storing suspended truncating mapping printing returned : Coroutine

-- `notify`; while `resumed` it runs the coroutine.
pub data SenderPc : Type 0 where
  clearing loading truncating mapping constructing resuming resumed finished : SenderPc

-- `waiter` is `event.suspended`, true where it is not null; `region` is the pointer in shared
-- memory and `sized` whether that is long enough; the two errors say whether "Error mapping shm region"
-- has been printed, `killed` whether the signal has come; `faulted` says that a null pointer was printed, or a handle resumed that was not set.
pub record State : Type 0 where
  pub waiter : Bool
  pub notified : Bool
  pub handle_set : Bool
  pub region : ℕ
  pub sized : Bool
  pub coroutine : Coroutine
  pub sender_pc : SenderPc
  pub on_receiver : Bool
  pub printed : Option ℕ
  pub notify_error : Bool
  pub receiver_error : Bool
  pub faulted : Bool
  pub killed : Bool

abbrev pub main_started : State
main_started = record {
  waiter = false;
  notified = false;
  handle_set = false;
  region = 0;
  sized = false;
  coroutine = Coroutine.handling;
  sender_pc = SenderPc.clearing;
  on_receiver = true;
  printed = none;
  notify_error = false;
  receiver_error = false;
  faulted = false;
  killed = false;
}

module _ (os : Granted) (message : ℕ) where
  -- `receiver`, from `co_await` to its end.
  pub receiver : Coroutine → State → Option State
  receiver Coroutine.handling s =
      some (record s { handle_set = true; coroutine = Coroutine.testing })
  receiver Coroutine.testing s =
      if s.notified
      then some (record s { coroutine = Coroutine.truncating })
      else some (record s { coroutine = Coroutine.storing })
  receiver Coroutine.storing s =
      some (record s { waiter = true; coroutine = Coroutine.suspended; on_receiver = false })
  receiver Coroutine.suspended s = none
  receiver Coroutine.truncating s =
      some (record s { sized = s.sized || os.receiver_sizes; coroutine = Coroutine.mapping })
  receiver Coroutine.mapping s =
      if os.receiver_maps
      then some (record s { coroutine = Coroutine.printing })
      else some (record s { receiver_error = true; coroutine = Coroutine.returned })
  receiver Coroutine.printing s =
      if not s.sized
      then some (record s { killed = true })
      else if s.region == 0
      then some (record s { faulted = true; coroutine = Coroutine.returned })
      else some (record s { printed = some s.region; coroutine = Coroutine.returned })
  receiver Coroutine.returned s = none

  -- `notify`: `resume` runs the coroutine on this thread until it returns.
  pub notify : SenderPc → State → Option State
  unfolding receiver
  notify SenderPc.clearing s = some (record s { notified = false; sender_pc = SenderPc.loading })
  notify SenderPc.loading s =
      if s.waiter
      then some (record s { sender_pc = SenderPc.truncating })
      else some (record s { sender_pc = SenderPc.finished })
  notify SenderPc.truncating s =
      some (record s { sized = s.sized || os.notify_sizes; sender_pc = SenderPc.mapping })
  notify SenderPc.mapping s =
      if os.notify_maps
      then some (record s { sender_pc = SenderPc.constructing })
      else some (record s { notify_error = true; sender_pc = SenderPc.resuming })
  notify SenderPc.constructing s =
      if s.sized
      then some (record s { region = message; sender_pc = SenderPc.resuming })
      else some (record s { killed = true })
  notify SenderPc.resuming s =
      if s.handle_set
      then some (record s { coroutine = Coroutine.truncating; sender_pc = SenderPc.resumed })
      else some (record s { faulted = true; sender_pc = SenderPc.finished })
  notify SenderPc.resumed s = elim s.coroutine [
    | Coroutine.returned ↦ some (record s { sender_pc = SenderPc.finished })
    | _ ↦ receiver s.coroutine s
  ]
  notify SenderPc.finished s = none

  pub step : Thread → State → Option State
  unfolding receiver notify
  step receiver_t s =
      if s.killed then none else if s.on_receiver then receiver s.coroutine s else none
  step sender_t s = if s.killed then none else notify s.sender_pc s
