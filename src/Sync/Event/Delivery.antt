-- ===== src/Sync/Event/Delivery.antt =====
-- Chapter 10/shmem_coroutines.cpp: when the message arrives, and when the notification is lost.
use c_programming_for_linux.Prelude.{
  ℕ, ◌≡◌, ◌≢◌, refl, ◌⊎◌, inl, List, none, some, Bool, true, false, if◌then◌else◌, arith, run,
  run_inv,
}
use c_programming_for_linux.Sync.Event.{
  Thread, receiver_t, sender_t, Granted, Coroutine, SenderPc, State, main_started, step,
}

-- Whether the coroutine is still on its way to being suspended, and whether it has been resumed.
abbrev pub is_resumed : Coroutine → Bool
is_resumed Coroutine.truncating = true
is_resumed Coroutine.mapping = true
is_resumed Coroutine.printing = true
is_resumed Coroutine.returned = true
is_resumed _ = false

abbrev is_suspending : Coroutine → Bool
is_suspending Coroutine.handling = true
is_suspending Coroutine.testing = true
is_suspending Coroutine.storing = true
is_suspending _ = false

-- Whether the sender has seen the waiter and not yet resumed it, and whether it has written.
abbrev has_seen : SenderPc → Bool
has_seen SenderPc.truncating = true
has_seen SenderPc.mapping = true
has_seen SenderPc.constructing = true
has_seen SenderPc.resuming = true
has_seen _ = false

module _ (os : Granted) (message : ℕ) where
  pub record Inv (s : State) : Type 0 where
    pub never_notified : s.notified ≡ false
    pub on_receiver : s.on_receiver ≡ is_suspending s.coroutine
    pub waiting : s.waiter ≡ (if is_suspending s.coroutine then false else true)
    pub handle : s.coroutine ≢ Coroutine.handling → s.handle_set ≡ true
    pub seen : has_seen s.sender_pc ≡ true → s.coroutine ≡ Coroutine.suspended
    pub resumed : s.sender_pc ≡ SenderPc.resumed → is_resumed s.coroutine ≡ true
    pub lost :
        s.sender_pc ≡ SenderPc.finished
        → is_resumed s.coroutine ≡ true
        → s.coroutine ≡ Coroutine.returned
    pub running :
        is_resumed s.coroutine ≡ true
        → (s.sender_pc ≡ SenderPc.resumed) ⊎ (s.sender_pc ≡ SenderPc.finished)
    pub written :
        (is_resumed s.coroutine ≡ true) ⊎ (s.sender_pc ≡ SenderPc.resuming)
        → s.region ≡ (if os.notify_maps then message else 0)
    pub unprinted :
        s.coroutine ≢ Coroutine.returned
        → (s.printed ≡ none) × (s.faulted ≡ false) × (s.receiver_error ≡ false)
    pub outcome :
        s.coroutine ≡ Coroutine.returned
        → os.receiver_maps ≡ true
        → s.region ≢ 0
        → (s.printed ≡ some message) × (s.faulted ≡ false) × (s.receiver_error ≡ false)
    pub unmapped :
        s.coroutine ≡ Coroutine.returned
        → os.receiver_maps ≡ false
        → (s.printed ≡ none) × (s.faulted ≡ false) × (s.receiver_error ≡ true)
    pub null_read :
        s.coroutine ≡ Coroutine.returned → os.receiver_maps ≡ true → s.region ≡ 0 → s.faulted ≡ true
    pub mapped : s.sender_pc ≡ SenderPc.constructing → os.notify_maps ≡ true
    pub receiver_mapped : s.coroutine ≡ Coroutine.printing → os.receiver_maps ≡ true
    pub early : is_resumed s.coroutine ≡ false → s.sender_pc ≢ SenderPc.resuming → s.region ≡ 0
    pub long_enough :
        os.notify_sizes ≡ true
        → (s.sender_pc ≡ SenderPc.mapping)
          ⊎ (s.sender_pc ≡ SenderPc.constructing)
          ⊎ (s.sender_pc ≡ SenderPc.resuming)
          ⊎ (is_resumed s.coroutine ≡ true)
        → s.sized ≡ true
    pub alive : os.notify_sizes ≡ true → s.killed ≡ false
    pub notify_maps_quietly : os.notify_maps ≡ true → s.notify_error ≡ false

  receiver-Inv : (s s' : State) → Inv s → step os message receiver_t s ≡ some s' → Inv s'
  unfolding step
  receiver-Inv s s' v e = ground arith

  sender-Inv : (s s' : State) → Inv s → step os message sender_t s ≡ some s' → Inv s'
  unfolding step
  sender-Inv s s' v e = ground arith

  pub step-Inv : (t : Thread) (s s' : State) → Inv s → step os message t s ≡ some s' → Inv s'
  step-Inv receiver_t s s' v e = receiver-Inv s s' v e
  step-Inv sender_t s s' v e = sender-Inv s s' v e

  start-Inv : Inv main_started
  start-Inv = record {
    never_notified = refl;
    on_receiver = refl;
    waiting = refl;
    handle = λ e. absurd (e refl);
    seen = λ e. ground (arith, e);
    resumed = λ e. ground (arith, e);
    lost = λ e. ground (arith, e);
    running = λ e. ground (arith, e);
    written = λ e. ground (arith, e);
    unprinted = λ e. (refl, refl, refl);
    unmapped = λ e. ground (arith, e);
    outcome = λ e. ground (arith, e);
    null_read = λ e. ground (arith, e);
    mapped = λ e. ground (arith, e);
    receiver_mapped = λ e. ground (arith, e);
    early = λ e n. refl;
    long_enough = λ e h. ground (arith, h);
    alive = λ e. refl;
    notify_maps_quietly = λ e. refl;
  }

  pub run-Inv : (ts : List Thread) → Inv (run (step os message) ts main_started)
  run-Inv ts = run_inv (step os message) Inv step-Inv ts main_started start-Inv

  -- If the pointer sent is not null and the sender's `ftruncate` and `mmap` succeed, then under every
  -- schedule `notified` is never set, no signal ends the program and the sender prints no error; before
  -- the coroutine has returned it has printed nothing, and once it has returned it has printed the
  -- message if its `mmap` succeeds, and otherwise its error and no message; nothing faults.
  pub event_delivers :
      (ts : List Thread)
      → os.notify_sizes ≡ true
      → os.notify_maps ≡ true
      → message ≢ 0
      → let s = run (step os message) ts main_started in
        (s.notified ≡ false)
        × (s.killed ≡ false)
        × (s.notify_error ≡ false)
        × (s.coroutine ≢ Coroutine.returned
            → (s.printed ≡ none) × (s.faulted ≡ false) × (s.receiver_error ≡ false))
        × (s.coroutine ≡ Coroutine.returned
            → os.receiver_maps ≡ true
            → (s.printed ≡ some message) × (s.faulted ≡ false) × (s.receiver_error ≡ false))
        × (s.coroutine ≡ Coroutine.returned
            → os.receiver_maps ≡ false
            → (s.printed ≡ none) × (s.faulted ≡ false) × (s.receiver_error ≡ true))
  event_delivers ts sizes maps nonnull =
      let v = run-Inv ts in
      (
        v.never_notified,
        v.alive sizes,
        v.notify_maps_quietly maps,
        v.unprinted,
        λ e m.
            let region = v.written (inl (ground (arith, e))) in
            v.outcome e m (ground (arith, region, maps, nonnull)),
        v.unmapped,
      )

  -- If the sender's `mmap` fails and the receiver's succeeds, then under every schedule a coroutine
  -- that has returned has printed through a null pointer.
  pub failed_mapping_prints_null :
      (ts : List Thread)
      → os.notify_maps ≡ false
      → os.receiver_maps ≡ true
      → let s = run (step os message) ts main_started in
        s.coroutine ≡ Coroutine.returned → s.faulted ≡ true
  failed_mapping_prints_null ts fails maps e =
      let v = run-Inv ts in
      let region = v.written (inl (ground (arith, e))) in
      v.null_read e maps (ground (arith, region, fails))

  record Lost (s : State) : Type 0 where
    finished : s.sender_pc ≡ SenderPc.finished
    unresumed : is_resumed s.coroutine ≡ false
    unset : s.notified ≡ false
    silent : s.printed ≡ none

  step-Lost : (t : Thread) (s s' : State) → Lost s → step os message t s ≡ some s' → Lost s'
  unfolding step
  step-Lost receiver_t s s' v e = ground arith
  step-Lost sender_t s s' v e = ground arith

  -- Once a schedule has brought the sender to its end before the coroutine has been resumed, the
  -- coroutine never prints and never returns, whatever follows.
  pub notification_lost :
      (ts us : List Thread)
      → let s = run (step os message) ts main_started in
        s.sender_pc ≡ SenderPc.finished
        → is_resumed s.coroutine ≡ false
        → ((run (step os message) us s).printed ≡ none)
          × ((run (step os message) us s).coroutine ≢ Coroutine.returned)
  notification_lost ts us e r =
      let s = run (step os message) ts main_started in
      let v = run-Inv ts in
      let start : Lost s = record {
        finished = e;
        unresumed = r;
        unset = v.never_notified;
        silent = (v.unprinted (ground (arith, r))).0;
      } in
      let after_us = run_inv (step os message) Lost step-Lost us s start in
      (after_us.silent, λ back. ground (arith, after_us.unresumed, back))
