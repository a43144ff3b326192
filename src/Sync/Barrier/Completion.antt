-- ===== src/Sync/Barrier/Completion.antt =====
-- Chapter 6/barrier-temperature.cpp: the program ends after four measurements.
use c_programming_for_linux.Prelude.{
  ℕ, suc, ◌+◌, ◌-◌, ◌*◌, ◌≤◌, ◌<◌, ◌≡◌, ◌≢◌, refl, ◌⊎◌, inl, inr, Bool, true, false, List, [], ◌∷◌,
  none, some, leb, ◌==◌, if◌then◌else◌, length, set, get_elem?, sum_by, sum_by-set, AllFrom,
  AllFrom-get, All, arith, run, run_completes, Bool-cases, Option-cases, subst,
}
use c_programming_for_linux.Sync.Barrier.{
  Samples, Pc, Sensor, State, get_temperatures, process_measurement, arrive, sensor_step, step,
  main_started,
}
use c_programming_for_linux.Sync.Barrier.Sensors.{measurements, Fits, is_waiting}
use c_programming_for_linux.Sync.Barrier.Reports.{Inv, step-Inv, run-Inv, phase_reports}

abbrev pc_left : Pc → ℕ
pc_left Pc.testing = 4
pc_left Pc.processing = 3
pc_left Pc.arriving = 7
pc_left (Pc.waiting p) = 5
pc_left Pc.finished = 0

abbrev can_move : ℕ → Pc → Bool
can_move phase (Pc.waiting p) = if p == phase then false else true
can_move phase Pc.finished = false
can_move phase _ = true

module _ {Real : Type 0} (w : Samples Real) where
  abbrev left : Sensor Real → ℕ
  left t = 5 * (measurements - t.measured) + pc_left t.pc

  abbrev work_left : State Real → ℕ
  work_left s = sum_by left s.sensors

  abbrev pub unfinished : Sensor Real → ℕ
  unfinished t = elim t.pc [ Pc.finished ↦ 0 | _ ↦ 1 ]

  abbrev pub ended : State Real → Bool
  ended s = sum_by unfinished s.sensors == 0

  get_temperatures-left :
      (call room : ℕ) (ts : List (Sensor Real))
      → sum_by left (get_temperatures w call room ts) ≡ sum_by left ts
  unfolding get_temperatures
  get_temperatures-left call room [] = refl
  get_temperatures-left call room (t ∷ ts) = omega (arith, get_temperatures-left call (room + 1) ts)

  arrive-left : (s : State Real) → work_left (arrive w s) ≡ work_left s
  unfolding arrive
  arrive-left s = ground (arith, get_temperatures-left s.draws 0 s.sensors)

  processed-left :
      (phase room : ℕ) (t : Sensor Real)
      → t.pc ≡ Pc.processing
      → Fits w phase room t
      → left (record (process_measurement w t) { pc = Pc.arriving }) < left t
  unfolding process_measurement
  processed-left phase room t at fits = ground (arith, at, fits.placed)

  sensor-lowers :
      (i phase : ℕ) (s s' : State Real) (t : Sensor Real) (pc : Pc)
      → get_elem? s.sensors i ≡ some t
      → t.pc ≡ pc
      → Fits w phase i t
      → sensor_step w i t pc s ≡ some s'
      → work_left s' < work_left s
  unfolding sensor_step
  sensor-lowers i phase s s' t Pc.testing there at fits e =
      let t1 : Sensor Real = record t { pc = Pc.finished } in
      let t2 : Sensor Real = record t { pc = Pc.processing } in
      ground (
        arith,
        at,
        e,
        sum_by-set left s.sensors i t t1 there,
        sum_by-set left s.sensors i t t2 there,
      )
  sensor-lowers i phase s s' t Pc.processing there at fits e =
      let t1 : Sensor Real = record (process_measurement w t) { pc = Pc.arriving } in
      let more : left t1 < left t = processed-left phase i t at fits in
      ground (arith, e, more, sum_by-set left s.sensors i t t1 there)
  sensor-lowers i phase s s' t Pc.arriving there at fits e =
      let t1 : Sensor Real = record t { pc = Pc.waiting s.phase } in
      let s1 : State Real = record s { sensors = set s.sensors i t1 } in
      ground (arith, at, e, arrive-left s1, sum_by-set left s.sensors i t t1 there)
  sensor-lowers i phase s s' t (Pc.waiting p) there at fits e =
      let t1 : Sensor Real = record t { pc = Pc.testing } in
      ground (arith, at, e, sum_by-set left s.sensors i t t1 there)
  sensor-lowers i phase s s' t Pc.finished there at fits e = absurd (ground (arith, e))

  step-lowers :
      (n i : ℕ) (s s' : State Real) → Inv w n s → step w i s ≡ some s' → work_left s' < work_left s
  unfolding step
  step-lowers n i s s' v e = elim (Option-cases (get_elem? s.sensors i)) [
    | inl gone ↦ absurd (ground (arith, gone, e))
    | inr (t, there) ↦
        let fits = AllFrom-get (Fits w s.phase) 0 s.sensors i t v.fits there in
        sensor-lowers i s.phase s s' t t.pc there refl
          (subst (λ k. Fits w s.phase k t) (omega arith) fits) (ground (arith, there, e))
  ]

  abbrev Mover : ℕ → List (Sensor Real) → Type 0
  Mover phase ts =
      (i : ℕ) × (t : Sensor Real) × (get_elem? ts i ≡ some t) × (can_move phase t.pc ≡ true)

  search_sensors :
      (phase : ℕ) (ts : List (Sensor Real))
      → Mover phase ts ⊎ All (λ t. can_move phase t.pc ≡ false) ts
  search_sensors phase [] = inr tt
  search_sensors phase (t ∷ ts) = elim (Bool-cases (can_move phase t.pc)) [
    | inl e ↦ inl (0, t, refl, e)
    | inr e ↦ elim (search_sensors phase ts) [
      | inl (i, t', there, moves) ↦ inl (suc i, t', there, moves)
      | inr h ↦ inr (e, h)
    ]
  ]

  mover-moves :
      (i : ℕ) (s : State Real) (t : Sensor Real)
      → get_elem? s.sensors i ≡ some t
      → can_move s.phase t.pc ≡ true
      → step w i s ≢ none
  unfolding step
  mover-moves i s t there moves stuck = ground (arith, there, moves, stuck)

  -- Before the last phase nobody has finished; after it nobody waits.
  stuck-waits :
      (phase room : ℕ) (ts : List (Sensor Real))
      → phase < measurements
      → All (λ t. can_move phase t.pc ≡ false) ts
      → AllFrom (Fits w phase) room ts
      → sum_by (is_waiting w phase) ts ≡ length ts
  stuck-waits phase room [] small h v = refl
  stuck-waits phase room (t ∷ ts) small h v =
      let here : is_waiting w phase t ≡ 1 = ground (arith, h.0, v.0.placed, small) in
      omega (arith, here, stuck-waits phase (room + 1) ts small h.1 v.1)

  stuck-finished :
      (phase room : ℕ) (ts : List (Sensor Real))
      → phase ≡ measurements
      → All (λ t. can_move phase t.pc ≡ false) ts
      → AllFrom (Fits w phase) room ts
      → sum_by unfinished ts ≡ 0
  stuck-finished phase room [] last h v = refl
  stuck-finished phase room (t ∷ ts) last h v =
      let here : unfinished t ≡ 0 = ground (arith, h.0, v.0.placed, last) in
      omega (arith, here, stuck-finished phase (room + 1) ts last h.1 v.1)

  nobody-unfinished : (ts : List (Sensor Real)) → length ts ≡ 0 → sum_by unfinished ts ≡ 0
  nobody-unfinished [] e = refl
  nobody-unfinished (t ∷ ts) e = absurd (omega (arith, e))

  some_moves :
      (n : ℕ) (s : State Real) → Inv w n s → ended s ≡ false → (i : ℕ) × (step w i s ≢ none)
  some_moves n s v h = elim (search_sensors s.phase s.sensors) [
    | inl (i, t, there, moves) ↦ (i, mover-moves i s t there moves)
    | inr stuck ↦ absurd (elim (Bool-cases (leb measurements s.phase)) [
      | inl e ↦ ground (
        arith,
        h,
        e,
        v.bounded,
        stuck-finished s.phase 0 s.sensors (ground (arith, e, v.bounded)) stuck v.fits,
      )
      | inr e ↦
          let all_wait = stuck-waits s.phase 0 s.sensors (ground (arith, e)) stuck v.fits in
          ground (arith, h, all_wait, v.arrivals, v.size, v.pending, nobody-unfinished s.sensors)
    ])
  ]

  finished_phase :
      (phase room : ℕ) (ts : List (Sensor Real))
      → 1 ≤ length ts
      → sum_by unfinished ts ≡ 0
      → AllFrom (Fits w phase) room ts
      → phase ≡ measurements
  finished_phase phase room [] pos e v = absurd (omega (arith, pos))
  finished_phase phase room (t ∷ ts) pos e v =
      let here : unfinished t ≡ 0 = omega (arith, e) in ground (arith, here, v.0.placed)

  -- For at least one room: from every state that a schedule leads to, some further schedule brings
  -- all sensors to their ends, and whenever all have ended, four reports have been made, of the
  -- samples of the first four phases.
  pub four_measurements :
      (n : ℕ) (ts : List ℕ)
      → 1 ≤ n
      → let s = run (step w) ts (main_started w n) in
        ((us : List ℕ) × (ended (run (step w) us s) ≡ true))
        × (ended s ≡ true → s.reports ≡ phase_reports w n measurements)
  four_measurements n ts pos =
      let s = run (step w) ts (main_started w n) in
      let v = run-Inv w n ts in
      (
        run_completes (step w) (Inv w n) ended work_left (step-Inv w n) (step-lowers n)
            (some_moves n) (suc (work_left s)) s (omega arith) v,
        λ e.
            let last =
              finished_phase s.phase 0 s.sensors (omega (arith, v.size, pos)) (ground (arith, e))
                v.fits in
            subst (λ k. s.reports ≡ phase_reports w n k) last v.reported,
      )
