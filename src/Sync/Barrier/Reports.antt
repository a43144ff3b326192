-- ===== src/Sync/Barrier/Reports.antt =====
-- Chapter 6/barrier-temperature.cpp: what the completion reports, and in how many rounds.
use c_programming_for_linux.Prelude.{
  ℕ, zero, suc, ◌+◌, ◌≤◌, ◌<◌, ◌≡◌, ◌≢◌, refl, inl, inr, List, [], ◌∷◌, some, leb, ◌==◌,
  if◌then◌else◌, length, set, get_elem?, sum_by, sum_by-set, sum_by-full, AllFrom, AllFrom-set,
  AllFrom-get, All, arith, length-set, run, run_inv, Bool-cases, Option-cases, subst, sym,
}
use c_programming_for_linux.Sync.Barrier.{
  Samples, Pc, Sensor, State, get_temperatures, process_measurement, report, completion, arrive,
  sensor_step, step, rooms, main_started,
}
use c_programming_for_linux.Sync.Barrier.Sensors.{
  measurements, Fits, is_waiting, fresh_means, get_temperatures-Fits, room_means-fresh,
  testing-Fits, processing-Fits, arriving-Fits, released-Fits,
}

module _ {Real : Type 0} (w : Samples Real) where
  -- The reports of so many phases, newest first: each of the means of that phase's samples.
  pub phase_reports : ℕ → ℕ → List (List Real × Real)
  phase_reports n zero = []
  phase_reports n (suc k) = report w (fresh_means w k 0 n) ∷ phase_reports n k

  pub record Inv (n : ℕ) (s : State Real) : Type 0 where
    pub size : length s.sensors ≡ n
    pub fits : AllFrom (Fits w s.phase) 0 s.sensors
    pub arrivals : s.arrived ≡ sum_by (is_waiting w s.phase) s.sensors
    pub pending : 1 ≤ n → s.arrived < n
    pub clock : s.timer ≡ s.phase
    pub drawn : s.draws ≡ s.phase + 1
    pub stops : s.stop_requested ≡ leb measurements s.phase
    pub bounded : s.phase ≤ measurements
    pub reported : s.reports ≡ phase_reports n s.phase

  -- A turn of one sensor at which the barrier does not count.
  quiet-Inv :
      (n i : ℕ) (s : State Real) (t t' : Sensor Real)
      → get_elem? s.sensors i ≡ some t
      → is_waiting w s.phase t' ≡ is_waiting w s.phase t
      → Fits w s.phase i t'
      → Inv n s
      → Inv n (record s { sensors = set s.sensors i t' })
  quiet-Inv n i s t t' there same fits v = record {
    size = omega (arith, v.size, length-set s.sensors i t');
    fits =
        AllFrom-set (Fits w s.phase) 0 s.sensors i t' v.fits
          (subst (λ k. Fits w s.phase k t') (omega arith) fits);
    arrivals =
        omega (arith, v.arrivals, same, sum_by-set (is_waiting w s.phase) s.sensors i t t' there);
    pending = v.pending;
    clock = v.clock;
    drawn = v.drawn;
    stops = v.stops;
    bounded = v.bounded;
    reported = v.reported;
  }

  is_waiting-le : (phase : ℕ) (t : Sensor Real) → is_waiting w phase t ≤ 1
  is_waiting-le phase t = ground arith

  length-get_temperatures :
      (call room : ℕ) (ts : List (Sensor Real))
      → length (get_temperatures w call room ts) ≡ length ts
  unfolding get_temperatures
  length-get_temperatures call room [] = refl
  length-get_temperatures call room (t ∷ ts) =
      omega (arith, length-get_temperatures call (room + 1) ts)

  moved_on :
      (phase : ℕ) (t : Sensor Real) → is_waiting w phase t ≡ 1 → is_waiting w (phase + 1) t ≡ 0
  moved_on phase t e = ground arith

  none_waiting :
      (phase call room : ℕ) (ts : List (Sensor Real))
      → All (λ t. is_waiting w phase t ≡ 1) ts
      → sum_by (is_waiting w (phase + 1)) (get_temperatures w call room ts) ≡ 0
  unfolding get_temperatures
  none_waiting phase call room [] h = refl
  none_waiting phase call room (t ∷ ts) h =
      omega (arith, moved_on phase t h.0, none_waiting phase call (room + 1) ts h.1)

  -- The last arrival opens the next phase.
  completion-Inv :
      (n : ℕ) (s : State Real)
      → 1 ≤ n
      → s.phase < measurements
      → All (λ t. is_waiting w s.phase t ≡ 1) s.sensors
      → length s.sensors ≡ n
      → AllFrom (Fits w s.phase) 0 s.sensors
      → s.timer ≡ s.phase
      → s.draws ≡ s.phase + 1
      → s.stop_requested ≡ leb measurements s.phase
      → s.reports ≡ phase_reports n s.phase
      → Inv n (record (completion w s) { arrived = 0; phase = s.phase + 1 })
  unfolding completion phase_reports
  completion-Inv n s pos small all size fits clock drawn stops reported =
      let means = room_means-fresh w s.phase 0 s.sensors all fits in
      record {
        size = omega (arith, size, length-get_temperatures s.draws 0 s.sensors);
        fits =
            subst (λ c. AllFrom (Fits w (s.phase + 1)) 0 (get_temperatures w c 0 s.sensors))
              (sym drawn) (get_temperatures-Fits w s.phase 0 s.sensors all fits);
        arrivals = sym (none_waiting s.phase s.draws 0 s.sensors all);
        pending = λ h. omega arith;
        clock = omega (arith, clock);
        drawn = omega (arith, drawn);
        stops = ground (arith, clock, stops);
        bounded = omega (arith, small);
        reported = ground (arith, means, size, reported);
      }

  arriving_at :
      (n i : ℕ) (s : State Real) (t : Sensor Real)
      → get_elem? s.sensors i ≡ some t
      → t.pc ≡ Pc.arriving
      → Inv n s
      → Inv n
          (arrive w (record s { sensors = set s.sensors i (record t { pc = Pc.waiting s.phase }) }))
  unfolding arrive
  arriving_at n i s t there at v =
      let t' : Sensor Real = record t { pc = Pc.waiting s.phase } in
      let s1 : State Real = record s { sensors = set s.sensors i t' } in
      let here = AllFrom-get (Fits w s.phase) 0 s.sensors i t v.fits there in
      let here_i : Fits w s.phase i t = subst (λ k. Fits w s.phase k t) (omega arith) here in
      let fits : AllFrom (Fits w s.phase) 0 s1.sensors =
        AllFrom-set (Fits w s.phase) 0 s.sensors i t' v.fits (
          subst (λ k. Fits w s.phase k t') (omega arith) (arriving-Fits w s.phase i t at here_i)) in
      let size : length s1.sensors ≡ n = omega (arith, v.size, length-set s.sensors i t') in
      let counted = sum_by-set (is_waiting w s.phase) s.sensors i t t' there in
      let was : is_waiting w s.phase t ≡ 0 = ground (arith, at) in
      let now : is_waiting w s.phase t' ≡ 1 = ground arith in
      let total : sum_by (is_waiting w s.phase) s1.sensors ≡ s.arrived + 1 =
        omega (arith, counted, was, now, v.arrivals) in
      let placed = here_i.placed in
      elim (Bool-cases (s.arrived + 1 == length s1.sensors)) [
        | inl e ↦
            let all =
              sum_by-full (is_waiting w s.phase) (is_waiting-le s.phase) s1.sensors
                (ground (arith, e, total)) in
            rw e (
              completion-Inv n s1 (ground (arith, e, size)) (ground (arith, placed, at)) all size
                fits v.clock v.drawn v.stops v.reported)
        | inr e ↦ rw e (record {
          size = size;
          fits = fits;
          arrivals = sym total;
          pending = λ h. ground (arith, e, size, v.pending, h);
          clock = v.clock;
          drawn = v.drawn;
          stops = v.stops;
          bounded = v.bounded;
          reported = v.reported;
        })
      ]

  becomes : (n : ℕ) (a b : State Real) → some a ≡ some b → Inv n a → Inv n b
  becomes n a b e v = subst (Inv n) (ground (arith, e)) v

  sensor-Inv :
      (n i : ℕ) (s s' : State Real) (t : Sensor Real) (pc : Pc)
      → get_elem? s.sensors i ≡ some t
      → t.pc ≡ pc
      → Fits w s.phase i t
      → Inv n s
      → sensor_step w i t pc s ≡ some s'
      → Inv n s'
  unfolding sensor_step
  sensor-Inv n i s s' t Pc.testing there at fits v e =
      let t' : Sensor Real =
        if s.stop_requested
        then record t { pc = Pc.finished }
        else record t { pc = Pc.processing } in
      let moved = testing-Fits w s.phase i s.stop_requested t v.stops v.bounded at fits in
      becomes n (record s { sensors = set s.sensors i t' }) s' (ground (arith, e))
        (quiet-Inv n i s t t' there (ground (arith, at)) moved v)
  sensor-Inv n i s s' t Pc.processing there at fits v e =
      let t' : Sensor Real = record (process_measurement w t) { pc = Pc.arriving } in
      becomes n (record s { sensors = set s.sensors i t' }) s' e
        (quiet-Inv n i s t t' there (ground (arith, at)) (processing-Fits w s.phase i t at fits) v)
  sensor-Inv n i s s' t Pc.arriving there at fits v e =
      becomes n
        (arrive w (record s { sensors = set s.sensors i (record t { pc = Pc.waiting s.phase }) }))
        s' e (arriving_at n i s t there at v)
  sensor-Inv n i s s' t (Pc.waiting phase) there at fits v e =
      let t' : Sensor Real = record t { pc = Pc.testing } in
      let later : phase ≢ s.phase = λ same. ground (arith, e, same) in
      becomes n (record s { sensors = set s.sensors i t' }) s' (ground (arith, e))
        (quiet-Inv n i s t t' there (ground (arith, at, later))
          (released-Fits w s.phase i phase t at later fits) v)
  sensor-Inv n i s s' t Pc.finished there at fits v e = absurd (ground (arith, e))

  pub step-Inv : (n i : ℕ) (s s' : State Real) → Inv n s → step w i s ≡ some s' → Inv n s'
  unfolding step
  step-Inv n i s s' v e = elim (Option-cases (get_elem? s.sensors i)) [
    | inl gone ↦ absurd (ground (arith, gone, e))
    | inr (t, there) ↦
        let fits = AllFrom-get (Fits w s.phase) 0 s.sensors i t v.fits there in
        sensor-Inv n i s s' t t.pc there refl (subst (λ k. Fits w s.phase k t) (omega arith) fits) v
          (ground (arith, there, e))
  ]

  rooms-Fits : (room n : ℕ) → AllFrom (Fits w 0) room (rooms w room n)
  unfolding rooms
  rooms-Fits room zero = tt
  rooms-Fits room (suc n) = (record { sampled = refl; placed = refl }, rooms-Fits (room + 1) n)

  rooms_lem :
      (room n : ℕ) → (length (rooms w room n) ≡ n) × (sum_by (is_waiting w 0) (rooms w room n) ≡ 0)
  unfolding rooms
  rooms_lem room zero = (refl, refl)
  rooms_lem room (suc n) =
      let rest = rooms_lem (room + 1) n in (omega (arith, rest.0), omega (arith, rest.1))

  pub run-Inv : (n : ℕ) (ts : List ℕ) → Inv n (run (step w) ts (main_started w n))
  unfolding phase_reports
  run-Inv n ts =
      let start = rooms_lem 0 n in
      run_inv (step w) (Inv n) (step-Inv n) ts (main_started w n) (record {
        size = start.0;
        fits = rooms-Fits 0 n;
        arrivals = sym start.1;
        pending = λ h. h;
        clock = refl;
        drawn = refl;
        stops = refl;
        bounded = omega arith;
        reported = refl;
      })

  -- Under every schedule of any number of rooms, at most four phases are over, and the reports are
  -- those of the phases that are: each of the means of the samples that every room had in that phase.
  pub reports_are_means :
      (n : ℕ) (ts : List ℕ)
      → let s = run (step w) ts (main_started w n) in
        (s.phase ≤ measurements) × (s.reports ≡ phase_reports n s.phase)
  reports_are_means n ts = let v = run-Inv n ts in (v.bounded, v.reported)
