-- ===== src/Sync/Barrier/Sensors.antt =====
-- Chapter 6/barrier-temperature.cpp: how the sensors keep in step with the barrier's phases.
use c_programming_for_linux.Prelude.{
  ℕ, zero, suc, ◌+◌, ◌≤◌, ◌<◌, ◌≡◌, ◌≢◌, refl, ◌⊎◌, Bool, true, false, List, [], ◌∷◌, leb, ◌==◌,
  if◌then◌else◌, length, AllFrom, All, arith,
}
use c_programming_for_linux.Sync.Barrier.{
  Samples, Pc, Sensor, get_temperatures, process_measurement, room_means,
}

abbrev pub measurements : ℕ
measurements = 4

module _ {Real : Type 0} (w : Samples Real) where
  -- The mean of the samples that a room has in a phase.
  abbrev pub fresh : ℕ → ℕ → Real
  fresh phase room = w.divide (w.reduce (w.draw room phase)) (length (w.draw room phase))

  abbrev pub Placed : ℕ → ℕ → Pc → Real → ℕ → Type 0
  Placed phase room Pc.testing mean measured = measured ≡ phase
  Placed phase room Pc.processing mean measured = (measured ≡ phase) × (phase < measurements)
  Placed phase room Pc.arriving mean measured =
      (measured ≡ phase + 1) × (phase < measurements) × (mean ≡ fresh phase room)
  Placed phase room (Pc.waiting p) mean measured =
      ((p ≡ phase) × (measured ≡ phase + 1) × (phase < measurements) × (mean ≡ fresh phase room))
      ⊎ ((p + 1 ≡ phase) × (measured ≡ phase))
  Placed phase room Pc.finished mean measured = (measured ≡ phase) × (phase ≡ measurements)

  -- A sensor has the samples of the phase, and is as far as the phase allows.
  pub record Fits (phase room : ℕ) (t : Sensor Real) : Type 0 where
    pub sampled : t.values ≡ w.draw room phase
    pub placed : Placed phase room t.pc t.mean t.measured

  abbrev pub is_waiting : ℕ → Sensor Real → ℕ
  is_waiting phase t = elim t.pc [ Pc.waiting p ↦ if p == phase then 1 else 0 | _ ↦ 0 ]

  -- The sensor after a turn that opens no phase.
  pub testing-Fits :
      (phase room : ℕ) (stop : Bool) (t : Sensor Real)
      → stop ≡ leb measurements phase
      → phase ≤ measurements
      → t.pc ≡ Pc.testing
      → Fits phase room t
      → Fits phase room
          (if stop then record t { pc = Pc.finished } else record t { pc = Pc.processing })
  testing-Fits phase room true t e le at v = record {
    sampled = v.sampled;
    placed = ground (arith, v.placed, at);
  }
  testing-Fits phase room false t e le at v = record {
    sampled = v.sampled;
    placed = ground (arith, v.placed, at);
  }

  pub processing-Fits :
      (phase room : ℕ) (t : Sensor Real)
      → t.pc ≡ Pc.processing
      → Fits phase room t
      → Fits phase room (record (process_measurement w t) { pc = Pc.arriving })
  unfolding process_measurement
  processing-Fits phase room t at v = record {
    sampled = v.sampled;
    placed = ground (arith, v.placed, v.sampled, at);
  }

  pub arriving-Fits :
      (phase room : ℕ) (t : Sensor Real)
      → t.pc ≡ Pc.arriving
      → Fits phase room t
      → Fits phase room (record t { pc = Pc.waiting phase })
  arriving-Fits phase room t at v = record {
    sampled = v.sampled;
    placed = ground (arith, v.placed, at);
  }

  pub released-Fits :
      (phase room p : ℕ) (t : Sensor Real)
      → t.pc ≡ Pc.waiting p
      → p ≢ phase
      → Fits phase room t
      → Fits phase room (record t { pc = Pc.testing })
  released-Fits phase room p t at ne v = record {
    sampled = v.sampled;
    placed = ground (arith, v.placed, at, ne);
  }

  -- The completion's new samples put every sensor that waits into the next phase.
  waiting-Fits :
      (phase room : ℕ) (t : Sensor Real)
      → is_waiting phase t ≡ 1
      → Fits phase room t
      → Fits (phase + 1) room (record t { values = w.draw room (phase + 1) })
  waiting-Fits phase room t at v = record { sampled = refl; placed = ground (arith, v.placed, at) }

  pub get_temperatures-Fits :
      (phase room : ℕ) (ts : List (Sensor Real))
      → All (λ t. is_waiting phase t ≡ 1) ts
      → AllFrom (Fits phase) room ts
      → AllFrom (Fits (phase + 1)) room (get_temperatures w (phase + 1) room ts)
  unfolding get_temperatures
  get_temperatures-Fits phase room [] h v = tt
  get_temperatures-Fits phase room (t ∷ ts) h v =
      (waiting-Fits phase room t h.0 v.0, get_temperatures-Fits phase (room + 1) ts h.1 v.1)

  pub fresh_means : ℕ → ℕ → ℕ → List Real
  fresh_means phase room zero = []
  fresh_means phase room (suc n) = fresh phase room ∷ fresh_means phase (room + 1) n

  waiting-mean :
      (phase room : ℕ) (t : Sensor Real)
      → is_waiting phase t ≡ 1
      → Fits phase room t
      → t.mean ≡ fresh phase room
  waiting-mean phase room t at v = ground (arith, v.placed, at)

  pub room_means-fresh :
      (phase room : ℕ) (ts : List (Sensor Real))
      → All (λ t. is_waiting phase t ≡ 1) ts
      → AllFrom (Fits phase) room ts
      → room_means w ts ≡ fresh_means phase room (length ts)
  unfolding room_means fresh_means
  room_means-fresh phase room [] h v = refl
  room_means-fresh phase room (t ∷ ts) h v =
      ground
        (arith, waiting-mean phase room t h.0 v.0, room_means-fresh phase (room + 1) ts h.1 v.1)
