-- ===== src/Sync/Barrier.antt =====
-- Chapter 6/barrier-temperature.cpp: one sensor thread for each room, a barrier whose completion
-- collects the results, and a stop source that ends the loops. The temperatures are of any type, with
-- the operations and the random samples that the program uses as parameters; a room has a number in
-- place of its name, and there are any number of rooms.
pub mod Sensors
pub mod Reports
pub mod Completion
mod Examples
use c_programming_for_linux.Prelude.{
  ℕ, zero, suc, ◌+◌, ◌≡◌, Bool, true, false, List, [], ◌∷◌, ◌++◌, Option, none, some, leb, ◌==◌,
  if◌then◌else◌, length, set, get_elem?,
}

-- What the program does with a `double`; `reduce` is `std::reduce`, which may add in any order. `draw`
-- is what `GetTemperatures` samples for a room when it is called for the n-th time.
pub record Samples (Real : Type 0) : Type 0 where
  pub nought : Real
  pub add : Real → Real → Real
  pub divide : Real → ℕ → Real
  pub reduce : List Real → Real
  pub draw : (room call : ℕ) → List Real

-- `testing` is the head of the loop; `waiting` has arrived at the barrier in a given phase.
pub data Pc : Type 0 where
  testing processing arriving : Pc
  waiting : (phase : ℕ) → Pc
  finished : Pc

-- `measured` counts the calls of `ProcessMeasurement`.
pub record Sensor (Real : Type 0) : Type 0 where
  pub values : List Real
  pub mean : Real
  pub pc : Pc
  pub measured : ℕ

-- `arrived` and `phase` are the barrier's; `draws` counts the rounds of `GetTemperatures`; `reports`
-- is what the completion has printed, newest first: the mean of each room, and of the home.
pub record State (Real : Type 0) : Type 0 where
  pub sensors : List (Sensor Real)
  pub arrived : ℕ
  pub phase : ℕ
  pub timer : ℕ
  pub stop_requested : Bool
  pub draws : ℕ
  pub reports : List (List Real × Real)

module _ {Real : Type 0} (w : Samples Real) where
  -- `GetTemperatures` on the rooms from a number on.
  pub get_temperatures : ℕ → ℕ → List (Sensor Real) → List (Sensor Real)
  get_temperatures call room [] = []
  get_temperatures call room (t ∷ ts) =
      record t { values = w.draw room call } ∷ get_temperatures call (room + 1) ts

  pub process_measurement : Sensor Real → Sensor Real
  process_measurement t = record t {
    mean = w.divide (w.reduce t.values) (length t.values);
    measured = t.measured + 1;
  }

  -- The means that the completion prints, and their sum.
  pub room_means : List (Sensor Real) → List Real
  room_means [] = []
  room_means (t ∷ ts) = t.mean ∷ room_means ts

  pub sum_from : Real → List Real → Real
  sum_from mean [] = mean
  sum_from mean (m ∷ ms) = sum_from (w.add mean m) ms

  pub report : List Real → List Real × Real
  unfolding sum_from
  report means = (means, w.divide (sum_from w.nought means) (length means))

  -- The barrier's completion function.
  pub completion : State Real → State Real
  unfolding report room_means get_temperatures
  completion s = record s {
    reports = report (room_means s.sensors) ∷ s.reports;
    sensors = get_temperatures s.draws 0 s.sensors;
    draws = s.draws + 1;
    stop_requested = if leb 3 s.timer then true else s.stop_requested;
    timer = s.timer + 1;
  }

  -- `arrive_and_wait`, up to the wait: the last to arrive runs the completion and opens the next
  -- phase.
  pub arrive : State Real → State Real
  unfolding completion
  arrive s =
      if s.arrived + 1 == length s.sensors
      then record (completion s) { arrived = 0; phase = s.phase + 1 }
      else record s { arrived = s.arrived + 1 }

  -- A turn of the sensor with number `i`.
  pub sensor_step : ℕ → Sensor Real → Pc → State Real → Option (State Real)
  unfolding arrive process_measurement
  sensor_step i t Pc.testing s =
      if s.stop_requested
      then some (record s { sensors = set s.sensors i (record t { pc = Pc.finished }) })
      else some (record s { sensors = set s.sensors i (record t { pc = Pc.processing }) })
  sensor_step i t Pc.processing s =
      some (record s {
        sensors = set s.sensors i (record (process_measurement t) { pc = Pc.arriving });
      })
  sensor_step i t Pc.arriving s =
      some (arrive (record s { sensors = set s.sensors i (record t { pc = Pc.waiting s.phase }) }))
  sensor_step i t (Pc.waiting phase) s =
      if phase == s.phase
      then none
      else some (record s { sensors = set s.sensors i (record t { pc = Pc.testing }) })
  sensor_step i t Pc.finished s = none

  pub step : ℕ → State Real → Option (State Real)
  unfolding sensor_step
  step i s = elim (get_elem? s.sensors i) [ none ↦ none | some t ↦ sensor_step i t t.pc s ]

  -- So many rooms from a number on, with their first samples.
  pub rooms : ℕ → ℕ → List (Sensor Real)
  rooms room zero = []
  rooms room (suc n) =
      record { values = w.draw room 0; mean = w.nought; pc = Pc.testing; measured = 0 }
      ∷ rooms (room + 1) n

  -- `main`, once its threads are made.
  abbrev pub main_started : ℕ → State Real
  main_started n = record {
    sensors = rooms 0 n;
    arrived = 0;
    phase = 0;
    timer = 0;
    stop_requested = false;
    draws = 1;
    reports = [];
  }
