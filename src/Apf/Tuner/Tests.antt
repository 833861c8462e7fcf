-- ===== src/Apf/Tuner/Tests.antt =====
-- The demand of a tuner whose burst was the trace in the repository's tests.
use lralloc_rs.Common.{
  ℕ, ◌*◌, ◌≤◌, ◌<◌, ◌≡◌, refl, none, some, [], ◌∷◌, arith, get_or, update, Option, false,
}
use lralloc_rs.Apf.Trace.{alloc, free, Trace, free_intervals}
use lralloc_rs.Apf.Reuse.{reuse_of}
use lralloc_rs.Apf.Reuse.Offline
use lralloc_rs.Apf.Reuse.Offline.Windows.{allocs_from, windows}
use lralloc_rs.Apf.Tuner.{ApfTuner, Settings, Quotient, new_tuner, demand, calculate_dapf}
use lralloc_rs.Apf.Tuner.Demand.{Knows, StartsLate, demand-nonneg}

abbrev recorded : Trace
recorded = record {
  accesses = λ i.
      get_or
        (alloc 1 ∷ alloc 2 ∷ free 1 ∷ alloc 1 ∷ free 2 ∷ alloc 2 ∷ free 1 ∷ alloc 3 ∷ alloc 1 ∷ [])
        i (free 0);
  capacity = 16384;
  length = 9;
  alloc_count = 6;
}

abbrev averages : ℕ → Option (ℕ × ℕ)
averages =
    update
      (update
        (update
          (update (update (update (λ _. none) 1 (some (2, 6))) 2 (some (5, 5))) 3 (some (7, 4))) 4
          (some (7, 3)))
        5 (some (5, 2)))
      6 (some (3, 1))

abbrev settings : Settings
settings = record {
  target_apf = 4;
  reuse_burst_length = 6;
  reuse_hibernation_period = 18;
  memory = λ _. free 0;
}

-- six allocations, and no fetch
abbrev tuner : ApfTuner
tuner = record (new_tuner settings 0 false) {
  time = 6;
  r_counter = record {
    burst_length = 6;
    hibernation_period = 18;
    n = 0;
    trace = none;
    reuse = some averages;
  };
}

tuner-Knows : Knows tuner recorded
unfolding Offline.reuse free_intervals allocs_from
tuner-Knows = record { averages = averages; computed = refl; known = refl; counted = refl }

recorded-StartsLate : StartsLate recorded
unfolding free_intervals
recorded-StartsLate = omega arith

demand-nonneg_example :
    (d : Quotient) × (demand 4 tuner ≡ some d)
    × (0 < d.parts)
    × (d.minus ≡ windows 4 d.parts (free_intervals recorded))
    × (d.plus ≡ 4 * d.parts)
    × (d.minus ≤ d.plus)
demand-nonneg_example =
    demand-nonneg tuner recorded 3 tuner-Knows recorded-StartsLate (omega arith) (omega arith)

-- 4 - 7 / 3 is 5 / 3, and a length of 5 blocks is more than twice that and one.
demand_4 : demand 4 tuner ≡ some (record { plus = 12; minus = 7; parts = 3 })
unfolding demand reuse_of
demand_4 = refl

dapf_4 : calculate_dapf 4 tuner ≡ 4
unfolding calculate_dapf
dapf_4 = refl
