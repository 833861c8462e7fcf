-- ===== src/Apf/Tests.antt =====
-- The counters on short runs.
use lralloc_rs.Common.{
  returned, Option, some, none, ◌>>=◌, ℕ, ◌+◌, ◌*◌, ◌≤◌, ◌<◌, ◌≡◌, ◌↔◌, refl, true, false, List, [],
  ◌∷◌, arith, update, get_or, Returns,
}
use lralloc_rs.Apf.Histogram.{get}
use lralloc_rs.Apf.Liveness.{new_counter, tick, count_all, Event}
use lralloc_rs.Apf.Liveness as Liveness
use lralloc_rs.Apf.Liveness.Counts.{ticks, allocs_by}
use lralloc_rs.Apf.Liveness.Runs.{count_all-Counts}
use lralloc_rs.Apf.Trace.{
  Trace, new_trace, valid, valid_from, free_intervals, intervals_from, extend, alloc, free,
}
use lralloc_rs.Apf.Trace as Trace
use lralloc_rs.Apf.Reuse.{
  ReuseCounter, new_reuse_counter, inc_reuse_timer, Op, event, tick as reuse_tick, run,
}
use lralloc_rs.Apf.Reuse.Burst as Burst
use lralloc_rs.Apf.Reuse.Offline
use lralloc_rs.Apf.Reuse.Offline.Windows.{allocs_from}
use lralloc_rs.Apf.Trace.Valid.{alternates, valid_iff}
use lralloc_rs.Apf.Trace.Add.{Recorded, allocs, extend-Twice}

abbrev events : List Liveness.Event
events = tick ∷ Liveness.alloc ∷ tick ∷ Liveness.alloc ∷ tick ∷ Liveness.alloc ∷ []

count_all-Counts_example :
    Returns
      (λ c.
        (c.n ≡ ticks events)
        × ((t : ℕ) → t ≤ ticks events → get (c.alloc_counts) t ≡ allocs_by t events))
      (count_all events new_counter)
count_all-Counts_example = count_all-Counts events (omega arith)

-- A trace of six events, as in a test of the repository.
abbrev six : ℕ → Trace.Event
six =
    update
      (update (update (update (update (λ _. alloc 2) 4 (alloc 1)) 3 (free 1)) 2 (free 2)) 1
        (free 3))
      0 (alloc 3)

abbrev sampled : Trace.Trace
sampled = record { accesses = six; capacity = 16384; length = 6; alloc_count = 3 }

sampled_intervals : free_intervals sampled ≡ (1, 1) ∷ (1, 2) ∷ []
unfolding free_intervals intervals_from
sampled_intervals = refl

sampled_not_valid : valid sampled ≡ false
unfolding valid valid_from
sampled_not_valid = refl

valid_iff_example : (valid sampled ≡ true) ↔ ((slot : ℕ) → alternates slot false 6 0 six ≡ true)
valid_iff_example = valid_iff sampled

abbrev blank : Trace.Trace
blank = new_trace (λ _. alloc 0)

abbrev two : List Trace.Event
two = alloc 7 ∷ free 7 ∷ []

extend-Twice_example :
    Returns
      (λ t'.
        (t'.length ≡ 0 + 2 * 2)
        × ((i : ℕ) → i < 2 → (d : Trace.Event) → t'.accesses (0 + i) ≡ get_or two i d))
      (extend two blank)
extend-Twice_example = extend-Twice two blank (omega arith)

-- A burst of two ticks.
abbrev sampler : ReuseCounter
sampler = new_reuse_counter (λ _. alloc 0) 2 4

abbrev burst : List Op
burst = event (alloc 1) ∷ reuse_tick ∷ event (free 1) ∷ []

run-Burst_example :
    Returns
      (λ c'.
        (c'.trace ≡ none)
        × (c'.n ≡ 0)
        × ((t' : Trace.Trace) × Recorded blank (Burst.events burst) t'
            × ((r : ℕ → Option (ℕ × ℕ)) × (Offline.reuse t' ≡ returned r) × (c'.reuse ≡ some r))))
      (run (λ _. alloc 0) burst sampler >>= inc_reuse_timer (λ _. alloc 0))
unfolding Burst.ticks Burst.events allocs_from allocs
run-Burst_example =
    Burst.run-Burst (λ _. alloc 0) burst sampler blank refl
      (record { room = omega arith; many = omega arith }) refl (omega arith) refl
