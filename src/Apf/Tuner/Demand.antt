-- ===== src/Apf/Tuner/Demand.antt =====
-- The demand of a tuner against the free intervals of the burst that its counter sampled.
use lralloc_rs.Common.{
  ℕ, suc, ◌+◌, ◌-◌, ◌*◌, ◌≤◌, ◌<◌, ◌≡◌, refl, Option, none, some, List, [], ◌∷◌, ltb-false, All,
  arith, returned, result,
}
use mathlib.Core.Path.{subst}
use lralloc_rs.Apf.Trace.{Trace, free_intervals}
use lralloc_rs.Apf.Reuse.{reuse_of}
use lralloc_rs.Apf.Reuse.Offline
use lralloc_rs.Apf.Reuse.Offline.Sums.{Interval, Within, sum_over}
use lralloc_rs.Apf.Reuse.Offline.Windows.{
  IsCounted, intervals_from-Within, windows, from_start, at_start, reuse-Windows,
}
use lralloc_rs.Apf.Reuse.Offline.Bounds.{windows-le}
use lralloc_rs.Apf.Tuner.{ApfTuner, Quotient, demand}

-- The counter holds the averages of the trace.
pub record Knows (t : ApfTuner) (trace : Trace) : Type 0 where
  pub averages : ℕ → Option (ℕ × ℕ)
  pub computed : Offline.reuse trace ≡ returned averages
  pub known : t.r_counter.reuse ≡ some averages
  pub counted : IsCounted trace

-- No free interval starts before the first allocation.
abbrev pub StartsLate : Trace → Type 0
StartsLate trace = All (λ x. 0 < x.0) (free_intervals trace)

late_sums :
    (n k i : ℕ) (xs : List Interval)
    → All (Within n) xs
    → All (λ x. 0 < x.0) xs
    → (sum_over (from_start k) xs ≡ 0) × (sum_over (λ x. i * at_start x) xs ≡ 0)
unfolding sum_over
late_sums n k i [] w late = (refl, refl)
late_sums n k i (x ∷ xs) w late =
    let rest = late_sums n k i xs (w.1) (late.1) in
    let starts : from_start k x ≡ 0 = ground (arith, late.0) in
    let ends : i * at_start x ≡ 0 = ground (arith, late.0, w.0.ordered) in
    (omega (arith, rest.0, starts), omega (arith, rest.1, ends))

-- The counter holds a sum for every length up to the number of allocations.
known_average :
    (t : ApfTuner) (trace : Trace) (i : ℕ)
    → Knows t trace
    → StartsLate trace
    → i < trace.alloc_count
    → reuse_of (t.r_counter) (suc i)
      ≡ some (
        windows (suc i) (trace.alloc_count - suc i + 1) (free_intervals trace),
        trace.alloc_count - suc i + 1,
      )
unfolding reuse_of free_intervals
known_average t trace i known late inside =
    let (r, ran, sums) = result (reuse-Windows trace (known.counted) (omega arith)) in
    let (sum, at, e) = sums i inside in
    let same : r ≡ known.averages = cc (known.computed, ran) in
    let w =
      intervals_from-Within (trace.length) 0 (trace.accesses) (λ _. none) 0 (trace.alloc_count)
        (λ slot v e. cc) (omega (arith, known.counted)) in
    let none_early = late_sums (trace.alloc_count) (suc i) i (free_intervals trace) w late in
    let number : ℕ = trace.alloc_count - suc i + 1 in
    let value : sum ≡ windows (suc i) number (free_intervals trace) =
      omega (arith, e, none_early.0, none_early.1) in
    let entry : known.averages (suc i) ≡ some (sum, number) =
      subst (λ (f : ℕ → Option (ℕ × ℕ)). f (suc i) ≡ some (sum, number)) same at in
    rw (known.known, entry, value) refl

-- For a tuner whose counter holds the averages of a trace in which every free interval starts after
-- an allocation, and a length up to the number of its allocations and to the time: the demand is
-- known, and it is the length less the average number of free intervals in a window of that length,
-- which is not more than the length.
pub demand-nonneg :
    (t : ApfTuner) (trace : Trace) (i : ℕ)
    → Knows t trace
    → StartsLate trace
    → i < trace.alloc_count
    → i < t.time
    → (d : Quotient) × (demand (suc i) t ≡ some d)
      × (0 < d.parts)
      × (d.minus ≡ windows (suc i) d.parts (free_intervals trace))
      × (d.plus ≡ suc i * d.parts)
      × (d.minus ≤ d.plus)
unfolding demand
demand-nonneg t trace i known late inside past =
    let number : ℕ = trace.alloc_count - suc i + 1 in
    let sum : ℕ = windows (suc i) number (free_intervals trace) in
    (
      record { plus = suc i * number; minus = sum; parts = number },
      rw (ltb-false (t.time) (suc i) past, known_average t trace i known late inside) refl,
      omega arith,
      refl,
      refl,
      windows-le trace (suc i) number,
    )
