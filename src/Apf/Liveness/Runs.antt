-- ===== src/Apf/Liveness/Runs.antt =====
-- The counts of allocations against a count over the list of events.
use lralloc_rs.Common.{
  ℕ, zero, suc, ◌+◌, ◌≤◌, ◌<◌, ◌≡◌, refl, sym, ap, ◌∙◌, List, [], ◌∷◌, length, arith, Returns,
  returns, result,
}
use mathlib.Core.Path.{subst}
use lralloc_rs.MemInfo.{word}
use lralloc_rs.Apf.Histogram.{get}
use lralloc_rs.Apf.Histogram.Reads.{new_histogram-Reads, new_histogram-IsHistogram}
use lralloc_rs.Apf.Liveness.{
  LivenessCounter, new_counter, Event, alloc, free, tick, count, count_all,
}
use lralloc_rs.Apf.Liveness.Counts.{
  ticks, allocs_by, IsCounter, Counted, count_alloc-Counted, count_free-Counted, inc_timer-Counted,
}

-- What running the events from `c` makes of the counts.
record Runs (c : LivenessCounter) (es : List Event) (c' : LivenessCounter) : Type 0 where
  pub time : c'.n ≡ c.n + ticks es
  pub counts :
      (t : ℕ)
      → t ≤ ticks es
      → get (c'.alloc_counts) (c.n + t) ≡ get (c.alloc_counts) (c.n) + allocs_by t es
  pub before : (t : ℕ) → t < c.n → get (c'.alloc_counts) t ≡ get (c.alloc_counts) t

-- An event that is no tick, and then the others.
Runs-same :
    (c c1 c' : LivenessCounter) (more : ℕ) (e : Event) (es : List Event)
    → Counted c (c.n) (get (c.alloc_counts) (c.n) + more) c1
    → ticks (e ∷ es) ≡ ticks es
    → ((t : ℕ) → allocs_by t (e ∷ es) ≡ more + allocs_by t es)
    → Runs c1 es c'
    → Runs c (e ∷ es) c'
Runs-same c c1 c' more e es k quiet counted r =
    let at : (t : ℕ) → c.n + t ≡ c1.n + t = λ t. ap (λ (x : ℕ). x + t) (sym (k.time)) in
    let now : get (c1.alloc_counts) (c1.n) ≡ get (c.alloc_counts) (c.n) + more =
      ap (get (c1.alloc_counts)) (k.time) ∙ k.now_is in
    record {
      time = omega (arith, r.time, k.time, quiet);
      counts = λ t h.
          ap (get (c'.alloc_counts)) (at t)
          ∙ r.counts t (omega (arith, quiet, h))
          ∙ omega (arith, now, counted t);
      before = λ t h. r.before t (omega (arith, h, k.time)) ∙ k.before t h;
    }

Runs-tick :
    (c c1 c' : LivenessCounter) (es : List Event)
    → Counted c (c.n + 1) (get (c.alloc_counts) (c.n)) c1
    → Runs c1 es c'
    → Runs c (tick ∷ es) c'
unfolding allocs_by ticks
Runs-tick c c1 c' es k r = record {
  time = omega (arith, r.time, k.time);
  counts = at;
  before = λ t h. r.before t (omega (arith, h, k.time)) ∙ k.before t (omega (arith, h));
}
  where
    at :
        (t : ℕ)
        → t ≤ suc (ticks es)
        → get (c'.alloc_counts) (c.n + t) ≡ get (c.alloc_counts) (c.n) + allocs_by t (tick ∷ es)
    at zero h =
        let here : c.n + 0 ≡ c.n = omega arith in
        ap (get (c'.alloc_counts)) here
        ∙ r.before (c.n) (omega (arith, k.time))
        ∙ k.before (c.n) (omega arith)
        ∙ omega arith
    at (suc t) h =
        let there : c.n + suc t ≡ c1.n + t = omega (arith, k.time) in
        ap (get (c'.alloc_counts)) there
        ∙ r.counts t (omega (arith, h))
        ∙ omega (arith, ap (get (c1.alloc_counts)) (k.time), k.now_is)

count_all-Runs :
    (es : List Event) (c : LivenessCounter)
    → IsCounter c
    → get (c.alloc_counts) (c.n) + length es < word
    → Returns (Runs c es) (count_all es c)
unfolding count_all count ticks allocs_by
count_all-Runs [] c v small = returns (record {
  time = omega arith;
  counts = λ t h.
      let here : c.n + t ≡ c.n = omega (arith, h) in ap (get (c.alloc_counts)) here ∙ omega arith;
  before = λ t h. refl;
})
count_all-Runs (alloc ∷ es) c v small =
    let (c1, ran, k) = result (count_alloc-Counted c v (omega arith)) in
    let (c', ran', r) =
      result (count_all-Runs es c1 (k.counter) (rw (k.time, k.now_is) (omega arith))) in
    rw (ran, ran') (returns (Runs-same c c1 c' 1 alloc es k refl (λ t. omega arith) r))
count_all-Runs (free ∷ es) c v small =
    let (c1, ran, k) = result (count_free-Counted c v) in
    let (c', ran', r) =
      result (count_all-Runs es c1 (k.counter) (rw (k.time, k.now_is) (omega arith))) in
    let now = get (c.alloc_counts) (c.n) in
    let same : now ≡ now + 0 = omega arith in
    let k' = subst (λ x. Counted c (c.n) x c1) same k in
    rw (ran, ran') (returns (Runs-same c c1 c' 0 free es k' refl (λ t. omega arith) r))
count_all-Runs (tick ∷ es) c v small =
    let (c1, ran, k) = result (inc_timer-Counted c v (omega arith)) in
    let (c', ran', r) =
      result (count_all-Runs es c1 (k.counter) (rw (k.time, k.now_is) (omega arith))) in
    rw (ran, ran') (returns (Runs-tick c c1 c' es k r))

-- After fewer events than a word counts, from a new liveness counter on and with memory granted,
-- the time is the number of ticks, and for every time up to then alloc_counts holds the number of
-- allocations before the next tick.
pub count_all-Counts :
    (es : List Event)
    → length es < word
    → Returns
        (λ c. (c.n ≡ ticks es) × ((t : ℕ) → t ≤ ticks es → get (c.alloc_counts) t ≡ allocs_by t es))
        (count_all es new_counter)
count_all-Counts es small =
    let g = new_histogram-IsHistogram in
    let v : IsCounter new_counter = record {
      alloc_sum = g;
      alloc_counts = g;
      free_sum = g;
      free_counts = g;
      later = λ t past. new_histogram-Reads t;
    } in
    let zero_count = new_histogram-Reads 0 in
    let (c, ran, r) = result (count_all-Runs es new_counter v (omega (arith, zero_count))) in
    rw ran (
      returns (
        omega (arith, r.time),
        λ t h.
            let at : 0 + t ≡ t = omega arith in
            ap (get (c.alloc_counts)) (sym at) ∙ r.counts t h ∙ omega (arith, zero_count),
      ))
