-- ===== src/Apf/Reuse/Burst.antt =====
-- A burst: what is sampled, for how long, and what follows.
use lralloc_rs.Common.{
  ℕ, Option, suc, ◌+◌, ◌<◌, ◌≡◌, refl, true, false, none, some, List, [], ◌∷◌, leb, le→leb, arith,
  returned, ◌>>=◌, Returns, returns, result, step,
}
use lralloc_rs.Apf.Trace.{Event, Trace}
use lralloc_rs.Apf.Trace.Add.{
  HasRoom, Recorded, allocs, add_event-Recorded, Recorded-nil, Recorded-cons,
}
use lralloc_rs.Apf.Reuse.{ReuseCounter, sample, inc_reuse_timer, Op, event, tick, run}
use lralloc_rs.Apf.Reuse.Offline
use lralloc_rs.Apf.Reuse.Offline.Windows.{IsCounted, reuse-Windows}
use lralloc_rs.Apf.Reuse.Offline.Counted.{Recorded-IsCounted}

unfoldable pub ticks : List Op → ℕ
ticks [] = 0
ticks (event e ∷ ops) = ticks ops
ticks (tick ∷ ops) = suc (ticks ops)

unfoldable pub events : List Op → List Event
events [] = []
events (event e ∷ ops) = e ∷ events ops
events (tick ∷ ops) = events ops

module _ (memory : ℕ → Event) where
  -- The counter samples a trace that goes on with the events, and its clock went on by the ticks.
  pub record IsSampling (c : ReuseCounter) (t : Trace) (ops : List Op) (c' : ReuseCounter)
      : Type 0 where
    pub trace : Trace
    pub samples : c'.trace ≡ some trace
    pub room : HasRoom trace
    pub recorded : Recorded t (events ops) trace
    pub clock : c'.n ≡ c.n + ticks ops
    pub burst : c'.burst_length ≡ c.burst_length

  run-IsSampling :
      (ops : List Op) (c : ReuseCounter) (t : Trace)
      → c.trace ≡ some t
      → HasRoom t
      → c.n + ticks ops < c.burst_length
      → Returns (IsSampling c t ops) (run memory ops c)
  unfolding run sample inc_reuse_timer ticks events
  run-IsSampling [] c t at r short = returns (record {
    trace = t;
    samples = at;
    room = r;
    recorded = Recorded-nil t;
    clock = omega arith;
    burst = refl;
  })
  run-IsSampling (event e ∷ ops) c t at r short =
      let (t1, ran, a) = result (add_event-Recorded e t r) in
      let (c', ran', s) =
        result (run-IsSampling ops (record c { trace = some t1 }) t1 refl a.0 short) in
      rw (at, ran, ran')
        (returns (record {
          trace = s.trace;
          samples = s.samples;
          room = s.room;
          recorded = Recorded-cons t t1 (s.trace) e (events ops) a.1 (s.recorded);
          clock = s.clock;
          burst = s.burst;
        }))
  run-IsSampling (tick ∷ ops) c t at r short =
      let go : leb (c.burst_length) (c.n + 1) ≡ false = ground arith in
      let (c', ran, s) =
        result
          (run-IsSampling ops (record c { n = c.n + 1; trace = some t }) t refl r (omega arith)) in
      rw (at, go, ran)
        (returns (record {
          trace = s.trace;
          samples = s.samples;
          room = s.room;
          recorded = s.recorded;
          clock = omega (arith, s.clock);
          burst = s.burst;
        }))

  -- From a sampling reuse counter on whose trace has room and counts its allocations, with memory
  -- granted and an allocation by then, the tick that completes the burst ends the trace: the
  -- counter holds what reuse returns for the trace with all events since, and hibernates from time
  -- 0 on.
  pub run-Burst :
      (ops : List Op) (c : ReuseCounter) (t : Trace)
      → c.trace ≡ some t
      → HasRoom t
      → IsCounted t
      → 0 < t.alloc_count + allocs (events ops)
      → c.n + ticks ops + 1 ≡ c.burst_length
      → Returns
          (λ c'.
            (c'.trace ≡ none)
            × (c'.n ≡ 0)
            × ((t' : Trace) × Recorded t (events ops) t'
                × ((r : ℕ → Option (ℕ × ℕ)) × (Offline.reuse t' ≡ returned r)
                    × (c'.reuse ≡ some r))))
          (run memory ops c >>= inc_reuse_timer memory)
  unfolding inc_reuse_timer
  run-Burst ops c t at room counted some_allocs ends =
      let (c', ran, s) = result (run-IsSampling ops c t at room (omega arith)) in
      let full : leb (c'.burst_length) (c'.n + 1) ≡ true =
        le→leb _ _ (omega (arith, s.burst, s.clock)) in
      let (r, known, _) = result (
        reuse-Windows (s.trace) (Recorded-IsCounted t (s.trace) (events ops) counted (s.recorded))
          (omega (arith, s.recorded.allocs_is))) in
      step (inc_reuse_timer memory) ran (
        rw (inc_reuse_timer, s.samples, full, known)
          (returns (refl, refl, (s.trace, s.recorded, (r, known, refl)))))
