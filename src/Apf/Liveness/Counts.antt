-- ===== src/Apf/Liveness/Counts.antt =====
-- How an event changes the counts of allocations, and the count over a list of events.
use lralloc_rs.Common.{
  ℕ, zero, suc, ◌+◌, ◌-◌, ◌<◌, ◌≡◌, refl, ◌∙◌, true, false, List, [], ◌∷◌, ◌==◌, arith, Returns,
  returns, result,
}
use lralloc_rs.MemInfo.{word}
use lralloc_rs.Apf.Histogram.{get, increment}
use lralloc_rs.Apf.Histogram.Reads.{IsHistogram, add-Reads}
use lralloc_rs.Apf.Liveness.{
  LivenessCounter, Event, alloc, free, tick, count_alloc, count_free, inc_timer,
}

unfoldable pub ticks : List Event → ℕ
ticks [] = 0
ticks (tick ∷ es) = suc (ticks es)
ticks (alloc ∷ es) = ticks es
ticks (free ∷ es) = ticks es

-- The number of allocations before tick `t + 1`.
unfoldable pub allocs_by : ℕ → List Event → ℕ
allocs_by t [] = 0
allocs_by t (alloc ∷ es) = suc (allocs_by t es)
allocs_by t (free ∷ es) = allocs_by t es
allocs_by zero (tick ∷ es) = 0
allocs_by (suc t) (tick ∷ es) = allocs_by t es

-- The four histograms are well formed, and nothing is counted for later times.
pub record IsCounter (c : LivenessCounter) : Type 0 where
  pub alloc_sum : IsHistogram (c.alloc_sum)
  pub alloc_counts : IsHistogram (c.alloc_counts)
  pub free_sum : IsHistogram (c.free_sum)
  pub free_counts : IsHistogram (c.free_counts)
  pub later : (t : ℕ) → c.n < t → get (c.alloc_counts) t ≡ 0

-- How one event changes the count of time `t`.
pub record Counted (c : LivenessCounter) (n now : ℕ) (c' : LivenessCounter) : Type 0 where
  pub counter : IsCounter c'
  pub time : c'.n ≡ n
  pub now_is : get (c'.alloc_counts) n ≡ now
  pub before : (t : ℕ) → t < n → get (c'.alloc_counts) t ≡ get (c.alloc_counts) t

pub count_alloc-Counted :
    (c : LivenessCounter)
    → IsCounter c
    → get (c.alloc_counts) (c.n) + 1 < word
    → Returns (Counted c (c.n) (get (c.alloc_counts) (c.n) + 1)) (count_alloc c)
unfolding count_alloc increment
count_alloc-Counted c v small =
    let (s, ran, a) = result (add-Reads (c.n) (c.n) (c.alloc_sum) (v.alloc_sum)) in
    let (h, ran', b) = result (add-Reads (c.n) 1 (c.alloc_counts) (v.alloc_counts)) in
    let self : (c.n == c.n) ≡ true = ground arith in
    let at : (t : ℕ) → (t == c.n) ≡ false → get h t ≡ get (c.alloc_counts) t =
      λ t other. b.1 t ∙ rw other refl in
    rw (ran, ran')
      (returns (record {
        counter = record {
          alloc_sum = a.0;
          alloc_counts = b.0;
          free_sum = v.free_sum;
          free_counts = v.free_counts;
          later = λ t past. at t (ground (arith, past)) ∙ v.later t past;
        };
        time = refl;
        now_is = b.1 (c.n) ∙ rw self (omega (arith, small));
        before = λ t early. at t (ground (arith, early));
      }))

pub count_free-Counted :
    (c : LivenessCounter)
    → IsCounter c
    → Returns (Counted c (c.n) (get (c.alloc_counts) (c.n))) (count_free c)
unfolding count_free increment
count_free-Counted c v =
    let (s, ran, a) = result (add-Reads (c.n) (c.n) (c.free_sum) (v.free_sum)) in
    let (h, ran', b) = result (add-Reads (c.n) 1 (c.free_counts) (v.free_counts)) in
    rw (ran, ran')
      (returns (record {
        counter = record {
          alloc_sum = v.alloc_sum;
          alloc_counts = v.alloc_counts;
          free_sum = a.0;
          free_counts = b.0;
          later = v.later;
        };
        time = refl;
        now_is = refl;
        before = λ t early. refl;
      }))

pub inc_timer-Counted :
    (c : LivenessCounter)
    → IsCounter c
    → get (c.alloc_counts) (c.n) < word
    → Returns (Counted c (c.n + 1) (get (c.alloc_counts) (c.n))) (inc_timer c)
unfolding inc_timer
inc_timer-Counted c v small =
    let n = c.n + 1 in
    let (h1, ran1, a1) =
      result (add-Reads n (get (c.alloc_counts) (n - 1)) (c.alloc_counts) (v.alloc_counts)) in
    let (h2, ran2, a2) =
      result (add-Reads n (get (c.alloc_sum) (n - 1)) (c.alloc_sum) (v.alloc_sum)) in
    let (h3, ran3, a3) =
      result (add-Reads n (get (c.free_counts) (n - 1)) (c.free_counts) (v.free_counts)) in
    let (h4, ran4, a4) =
      result (add-Reads n (get (c.free_sum) (n - 1)) (c.free_sum) (v.free_sum)) in
    let self : (n == n) ≡ true = ground arith in
    let last : n - 1 ≡ c.n = omega arith in
    let at : (t : ℕ) → (t == n) ≡ false → get h1 t ≡ get (c.alloc_counts) t =
      λ t other. a1.1 t ∙ rw other refl in
    rw (ran1, ran2, ran3, ran4)
      (returns (record {
        counter = record {
          alloc_sum = a2.0;
          alloc_counts = a1.0;
          free_sum = a4.0;
          free_counts = a3.0;
          later = λ t past. at t (ground (arith, past)) ∙ v.later t (omega (arith, past));
        };
        time = refl;
        now_is = a1.1 n ∙ rw (self, last, v.later n (omega arith)) (omega (arith, small));
        before = λ t early. at t (ground (arith, early));
      }))
