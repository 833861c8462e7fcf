-- ===== src/Apf/Reuse/Offline/Tests.antt =====
-- The averages of the trace in the repository's tests, and the theorems at it.
use lralloc_rs.Common.{
  ℕ, suc, ◌+◌, ◌-◌, ◌*◌, ◌≤◌, ◌<◌, ◌≡◌, refl, Option, none, some, List, [], ◌∷◌, get_or, Outcome,
  returned, ◌>>=◌, Returns, arith,
}
use lralloc_rs.MemInfo.{word}
use lralloc_rs.Apf.Trace.{Event, alloc, free, Trace, free_intervals}
use lralloc_rs.Apf.Reuse.Offline.{no_terms, tally, sum_x, sum_y, sum_z, reuse}
use lralloc_rs.Apf.Reuse.Offline.Sums.{sum_over}
use lralloc_rs.Apf.Reuse.Offline.Windows.{
  allocs_from, IsCounted, windows, from_start, at_start, reuse-Windows,
}
use lralloc_rs.Apf.Reuse.Offline.Bounds.{windows-le, sums-lt-word}

abbrev events : List Event
events = alloc 1 ∷ alloc 2 ∷ free 1 ∷ alloc 1 ∷ free 2 ∷ alloc 2 ∷ free 1 ∷ alloc 3 ∷ alloc 1 ∷ []

abbrev recorded : Trace
recorded = record {
  accesses = λ i. get_or events i (free 0);
  capacity = 16384;
  length = 9;
  alloc_count = 6;
}

-- A trace that starts with the free of a block that was allocated before.
abbrev cut : Trace
cut = record {
  accesses = λ i. get_or (free 1 ∷ alloc 1 ∷ alloc 2 ∷ []) i (free 0);
  capacity = 16384;
  length = 3;
  alloc_count = 2;
}

average_of : ℕ → Trace → Outcome (Option (ℕ × ℕ))
average_of k t = reuse t >>= λ r. returned (r k)

average_1 : average_of 1 recorded ≡ returned (some (2, 6))
unfolding average_of reuse free_intervals
average_1 = refl

average_3 : average_of 3 recorded ≡ returned (some (7, 4))
unfolding average_of reuse free_intervals
average_3 = refl

average_5 : average_of 5 recorded ≡ returned (some (5, 2))
unfolding average_of reuse free_intervals
average_5 = refl

average_out : average_of 7 recorded ≡ returned none
unfolding average_of reuse free_intervals
average_out = refl

-- One interval in one window, counted twice.
average-cut : average_of 2 cut ≡ returned (some (2, 1))
unfolding average_of reuse free_intervals
average-cut = refl

windows-cut : windows 2 1 (free_intervals cut) ≡ 1
unfolding windows sum_over free_intervals
windows-cut = refl

recorded-IsCounted : IsCounted recorded
unfolding allocs_from
recorded-IsCounted = refl

reuse-Windows_example :
    Returns
      (λ r.
        (i : ℕ)
        → i < 6
        → (sum : ℕ) × (r (suc i) ≡ some (sum, 6 - suc i + 1))
          × (sum + sum_over (from_start (suc i)) (free_intervals recorded)
              ≡ windows (suc i) (6 - suc i + 1) (free_intervals recorded)
                + sum_over (λ x. i * at_start x) (free_intervals recorded)))
      (reuse recorded)
reuse-Windows_example = reuse-Windows recorded recorded-IsCounted (omega arith)

windows-le_example : windows 3 4 (free_intervals recorded) ≤ 12
windows-le_example = windows-le recorded 3 4

sums-lt-word_example :
    Returns
      (λ terms.
        (i : ℕ)
        → i < 6
        → (x : ℕ) × (sum_x 6 terms i ≡ returned x)
          × (x + sum_z terms i < word)
          × (sum_y terms i < word))
      (tally 6 (free_intervals recorded) no_terms)
sums-lt-word_example = sums-lt-word recorded recorded-IsCounted (omega arith)
