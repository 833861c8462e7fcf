-- ===== src/Apf/Liveness.antt =====
-- src/apf/liveness_counter.rs: for each point in time, the number and the sum of the times of the allocations
-- and of the frees up to it. A quotient of two floats is given as the pair of its parts, and no pair
-- stands for 0.0.
pub mod Counts
pub mod Runs
use lralloc_rs.Common.{
  ℕ, ◌+◌, ◌-◌, ◌*◌, ◌%◌, Bool, true, Option, none, some, List, [], ◌∷◌, ltb, if◌then◌else◌, Outcome,
  returned, panicked, ◌>>=◌,
}
use lralloc_rs.MemInfo.{word}
use lralloc_rs.Apf.Histogram.{Histogram, new_histogram, add, increment, get}

pub record LivenessCounter : Type 0 where
  pub n : ℕ
  pub m : ℕ
  pub alloc_sum : Histogram
  pub alloc_counts : Histogram
  pub free_sum : Histogram
  pub free_counts : Histogram

abbrev pub new_counter : LivenessCounter
new_counter = record {
  n = 0;
  m = 0;
  alloc_sum = new_histogram;
  alloc_counts = new_histogram;
  free_sum = new_histogram;
  free_counts = new_histogram;
}

-- `alloc`; the memory of the histograms is granted
unfoldable pub count_alloc : LivenessCounter → Outcome LivenessCounter
count_alloc c = do
  sums ← add true (c.n) (c.n) (c.alloc_sum)
  counts ← increment true (c.n) (c.alloc_counts)
  returned (record c { alloc_sum = sums; alloc_counts = counts; m = c.m + 1 })

-- `free`
unfoldable pub count_free : LivenessCounter → Outcome LivenessCounter
count_free c = do
  sums ← add true (c.n) (c.n) (c.free_sum)
  counts ← increment true (c.n) (c.free_counts)
  returned (record c { free_sum = sums; free_counts = counts })

unfoldable pub inc_timer : LivenessCounter → Outcome LivenessCounter
inc_timer c = do
  let n = c.n + 1
  alloc_counts ← add true n (get (c.alloc_counts) (n - 1)) (c.alloc_counts)
  alloc_sum ← add true n (get (c.alloc_sum) (n - 1)) (c.alloc_sum)
  free_counts ← add true n (get (c.free_counts) (n - 1)) (c.free_counts)
  free_sum ← add true n (get (c.free_sum) (n - 1)) (c.free_sum)
  returned (record c {
    n = n;
    alloc_sum = alloc_sum;
    alloc_counts = alloc_counts;
    free_sum = free_sum;
    free_counts = free_counts;
  })

-- `usize` difference, which wraps
abbrev minus : ℕ → ℕ → ℕ
minus a b = (a + (word - b)) % word

-- The dividend and the divisor of `liveness`
unfoldable pub liveness : ℕ → LivenessCounter → Option (ℕ × ℕ)
liveness k c =
    let i = c.n + 1 - k in
    let tmp1 = minus (c.m) (get (c.free_counts) i) * i + get (c.free_sum) i in
    let tmp2 = minus (get (c.alloc_counts) k * k + get (c.alloc_sum) (c.n)) (get (c.alloc_sum) k) in
    if ltb (c.n + 1) k then none else some (minus (tmp1 + c.m * k) tmp2, i)

pub data Event : Type 0 where
  alloc free tick : Event

unfoldable pub count : Event → LivenessCounter → Outcome LivenessCounter
count alloc c = count_alloc c
count free c = count_free c
count tick c = inc_timer c

-- The counter after the events, in order.
unfoldable pub count_all : List Event → LivenessCounter → Outcome LivenessCounter
unfolding count
count_all [] c = returned c
count_all (e ∷ es) c = count e c >>= count_all es
