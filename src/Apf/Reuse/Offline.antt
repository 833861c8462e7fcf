-- ===== src/Apf/Reuse/Offline.antt =====
-- src/apf/reuse_counter.rs, the function `reuse`: the average number of free intervals that lie in a window of
-- k allocations, for every k. Its vectors are functions from their indices, where an index is past the
-- end or a difference below 0 the function panics, and a float quotient is a pair of its
-- parts. Sums are not cut to a word; Bounds shows for how long a trace they are words.
pub mod Sums
pub mod Columns
pub mod Windows
pub mod Bounds
pub mod Counted
mod Tests
use lralloc_rs.Common.{
  ℕ, zero, suc, ◌+◌, ◌-◌, ◌*◌, min, max, Option, none, some, List, [], ◌∷◌, ltb, leb, update,
  Outcome, returned, assert, ◌>>=◌, ◌>>◌,
}
use lralloc_rs.Apf.Trace.{Trace, free_intervals}

-- the predicate terms
pub record Terms : Type 0 where
  pub start_index_counts : ℕ → ℕ
  pub end_index_counts : ℕ → ℕ
  pub len_counts : ℕ → ℕ
  pub start_indices_sums : ℕ → ℕ
  pub start_indices_min_sums : ℕ → ℕ
  pub end_indices_sums : ℕ → ℕ
  pub end_indices_max_sums : ℕ → ℕ

abbrev pub no_terms : Terms
no_terms = record {
  start_index_counts = λ _. 0;
  end_index_counts = λ _. 0;
  len_counts = λ _. 0;
  start_indices_sums = λ _. 0;
  start_indices_min_sums = λ _. 0;
  end_indices_sums = λ _. 0;
  end_indices_max_sums = λ _. 0;
}

-- `a[i] += v`
abbrev pub bump : (ℕ → ℕ) → ℕ → ℕ → ℕ → ℕ
bump a i v = update a i (a i + v)

-- the body of the loop over the intervals
abbrev pub add_interval : ℕ → ℕ → ℕ → Terms → Terms
add_interval n s e t =
    let len = e - s + 1 in
    record {
      start_index_counts = bump (t.start_index_counts) s 1;
      end_index_counts = bump (t.end_index_counts) e 1;
      len_counts = bump (t.len_counts) (len - 1) 1;
      start_indices_sums = bump (t.start_indices_sums) (len - 1) s;
      start_indices_min_sums = bump (t.start_indices_min_sums) (len - 1) (min (n - len) s);
      end_indices_sums = bump (t.end_indices_sums) (len - 1) e;
      end_indices_max_sums = bump (t.end_indices_max_sums) (len - 1) (max len e);
    }

-- the loop over the intervals: the length may not be below 1, nor an index past the end
unfoldable pub tally : ℕ → List (ℕ × ℕ) → Terms → Outcome Terms
tally n [] t = returned t
tally n ((s, e) ∷ intervals) t = do
  assert (leb s e)
  assert (ltb s n)
  assert (ltb e n)
  tally n intervals (add_interval n s e t)

-- the loops from 1 on that fill `start_index_n_k`, `end_index_k_1` and `len_l_k`
unfoldable pub start_index_n_k : ℕ → Terms → ℕ → ℕ
start_index_n_k n t zero = 0
start_index_n_k n t (suc i) = start_index_n_k n t i + t.start_index_counts (n - suc i)

unfoldable pub end_index_k_1 : Terms → ℕ → ℕ
end_index_k_1 t zero = 0
end_index_k_1 t (suc i) = end_index_k_1 t i + t.end_index_counts (suc i)

unfoldable pub len_l_k : Terms → ℕ → ℕ
len_l_k t zero = t.len_counts 0
len_l_k t (suc i) = len_l_k t i + t.len_counts (suc i)

-- a difference of two usize
unfoldable pub minus : ℕ → ℕ → Outcome ℕ
minus a b = assert (leb b a) >> returned (a - b)

-- `x`, `y` and `z`, at an index
unfoldable pub sum_x : ℕ → Terms → ℕ → Outcome ℕ
unfolding start_index_n_k minus
sum_x n t zero = returned (t.start_indices_sums 0)
sum_x n t (suc i) =
    sum_x n t i >>= λ x. minus (x + t.start_indices_min_sums (suc i)) (start_index_n_k n t (suc i))

unfoldable pub sum_y : Terms → ℕ → ℕ
unfolding end_index_k_1
sum_y t zero = t.end_indices_sums 0
sum_y t (suc i) = sum_y t i + end_index_k_1 t i + t.end_indices_max_sums (suc i)

unfoldable pub sum_z : Terms → ℕ → ℕ
unfolding len_l_k
sum_z t zero = t.len_counts 0
sum_z t (suc i) = sum_z t i + len_l_k t i + (suc i + 1) * t.len_counts (suc i)

-- what the result holds for k = i + 1
unfoldable pub average : ℕ → Terms → ℕ → Outcome (ℕ × ℕ)
unfolding sum_x sum_y sum_z minus
average n t i = do
  x ← sum_x n t i
  sum ← minus (x + sum_z t i) (sum_y t i)
  returned (sum, n - suc i + 1)

-- the loop that fills the result, for k up to `rounds`
unfoldable pub averages : ℕ → Terms → ℕ → Outcome (ℕ → Option (ℕ × ℕ))
unfolding average
averages n t zero = returned (λ _. none)
averages n t (suc i) = do
  result ← averages n t i
  q ← average n t i
  returned (update result (suc i) (some q))

-- `reuse`; the vectors of a trace without allocations have no index 0
unfoldable pub reuse : Trace → Outcome (ℕ → Option (ℕ × ℕ))
unfolding tally averages
reuse t = do
  let n = t.alloc_count
  terms ← tally n (free_intervals t) no_terms
  assert (ltb 0 n)
  averages n terms n
