-- ===== src/Apf/Reuse/Offline/Bounds.antt =====
-- How large the sums of `reuse` can be.
use lralloc_rs.Common.{
  ℕ, zero, suc, ◌+◌, ◌-◌, ◌*◌, max, ◌≤◌, ◌<◌, ◌≡◌, Option, none, some, List, [], ◌∷◌, All, length,
  update, arith, Option-cases, inl, inr, Returns, returns, result, returned,
}
use lralloc_rs.MemInfo.{word}
use lralloc_rs.Apf.Trace.{Event, Trace, intervals_from, free_intervals}
use lralloc_rs.Apf.Reuse.Offline.{no_terms, tally, sum_x, sum_y, sum_z}
use lralloc_rs.Apf.Reuse.Offline.Sums.{Interval, Within, sum_over, sum_over-le}
use lralloc_rs.Apf.Reuse.Offline.Columns.{
  tally-Adds, part_x, part_y, part_z, sum_x_lem, sum_y_lem, sum_z_lem,
}
use lralloc_rs.Apf.Reuse.Offline.Windows.{
  allocs_from, IsCounted, Event-cases, update-le, intervals_from-Within, in_window, windows,
}

-- The ends of the intervals go up from `low` on, and no interval ends before it starts.
abbrev EndsFrom : ℕ → List Interval → Type 0
EndsFrom low [] = Unit {0}
EndsFrom low (x ∷ xs) = (low ≤ x.1) × (x.0 ≤ x.1) × EndsFrom (x.1 + 1) xs

EndsFrom-le : (low high : ℕ) (xs : List Interval) → low ≤ high → EndsFrom high xs → EndsFrom low xs
EndsFrom-le low high [] h e = tt
EndsFrom-le low high (x ∷ xs) h e = (omega (arith, e.0), e.1, e.2)

intervals_from-EndsFrom :
    (rounds i : ℕ) (accesses : ℕ → Event) (frees : ℕ → Option ℕ) (clock : ℕ)
    → ((slot v : ℕ) → frees slot ≡ some v → v ≤ clock)
    → EndsFrom clock (intervals_from rounds i accesses frees clock)
unfolding intervals_from
intervals_from-EndsFrom zero i accesses frees clock past = tt
intervals_from-EndsFrom (suc rounds) i accesses frees clock past = elim (Event-cases (accesses i)) [
  | inl (s, e) ↦
      (let rest =
          intervals_from-EndsFrom rounds (i + 1) accesses frees (clock + 1)
            (λ slot v f. omega (arith, past slot v f)) in
        rw (e, EndsFrom)
          (elim (Option-cases (frees s)) [
            | inl never ↦
                rw (never, EndsFrom)
                  (EndsFrom-le clock (clock + 1)
                    (intervals_from rounds (i + 1) accesses frees (clock + 1)) (omega arith) rest)
            | inr (start, f) ↦ rw (f, EndsFrom) (omega arith, past s start f, rest)
          ]))
  | inr (s, e) ↦
      rw (e, EndsFrom)
        (intervals_from-EndsFrom rounds (i + 1) accesses (update frees s (some clock)) clock
          (update-le frees s clock past))
]

-- A window of k allocations has k ends at most.
window-le :
    (k first low : ℕ) (xs : List Interval)
    → EndsFrom low xs
    → sum_over (in_window k first) xs ≤ first + k - max first low
unfolding sum_over
window-le k first low [] e = omega arith
window-le k first low (x ∷ xs) e = ground (arith, e.0, e.1, window-le k first (x.1 + 1) xs (e.2))

windows-le-ends :
    (k number : ℕ) (xs : List Interval) → EndsFrom 0 xs → windows k number xs ≤ k * number
unfolding windows
windows-le-ends k zero xs e = omega arith
windows-le-ends k (suc number) xs e =
    grind (arith, window-le k number 0 xs e, windows-le-ends k number xs e)

-- On the average a window of k allocations has k free intervals at most.
pub windows-le : (t : Trace) (k number : ℕ) → windows k number (free_intervals t) ≤ k * number
unfolding free_intervals
windows-le t k number =
    windows-le-ends k number (free_intervals t)
      (intervals_from-EndsFrom (t.length) 0 (t.accesses) (λ _. none) 0 (λ slot v e. cc))

length-intervals_from :
    (rounds i : ℕ) (accesses : ℕ → Event) (frees : ℕ → Option ℕ) (clock : ℕ)
    → length (intervals_from rounds i accesses frees clock) ≤ allocs_from rounds i accesses
unfolding intervals_from allocs_from
length-intervals_from zero i accesses frees clock = omega arith
length-intervals_from (suc rounds) i accesses frees clock = elim (Event-cases (accesses i)) [
  | inl (s, e) ↦
      (let rest = length-intervals_from rounds (i + 1) accesses frees (clock + 1) in
        rw (e, length)
          (elim (Option-cases (frees s)) [
            | inl never ↦ rw (never, length) (omega (arith, rest))
            | inr (start, f) ↦ rw (f, length) (omega (arith, rest))
          ]))
  | inr (s, e) ↦
      rw (e, length)
        (omega (
          arith,
          length-intervals_from rounds (i + 1) accesses (update frees s (some clock)) clock,
        ))
]

sum_over-const : (c : ℕ) (xs : List Interval) → sum_over (λ _. c) xs ≡ length xs * c
unfolding sum_over
sum_over-const c [] = omega arith
sum_over-const c (x ∷ xs) = grind (arith, sum_over-const c xs)

-- A sum of parts of at most c, over at most n intervals.
sum_over-le-mul :
    (n c : ℕ) (f : Interval → ℕ) (xs : List Interval)
    → All (Within n) xs
    → length xs ≤ n
    → ((x : Interval) → Within n x → f x ≤ c)
    → sum_over f xs ≤ n * c
sum_over-le-mul n c f xs w few h =
    let each = sum_over-le {n = n} f (λ _. c) xs w h in
    grind (arith, each, sum_over-const c xs, few)

squares :
    (n : ℕ) → n ≤ 2147483648 → (n * n ≤ 4611686018427387904) × (n * (n + 1) ≤ 4611686020574871552)
squares n h = grind arith

-- For a trace that counts its allocations, at most 2 ^ 31 of them, the sums x, y and z of reuse and
-- the sum of x and z stay below 2 ^ 64.
pub sums-lt-word :
    (t : Trace)
    → IsCounted t
    → t.alloc_count ≤ 2147483648
    → Returns
        (λ terms.
          (i : ℕ)
          → i < t.alloc_count
          → (x : ℕ) × (sum_x (t.alloc_count) terms i ≡ returned x)
            × (x + sum_z terms i < word)
            × (sum_y terms i < word))
        (tally (t.alloc_count) (free_intervals t) no_terms)
unfolding free_intervals
sums-lt-word t counted small =
    let n = t.alloc_count in
    let xs = free_intervals t in
    let w : All (Within n) xs =
      intervals_from-Within (t.length) 0 (t.accesses) (λ _. none) 0 n (λ slot v e. cc)
        (omega arith) in
    let few : length xs ≤ n =
      omega (arith, length-intervals_from (t.length) 0 (t.accesses) (λ _. none) 0) in
    let (terms, ran, a) = result (tally-Adds n xs no_terms w) in
    let (square, more) = squares n small in
    rw ran (
      returns (λ i h.
        let x =
          sum_over-le-mul n n (part_x n i) xs w few (λ x v. ground (arith, v.ordered, v.inside)) in
        let y =
          sum_over-le-mul n (n + 1) (part_y i) xs w few
            (λ x v. ground (arith, v.ordered, v.inside)) in
        let z =
          sum_over-le-mul n n (part_z i) xs w few (λ x v. ground (arith, v.ordered, v.inside)) in
        (
          sum_over (part_x n i) xs,
          sum_x_lem n xs w terms a i h,
          omega (arith, x, z, square, sum_z_lem n xs w terms a i),
          omega (arith, y, more, sum_y_lem n xs w terms a i),
        )))
