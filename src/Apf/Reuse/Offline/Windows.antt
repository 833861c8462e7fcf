-- ===== src/Apf/Reuse/Offline/Windows.antt =====
-- The averages against a count of the intervals in every window of k allocations.
use lralloc_rs.Common.{
  ℕ, zero, suc, ◌+◌, ◌-◌, ◌*◌, min, ◌≤◌, ◌<◌, ◌≡◌, refl, sym, ◌∙◌, Option, none, some, List, All,
  ltb, leb, lt→ltb, le→leb, ◌==◌, if◌then◌else◌, update, arith, returned, Returns, returns, result,
  Bool-cases, Option-cases, ==_iff, true, false, inl, inr, ◌⊎◌,
}
use mathlib.Core.Path.{subst}
use lralloc_rs.Apf.Trace.{Event, alloc, free, Trace, is_alloc, intervals_from, free_intervals}
use lralloc_rs.Apf.Reuse.Offline.{Terms, no_terms, minus, sum_y, sum_z, average, averages, reuse}
use lralloc_rs.Apf.Reuse.Offline.Sums.{
  Interval, Within, sum_over, sum_over-add, sum_over-eq, sum_over-zero,
}
use lralloc_rs.Apf.Reuse.Offline.Columns.{
  Adds, tally-Adds, part_x, part_y, part_z, sum_x_lem, sum_y_lem, sum_z_lem,
}

-- The allocations among the next `rounds` events.
unfoldable pub allocs_from : ℕ → ℕ → (ℕ → Event) → ℕ
allocs_from zero i accesses = 0
allocs_from (suc rounds) i accesses = is_alloc (accesses i) + allocs_from rounds (i + 1) accesses

-- The trace counts the allocations among its events.
abbrev pub IsCounted : Trace → Type 0
IsCounted t = t.alloc_count ≡ allocs_from (t.length) 0 (t.accesses)

pub update-le :
    (frees : ℕ → Option ℕ) (s clock : ℕ)
    → ((slot v : ℕ) → frees slot ≡ some v → v ≤ clock)
    → (slot v : ℕ) → update frees s (some clock) slot ≡ some v
    → v ≤ clock
update-le frees s clock past slot v e = elim (Bool-cases (slot == s)) [
  | inl here ↦ ground (arith, e, here)
  | inr other ↦ past slot v (rw other at e)
]

pub Event-cases : (e : Event) → ((s : ℕ) × (e ≡ alloc s)) ⊎ ((s : ℕ) × (e ≡ free s))
Event-cases (alloc s) = inl (s, refl)
Event-cases (free s) = inr (s, refl)

pub intervals_from-Within :
    (rounds i : ℕ) (accesses : ℕ → Event) (frees : ℕ → Option ℕ) (clock n : ℕ)
    → ((slot v : ℕ) → frees slot ≡ some v → v ≤ clock)
    → clock + allocs_from rounds i accesses ≤ n
    → All (Within n) (intervals_from rounds i accesses frees clock)
unfolding intervals_from allocs_from
intervals_from-Within zero i accesses frees clock n past room = tt
intervals_from-Within (suc rounds) i accesses frees clock n past room =
    elim (Event-cases (accesses i)) [
      | inl (s, e) ↦
          (let rest =
              intervals_from-Within rounds (i + 1) accesses frees (clock + 1) n
                (λ slot v f. omega (arith, past slot v f)) (omega (arith, rw e at room)) in
            rw (e, All)
              (elim (Option-cases (frees s)) [
                | inl never ↦ rw (never, All) rest
                | inr (start, f) ↦
                    rw (f, All)
                      (
                        record { ordered = past s start f; inside = omega (arith, rw e at room) },
                        rest,
                      )
              ]))
      | inr (s, e) ↦
          rw (e, All)
            (intervals_from-Within rounds (i + 1) accesses (update frees s (some clock)) clock n
              (update-le frees s clock past) (omega (arith, rw e at room)))
    ]

-- An interval that lies in the window of k allocations from `first` on.
abbrev pub in_window : ℕ → ℕ → Interval → ℕ
in_window k first x = if leb first (x.0) then (if ltb (x.1) (first + k) then 1 else 0) else 0

-- The intervals in each of the first `number` windows of k allocations, counted in every window.
unfoldable pub windows : ℕ → ℕ → List Interval → ℕ
windows k zero xs = 0
windows k (suc first) xs = windows k first xs + sum_over (in_window k first) xs

-- the windows that an interval lies in
abbrev places : ℕ → ℕ → Interval → ℕ
places k number x = min number (x.0 + 1) - (x.1 + 1 - k)

-- An interval that starts before the first allocation and ends after it, in a window.
abbrev pub from_start : ℕ → Interval → ℕ
from_start k x = if x.0 == 0 then (if x.1 == 0 then 0 else if ltb (x.1) k then 1 else 0) else 0

-- An interval that ends at the first allocation.
abbrev pub at_start : Interval → ℕ
at_start x = if x.1 == 0 then 1 else 0

module _ (n : ℕ) (xs : List Interval) (w : All (Within n) xs) where
  windows_lem : (k : ℕ) → 0 < k → (number : ℕ) → windows k number xs ≡ sum_over (places k number) xs
  unfolding windows
  windows_lem k h zero =
      sym (sum_over-zero xs)
      ∙ sum_over-eq {n = n} (λ _. 0) (places k zero) xs w (λ x v. ground arith)
  windows_lem k h (suc number) =
      let more =
        sum_over-add {n = n} (places k number) (in_window k number) (places k (suc number)) xs w
          (λ x v. ground (arith, v.ordered)) in
      omega (arith, windows_lem k h number, more)

  module _ (t : Terms) (a : Adds n no_terms xs t) where
    average_lem :
        (i : ℕ)
        → i < n
        → (sum : ℕ) × (average n t i ≡ returned (sum, n - suc i + 1))
          × (sum + sum_over (from_start (suc i)) xs
              ≡ windows (suc i) (n - suc i + 1) xs + sum_over (λ x. i * at_start x) xs)
    unfolding average minus
    average_lem i h =
        let k : ℕ = suc i in
        let px = part_x n i in
        let py = part_y i in
        let pz = part_z i in
        let v = λ (x : Interval). px x + pz x - py x in
        let one = sum_over-add {n = n} px pz (λ x. px x + pz x) xs w (λ x c. refl) in
        let two =
          sum_over-add {n = n} py v (λ x. px x + pz x) xs w
            (λ x c. ground (arith, c.ordered, c.inside)) in
        let both = λ (x : Interval). v x + from_start k x in
        let three = sum_over-add {n = n} v (from_start k) both xs w (λ x c. refl) in
        let four =
          sum_over-add {n = n} (places k (n - k + 1)) (λ x. i * at_start x) both xs w
            (λ x c. ground (arith, c.ordered, c.inside)) in
        let x = sum_x_lem n xs w t a i h in
        let y = sum_y_lem n xs w t a i in
        let z = sum_z_lem n xs w t a i in
        let enough : leb (sum_y t i) (sum_over px xs + sum_z t i) ≡ true =
          le→leb _ _ (omega (arith, y, z, one, two)) in
        (
          sum_over px xs + sum_z t i - sum_y t i,
          rw (x, enough) refl,
          omega (arith, y, z, one, two, three, four, windows_lem k (omega arith) (n - k + 1)),
        )

    -- what the result holds at k = i + 1
    pub Holds : (ℕ → Option (ℕ × ℕ)) → ℕ → Type 0
    Holds r i =
        (sum : ℕ) × (r (suc i) ≡ some (sum, n - suc i + 1))
        × (sum + sum_over (from_start (suc i)) xs
            ≡ windows (suc i) (n - suc i + 1) xs + sum_over (λ x. i * at_start x) xs)

    averages-Holds :
        (rounds : ℕ)
        → rounds ≤ n
        → Returns (λ r. (i : ℕ) → i < rounds → Holds r i) (averages n t rounds)
    unfolding averages Holds
    averages-Holds zero h = returns (λ i l. absurd (omega arith))
    averages-Holds (suc rounds) h =
        let (r, ran, at) = result (averages-Holds rounds (omega arith)) in
        let (sum, q, e) = average_lem rounds h in
        let next = update r (suc rounds) (some (sum, n - suc rounds + 1)) in
        rw (ran, q)
          (returns {a = next} (λ i l. elim (Bool-cases (i == rounds)) [
            | inl here ↦
                (let new : next (suc rounds) ≡ some (sum, n - suc rounds + 1) = ground arith in
                  subst (Holds next) (sym ((==_iff i rounds).0 here)) (sum, new, e))
            | inr other ↦
                (let old = at i (ground arith) in
                  let same : (suc i == suc rounds) ≡ false = ground arith in rw same old)
          ]))

-- For a trace that counts its allocations and has one, reuse returns, and for every length k up to
-- their number it holds the number of windows of k allocations and a sum. The sum is the number of
-- free intervals in each window, over all windows, without those that start before the first
-- allocation and end later, and with k for one of those that end with the first allocation.
pub reuse-Windows :
    (t : Trace)
    → IsCounted t
    → 0 < t.alloc_count
    → Returns
        (λ r.
          (i : ℕ)
          → i < t.alloc_count
          → (sum : ℕ) × (r (suc i) ≡ some (sum, t.alloc_count - suc i + 1))
            × (sum + sum_over (from_start (suc i)) (free_intervals t)
                ≡ windows (suc i) (t.alloc_count - suc i + 1) (free_intervals t)
                  + sum_over (λ x. i * at_start x) (free_intervals t)))
        (reuse t)
unfolding reuse free_intervals Holds
reuse-Windows t counted some_allocs =
    let n = t.alloc_count in
    let w : All (Within n) (free_intervals t) =
      intervals_from-Within (t.length) 0 (t.accesses) (λ _. none) 0 n (λ slot v e. cc)
        (omega arith) in
    let (terms, ran, a) = result (tally-Adds n (free_intervals t) no_terms w) in
    let (r, ran', h) = result (averages-Holds n (free_intervals t) w terms a n (omega arith)) in
    rw (ran, lt→ltb 0 n some_allocs, ran') (returns h)
