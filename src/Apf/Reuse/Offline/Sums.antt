-- ===== src/Apf/Reuse/Offline/Sums.antt =====
-- Sums over lists of intervals.
use lralloc_rs.Common.{ℕ, ◌+◌, ◌≤◌, ◌<◌, ◌≡◌, List, [], ◌∷◌, All, ◌==◌, if◌then◌else◌, arith}

abbrev pub Interval : Type 0
Interval = ℕ × ℕ

-- An interval of a trace of n allocations.
pub record Within (n : ℕ) (x : Interval) : Type 0 where
  pub ordered : x.0 ≤ x.1
  pub inside : x.1 < n

unfoldable pub sum_over : (Interval → ℕ) → List Interval → ℕ
sum_over f [] = 0
sum_over f (x ∷ xs) = f x + sum_over f xs

-- The values of the intervals with a key.
abbrev pub keyed : (Interval → ℕ) → (Interval → ℕ) → ℕ → Interval → ℕ
keyed key val j x = if key x == j then val x else 0

module _ {n : ℕ} where
  pub sum_over-add :
      (f g h : Interval → ℕ) (xs : List Interval)
      → All (Within n) xs
      → ((x : Interval) → Within n x → f x + g x ≡ h x)
      → sum_over f xs + sum_over g xs ≡ sum_over h xs
  unfolding sum_over
  sum_over-add f g h [] w e = omega arith
  sum_over-add f g h (x ∷ xs) w e = omega (arith, e x (w.0), sum_over-add f g h xs (w.1) e)

  pub sum_over-eq :
      (f g : Interval → ℕ) (xs : List Interval)
      → All (Within n) xs
      → ((x : Interval) → Within n x → f x ≡ g x)
      → sum_over f xs ≡ sum_over g xs
  unfolding sum_over
  sum_over-eq f g [] w e = omega arith
  sum_over-eq f g (x ∷ xs) w e = omega (arith, e x (w.0), sum_over-eq f g xs (w.1) e)

  pub sum_over-le :
      (f g : Interval → ℕ) (xs : List Interval)
      → All (Within n) xs
      → ((x : Interval) → Within n x → f x ≤ g x)
      → sum_over f xs ≤ sum_over g xs
  unfolding sum_over
  sum_over-le f g [] w e = omega arith
  sum_over-le f g (x ∷ xs) w e = omega (arith, e x (w.0), sum_over-le f g xs (w.1) e)

pub sum_over-zero : (xs : List Interval) → sum_over (λ _. 0) xs ≡ 0
unfolding sum_over
sum_over-zero [] = omega arith
sum_over-zero (x ∷ xs) = omega (arith, sum_over-zero xs)
