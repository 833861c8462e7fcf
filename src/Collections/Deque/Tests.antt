-- ===== src/Collections/Deque/Tests.antt =====
-- The theorems on deques at concrete deques.
use lralloc_rs.Common.{
  ℕ, zero, suc, ◌+◌, ◌<◌, ◌≡◌, refl, true, some, none, [], ◌∷◌, get_elem?, arith, Returns,
}
use lralloc_rs.Collections.Deque.{ArrayDeque, new_deque, pop_back, collect_deque}
use lralloc_rs.Collections.Deque.Window.{Window, pop_back-Window}
use lralloc_rs.Collections.Deque.Runs.{
  to_front, to_back, from_front, deque_run, list_run, deque_run-Window,
}
use lralloc_rs.Collections.Deque.Collect.{collect_deque-Window}

new-Window : Window {A = ℕ} (new_deque λ i. 9) []
new-Window = record { spans = refl; room = omega arith; at = λ i q. absurd (omega arith) }

deque_run-Window_example :
    Returns
      (λ r. (r.0 ≡ some 0 ∷ some 1 ∷ some 2 ∷ none ∷ []) × Window {A = ℕ} r.1 [])
      (deque_run true
        (to_front 1
          ∷ to_front 0
          ∷ to_back 2
          ∷ from_front
          ∷ from_front
          ∷ from_front
          ∷ from_front
          ∷ [])
        (new_deque λ i. 9))
unfolding list_run
deque_run-Window_example =
    deque_run-Window
      (to_front 1 ∷ to_front 0 ∷ to_back 2 ∷ from_front ∷ from_front ∷ from_front ∷ from_front ∷ [])
      (new_deque λ i. 9) [] new-Window

-- two elements in a segment for four
abbrev two : ArrayDeque ℕ
two = record { capacity = 4; slots = λ i. i + 5; start = 1; end = 3 }

two-Window : Window two (6 ∷ 7 ∷ [])
two-Window = record { spans = refl; room = omega arith; at = at_two }
  where
    at_two : (i : ℕ) → i < 2 → get_elem? (6 ∷ 7 ∷ []) i ≡ some (1 + i + 5)
    at_two zero q = refl
    at_two (suc zero) q = refl
    at_two (suc (suc i)) q = absurd (omega arith)

-- The answer is 8, which no element is.
pop_back-Window_example : ((pop_back two).0 ≡ some 8) × Window (pop_back two).1 (6 ∷ [])
pop_back-Window_example = pop_back-Window two 7 (6 ∷ []) two-Window

collect_deque-Window_example :
    Returns (λ d. Window {A = ℕ} d (5 ∷ [])) (collect_deque true (λ i. 9) (5 ∷ 6 ∷ []))
collect_deque-Window_example = collect_deque-Window (λ i. 9) 6 (5 ∷ []) (omega arith)
