-- ===== src/Collections/Deque/Runs.antt =====
-- Runs of operations at both ends of a deque against a list.
use lralloc_rs.Common.{
  ◌≡◌, refl, ap, ap₂, Bool, true, Option, none, some, List, [], ◌∷◌, ◌++◌, Outcome, returned, ◌>>=◌,
  Returns, returns, bind,
}
use lralloc_rs.Collections.Deque.{ArrayDeque, push_back, push_front, pop_front}
use lralloc_rs.Collections.Deque.Window.{
  Window, push_back-Window, push_front-Window, pop_front-Window, pop_front-empty,
}

pub data Op (A : Type 0) : Type 0 where
  to_front : A → Op A
  to_back : A → Op A
  from_front : Op A

module _ {A : Type 0} where
  -- The operations on the deque; the result is what the pops returned, and the deque.
  unfoldable pub deque_run :
      Bool → List (Op A) → ArrayDeque A → Outcome (List (Option A) × ArrayDeque A)
  deque_run granted [] d = returned ([], d)
  deque_run granted (to_front v ∷ ops) d = push_front granted v d >>= deque_run granted ops
  deque_run granted (to_back v ∷ ops) d = push_back granted v d >>= deque_run granted ops
  deque_run granted (from_front ∷ ops) d = do
    (out, d') ← deque_run granted ops (pop_front d).1
    returned ((pop_front d).0 ∷ out, d')

  -- The operations on a list.
  unfoldable pub list_run : List (Op A) → List A → List (Option A) × List A
  list_run [] xs = ([], xs)
  list_run (to_front v ∷ ops) xs = list_run ops (v ∷ xs)
  list_run (to_back v ∷ ops) xs = list_run ops (xs ++ v ∷ [])
  list_run (from_front ∷ ops) [] = let r = list_run ops [] in (none ∷ r.0, r.1)
  list_run (from_front ∷ ops) (x ∷ xs) = let r = list_run ops xs in (some x ∷ r.0, r.1)

  -- Where memory is granted, any sequence of push_front, push_back and pop_front on a deque that
  -- holds a list returns, also when the deque grows at either end; the pops return what they return
  -- on the list, and the deque holds what the list holds.
  pub deque_run-Window :
      (ops : List (Op A)) (d : ArrayDeque A) (xs : List A)
      → Window d xs
      → Returns
          (λ r. (r.0 ≡ (list_run ops xs).0) × Window r.1 (list_run ops xs).1)
          (deque_run true ops d)
  unfolding deque_run list_run
  deque_run-Window [] d xs h = returns (refl, h)
  deque_run-Window (to_front v ∷ ops) d xs h =
      bind (push_front-Window v d xs h) λ d' h'. deque_run-Window ops d' (v ∷ xs) h'
  deque_run-Window (to_back v ∷ ops) d xs h =
      bind (push_back-Window v d xs h) λ d' h'. deque_run-Window ops d' (xs ++ v ∷ []) h'
  deque_run-Window (from_front ∷ ops) d [] h =
      rw (pop_front-empty d h)
        (bind (deque_run-Window ops d [] h) λ r rest. returns (ap (λ o. none ∷ o) rest.0, rest.1))
  deque_run-Window (from_front ∷ ops) d (x ∷ xs) h =
      let popped = pop_front-Window d x xs h in
      bind (deque_run-Window ops (pop_front d).1 xs popped.1)
        λ r rest. returns (ap₂ (λ b o. b ∷ o) popped.0 rest.0, rest.1)
