-- ===== src/Collections/Deque/Collect.antt =====
-- What a deque that is made from an array or collected holds.
use lralloc_rs.Common.{
  ℕ, ◌+◌, ◌<◌, sym, ap, ◌∙◌, true, some, List, [], ◌∷◌, ◌++◌, length, length-append, arith, Returns,
  returns, bind,
}
use lralloc_rs.MemInfo.{word}
use lralloc_rs.Collections.{Array}
use lralloc_rs.Collections.Slots.{Holds, get_elem?-front}
use lralloc_rs.Collections.Loops.Filled.{collect-Holds}
use lralloc_rs.Collections.Deque.{from_array, collect_deque}
use lralloc_rs.Collections.Deque.Window.{Window}

module _ {A : Type 0} where
  from_array-Window :
      (v : A) (a : Array A) (xs : List A)
      → Holds a (xs ++ v ∷ [])
      → length xs + 1 < word
      → Window (from_array a) xs
  unfolding from_array
  from_array-Window v a xs h fits =
      let n = length-append xs (v ∷ []) in
      record {
        spans = omega (arith, h.counted, n);
        room = omega (arith, h.counted, h.room, n);
        at = λ i q.
            sym (get_elem?-front xs (v ∷ []) i q)
            ∙ h.at i (omega (arith, n))
            ∙ ap (λ (t : ℕ). some (a.slots t)) (omega arith);
      }

  -- Where memory is granted, collecting a list that is not empty and shorter than a word counts
  -- makes a deque that lacks the last element.
  pub collect_deque-Window :
      (memory : ℕ → A) (v : A) (xs : List A)
      → length xs + 1 < word
      → Returns (λ d. Window d xs) (collect_deque true memory (xs ++ v ∷ []))
  unfolding collect_deque
  collect_deque-Window memory v xs fits =
      bind (collect-Holds memory (xs ++ v ∷ [])) λ a h. returns (from_array-Window v a xs h fits)
