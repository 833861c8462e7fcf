-- ===== src/Collections/Loops/Filled.antt =====
-- What collecting into an array and filling it do.
use lralloc_rs.Common.{
  ℕ, zero, suc, ◌+◌, ◌-◌, ◌≤◌, ◌<◌, ◌≡◌, refl, sym, ap, ◌∙◌, true, false, some, List, [], ◌∷◌, ◌++◌,
  length, length-append, get_elem?, replicate, length-replicate, ltb, ltb-false, ◌==◌, update,
  arith, Returns, returns, bind, Bool-cases, inl, inr,
}
use mathlib.Core.Path.{subst}
use mathlib.Core.List.{append_assoc, append-nil}
use lralloc_rs.Collections.{Array, new_array, reserve_slots}
use lralloc_rs.Collections.Slots.{Holds, push-Holds, get_elem?-front}
use lralloc_rs.Collections.Loops.{collect, fill, of_size_using, grow}

module _ {A : Type 0} where
  pub collect_onto-Holds :
      (vals : List A) (a : Array A) (xs : List A)
      → Holds a xs
      → Returns (λ a'. Holds a' (xs ++ vals)) (collect true vals a)
  unfolding collect
  collect_onto-Holds [] a xs h = returns (subst (Holds a) (sym (append-nil xs)) h)
  collect_onto-Holds (v ∷ vals) a xs h = bind (push-Holds v a xs h) λ a' h'.
      subst (λ ys. Returns (λ b. Holds b ys) (collect true vals a')) (append_assoc xs (v ∷ []) vals)
        (collect_onto-Holds vals a' (xs ++ v ∷ []) h')

  -- `from_iter`, from a new array on
  pub collect-Holds :
      (memory : ℕ → A) (vals : List A)
      → Returns (λ a. Holds a vals) (collect true vals (new_array memory))
  collect-Holds memory vals =
      collect_onto-Holds vals (new_array memory) []
        (record { counted = refl; room = omega arith; at = λ i q. absurd (omega arith) })

  fill-below : (rounds i j : ℕ) (v : A) (slots : ℕ → A) → j < i → fill rounds i v slots j ≡ slots j
  unfolding fill
  fill-below zero i j v slots q = refl
  fill-below (suc rounds) i j v slots q =
      let other : (j == i) ≡ false = ground arith in
      fill-below rounds (i + 1) j v (update slots i v) (omega arith) ∙ rw other refl

  fill-within :
      (rounds i j : ℕ) (v : A) (slots : ℕ → A)
      → i ≤ j
      → j < i + rounds
      → fill rounds i v slots j ≡ v
  unfolding fill
  fill-within zero i j v slots low high = absurd (omega arith)
  fill-within (suc rounds) i j v slots low high = elim (Bool-cases (j == i)) [
    | inl here ↦
        fill-below rounds (i + 1) j v (update slots i v) (ground (arith, here)) ∙ rw here refl
    | inr other ↦
        fill-within rounds (i + 1) j v (update slots i v) (ground (arith, other)) (omega arith)
  ]

  get_elem?-padded :
      (xs : List A) (k j : ℕ) (v : A)
      → length xs ≤ j
      → j < length xs + k
      → get_elem? (xs ++ replicate k v) j ≡ some v
  get_elem?-padded [] zero j v low high = absurd (omega arith)
  get_elem?-padded [] (suc k) zero v low high = refl
  get_elem?-padded [] (suc k) (suc j) v low high =
      get_elem?-padded [] k j v (omega arith) (omega arith)
  get_elem?-padded (x ∷ xs) k zero v low high = absurd (omega arith)
  get_elem?-padded (x ∷ xs) k (suc j) v low high =
      get_elem?-padded xs k j v (omega arith) (omega arith)

  -- filling the slots behind those in use
  fill-Holds :
      (k n c : ℕ) (v : A) (a : Array A) (xs : List A)
      → Holds a xs
      → n ≡ length xs + k
      → n ≤ c
      → Holds
          record { size = n; capacity = c; slots = fill k (a.size) v (a.slots) }
          (xs ++ replicate k v)
  fill-Holds k n c v a xs h sum space =
      let l = length-append xs (replicate k v) in
      let r = length-replicate k v in
      record {
        counted = omega (arith, l, r, sum);
        room = space;
        at = λ i q. elim (Bool-cases (ltb i (length xs))) [
          | inl old ↦
              (let low : i < length xs = ground (arith, old) in
                get_elem?-front xs (replicate k v) i low
                ∙ h.at i low
                ∙ ap some (sym (fill-below k (a.size) i v (a.slots) (omega (arith, h.counted)))))
          | inr new ↦
              (let high : length xs ≤ i = ground (arith, new) in
                get_elem?-padded xs k i v high (omega (arith, l, r, sum))
                ∙ ap some (
                    sym (
                      fill-within k (a.size) i v (a.slots) (omega (arith, h.counted))
                        (omega (arith, h.counted, l, r, sum)))))
        ];
      }

  pub of_size_using-Holds :
      (memory : ℕ → A) (v : A) (size : ℕ)
      → Returns (λ a. Holds a (replicate size v)) (of_size_using true memory v size)
  unfolding of_size_using reserve_slots
  of_size_using-Holds memory v size = rw (ltb-false size 0 (omega arith)) (
      returns (
        fill-Holds size size size v (new_array memory) []
          (record { counted = refl; room = omega arith; at = λ i q. absurd (omega arith) })
          (omega arith) (omega arith)))

  -- Where memory is granted, `grow` fills the new slots with the default.
  pub grow-Holds :
      (v : A) (n : ℕ) (a : Array A) (xs : List A)
      → Holds a xs
      → Returns (λ b. Holds b (xs ++ replicate (n - length xs) v)) (grow true v n a)
  unfolding grow reserve_slots
  grow-Holds v n a xs h = elim (Bool-cases (ltb (a.size) n)) [
    | inl more ↦
        rw (more, sym (h.counted))
          (elim (Bool-cases (ltb n (a.capacity))) [
            | inl fits ↦ rw fits (
                returns (
                  fill-Holds (n - a.size) n (a.capacity) v a xs h (ground (arith, more, h.counted))
                    (ground (arith, fits))))
            | inr full ↦ rw full (
                returns (
                  fill-Holds (n - a.size) n n v a xs h (ground (arith, more, h.counted))
                    (omega arith)))
          ])
    | inr enough ↦
        (let none_new : n - length xs ≡ 0 = ground (arith, enough, h.counted) in
          rw (enough, none_new) (returns (subst (Holds a) (sym (append-nil xs)) h)))
  ]
