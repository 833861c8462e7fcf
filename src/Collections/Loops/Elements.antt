-- ===== src/Collections/Loops/Elements.antt =====
-- The elements of an array in their order: what iterating, cloning and comparing do.
use lralloc_rs.Common.{
  ℕ, zero, suc, ◌+◌, leb, ◌≤◌, ◌<◌, ◌≡◌, ◌↔◌, refl, sym, ap, ap₂, ◌∙◌, Bool, true, false, none,
  some, List, [], ◌∷◌, length, get_elem?, ◌==◌, arith, Returns, Bool-cases, inl, inr,
}
use mathlib.Core.Path.{subst}
use lralloc_rs.Collections.{Array, new_array}
use lralloc_rs.Collections.Loops.Filled.{collect-Holds}
use lralloc_rs.Collections.Slots.{Holds}
use lralloc_rs.Collections.Loops.{
  collect, elements, ArrayIterator, next, yields, clone_array, same_slots, equal_arrays,
}

module _ {A : Type 0} where
  -- What `iter` yields is what the array holds.
  elements-Holds :
      (xs : List A) (i : ℕ) (slots : ℕ → A)
      → ((j : ℕ) → j < length xs → get_elem? xs j ≡ some (slots (i + j)))
      → elements (length xs) i slots ≡ xs
  unfolding elements
  elements-Holds [] i slots at = refl
  elements-Holds (x ∷ xs) i slots at =
      let here : some x ≡ some (slots i) =
        at 0 (omega arith) ∙ ap (λ (t : ℕ). some (slots t)) (omega arith) in
      let first : slots i ≡ x = cc in
      ap₂ (λ y ys. y ∷ ys) first
        (elements-Holds xs (i + 1) slots
          λ j q. at (suc j) (omega arith) ∙ ap (λ (t : ℕ). some (slots t)) (omega arith))

  held-elements : (a : Array A) (xs : List A) → Holds a xs → elements (a.size) 0 (a.slots) ≡ xs
  held-elements a xs h =
      ap (λ n. elements n 0 (a.slots)) (h.counted)
      ∙ elements-Holds xs 0 (a.slots)
          λ j q. h.at j q ∙ ap (λ (t : ℕ). some (a.slots t)) (omega arith)

  next-done : (it : ArrayIterator A) → it.array.size ≤ it.index → next it ≡ (none, it)
  unfolding next
  next-done it h = let done : leb (it.array.size) (it.index) ≡ true = ground arith in rw done refl

  next-more :
      (it : ArrayIterator A)
      → it.index < it.array.size
      → next it ≡ (some (it.array.slots (it.index)), record it { index = it.index + 1 })
  unfolding next
  next-more it h = let more : leb (it.array.size) (it.index) ≡ false = ground arith in rw more refl

  -- With fuel for one round more than there are elements, an iterator over the rest of an array yields
  -- the elements of its slots.
  yields-elements :
      (n fuel : ℕ) (it : ArrayIterator A)
      → n < fuel
      → it.index + n ≡ it.array.size
      → yields fuel it ≡ elements n (it.index) (it.array.slots)
  unfolding yields elements
  yields-elements n zero it f h = absurd (omega arith)
  yields-elements zero (suc fuel) it f h = rw (yields, next-done it (omega (arith, h))) refl
  yields-elements (suc n) (suc fuel) it f h =
      let e = next-more it (omega (arith, h)) in
      let value = it.array.slots (it.index) in
      rw (yields, e)
        (ap (λ r. value ∷ yields fuel (r.1)) e
          ∙ ap (λ vs. value ∷ vs)
              (yields-elements n fuel (record it { index = it.index + 1 }) (omega arith)
                (omega (arith, h))))

  -- What an iterator over an array yields is what the array holds.
  pub yields-Holds :
      (a : Array A) (xs : List A)
      → Holds a xs
      → yields (suc (a.size)) (record { index = 0; array = a }) ≡ xs
  yields-Holds a xs h =
      yields-elements (a.size) (suc (a.size)) (record { index = 0; array = a }) (omega arith)
        (omega arith)
      ∙ held-elements a xs h

  pub clone_array-Holds :
      (memory : ℕ → A) (a : Array A) (xs : List A)
      → Holds a xs
      → Returns (λ b. Holds b xs) (clone_array true memory a)
  unfolding clone_array
  clone_array-Holds memory a xs h =
      subst (λ ys. Returns (λ b. Holds b xs) (collect true ys (new_array memory)))
        (sym (held-elements a xs h)) (collect-Holds memory xs)

  same_slots_iff :
      (eq : A → A → Bool)
      → ((x y : A) → (eq x y ≡ true) ↔ (x ≡ y))
      → (n i : ℕ) (slots other : ℕ → A)
      → (same_slots eq n i slots other ≡ true) ↔ (elements n i slots ≡ elements n i other)
  unfolding same_slots elements
  same_slots_iff eq lawful zero i slots other = (λ e. refl, λ e. refl)
  same_slots_iff eq lawful (suc n) i slots other =
      let rest = same_slots_iff eq lawful n (i + 1) slots other in
      elim (Bool-cases (eq (slots i) (other i))) [
        | inl same ↦ rw same (
          λ e. ap₂ (λ x xs. x ∷ xs) ((lawful (slots i) (other i)).0 same) (rest.0 e),
          λ e. rest.1 cc,
        )
        | inr differ ↦ rw differ (
          λ e. absurd (ground arith),
          λ e.
              let here : slots i ≡ other i = cc in
              let answer = (lawful (slots i) (other i)).1 here in
              absurd (ground (arith, answer, differ)),
        )
      ]

  -- Of arrays that hold lists, eq answers true exactly if the lists are the same, for an equality
  -- of elements that does so.
  pub equal_arrays_iff :
      (eq : A → A → Bool)
      → ((x y : A) → (eq x y ≡ true) ↔ (x ≡ y))
      → (a b : Array A) (xs ys : List A) → Holds a xs
      → Holds b ys
      → (equal_arrays eq a b ≡ true) ↔ (xs ≡ ys)
  unfolding equal_arrays
  equal_arrays_iff eq lawful a b xs ys g h =
      let e = same_slots_iff eq lawful (a.size) 0 (a.slots) (b.slots) in
      let first = held-elements a xs g in
      let second = held-elements b ys h in
      elim (Bool-cases (a.size == b.size)) [
        | inl same ↦
            (let sizes : a.size ≡ b.size = ground (arith, same) in
              let both : elements (a.size) 0 (b.slots) ≡ ys =
                ap (λ n. elements n 0 (b.slots)) sizes ∙ second in
              rw same (λ t. sym first ∙ e.0 t ∙ both, λ q. e.1 (first ∙ q ∙ sym both)))
        | inr differ ↦ rw differ (
          λ t. absurd (ground arith),
          λ q.
              let lengths = ap length q in
              absurd (ground (arith, differ, lengths, g.counted, h.counted)),
        )
      ]
