-- ===== src/Collections/Slots.antt =====
-- An array holds a list.
use lralloc_rs.Common.{
  ℕ, zero, suc, ◌+◌, ◌-◌, ◌*◌, ◌≤◌, ◌<◌, ◌≡◌, refl, sym, ap, ◌∙◌, true, false, some, List, [], ◌∷◌,
  ◌++◌, length, length-append, get_elem?, ltb, ltb-false, leb, ◌==◌, update, arith, Returns,
  returns, Bool-cases, inl, inr,
}
use lralloc_rs.Collections.{Array, reserve_slots, push, pop}

module _ {A : Type 0} where
  pub record Holds (a : Array A) (xs : List A) : Type 0 where
    pub counted : a.size ≡ length xs
    pub room : a.size ≤ a.capacity
    pub at : (i : ℕ) → i < length xs → get_elem? xs i ≡ some (a.slots i)

  pub get_elem?-front :
      (xs ys : List A) (i : ℕ) → i < length xs → get_elem? (xs ++ ys) i ≡ get_elem? xs i
  get_elem?-front [] ys i h = absurd (omega arith)
  get_elem?-front (x ∷ xs) ys zero h = refl
  get_elem?-front (x ∷ xs) ys (suc i) h = get_elem?-front xs ys i (omega arith)

  pub get_elem?-last : (xs : List A) (v : A) → get_elem? (xs ++ v ∷ []) (length xs) ≡ some v
  get_elem?-last [] v = refl
  get_elem?-last (x ∷ xs) v = get_elem?-last xs v

  -- writing behind the last slot in use
  write-Holds :
      (v : A) (a : Array A) (xs : List A) (c : ℕ)
      → Holds a xs
      → a.size < c
      → Holds
          record { size = a.size + 1; capacity = c; slots = update (a.slots) (a.size) v }
          (xs ++ v ∷ [])
  write-Holds v a xs c h space =
      let n = length-append xs (v ∷ []) in
      record {
        counted = omega (arith, h.counted, n);
        room = omega arith;
        at = λ i q. elim (Bool-cases (i == a.size)) [
          | inl here ↦
              (let e : i ≡ length xs = ground (arith, h.counted, here) in
                rw here (ap (get_elem? (xs ++ v ∷ [])) e ∙ get_elem?-last xs v))
          | inr other ↦
              (let l : i < length xs = ground (arith, h.counted, other, n) in
                rw other (get_elem?-front xs (v ∷ []) i l ∙ h.at i l))
        ];
      }

  -- Where memory is granted, push returns, and adds an element at the end of what the array holds,
  -- also when it grows.
  pub push-Holds :
      (v : A) (a : Array A) (xs : List A)
      → Holds a xs
      → Returns (λ a'. Holds a' (xs ++ v ∷ [])) (push true v a)
  unfolding push reserve_slots
  push-Holds v a xs h = elim (Bool-cases (leb (a.capacity) (a.size))) [
    | inr room ↦ rw room (returns (write-Holds v a xs (a.capacity) h (ground arith)))
    | inl full ↦ rw full (elim (Bool-cases (ltb 0 (a.size))) [
      | inl some_left ↦
          rw (some_left, ltb-false (a.size * 2) (a.capacity) (ground (arith, h.room)))
            (returns (write-Holds v a xs (a.size * 2) h (ground arith)))
      | inr none_left ↦
          rw (none_left, ltb-false 1 (a.capacity) (ground (arith, h.room)))
            (returns (write-Holds v a xs 1 h (ground arith)))
    ])
  ]

  -- `pop` of an array that is not empty returns the last element, and leaves the others.
  pub pop-Holds :
      (v : A) (a : Array A) (xs : List A)
      → Holds a (xs ++ v ∷ [])
      → ((pop a).0 ≡ some v) × Holds (pop a).1 xs
  unfolding pop
  pop-Holds v a xs h =
      let n = length-append xs (v ∷ []) in
      let some_left : (a.size == 0) ≡ false = ground (arith, h.counted, n) in
      let last : a.size - 1 ≡ length xs = omega (arith, h.counted, n) in
      rw some_left (
        ap (λ (t : ℕ). some (a.slots t)) last
            ∙ sym (h.at (length xs) (omega (arith, n)))
            ∙ get_elem?-last xs v,
        record {
          counted = last;
          room = omega (arith, h.room);
          at = λ i q. sym (get_elem?-front xs (v ∷ []) i q) ∙ h.at i (omega (arith, n));
        },
      )
