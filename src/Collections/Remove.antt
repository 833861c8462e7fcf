-- ===== src/Collections/Remove.antt =====
-- `Array::remove`: it saves the elements behind the index in a second array, and pushes them again.
use lralloc_rs.Common.{
  ℕ, zero, suc, ◌+◌, ◌-◌, ◌<◌, ◌≡◌, refl, sym, ap, ◌∙◌, true, false, some, List, [], ◌∷◌, ◌++◌,
  length, length-append, get_elem?, ltb, leb, arith, Returns, returns, Bool-cases, inl, inr, bind,
}
use mathlib.Core.List.{reverse, reverse_aux, append_assoc, append-nil}
use mathlib.Core.Path.{subst}
use mathlib.Core.Option.{some-injective}
use lralloc_rs.Collections.{Array, new_array, pop, reverse_array, save, push_saved, remove}
use lralloc_rs.Collections.Slots.{Holds, get_elem?-front, get_elem?-last, push-Holds, pop-Holds}

module _ {A : Type 0} where
  reverse_aux-append : (xs r : List A) → reverse_aux xs r ≡ reverse xs ++ r
  reverse_aux-append [] r = refl
  reverse_aux-append (x ∷ xs) r =
      reverse_aux-append xs (x ∷ r)
      ∙ sym (append_assoc (reverse xs) (x ∷ []) r)
      ∙ ap (λ (l : List A). l ++ r) (sym (reverse_aux-append xs (x ∷ [])))

  reverse-cons : (x : A) (xs : List A) → reverse (x ∷ xs) ≡ reverse xs ++ x ∷ []
  reverse-cons x xs = reverse_aux-append xs (x ∷ [])

  reverse-reverse_aux : (xs r : List A) → reverse (reverse_aux xs r) ≡ reverse_aux r xs
  reverse-reverse_aux [] r = refl
  reverse-reverse_aux (x ∷ xs) r = reverse-reverse_aux xs (x ∷ r)

  length-reverse : (xs : List A) → length (reverse xs) ≡ length xs
  length-reverse [] = refl
  length-reverse (x ∷ xs) =
      ap length (reverse-cons x xs)
      ∙ omega (arith, length-append (reverse xs) (x ∷ []), length-reverse xs)

  get_elem?-reverse :
      (xs : List A) (i : ℕ)
      → i < length xs
      → get_elem? (reverse xs) i ≡ get_elem? xs (length xs - 1 - i)
  get_elem?-reverse [] i h = absurd (omega arith)
  get_elem?-reverse (x ∷ xs) i h =
      let n = length-reverse xs in
      ap (λ (l : List A). get_elem? l i) (reverse-cons x xs)
      ∙ elim (Bool-cases (ltb i (length xs))) [
        | inl front ↦
            (let next : suc (length xs) - 1 - i ≡ suc (length xs - 1 - i) = ground arith in
              get_elem?-front (reverse xs) (x ∷ []) i (ground (arith, n))
              ∙ get_elem?-reverse xs i (ground arith)
              ∙ sym (ap (get_elem? (x ∷ xs)) next))
        | inr last ↦
            (let e : i ≡ length (reverse xs) = ground (arith, n) in
              let z : suc (length xs) - 1 - i ≡ zero = ground (arith, n) in
              ap (get_elem? (reverse xs ++ x ∷ [])) e
              ∙ get_elem?-last (reverse xs) x
              ∙ sym (ap (get_elem? (x ∷ xs)) z))
      ]

  -- The reversed array holds the reversed list.
  reverse-Holds : (a : Array A) (xs : List A) → Holds a xs → Holds (reverse_array a) (reverse xs)
  unfolding reverse_array
  reverse-Holds a xs h = record {
    counted = h.counted ∙ sym (length-reverse xs);
    room = h.room;
    at = λ i q.
        let inside : i < length xs = omega (arith, length-reverse xs) in
        let here : ltb i (a.size) ≡ true = ground (arith, h.counted) in
        rw here (
          get_elem?-reverse xs i inside
          ∙ h.at (length xs - 1 - i) (omega arith)
          ∙ ap (λ (n : ℕ). some (a.slots (n - 1 - i))) (sym h.counted));
  }

  -- Saving moves the last elements over, the last one first.
  save-Holds :
      (ws : List A) (a saved : Array A) (xs zs : List A)
      → Holds a (xs ++ reverse ws)
      → Holds saved zs
      → Returns (λ r. Holds r.0 xs × Holds r.1 (zs ++ ws)) (save true (length ws) a saved)
  unfolding save
  save-Holds [] a saved xs zs h g =
      returns (subst (Holds a) (append-nil xs) h, subst (Holds saved) (sym (append-nil zs)) g)
  save-Holds (w ∷ ws) a saved xs zs h g =
      let assoc : xs ++ reverse (w ∷ ws) ≡ (xs ++ reverse ws) ++ w ∷ [] =
        ap (λ (l : List A). xs ++ l) (reverse-cons w ws)
        ∙ sym (append_assoc xs (reverse ws) (w ∷ [])) in
      let (val, rest) = pop-Holds w a (xs ++ reverse ws) (subst (Holds a) assoc h) in
      rw val (
        bind (push-Holds w saved zs g) (λ saved' g'.
          subst
            (λ (l : List A).
              Returns (λ r. Holds r.0 xs × Holds r.1 l) (save true (length ws) (pop a).1 saved'))
            (append_assoc zs (w ∷ []) ws)
            (save-Holds ws (pop a).1 saved' xs (zs ++ w ∷ []) rest g')))

  get_elem?-mid : (ys ws : List A) (w : A) → get_elem? (ys ++ w ∷ ws) (length ys) ≡ some w
  get_elem?-mid [] ws w = refl
  get_elem?-mid (y ∷ ys) ws w = get_elem?-mid ys ws w

  -- Pushing the saved elements from an index on puts them at the end, in their order.
  push_saved-Holds :
      (ws : List A) (a saved : Array A) (xs ys : List A)
      → Holds a xs
      → Holds saved (ys ++ ws)
      → Returns (λ a'. Holds a' (xs ++ ws)) (push_saved true (length ws) (length ys) saved a)
  unfolding push_saved
  push_saved-Holds [] a saved xs ys h g = returns (subst (Holds a) (sym (append-nil xs)) h)
  push_saved-Holds (w ∷ ws) a saved xs ys h g =
      let n = length-append ys (w ∷ ws) in
      let val : saved.slots (length ys) ≡ w =
        some-injective (saved.slots (length ys)) w
          (sym (g.at (length ys) (omega (arith, n))) ∙ get_elem?-mid ys ws w) in
      let next : length (ys ++ w ∷ []) ≡ length ys + 1 = length-append ys (w ∷ []) in
      rw val (
        bind (push-Holds w a xs h) (λ a' h'. rw (sym next) (
          subst
            (λ (l : List A).
              Returns (λ r. Holds r l)
                (push_saved true (length ws) (length (ys ++ w ∷ [])) saved a'))
            (append_assoc xs (w ∷ []) ws)
            (push_saved-Holds ws a' saved (xs ++ w ∷ []) (ys ++ w ∷ []) h'
              (subst (Holds saved) (sym (append_assoc ys (w ∷ []) ws)) g)))))

  push_all-Holds :
      (ws : List A) (a saved : Array A) (xs : List A)
      → Holds a xs
      → Holds saved ws
      → Returns (λ a'. Holds a' (xs ++ ws)) (push_saved true (saved.size) 0 saved a)
  push_all-Holds ws a saved xs h g =
      subst (λ (n : ℕ). Returns (λ a'. Holds a' (xs ++ ws)) (push_saved true n 0 saved a))
        (sym (g.counted)) (push_saved-Holds ws a saved xs [] h g)

  -- Where memory is granted, removing at an index in use returns the element there, and leaves an
  -- array that holds the others in their order.
  pub remove-Holds :
      (memory : ℕ → A) (xs ws : List A) (v : A) (a : Array A)
      → Holds a (xs ++ v ∷ ws)
      → Returns (λ r. (r.0 ≡ some v) × Holds r.1 (xs ++ ws)) (remove true memory (length xs) a)
  unfolding remove
  remove-Holds memory xs ws v a h =
      let n = length-append xs (v ∷ ws) in
      let inside : leb (a.size) (length xs) ≡ false = ground (arith, h.counted, n) in
      let behind : a.size - length xs - 1 ≡ length (reverse ws) =
        omega (arith, h.counted, n, length-reverse ws) in
      let start : Holds (new_array memory) [] = record {
        counted = refl;
        room = omega arith;
        at = λ i q. absurd (omega arith);
      } in
      let cut : Holds a ((xs ++ v ∷ []) ++ reverse (reverse ws)) =
        subst (Holds a)
          (ap (λ (l : List A). xs ++ v ∷ l) (sym (reverse-reverse_aux ws []))
            ∙ sym (append_assoc xs (v ∷ []) (reverse (reverse ws))))
          h in
      rw (inside, behind)
        (bind (save-Holds (reverse ws) a (new_array memory) (xs ++ v ∷ []) [] cut start) (λ r g.
          let (val, rest) = pop-Holds v r.0 xs g.0 in
          let back : Holds (reverse_array r.1) ws =
            subst (Holds (reverse_array r.1)) (reverse-reverse_aux ws [])
              (reverse-Holds r.1 (reverse ws) g.1) in
          bind (push_all-Holds ws (pop r.0).1 (reverse_array r.1) xs rest back)
            (λ a2 g2. returns (val, g2))))
