-- ===== src/Collections/Deque/Window.antt =====
-- A deque holds a list.
use lralloc_rs.Common.{
  ℕ, zero, suc, ◌+◌, ◌-◌, ◌*◌, ◌/◌, ◌≤◌, ◌<◌, ◌≡◌, refl, sym, ap, ◌∙◌, true, false, some, none,
  List, [], ◌∷◌, ◌++◌, length, length-append, get_elem?, ltb, ltb-false, ◌==◌, update, arith,
  Returns, returned, returns, bind, Bool-cases, inl, inr, if◌then◌else◌,
}
use lralloc_rs.Collections.Slots.{get_elem?-front, get_elem?-last}
use lralloc_rs.Collections.Deque.{
  ArrayDeque, grow_back, grow_front, deque_len, push_back, push_front, centered, pop_front,
  pop_back,
}

-- the capacity that `grow_back` asks for
abbrev grown : ℕ → ℕ
grown c = if c * 2 == 0 then 1 else c * 2

double-le-grown : (c : ℕ) → c * 2 ≤ grown c
double-le-grown c = ground arith

lt-grown : (c : ℕ) → c < grown c
lt-grown c = ground arith

module _ {A : Type 0} where
  pub record Window (d : ArrayDeque A) (xs : List A) : Type 0 where
    pub spans : d.end ≡ d.start + length xs
    pub room : d.end ≤ d.capacity
    pub at : (i : ℕ) → i < length xs → get_elem? xs i ≡ some (d.slots (d.start + i))

  -- an empty window
  empty-Window : (d : ArrayDeque A) → d.end ≡ d.start → d.end ≤ d.capacity → Window d []
  empty-Window d h room = record {
    spans = omega (arith, h);
    room = room;
    at = λ i q. absurd (omega arith);
  }

  centered-Window : (d : ArrayDeque A) (xs : List A) → Window d xs → Window (centered d) xs
  unfolding centered
  centered-Window d [] h =
      let gone : (d.start == d.end) ≡ true = ground (arith, h.spans) in
      rw gone (
        empty-Window (record d { start = d.capacity / 2; end = d.capacity / 2 }) refl (omega arith))
  centered-Window d (x ∷ xs) h =
      let some_left : (d.start == d.end) ≡ false = ground (arith, h.spans) in rw some_left h

  -- writing behind the window
  write_back-Window :
      (v : A) (d : ArrayDeque A) (xs : List A)
      → Window d xs
      → d.end < d.capacity
      → Window (record d { slots = update (d.slots) (d.end) v; end = d.end + 1 }) (xs ++ v ∷ [])
  write_back-Window v d xs h space =
      let n = length-append xs (v ∷ []) in
      record {
        spans = omega (arith, h.spans, n);
        room = omega arith;
        at = λ i q. elim (Bool-cases (d.start + i == d.end)) [
          | inl here ↦
              (let e : i ≡ length xs = ground (arith, h.spans, here) in
                rw here (ap (get_elem? (xs ++ v ∷ [])) e ∙ get_elem?-last xs v))
          | inr other ↦
              (let l : i < length xs = ground (arith, h.spans, other, n) in
                rw other (get_elem?-front xs (v ∷ []) i l ∙ h.at i l))
        ];
      }

  -- writing before the window
  write_front-Window :
      (v : A) (d : ArrayDeque A) (xs : List A)
      → Window d xs
      → 0 < d.start
      → Window (record d { slots = update (d.slots) (d.start - 1) v; start = d.start - 1 }) (v ∷ xs)
  write_front-Window v d xs h space = record {
    spans = omega (arith, h.spans);
    room = h.room;
    at = at_shifted;
  }
    where
      at_shifted :
          (i : ℕ)
          → i < length (v ∷ xs)
          → get_elem? (v ∷ xs) i ≡ some (update (d.slots) (d.start - 1) v (d.start - 1 + i))
      at_shifted zero q =
          let here : (d.start - 1 + 0 == d.start - 1) ≡ true = ground arith in rw here refl
      at_shifted (suc i) q =
          let behind : (d.start - 1 + suc i == d.start - 1) ≡ false = ground arith in
          rw behind (h.at i (omega arith) ∙ ap (λ (t : ℕ). some (d.slots t)) (omega arith))

  grow_back-granted :
      (d : ArrayDeque A) → grow_back true d ≡ returned (record d { capacity = grown (d.capacity) })
  unfolding grow_back
  grow_back-granted d =
      rw (ltb-false (grown (d.capacity)) (d.capacity) (omega (arith, lt-grown (d.capacity)))) refl

  -- a copy of the first `c` slots behind them
  abbrev copied : ℕ → (ℕ → A) → ℕ → A
  copied c slots i = if ltb i c then slots i else (if ltb i (c * 2) then slots (i - c) else slots i)

  copied-behind : (c : ℕ) (slots : ℕ → A) (i : ℕ) → i < c → copied c slots (c + i) ≡ slots i
  copied-behind c slots i q =
      let behind : ltb (c + i) c ≡ false = ground arith in
      let within : ltb (c + i) (c * 2) ≡ true = ground arith in
      rw (behind, within) (ap slots (omega arith))

  grow_front-Window :
      (d : ArrayDeque A) (x : A) (xs : List A)
      → Window d (x ∷ xs)
      → d.start ≡ 0
      → Returns (λ d'. Window d' (x ∷ xs) × (0 < d'.start)) (grow_front true d)
  unfolding grow_front
  grow_front-Window d x xs h first =
      let enough = double-le-grown (d.capacity) in
      rw (grow_back-granted d) (
        returns (
          record {
            spans = omega (arith, h.spans, first);
            room = omega (arith, h.room, enough);
            at = λ i q.
                h.at i q
                ∙ ap (λ (t : ℕ). some (d.slots t)) (omega (arith, first))
                ∙ ap some
                    (sym (copied-behind (d.capacity) (d.slots) i (omega (arith, h.spans, h.room))));
          },
          omega (arith, h.spans, h.room),
        ))

  -- Where memory is granted, `push_back` adds an element at the end.
  pub push_back-Window :
      (v : A) (d : ArrayDeque A) (xs : List A)
      → Window d xs
      → Returns (λ d'. Window d' (xs ++ v ∷ [])) (push_back true v d)
  unfolding push_back
  push_back-Window v d xs h = elim (Bool-cases (d.end == d.capacity)) [
    | inl full ↦
        (let more = lt-grown (d.capacity) in
          rw (full, grow_back-granted d)
            (returns (
              write_back-Window v (record d { capacity = grown (d.capacity) }) xs
                (record { spans = h.spans; room = omega (arith, h.room, more); at = h.at })
                (omega (arith, h.room, more)))))
    | inr space ↦ rw space (returns (write_back-Window v d xs h (ground (arith, h.room))))
  ]

  -- Where memory is granted, `push_front` adds an element at the front.
  pub push_front-Window :
      (v : A) (d : ArrayDeque A) (xs : List A)
      → Window d xs
      → Returns (λ d'. Window d' (v ∷ xs)) (push_front true v d)
  unfolding push_front deque_len
  push_front-Window v d [] h =
      let gone : (d.end - d.start == 0) ≡ true = ground (arith, h.spans) in
      rw gone (push_back-Window v d [] h)
  push_front-Window v d (x ∷ xs) h =
      let some_left : (d.end - d.start == 0) ≡ false = ground (arith, h.spans) in
      rw some_left (elim (Bool-cases (d.start == 0)) [
        | inl first ↦ rw first (
            bind (grow_front-Window d x xs h (ground arith))
              λ d' r. returns (write_front-Window v d' (x ∷ xs) r.0 r.1))
        | inr space ↦ rw space (returns (write_front-Window v d (x ∷ xs) h (ground arith)))
      ])

  -- `pop_front` takes the first element.
  pub pop_front-Window :
      (d : ArrayDeque A) (x : A) (xs : List A)
      → Window d (x ∷ xs)
      → ((pop_front d).0 ≡ some x) × Window (pop_front d).1 xs
  unfolding pop_front
  pop_front-Window d x xs h =
      let some_left : (d.start == d.end) ≡ false = ground (arith, h.spans) in
      rw some_left (
        ap (λ (t : ℕ). some (d.slots t)) (omega arith) ∙ sym (h.at 0 (omega arith)),
        centered-Window (record d { start = d.start + 1 }) xs
            (record {
              spans = omega (arith, h.spans);
              room = h.room;
              at = λ i q.
                  h.at (suc i) (omega arith) ∙ ap (λ (t : ℕ). some (d.slots t)) (omega arith);
            }),
      )

  pub pop_front-empty : (d : ArrayDeque A) → Window d [] → pop_front d ≡ (none, d)
  unfolding pop_front
  pop_front-empty d h =
      let gone : (d.start == d.end) ≡ true = ground (arith, h.spans) in rw gone refl

  -- Of a deque that is not empty pop_back takes the last element away, but it returns what the slot
  -- behind the window holds, not the element.
  pub pop_back-Window :
      (d : ArrayDeque A) (v : A) (xs : List A)
      → Window d (xs ++ v ∷ [])
      → ((pop_back d).0 ≡ some (d.slots (d.end))) × Window (pop_back d).1 xs
  unfolding pop_back
  pop_back-Window d v xs h =
      let n = length-append xs (v ∷ []) in
      let some_left : (d.start == d.end) ≡ false = ground (arith, h.spans, n) in
      rw some_left (
        refl,
        centered-Window (record d { end = d.end - 1 }) xs
            (record {
              spans = omega (arith, h.spans, n);
              room = omega (arith, h.room);
              at = λ i q. sym (get_elem?-front xs (v ∷ []) i q) ∙ h.at i (omega (arith, n));
            }),
      )
