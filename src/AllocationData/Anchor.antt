-- ===== src/AllocationData/Anchor.antt =====
-- The laws of the anchor's fields.
use lralloc_rs.Common.{ℕ, ◌%◌, ◌^◌, ◌<◌, ◌≡◌, sym, ap, ◌∙◌, true, arith, returned, ◌↔◌}
use lralloc_rs.AllocationData.{
  SuperBlockState, full, partial, empty, state, set_state, avail, set_avail, count, set_count,
  anchor_eq, into_bits,
}

-- The fields of an anchor.
pub record Fields (a : ℕ) (s : SuperBlockState) (v n : ℕ) : Type 0 where
  pub word : a < 2 ^ 64
  pub state_is : state a ≡ returned s
  pub avail_is : avail a ≡ v
  pub count_is : count a ≡ n

state_of_bits : (a : ℕ) (t : SuperBlockState) → a % 4 ≡ into_bits t → state a ≡ returned t
unfolding state
state_of_bits a full h = rw h
state_of_bits a partial h = rw h
state_of_bits a empty h = rw h

into_bits-lt : (t : SuperBlockState) → into_bits t < 4
into_bits-lt full = omega arith
into_bits-lt partial = omega arith
into_bits-lt empty = omega arith

module _ {a v n : ℕ} {s : SuperBlockState} (f : Fields a s v n) where
  -- `set_state` writes the state and keeps the two other fields.
  pub set_state-Fields : (t : SuperBlockState) → Fields (set_state t a) t v n
  unfolding state set_state avail count
  set_state-Fields t = record {
    word = omega (arith, f.word, into_bits-lt t);
    state_is = state_of_bits (set_state t a) t (omega (arith, into_bits-lt t));
    avail_is = omega (arith, f.avail_is, into_bits-lt t);
    count_is = omega (arith, f.count_is, into_bits-lt t);
  }

  -- For an anchor with known fields, set_avail writes the low 30 bits of its argument to its field
  -- and keeps the state and the count.
  pub set_avail-Fields : (w : ℕ) → Fields (set_avail w a) s (w % 2 ^ 30) n
  unfolding state set_avail avail count
  set_avail-Fields w =
      let low : set_avail w a % 4 ≡ a % 4 = omega arith in
      record {
        word = omega (arith, f.word);
        state_is = rw low f.state_is;
        avail_is = omega arith;
        count_is = omega (arith, f.count_is, f.word);
      }

  -- `set_count` writes the low 32 bits of its argument and keeps the two other fields.
  pub set_count-Fields : (m : ℕ) → Fields (set_count m a) s v (m % 2 ^ 32)
  unfolding state set_count avail count
  set_count-Fields m =
      let low : set_count m a % 4 ≡ a % 4 = omega arith in
      record {
        word = omega arith;
        state_is = rw low f.state_is;
        avail_is = omega (arith, f.avail_is);
        count_is = omega arith;
      }

bits_of_state : (a : ℕ) (t : SuperBlockState) → state a ≡ returned t → a % 4 ≡ into_bits t
unfolding state
bits_of_state a full h = ground arith
bits_of_state a partial h = ground arith
bits_of_state a empty h = ground arith

-- A word is its three fields.
word_eq :
    (a b : ℕ)
    → a < 2 ^ 64
    → b < 2 ^ 64
    → a % 4 ≡ b % 4
    → avail a ≡ avail b
    → count a ≡ count b
    → a ≡ b
unfolding avail count
word_eq a b p q low mid high = omega arith

-- For anchors in valid states, comparing field by field does not panic, and it is true exactly of
-- equal words.
pub anchor_eq_iff :
    (a b : ℕ) (s t : SuperBlockState)
    → a < 2 ^ 64
    → b < 2 ^ 64
    → state a ≡ returned s
    → state b ≡ returned t
    → (anchor_eq a b ≡ returned true) ↔ (a ≡ b)
unfolding anchor_eq
anchor_eq_iff a b s t p q hs ht = (
  rw (hs, ht)
      (λ h.
        word_eq a b p q (ground (arith, bits_of_state a s hs, bits_of_state b t ht)) (ground arith)
          (ground arith)),
  λ e.
      let same : into_bits s ≡ into_bits t =
        sym (bits_of_state a s hs) ∙ ap (λ (x : ℕ). x % 4) e ∙ bits_of_state b t ht in
      rw (hs, ht) (ground (arith, same, ap avail e, ap count e)),
)
