-- ===== src/Collections/Loops/Bits.antt =====
-- The bits of an Array<u8>: what set_bit does to get_bit.
use lralloc_rs.Common.{
  ℕ, zero, suc, ◌-◌, ◌*◌, ◌/◌, ◌%◌, ◌^◌, ◌≤◌, ◌<◌, ◌≡◌, refl, sym, ap, ◌∙◌, Bool, true, false, ◌&&◌,
  not, some, ltb, leb, ◌==◌, if◌then◌else◌, arith, Returns, returns, Bool-cases, inl, inr, bit_and,
  bit_or,
}
use lralloc_rs.Collections.{Array, get_slot}
use lralloc_rs.Collections.Loops.{byte_index, has_bit, write_bit, get_bit, set_bit}

-- a test of every number below a bound
unfoldable all_below : ℕ → (ℕ → Bool) → Bool
all_below zero p = true
all_below (suc n) p = p n && all_below n p

all_below-at : (n i : ℕ) (p : ℕ → Bool) → all_below n p ≡ true → i < n → p i ≡ true
unfolding all_below
all_below-at zero i p h q = absurd (omega arith)
all_below-at (suc n) i p h q = elim (Bool-cases (i == n)) [
  | inl last ↦ (let e : i ≡ n = ground (arith, last) in ap p e ∙ ground (arith, h))
  | inr other ↦ all_below-at n i p (ground (arith, h)) (ground (arith, other))
]

abbrev agree : Bool → Bool → Bool
agree true q = q
agree false q = not q

agree-eq : (p q : Bool) → agree p q ≡ true → p ≡ q
agree-eq true true h = refl
agree-eq true false h = sym h
agree-eq false true h = h
agree-eq false false h = refl

-- what one bit of a byte is after another was written, and that the byte stays one
abbrev kept : Bool → ℕ → ℕ → ℕ → Bool
kept bit y k l =
    agree (has_bit l (write_bit k bit y)) (if k == l then bit else has_bit l y)
    && ltb (write_bit k bit y) 256

all_kept :
    (bit : Bool) → all_below 256 (λ y. all_below 8 λ k. all_below 8 λ l. kept bit y k l) ≡ true
unfolding all_below has_bit write_bit
all_kept true = refl
all_kept false = refl

byte_kept : (bit : Bool) (y k l : ℕ) → y < 256 → k < 8 → l < 8 → kept bit y k l ≡ true
byte_kept bit y k l hy hk hl =
    all_below-at 8 l (kept bit y k)
      (all_below-at 8 k (λ k'. all_below 8 (kept bit y k'))
        (all_below-at 256 y (λ y'. all_below 8 λ k'. all_below 8 (kept bit y' k')) (all_kept bit)
          hy)
        hk)
      hl

-- A shift counts its places modulo 8.
has_bit-wraps : (k y : ℕ) → has_bit k y ≡ has_bit (k % 8) y
unfolding has_bit
has_bit-wraps k y = ap (λ (t : ℕ). not (bit_and y (2 ^ t) == 0)) (omega arith)

write_bit-wraps : (k : ℕ) (bit : Bool) (y : ℕ) → write_bit k bit y ≡ write_bit (k % 8) bit y
unfolding write_bit
write_bit-wraps k bit y =
    ap (λ (t : ℕ). bit_or (bit_and y (255 - 2 ^ t)) ((if bit then 1 else 0) * 2 ^ t)) (omega arith)

has_bit-write_bit :
    (bit : Bool) (y k l : ℕ)
    → y < 256
    → has_bit l (write_bit k bit y) ≡ (if k % 8 == l % 8 then bit else has_bit l y)
has_bit-write_bit bit y k l hy =
    let h = byte_kept bit y (k % 8) (l % 8) hy (omega arith) (omega arith) in
    rw (write_bit-wraps k bit y, has_bit-wraps l (write_bit (k % 8) bit y), has_bit-wraps l y)
      (agree-eq _ _ (ground (arith, h)))

write_bit-lt : (bit : Bool) (y k : ℕ) → y < 256 → write_bit k bit y < 256
write_bit-lt bit y k hy =
    let h = byte_kept bit y (k % 8) 0 hy (omega arith) (omega arith) in
    rw (write_bit-wraps k bit y) (ground (arith, h))

-- In an array of at least 8 bytes set_bit sets the bit at its index and all those whose index is
-- the same modulo 64; it keeps all others and the length, and bytes stay bytes.
pub set_bit-Writes :
    (bit_index : ℕ) (bit : Bool) (a : Array ℕ)
    → 8 ≤ a.size
    → ((i : ℕ) → i < a.size → a.slots i < 256)
    → Returns
        (λ b.
          ((other : ℕ)
            → get_bit other b
              ≡ (if other % 64 == bit_index % 64 then some bit else get_bit other a))
          × ((i : ℕ) → i < b.size → b.slots i < 256)
          × (b.size ≡ a.size))
        (set_bit bit_index bit a)
unfolding set_bit get_bit byte_index get_slot
set_bit-Writes bit_index bit a room bytes =
    let inside : leb (a.size) (bit_index % 8) ≡ false = ground arith in
    let byte = a.slots (bit_index % 8) in
    let hy : byte < 256 = bytes (bit_index % 8) (omega arith) in
    let place = bit_index % 256 / 8 in
    rw inside (
      returns (
        (λ other.
            let inside' : leb (a.size) (other % 8) ≡ false = ground arith in
            rw inside' (elim (Bool-cases (other % 8 == bit_index % 8)) [
              | inr differ ↦
                  (let apart : (other % 64 == bit_index % 64) ≡ false = ground (arith, differ) in
                    rw (differ, apart) refl)
              | inl same ↦
                  (let e = has_bit-write_bit bit byte place (other % 256 / 8) hy in
                    elim (Bool-cases (other % 64 == bit_index % 64)) [
                      | inl both ↦
                          (let here : (place % 8 == other % 256 / 8 % 8) ≡ true =
                              ground (arith, same, both) in
                            rw (same, both) (ap some (e ∙ rw here refl)))
                      | inr apart ↦
                          (let there : (place % 8 == other % 256 / 8 % 8) ≡ false =
                              ground (arith, same, apart) in
                            let d : bit_index % 8 ≡ other % 8 = ground (arith, same) in
                            rw (same, apart)
                              (ap some (
                                e
                                ∙ rw there
                                    (ap (λ (t : ℕ). has_bit (other % 256 / 8) (a.slots t)) d))))
                    ])
            ])),
        (λ i q. elim (Bool-cases (i == bit_index % 8)) [
          | inl here ↦ rw here (write_bit-lt bit byte place hy)
          | inr there ↦ rw there (bytes i q)
        ]),
        refl,
      ))
