-- ===== src/MemInfo/Align.antt =====
-- The rounding functions of src/mem_info.rs against the least multiple that is large enough.
use native.Mathlib.Nat.{
  one-le-pow, mod-lt, div-add-mod', div-lt_iff_lt-mul, mul-mod_left, mod_self, suc-mul,
  pow-le-pow_right,
}
use native.Mathlib.Numerals.{sub-one}
use lralloc_rs.Common.{
  ℕ, zero, suc, ◌+◌, ◌-◌, ◌*◌, ◌/◌, ◌%◌, ◌^◌, ◌≤◌, ◌<◌, bit_and, ◌≡◌, refl, sym, ap, ap₂, ◌∙◌,
  arith, bit_and_high, ltb, Bool-cases, inl, inr, two-pow-add,
}
use lralloc_rs.MemInfo.{word, not64, page, align_val, align_size, align_addr, page_ceiling}

-- `r` is the least multiple of `m` that is not below `x`.
pub record IsCeiling (m x r : ℕ) : Type 0 where
  pub multiple : r % m ≡ 0
  pub above : x ≤ r
  pub least : r < x + m

word_split : (k : ℕ) → k ≤ 64 → word ≡ 2 ^ (64 - k) * 2 ^ k
word_split k h =
    let e : 64 - k + k ≡ 64 = omega arith in ap (λ (t : ℕ). 2 ^ t) (sym e) ∙ two-pow-add (64 - k) k

mul-sub-one : (a b : ℕ) → a * b - b ≡ (a - 1) * b
mul-sub-one zero b = omega arith
mul-sub-one (suc a) b = simp (suc-mul, sub-one) (omega arith)

-- `&` with the mask of the high bits rounds a word down.
pub clear_low : (k x : ℕ) → k ≤ 64 → x < word → bit_and x (word - 2 ^ k) ≡ x / 2 ^ k * 2 ^ k
clear_low k x h small =
    let low = mod-lt x (one-le-pow k 2 (omega arith)) in
    let high =
      (div-lt_iff_lt-mul (one-le-pow k 2 (omega arith))).1 (rw (word_split k h) at small) in
    let mask : word - 2 ^ k ≡ (2 ^ (64 - k) - 1) * 2 ^ k =
      rw (word_split k h) (mul-sub-one (2 ^ (64 - k)) (2 ^ k)) in
    ap₂ bit_and (sym (div-add-mod' x (2 ^ k))) mask
    ∙ bit_and_high k (64 - k) (x / 2 ^ k) (x % 2 ^ k) low high

round_up : (m val : ℕ) → 0 < m → IsCeiling m val ((val + m - 1) / m * m)
round_up m val pos = record {
  multiple = mul-mod_left ((val + m - 1) / m) m;
  above = omega (arith, div-add-mod' (val + m - 1) m, mod-lt (val + m - 1) pos);
  least = omega (arith, div-add-mod' (val + m - 1) m);
}

-- For a power of two and a sum that does not overflow, align_val gives the least multiple of the
-- power that is not below the value.
pub align_val-IsCeiling :
    (k val : ℕ) → k < 64 → val + 2 ^ k ≤ word → IsCeiling (2 ^ k) val (align_val val (2 ^ k))
unfolding align_val
align_val-IsCeiling k val h fits =
    rw (wrapped, mask, clear_low k (val + 2 ^ k - 1) (omega arith) (omega arith))
      (round_up (2 ^ k) val pos)
  where
    pos : 0 < 2 ^ k
    pos = one-le-pow k 2 (omega arith)

    wrapped : (val + 2 ^ k + (word - 1)) % word ≡ val + 2 ^ k - 1
    wrapped = omega (arith, pos)

    mask : (not64 (2 ^ k) + 1) % word ≡ word - 2 ^ k
    mask = omega (arith, pos, pow-le-pow_right {n = 2} (omega arith) {i = k} {j = 63} (omega arith))

-- `align_addr` rounds an address in the same way.
align_addr-align_val : (addr align : ℕ) → align_addr addr align ≡ align_val addr align
unfolding align_addr align_val
align_addr-align_val addr align = refl

-- `align_size` of a size above zero is the least multiple of the alignment that holds it.
pub align_size-IsCeiling :
    (k size : ℕ)
    → k < 64
    → 0 < size
    → size + 2 ^ k ≤ word
    → IsCeiling (2 ^ k) size (align_size size (2 ^ k))
unfolding align_size
align_size-IsCeiling k size h pos fits = elim (Bool-cases (ltb (2 ^ k) size)) [
  | inl above ↦ rw above (align_val-IsCeiling k size h fits)
  | inr below ↦
      rw below (record { multiple = mod_self (2 ^ k); above = ground arith; least = omega arith })
]

-- Where the sum with a page does not overflow, page_ceiling! gives the least multiple of the page
-- size that holds its argument.
pub page_ceiling-IsCeiling : (s : ℕ) → s + page ≤ word → IsCeiling page s (page_ceiling s)
unfolding page_ceiling
page_ceiling-IsCeiling s fits =
    let wrapped : (s + page + (word - 1)) % word ≡ s + page - 1 = omega arith in
    rw (wrapped, clear_low 12 (s + page - 1) (omega arith) (omega arith))
      (round_up page s (omega arith))
