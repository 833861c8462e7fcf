-- ===== src/Collections/Loops/Tests.antt =====
-- The theorems on loops over arrays and on bits at concrete arrays.
use lralloc_rs.Common.{
  ℕ, ◌+◌, ◌%◌, ◌<◌, ◌≡◌, refl, true, false, some, none, ◌==◌, if◌then◌else◌, arith, Returns,
}
use lralloc_rs.Collections.{Array}
use lralloc_rs.Collections.Loops.{get_bit, set_bit}
use lralloc_rs.Collections.Loops.Bits.{set_bit-Writes}

-- two elements in a segment for `c`, with what the others hold
abbrev pair : ℕ → ℕ → Array ℕ
pair c rest = record {
  size = 2;
  capacity = 2 + c;
  slots = λ i. if i == 0 then 4 else (if i == 1 then 5 else rest);
}

-- nine bytes
abbrev bytes : Array ℕ
bytes = record { size = 9; capacity = 9; slots = λ i. i }

set_bit-Writes_example :
    Returns
      (λ b.
        ((other : ℕ)
          → get_bit other b ≡ (if other % 64 == 6 then some true else get_bit other bytes))
        × ((i : ℕ) → i < b.size → b.slots i < 256)
        × (b.size ≡ 9))
      (set_bit 70 true bytes)
set_bit-Writes_example = set_bit-Writes 70 true bytes (omega arith) λ i q. omega arith

-- The bit at 9 is in the byte at 1, and a short array has no bit at 5.
get_bit-nine : get_bit 9 bytes ≡ some false
unfolding get_bit
get_bit-nine = refl

get_bit-short : get_bit 5 (pair 0 1) ≡ none
unfolding get_bit
get_bit-short = refl
