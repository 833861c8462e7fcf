-- ===== src/AllocationData.antt =====
-- src/allocation_data.rs: the state of a super block and the anchor, which packs a state, the index
-- of the first free block and the count of free blocks into one u64. The accessors are those that
-- the `bitfield!` crate documents: a getter reads the bits, a setter cuts its value to the width.
pub mod Anchor
pub mod Desc
mod Tests
use lralloc_rs.Common.{
  ℕ, ◌+◌, ◌-◌, ◌*◌, ◌/◌, ◌%◌, ◌^◌, Bool, false, true, ◌==◌, if◌then◌else◌, Outcome, returned,
  panicked, ◌>>=◌,
}

pub data SuperBlockState : Type 0 where
  full partial empty : SuperBlockState

-- `From<u64>`, which panics on any other number
pub from_bits : ℕ → Outcome SuperBlockState
from_bits u =
    if u == 0
    then returned full
    else if u == 1
    then returned partial
    else if u == 2
    then returned empty
    else panicked

-- `Into<u64>`
abbrev pub into_bits : SuperBlockState → ℕ
into_bits full = 0
into_bits partial = 1
into_bits empty = 2

-- `Anchor::default()`
abbrev pub default_anchor : ℕ
default_anchor = 0

-- bits 1 to 0
unfoldable pub state : ℕ → Outcome SuperBlockState
unfolding from_bits
state anchor = from_bits (anchor % 4)

unfoldable pub set_state : SuperBlockState → ℕ → ℕ
set_state s anchor = anchor / 4 * 4 + into_bits s % 4

-- bits 31 to 2
unfoldable pub avail : ℕ → ℕ
avail anchor = anchor / 4 % 2 ^ 30

unfoldable pub set_avail : ℕ → ℕ → ℕ
set_avail v anchor = anchor / 2 ^ 32 * 2 ^ 32 + v % 2 ^ 30 * 4 + anchor % 4

-- bits 63 to 32
unfoldable pub count : ℕ → ℕ
count anchor = anchor / 2 ^ 32 % 2 ^ 32

unfoldable pub set_count : ℕ → ℕ → ℕ
set_count v anchor = v % 2 ^ 32 * 2 ^ 32 + anchor % 2 ^ 32

abbrev pub state_eq : SuperBlockState → SuperBlockState → Bool
state_eq s t = into_bits s == into_bits t

-- `PartialEq`
pub anchor_eq : ℕ → ℕ → Outcome Bool
unfolding state avail count
anchor_eq a b = do
  s ← state a
  t ← state b
  returned
      (if state_eq s t then if avail a == avail b then count a == count b else false else false)
