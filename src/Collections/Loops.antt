-- ===== src/Collections/Loops.antt =====
-- src/independent_collections/array.rs: what Array does in a loop over its elements, and the bits of
-- an Array<u8>.
pub mod Filled
pub mod Elements
pub mod Bits
mod Tests
use lralloc_rs.Common.{
  ℕ, zero, suc, ◌+◌, ◌-◌, ◌*◌, ◌/◌, ◌%◌, ◌^◌, Bool, true, false, Option, none, some, List, [], ◌∷◌,
  ltb, leb, ◌==◌, if◌then◌else◌, update, Outcome, returned, unwrap, ◌>>=◌, bit_and, bit_or, not,
}
use mathlib.Core.Option
use lralloc_rs.Collections.{Array, new_array, reserve_slots, push, get_slot}

pub record ArrayIterator (A : Type 0) : Type 0 where
  pub index : ℕ
  pub array : Array A

module _ {A : Type 0} where
  -- the loop of `from_iter`
  unfoldable pub collect : Bool → List A → Array A → Outcome (Array A)
  unfolding push
  collect granted [] a = returned a
  collect granted (val ∷ vals) a = push granted val a >>= collect granted vals

  -- the loops of `of_size_using` and `grow`, for `rounds` slots from `i` on
  unfoldable pub fill : ℕ → ℕ → A → (ℕ → A) → (ℕ → A)
  fill zero i default slots = slots
  fill (suc rounds) i default slots = fill rounds (i + 1) default (update slots i default)

  -- `of_size_using`, and `of_size` for the default of the type
  unfoldable pub of_size_using : Bool → (ℕ → A) → A → ℕ → Outcome (Array A)
  unfolding fill reserve_slots
  of_size_using granted memory default size = do
    a ← reserve_slots granted size (new_array memory)
    returned (record a { size = size; slots = fill size 0 default (a.slots) })

  unfoldable pub grow : Bool → A → ℕ → Array A → Outcome (Array A)
  unfolding fill reserve_slots
  grow granted default new_size a =
      if ltb (a.size) new_size
      then (do
        a' ← reserve_slots granted new_size a
        returned (record a' {
          size = new_size;
          slots = fill (new_size - a'.size) (a'.size) default (a'.slots);
        }))
      else returned a

  -- `clear` of an array that owns its memory; the segment is let go, but not given back
  unfoldable pub clear : Array A → Array A
  clear a = record a { size = 0; capacity = 0 }

  -- `next` of an iterator
  unfoldable pub next : ArrayIterator A → Option A × ArrayIterator A
  next it =
      if leb (it.array.size) (it.index)
      then (none, it)
      else (some (it.array.slots (it.index)), record it { index = it.index + 1 })

  -- a loop that runs an iterator to its end
  unfoldable pub yields : ℕ → ArrayIterator A → List A
  unfolding next
  yields zero it = []
  yields (suc fuel) it = elim ((next it).0) [ none ↦ [] | some v ↦ v ∷ yields fuel (next it).1 ]

  -- the elements that `iter` yields
  unfoldable pub elements : ℕ → ℕ → (ℕ → A) → List A
  elements zero i slots = []
  elements (suc rounds) i slots = slots i ∷ elements rounds (i + 1) slots

  -- `clone`
  unfoldable pub clone_array : Bool → (ℕ → A) → Array A → Outcome (Array A)
  unfolding collect elements
  clone_array granted memory a = collect granted (elements (a.size) 0 (a.slots)) (new_array memory)

  -- the loop of `eq`, for the equality of elements
  unfoldable pub same_slots : (A → A → Bool) → ℕ → ℕ → (ℕ → A) → (ℕ → A) → Bool
  same_slots eq zero i slots other = true
  same_slots eq (suc rounds) i slots other =
      let rest = same_slots eq rounds (i + 1) slots other in
      if eq (slots i) (other i) then rest else false

  -- `eq`
  unfoldable pub equal_arrays : (A → A → Bool) → Array A → Array A → Bool
  unfolding same_slots
  equal_arrays eq a other =
      if a.size == other.size then same_slots eq (a.size) 0 (a.slots) (other.slots) else false

-- `Array::byte_index`: the bit's index modulo 8 is the byte, and the quotient is the bit.
unfoldable pub byte_index : ℕ → ℕ × ℕ
byte_index bit_index = (bit_index % 8, bit_index % 2 ^ 8 / 8)

-- `bit_mask`, where a shift counts its places modulo the width
abbrev pub bit_mask : ℕ → ℕ
bit_mask index = 2 ^ (index % 8)

-- the test of a bit and the new byte
unfoldable pub has_bit : ℕ → ℕ → Bool
has_bit index byte = not (bit_and byte (bit_mask index) == 0)

unfoldable pub write_bit : ℕ → Bool → ℕ → ℕ
write_bit index bit byte =
    let mask = 2 ^ 8 - 1 - bit_mask index in
    let shifted = (if bit then 1 else 0) * bit_mask index in bit_or (bit_and byte mask) shifted

unfoldable pub get_bit : ℕ → Array ℕ → Option Bool
unfolding byte_index get_slot has_bit
get_bit bit_index a =
    let place = byte_index bit_index in Option.map (has_bit place.1) (get_slot place.0 a)

unfoldable pub set_bit : ℕ → Bool → Array ℕ → Outcome (Array ℕ)
unfolding byte_index get_slot write_bit
set_bit bit_index bit a = do
  let place = byte_index bit_index
  byte ← unwrap (get_slot place.0 a)
  returned (record a { slots = update (a.slots) place.0 (write_bit place.1 bit byte) })
