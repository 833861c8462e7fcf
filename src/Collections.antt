-- ===== src/Collections.antt =====
-- src/independent_collections/array.rs: Array, a vector whose memory comes from the segment allocator. The
-- slots are a function from indices, as far as the segment is long; whether the allocator
-- answers is an argument. The type of elements is not of size 0.
pub mod Slots
pub mod Remove
pub mod HashMap
pub mod Deque
pub mod Loops
pub mod Ranges
mod Tests
use lralloc_rs.Common.{
  ℕ, zero, suc, ◌+◌, ◌-◌, ◌*◌, Bool, true, false, Option, none, some, ltb, leb, ◌==◌, if◌then◌else◌,
  update, Outcome, returned, panicked, assert, unwrap, ◌>>=◌, ◌>>◌,
}

pub record Array (A : Type 0) : Type 0 where
  pub size : ℕ
  pub capacity : ℕ
  pub slots : ℕ → A

module _ {A : Type 0} where
  -- `Array::new`, with what its memory will hold
  abbrev pub new_array : (ℕ → A) → Array A
  new_array memory = record { size = 0; capacity = 0; slots = memory }

  -- `RawArray::reserve`, which copies the slots
  unfoldable pub reserve_slots : Bool → ℕ → Array A → Outcome (Array A)
  reserve_slots granted new_capacity a =
      if ltb new_capacity (a.capacity)
      then returned a
      else (assert granted >> returned (record a { capacity = new_capacity }))

  unfoldable pub push : Bool → A → Array A → Outcome (Array A)
  unfolding reserve_slots
  push granted val a = do
    a' ←
        (if leb (a.capacity) (a.size)
          then reserve_slots granted (if ltb 0 (a.size) then a.size * 2 else 1) a
          else returned a)
    returned (record a' { slots = update (a'.slots) (a'.size) val; size = a'.size + 1 })

  unfoldable pub pop : Array A → Option A × Array A
  pop a =
      if a.size == 0
      then (none, a)
      else (some (a.slots (a.size - 1)), record a { size = a.size - 1 })

  -- `get`
  unfoldable pub get_slot : ℕ → Array A → Option A
  get_slot index a = if leb (a.size) index then none else some (a.slots index)

  unfoldable pub swap : ℕ → A → Array A → Option A × Array A
  swap index val a =
      if leb (a.size) index
      then (none, a)
      else (some (a.slots index), record a { slots = update (a.slots) index val })

  -- `<[T]>::reverse` of the slots in use
  unfoldable pub reverse_array : Array A → Array A
  reverse_array a = record a {
    slots = λ i. if ltb i (a.size) then a.slots (a.size - 1 - i) else a.slots i;
  }

  -- the loop of `remove` that saves the elements behind the index
  unfoldable pub save : Bool → ℕ → Array A → Array A → Outcome (Array A × Array A)
  unfolding push pop
  save granted zero a saved = returned (a, saved)
  save granted (suc pre_pops) a saved = do
    val ← unwrap (pop a).0
    saved' ← push granted val saved
    save granted pre_pops (pop a).1 saved'

  -- the loop of `remove` that pushes the saved elements, from index `i` on
  unfoldable pub push_saved : Bool → ℕ → ℕ → Array A → Array A → Outcome (Array A)
  unfolding push
  push_saved granted zero i saved a = returned a
  push_saved granted (suc rounds) i saved a =
      push granted (saved.slots i) a >>= push_saved granted rounds (i + 1) saved

  -- `remove`, with what the memory of the second array will hold
  unfoldable pub remove : Bool → (ℕ → A) → ℕ → Array A → Outcome (Option A × Array A)
  unfolding save push_saved pop reverse_array
  remove granted memory index a = if leb (a.size) index then returned (none, a) else (do
    (a1, saved) ← save granted (a.size - index - 1) a (new_array memory)
    let ret = pop a1
    a2 ← push_saved granted (saved.size) 0 (reverse_array saved) ret.1
    returned (ret.0, a2))
