-- ===== src/Collections/Deque.antt =====
-- src/independent_collections/array.rs: ArrayDeque, a window of slots of a segment. The slots are a
-- function from indices, also behind the segment; whether the allocator answers is an argument.
pub mod Window
pub mod Runs
pub mod Collect
mod Tests
use lralloc_rs.Common.{
  ℕ, ◌+◌, ◌-◌, ◌*◌, ◌/◌, ◌%◌, Bool, Option, none, some, List, ltb, ◌==◌, if◌then◌else◌, update,
  Outcome, returned, assert, ◌>>=◌, ◌>>◌,
}
use lralloc_rs.MemInfo.{word}
use lralloc_rs.Collections.{Array, new_array}
use lralloc_rs.Collections.Loops.{collect}

pub record ArrayDeque (A : Type 0) : Type 0 where
  pub capacity : ℕ
  pub slots : ℕ → A
  pub start : ℕ
  pub end : ℕ

module _ {A : Type 0} where
  -- `ArrayDeque::new`, with what its memory will hold
  abbrev pub new_deque : (ℕ → A) → ArrayDeque A
  new_deque memory = record { capacity = 0; slots = memory; start = 0; end = 0 }

  -- with the `RawArray::reserve` of its last line
  unfoldable pub grow_back : Bool → ArrayDeque A → Outcome (ArrayDeque A)
  grow_back granted d = do
    let capacity = if d.capacity * 2 == 0 then 1 else d.capacity * 2
    (if ltb capacity (d.capacity)
        then returned d
        else (assert granted >> returned (record d { capacity = capacity })))

  unfoldable pub grow_front : Bool → ArrayDeque A → Outcome (ArrayDeque A)
  unfolding grow_back
  grow_front granted d = do
    let old_capacity = d.capacity
    d' ← grow_back granted d
    returned (record d' {
      slots = λ i.
          if ltb i old_capacity
          then d'.slots i
          else (if ltb i (old_capacity * 2) then d'.slots (i - old_capacity) else d'.slots i);
      start = old_capacity;
      end = d'.end + old_capacity;
    })

  -- `len`
  unfoldable pub deque_len : ArrayDeque A → ℕ
  deque_len d = d.end - d.start

  unfoldable pub push_back : Bool → A → ArrayDeque A → Outcome (ArrayDeque A)
  unfolding grow_back
  push_back granted val d = do
    d' ← (if d.end == d.capacity then grow_back granted d else returned d)
    returned (record d' { slots = update (d'.slots) (d'.end) val; end = d'.end + 1 })

  unfoldable pub push_front : Bool → A → ArrayDeque A → Outcome (ArrayDeque A)
  unfolding push_back grow_front deque_len
  push_front granted val d = if deque_len d == 0 then push_back granted val d else (do
    d' ← (if d.start == 0 then grow_front granted d else returned d)
    returned (record d' { slots = update (d'.slots) (d'.start - 1) val; start = d'.start - 1 }))

  -- what both pops end with: a window that has become empty moves to the middle
  unfoldable pub centered : ArrayDeque A → ArrayDeque A
  centered d =
      if d.start == d.end then record d { start = d.capacity / 2; end = d.capacity / 2 } else d

  unfoldable pub pop_front : ArrayDeque A → Option A × ArrayDeque A
  unfolding centered
  pop_front d =
      if d.start == d.end
      then (none, d)
      else (some (d.slots (d.start)), centered (record d { start = d.start + 1 }))

  -- It reads the slot behind the window.
  unfoldable pub pop_back : ArrayDeque A → Option A × ArrayDeque A
  unfolding centered
  pop_back d =
      if d.start == d.end
      then (none, d)
      else (some (d.slots (d.end)), centered (record d { end = d.end - 1 }))

  -- `From<Array<T>>`
  unfoldable pub from_array : Array A → ArrayDeque A
  from_array a = record {
    capacity = a.capacity;
    slots = a.slots;
    start = 0;
    end = (a.size + (word - 1)) % word;
  }

  -- `from_iter`
  unfoldable pub collect_deque : Bool → (ℕ → A) → List A → Outcome (ArrayDeque A)
  unfolding collect from_array
  collect_deque granted memory vals = do
    a ← collect granted vals (new_array memory)
    returned (from_array a)
