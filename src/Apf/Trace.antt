-- ===== src/Apf/Trace.antt =====
-- src/apf/trace.rs: a trace of allocations and frees, each of a slot, in an array that grows. The array is
-- a function from its indices; its HashMaps are functions from slots. Whether do_realloc returned
-- memory is an argument; it keeps the array. The loops read below the length, which `add` keeps within the
-- array.
pub mod Valid
pub mod Add
use lralloc_rs.Common.{
  ℕ, zero, suc, ◌+◌, ◌-◌, ◌*◌, Bool, true, false, Option, none, some, List, [], ◌∷◌, length, ltb,
  ◌==◌, if◌then◌else◌, update, Outcome, returned, panicked, assert, ◌>>=◌, ◌>>◌,
}

pub data Event : Type 0 where
  alloc free : ℕ → Event

pub record Trace : Type 0 where
  pub accesses : ℕ → Event
  pub capacity : ℕ
  pub length : ℕ
  pub alloc_count : ℕ

abbrev pub init_trace_length : ℕ
init_trace_length = 16384

-- `Trace::new`, with what the memory holds
abbrev pub new_trace : (ℕ → Event) → Trace
new_trace memory = record {
  accesses = memory;
  capacity = init_trace_length;
  length = 0;
  alloc_count = 0;
}

abbrev pub is_alloc : Event → ℕ
is_alloc (alloc s) = 1
is_alloc (free s) = 0

-- `self.accesses[self.length]`, written, and the counts
unfoldable pub write : Event → Trace → Outcome Trace
write e t = do
  assert (ltb (t.length) (t.capacity))
  returned (record t {
    accesses = update (t.accesses) (t.length) e;
    length = t.length + 1;
    alloc_count = t.alloc_count + is_alloc e;
  })

unfoldable pub add_event : Bool → Event → Trace → Outcome Trace
unfolding write
add_event granted e t =
    if t.length == t.capacity - 1
    then (assert granted >> write e (record t { capacity = t.capacity * 2 }))
    else write e t

-- the loop of `extend`
unfoldable pub write_all : List Event → Trace → Outcome Trace
unfolding write
write_all [] t = returned t
write_all (e ∷ es) t = write e t >>= write_all es

-- `extend`, which adds the number of the events to the length once more
unfoldable pub extend : List Event → Trace → Outcome Trace
unfolding write_all
extend es t = do t' ← write_all es t; returned (record t' { length = t'.length + length es })

-- `get`
unfoldable pub get_event : ℕ → Trace → Outcome Event
get_event index t = if ltb index (t.capacity) then returned (t.accesses index) else panicked

-- the loop of `valid`, from index `i` on, with the last state of each slot
unfoldable pub valid_from : ℕ → ℕ → (ℕ → Event) → (ℕ → Option Bool) → Bool
valid_from zero i accesses slots = true
valid_from (suc rounds) i accesses slots = elim (accesses i) [
  | alloc s ↦ elim (slots s) [
    | some true ↦ false
    | _ ↦ valid_from rounds (i + 1) accesses (update slots s (some true))
  ]
  | free s ↦ elim (slots s) [
    | some true ↦ valid_from rounds (i + 1) accesses (update slots s (some false))
    | _ ↦ false
  ]
]

-- `valid`
unfoldable pub valid : Trace → Bool
unfolding valid_from
valid t = valid_from (t.length) 0 (t.accesses) (λ _. none)

-- the loop of `free_intervals`, with the clock of allocations
unfoldable pub intervals_from : ℕ → ℕ → (ℕ → Event) → (ℕ → Option ℕ) → ℕ → List (ℕ × ℕ)
intervals_from zero i accesses frees clock = []
intervals_from (suc rounds) i accesses frees clock = elim (accesses i) [
  | free s ↦ intervals_from rounds (i + 1) accesses (update frees s (some clock)) clock
  | alloc s ↦
      let rest = intervals_from rounds (i + 1) accesses frees (clock + 1) in
      elim (frees s) [ some start ↦ (start, clock) ∷ rest | none ↦ rest ]
]

-- `free_intervals`
unfoldable pub free_intervals : Trace → List (ℕ × ℕ)
unfolding intervals_from
free_intervals t = intervals_from (t.length) 0 (t.accesses) (λ _. none) 0

-- the loop of `free_intervals_alt`, whose clock is the index
unfoldable pub intervals_alt_from : ℕ → ℕ → (ℕ → Event) → (ℕ → Option ℕ) → List (ℕ × ℕ)
intervals_alt_from zero i accesses frees = []
intervals_alt_from (suc rounds) i accesses frees = elim (accesses i) [
  | free s ↦ intervals_alt_from rounds (i + 1) accesses (update frees s (some i))
  | alloc s ↦
      let rest = intervals_alt_from rounds (i + 1) accesses frees in
      elim (frees s) [ some start ↦ (start, i) ∷ rest | none ↦ rest ]
]

unfoldable pub slot_of : Event → ℕ
slot_of (alloc s) = s
slot_of (free s) = s

-- the loop of `object_count`, which counts the slots that it has not seen
unfoldable pub objects_from : ℕ → ℕ → (ℕ → Event) → (ℕ → Bool) → ℕ
unfolding slot_of
objects_from zero i accesses seen = 0
objects_from (suc rounds) i accesses seen =
    let s = slot_of (accesses i) in
    let rest = objects_from rounds (i + 1) accesses (update seen s true) in
    if seen s then rest else suc rest
