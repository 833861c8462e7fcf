-- ===== src/Collections/Ranges.antt =====
-- src/independent_collections/range_mapping.rs: a tree from ranges of addresses to page information. The nodes
-- stand in the slots of an array that was made with room for them, so that they do not move; a pointer is
-- the index of its slot and one, and null is 0. Loops and recursion run on fuel, and no value says that it
-- has run out.
pub mod Twice
mod Tests
use lralloc_rs.Common.{
  ℕ, zero, suc, ◌+◌, ◌-◌, min, max, Bool, ◌&&◌, Option, none, some, ltb, leb, ◌==◌, if◌then◌else◌,
  update, Outcome, returned, ◌>>=◌,
}
use mathlib.Core.Option
use lralloc_rs.PageMap.{PageInfo}
use lralloc_rs.Collections.{Array, push}

pub data NodeInner : Type 0 where
  info : PageInfo → NodeInner
  children : ℕ → ℕ → NodeInner

-- with the two ends of its range, both in it
pub record Node : Type 0 where
  pub start : ℕ
  pub end : ℕ
  pub inner : NodeInner

pub record PageRangeMapping : Type 0 where
  pub head : ℕ
  pub memory_array : Array Node

abbrev pub node_at : PageRangeMapping → ℕ → Node
node_at m ptr = m.memory_array.slots (ptr - 1)

-- `RangeInclusive::contains`
abbrev pub contains : ℕ → Node → Bool
contains address n = leb (n.start) address && leb address (n.end)

-- `create_parent_node`, for the nodes at two pointers
unfoldable pub create_parent_node : PageRangeMapping → ℕ → ℕ → Node
create_parent_node m ptr other =
    let a = node_at m ptr in
    let b = node_at m other in
    record {
      start = min (a.start) (b.start);
      end = max (a.end) (b.end);
      inner = if ltb (a.end) (b.start) then children ptr other else children other ptr;
    }

-- the child that `find_info` goes on with
unfoldable pub child_for : PageRangeMapping → ℕ → NodeInner → Option ℕ
child_for m address (info i) = none
child_for m address (children less more) =
    if contains address (node_at m less)
    then some less
    else if contains address (node_at m more)
    then some more
    else none

-- the information of a node that has no children
abbrev pub own_info : NodeInner → Option PageInfo
own_info (info i) = some i
own_info (children less more) = none

-- `find_info` of the node at a pointer
unfoldable pub find_info : ℕ → PageRangeMapping → ℕ → ℕ → Option (Option PageInfo)
unfolding child_for
find_info zero m address ptr = none
find_info (suc fuel) m address ptr =
    let n = node_at m ptr in
    if contains address n
    then elim (child_for m address (n.inner)) [
      | none ↦ some (own_info (n.inner))
      | some child ↦ find_info fuel m address child
    ]
    else some none

unfoldable pub get_page_info : ℕ → PageRangeMapping → ℕ → Option (Option PageInfo)
unfolding find_info
get_page_info fuel m address = if m.head == 0 then some none else find_info fuel m address (m.head)

-- one round of the loop of `insert_node`: where it goes on, or where it ends
pub data Round : Type 0 where
  goes_on : ℕ → Round
  ends : ℕ → Round

unfoldable pub round : PageRangeMapping → Node → ℕ → NodeInner → Round
round m main ptr (info i) = ends ptr
round m main ptr (children less more) =
    let less_range = node_at m less in
    let more_range = node_at m more in
    if ltb (main.end) (less_range.start)
    then ends less
    else if ltb (less_range.start) (main.start) && ltb (main.end) (less_range.end)
    then goes_on less
    else if ltb (more_range.end) (main.start)
    then ends more
    else if ltb (more_range.start) (main.start) && ltb (main.end) (main.end)
    then goes_on more
    else ends ptr

unfoldable pub descend : ℕ → PageRangeMapping → Node → ℕ → Option ℕ
unfolding round
descend zero m main ptr = none
descend (suc fuel) m main ptr = elim (round m main ptr ((node_at m ptr).inner)) [
  | ends place ↦ some place
  | goes_on next ↦ descend fuel m main next
]

-- the last line of `insert_node`
unfoldable pub write_node : ℕ → Node → PageRangeMapping → PageRangeMapping
write_node ptr n m = record m {
  memory_array = record (m.memory_array) { slots = update (m.memory_array.slots) (ptr - 1) n };
}

unfoldable pub insert_node : ℕ → ℕ → PageRangeMapping → Option PageRangeMapping
unfolding descend create_parent_node write_node
insert_node fuel node m =
    if m.head == 0
    then some (record m { head = node })
    else Option.map (λ ptr. write_node ptr (create_parent_node m node ptr) m)
        (descend fuel m (node_at m node) (m.head))

-- `create_range_node`; the new node is the last slot in use
unfoldable pub create_range_node :
    Bool → ℕ → ℕ → PageInfo → PageRangeMapping → Outcome (ℕ × PageRangeMapping)
create_range_node granted start end i m = do
  let node : Node = record { start = start; end = end; inner = info i }
  a ← push granted node (m.memory_array)
  returned (a.size, record m { memory_array = a })

-- `set_page_info_for_ptr` for one address, and the end of `update_page_map` for a range
unfoldable pub set_range :
    Bool → ℕ → ℕ → ℕ → PageInfo → PageRangeMapping → Outcome (Option PageRangeMapping)
unfolding create_range_node insert_node
set_range granted fuel start end i m = do
  (node, m') ← create_range_node granted start end i m
  returned (insert_node fuel node m')
