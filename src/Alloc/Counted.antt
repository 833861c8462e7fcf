-- ===== src/Alloc/Counted.antt =====
-- src/alloc.rs: the allocations of a given number of blocks, which the tuner asks for.
use lralloc_rs.Common.{
  ℕ, zero, suc, ◌+◌, ◌-◌, ◌*◌, Bool, Option, none, some, get_elem?, ltb, leb, min, if◌then◌else◌,
  Outcome, returned, assert, unwrap, ◌>>=◌, ◌>>◌,
}
use lralloc_rs.AllocationData.{empty, state, avail, state_eq}
use lralloc_rs.AllocationData.Desc.{Segment, retire, alloc}
use lralloc_rs.ThreadCache.{Memory, ThreadCacheBin, push_block}
use lralloc_rs.Alloc.{
  World, get_heap_at_mut, set_desc, list_pop_partial, taken_anchor, malloc_from_partial, own,
  hand_out,
}

-- `malloc_count_from_new_sb`: at most `number` blocks, in a segment that is as long as they are
unfoldable pub malloc_count_from_new_sb :
    (no_met_stack : Bool)
    → Option ℕ
    → Option Segment
    → ℕ
    → ThreadCacheBin
    → ℕ
    → ℕ
    → World
    → Outcome (ThreadCacheBin × ℕ × World)
malloc_count_from_new_sb no_met_stack page segment index cache block_num number w = do
  heap ← get_heap_at_mut index w
  sc ← unwrap (get_elem? w.classes index)
  (desc, store) ← alloc page (w.store)
  (cache', w') ←
      hand_out no_met_stack desc (own heap sc segment (store.descs desc))
        (min (sc.block_num) number) cache (record w { store = store })
  returned (cache', block_num + sc.block_num, w')

-- The loop of `malloc_count_from_partial` that pushes `rounds` blocks, from block `first` on.
unfoldable pub push_blocks :
    (no_met_stack : Bool) → ℕ → ℕ → ℕ → ℕ → ThreadCacheBin → Memory → ThreadCacheBin × Memory
push_blocks no_met_stack zero super_block block_size first cache m = (cache, m)
push_blocks no_met_stack (suc rounds) super_block block_size first cache m =
    let (cache', m') = push_block no_met_stack cache (super_block + first * block_size) m in
    push_blocks no_met_stack rounds super_block block_size (first + 1) cache' m'

-- `malloc_count_from_partial` from the anchor on, when the super block is not empty
unfoldable pub take_count :
    (no_met_stack : Bool)
    → ℕ
    → ThreadCacheBin
    → ℕ
    → ℕ
    → World
    → Outcome (ThreadCacheBin × ℕ × World)
unfolding push_blocks
take_count no_met_stack desc cache block_num number w = do
  let d = w.store.descs desc
  let from = avail (d.anchor)
  let to = if ltb (from + number) (d.max_count) then from + number else d.max_count
  assert (leb from (d.max_count))
  super_block ← unwrap d.super_block
  let w' = set_desc desc (record d { anchor = taken_anchor to (d.anchor) }) w
  let (cache', m) =
      push_blocks no_met_stack (to - from) (super_block.ptr) (d.block_size) from cache (w.memory)
  returned (cache', block_num + (to - from), record w' { memory = m })

-- `malloc_count_from_partial`; on an empty super block it goes on as `malloc_from_partial`
unfoldable pub malloc_count_from_partial :
    (no_met_stack : Bool)
    → ℕ
    → ℕ
    → ThreadCacheBin
    → ℕ
    → ℕ
    → World
    → Outcome (ThreadCacheBin × ℕ × World)
malloc_count_from_partial no_met_stack fuel index cache block_num number w = do
  heap ← get_heap_at_mut index w
  (popped, w') ← list_pop_partial heap w
  elim popped [
    | none ↦ returned (cache, block_num, w')
    | some desc ↦ (do
      s ← state ((w'.store.descs desc).anchor)
      if state_eq s empty
          then malloc_from_partial fuel index cache block_num
              (record w' { store = retire desc (w'.store) })
          else take_count no_met_stack desc cache block_num number w')
  ]
