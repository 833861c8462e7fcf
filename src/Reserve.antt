-- ===== src/Reserve.antt =====
-- src/thread_cache.rs, the functions between a bin and the central reserve: fill_cache takes a list of
-- blocks from it, flush_cache gives the blocks of a bin back, and ThreadCache is the array of bins,
-- which its drop flushes.
pub mod Fill
pub mod Flush
pub mod Back
pub mod Compressed
pub mod Emptied
mod Tests
use lralloc_rs.Common.{
  ℕ, zero, suc, ◌+◌, ◌-◌, ◌*◌, ◌%◌, Bool, true, false, ◌&&◌, ◌||◌, not, Option, none, some, List,
  [], ◌∷◌, get_elem?, replicate, ltb, leb, ◌==◌, if◌then◌else◌, update, Outcome, returned, panicked,
  assert, unwrap, ◌>>=◌, ◌>>◌,
}
use lralloc_rs.MemInfo.{max_sz_idx, word}
use lralloc_rs.SizeClasses.{SizeClassData, get_size_class}
use lralloc_rs.AllocationData.{
  SuperBlockState, full, partial, empty, state, set_state, avail, set_avail, count, set_count,
  state_eq,
}
use lralloc_rs.AllocationData.Desc.{Segment, Descriptor}
use lralloc_rs.ThreadCache.{Memory, ThreadCacheBin, new_bin, pop_list}
use lralloc_rs.PageMap.{desc_for_ptr}
use lralloc_rs.Alloc.{
  World, get_heap_at_mut, set_desc, list_push_partial, malloc_from_partial, malloc_from_new_sb,
  unregister_desc, compute_index,
}

-- `fill_cache`, with the answers for a new super block. The fuel is for `malloc_from_partial`.
unfoldable pub fill_cache :
    (no_met_stack : Bool)
    → ℕ
    → Option ℕ
    → Option Segment
    → ℕ
    → ThreadCacheBin
    → World
    → Outcome (ThreadCacheBin × World)
fill_cache no_met_stack fuel page segment index cache w = do
  (cache1, block_num1, w1) ← malloc_from_partial fuel index cache 0 w
  (cache2, block_num2, w2) ←
      (if block_num1 == 0
        then malloc_from_new_sb no_met_stack page segment index cache1 block_num1 w1
        else returned (cache1, block_num1, w1))
  assert (not (block_num2 == 0 || cache2.block_num == 0))
  sc ← unwrap (get_elem? w.classes index)
  returned (record cache2 { block_size = some (sc.block_size) }, w2)

-- The inner loop of `flush_cache`: how many of the blocks from `tail` on stand in one super block, and
-- the last of these.
unfoldable pub run_length : ℕ → ℕ → ℕ → ℕ → ℕ → ℕ → Memory → ℕ × ℕ
run_length zero block_num super_block sb_size block_count tail m = (block_count, tail)
run_length (suc fuel) block_num super_block sb_size block_count tail m =
    let rest = run_length fuel block_num super_block sb_size (block_count + 1) (m tail) m in
    if ltb block_count block_num
      && not (ltb (m tail) super_block || leb (super_block + sb_size) (m tail))
    then rest
    else (block_count, tail)

-- The anchor when `block_count` blocks, block `index` the first, return to their super block.
unfoldable pub returned_anchor : ℕ → ℕ → ℕ → ℕ → Outcome ℕ
returned_anchor max_count index block_count old_anchor = do
  s ← state old_anchor
  let listed = set_avail index old_anchor
  let open_anchor = if state_eq s full then set_state partial listed else listed
  returned (
      if count old_anchor + block_count == max_count
      then set_state empty (set_count (max_count - 1) open_anchor)
      else set_count block_count open_anchor)

-- The end of a round of `flush_cache`: an empty super block goes back to the kernel, one that was full
-- goes to the partial list of its heap.
unfoldable pub reclaim : ℕ → ℕ → ℕ → ℕ → World → Outcome World
reclaim heap desc old_anchor new_anchor w = do
  new_state ← state new_anchor
  old_state ← state old_anchor
  let d = w.store.descs desc
  if state_eq new_state empty
      then (do
        super_block ← unwrap d.super_block
        w' ← unregister_desc (some heap) super_block w
        returned (
            set_desc desc (record d { super_block = none })
              (record w' { unmapped = super_block ∷ w'.unmapped })))
      else returned (if state_eq old_state full then list_push_partial desc w else w)

-- A round of `flush_cache`, with the descriptor of the bin's top
unfoldable pub flush_run :
    ℕ → SizeClassData → ℕ → ℕ → ThreadCacheBin → World → Outcome (ThreadCacheBin × World)
unfolding run_length returned_anchor reclaim
flush_run index sc heap desc cache w = do
  let d = w.store.descs desc
  super_block ← unwrap d.super_block
  let (block_count, tail) =
      run_length (cache.block_num) (cache.block_num) (super_block.ptr) (sc.sb_size) 1 (cache.block)
        (w.memory)
  cache' ← pop_list cache (w.memory tail) block_count
  first ← compute_index (super_block.ptr) (cache.block) index
  new_anchor ← returned_anchor (d.max_count) first block_count (d.anchor)
  let next = super_block.ptr + avail (d.anchor) * sc.block_size
  w' ← reclaim heap desc (d.anchor) new_anchor (
      set_desc desc (record d { anchor = new_anchor })
        (record w { memory = update (w.memory) tail next }))
  returned (cache', w')

-- The loop of `flush_cache`. Where the top has no descriptor, the function returns at once.
unfoldable pub flush_runs :
    ℕ → ℕ → SizeClassData → ℕ → ThreadCacheBin → World → Outcome (ThreadCacheBin × World)
flush_runs zero index sc heap cache w = returned (record cache { block_size = none }, w)
flush_runs (suc fuel) index sc heap cache w =
    if cache.block_num == 0
    then returned (record cache { block_size = none }, w)
    else elim (desc_for_ptr (w.pages) (cache.block)) [
      | none ↦ returned (cache, w)
      | some desc ↦
          flush_run index sc heap desc cache w >>= λ r. flush_runs fuel index sc heap r.0 r.1
    ]

-- `flush_cache`: each round pops a block at least
unfoldable pub flush_cache : ℕ → ThreadCacheBin → World → Outcome (ThreadCacheBin × World)
unfolding flush_runs
flush_cache index cache w = do
  heap ← get_heap_at_mut index w
  sc ← unwrap (get_elem? w.classes index)
  flush_runs (cache.block_num) index sc heap cache w

-- `ThreadCache::new`
abbrev pub new_thread_cache : List ThreadCacheBin
new_thread_cache = replicate max_sz_idx new_bin

-- `ThreadCache::drop` over the bins that are left
unfoldable pub drop_bins : (ℕ → ℕ) → List ThreadCacheBin → World → Outcome World
unfolding flush_cache
drop_bins table [] w = returned w
drop_bins table (bin ∷ bins) w = do
  w' ← elim bin.block_size [
    | none ↦ returned w
    | some sz ↦ flush_cache (get_size_class table sz) bin w >>= λ r. returned r.1
  ]
  drop_bins table bins w'
