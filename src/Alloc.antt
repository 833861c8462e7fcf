-- ===== src/Alloc.antt =====
-- src/alloc.rs and src/allocation_data/proc_heap.rs: the heaps, one for each size class, their lists
-- of partly used super blocks, and how a bin gets blocks from them or from a new super block. The
-- World holds the program's statics. What mmap and page_alloc answer are arguments. The loops around
-- compare_exchange end in their first round here, where no other thread interferes.
pub mod Partial
pub mod Fresh
pub mod Taking
pub mod Counted
mod Tests
use lralloc_rs.Common.{
  ℕ, zero, suc, ◌+◌, ◌-◌, ◌*◌, ◌/◌, ◌%◌, ◌^◌, Bool, true, false, Option, none, some, List,
  get_elem?, map, ltb, leb, ◌==◌, min, if◌then◌else◌, update, Outcome, returned, panicked, assert,
  unwrap, ◌>>=◌, ◌>>◌,
}
use lralloc_rs.MemInfo.{max_sz_idx}
use lralloc_rs.SizeClasses.{SizeClassData, u32_mod, small_classes}
use lralloc_rs.AllocationData.{
  full, partial, empty, state, set_state, avail, set_avail, count, set_count, default_anchor,
  state_eq,
}
use lralloc_rs.AllocationData.Desc.{
  Segment, DescriptorNode, set, get_desc, get_counter, Descriptor, Store, retire, alloc,
}
use lralloc_rs.ThreadCache.{Memory, usize_max, ThreadCacheBin, push_block, push_list}
use lralloc_rs.PageMap.{PageMap, update_page_map}

pub record ProcHeap : Type 0 where
  pub partial_list : Option DescriptorNode
  pub size_class_index : ℕ

-- `ProcHeap::new_none`
abbrev pub new_none : ℕ → ProcHeap
new_none index = record { partial_list = none; size_class_index = index }

-- `unmapped` records the segments that went back to the kernel, the last one first.
pub record World : Type 0 where
  pub store : Store
  pub heaps : ℕ → ProcHeap
  pub heaps_at : ℕ
  pub classes : List SizeClassData
  pub memory : Memory
  pub pages : PageMap
  pub unmapped : List Segment

-- `size_of::<ProcHeap>()`: it is aligned to 64
abbrev pub heap_size : ℕ
heap_size = 64

-- `Heaps::get_heap_at_mut`
unfoldable pub get_heap_at_mut : ℕ → World → Outcome ℕ
get_heap_at_mut index w =
    if ltb index max_sz_idx then returned (w.heaps_at + index * heap_size) else panicked

-- `ProcHeap::get_size_class`, of the heap at an address
unfoldable pub get_size_class_data : ℕ → World → Outcome SizeClassData
get_size_class_data heap w = unwrap (get_elem? w.classes (w.heaps heap).size_class_index)

abbrev pub set_desc : ℕ → Descriptor → World → World
set_desc d v w = record w { store = record (w.store) { descs = update (w.store.descs) d v } }

abbrev pub set_partial_list : ℕ → Option DescriptorNode → World → World
set_partial_list heap list w = record w {
  heaps = update (w.heaps) heap (record (w.heaps heap) { partial_list = list });
}

-- the `new_head` of `list_pop_partial`
unfoldable pub tail_node : Option DescriptorNode → Outcome (Option DescriptorNode)
tail_node none = returned none
tail_node (some node) = do
  desc ← unwrap (get_desc node)
  returned (some (set (some desc) (get_counter node)))

unfoldable pub list_pop_partial : ℕ → World → Outcome (Option ℕ × World)
unfolding tail_node
list_pop_partial heap w = elim (w.heaps heap).partial_list [
  | none ↦ returned (none, w)
  | some old_head ↦ (do
    old_desc ← unwrap (get_desc old_head)
    new_head ← tail_node (w.store.descs old_desc).next_partial
    returned (some old_desc, set_partial_list heap new_head w))
]

-- the counter of the `new_head` of `list_push_partial`
unfoldable pub next_counter : Option DescriptorNode → ℕ
next_counter none = 0
next_counter (some old_head) = get_counter old_head + 1

unfoldable pub list_push_partial : ℕ → World → World
list_push_partial desc w =
    let d = w.store.descs desc in
    let old_head = (w.heaps d.proc_heap).partial_list in
    set_partial_list d.proc_heap (some (set (some desc) (next_counter old_head)))
      (set_desc desc (record d { next_partial = old_head }) w)

-- The anchor of a super block whose blocks all went to a bin, from an anchor and the new `avail`.
unfoldable pub taken_anchor : ℕ → ℕ → ℕ
taken_anchor available anchor = set_state full (set_avail available (set_count 0 anchor))

-- `malloc_from_partial` from the anchor on
unfoldable pub take_all : ℕ → ThreadCacheBin → ℕ → World → Outcome (ThreadCacheBin × ℕ × World)
unfolding taken_anchor
take_all desc cache block_num w = do
  let d = w.store.descs desc
  let w' = set_desc desc (record d { anchor = taken_anchor (d.max_count) (d.anchor) }) w
  super_block ← unwrap d.super_block
  assert (leb (avail (d.anchor)) (d.max_count))
  assert (cache.block_num == 0)
  cache' ← push_list cache (super_block.ptr + avail (d.anchor) * d.block_size) (count (d.anchor))
  returned (cache', block_num + 1, w')

-- `malloc_from_partial`; it calls itself once for each empty super block it retires
unfoldable pub malloc_from_partial :
    ℕ → ℕ → ThreadCacheBin → ℕ → World → Outcome (ThreadCacheBin × ℕ × World)
unfolding list_pop_partial take_all
malloc_from_partial zero index cache block_num w = panicked
malloc_from_partial (suc fuel) index cache block_num w = do
  heap ← get_heap_at_mut index w
  (popped, w') ← list_pop_partial heap w
  elim popped [
    | none ↦ returned (cache, block_num, w')
    | some desc ↦ (do
      s ← state ((w'.store.descs desc).anchor)
      let retry =
          malloc_from_partial fuel index cache block_num
            (record w' { store = retire desc (w'.store) })
      if state_eq s empty then retry else take_all desc cache block_num w')
  ]

-- `register_desc`
unfoldable pub register_desc : ℕ → World → Outcome World
register_desc desc w = do
  let d = w.store.descs desc
  super_block ← unwrap d.super_block
  pages ←
      (if d.proc_heap == 0
        then update_page_map none (super_block.ptr) desc 0 (w.pages)
        else get_size_class_data (d.proc_heap) w >>= λ sc.
            update_page_map (some (sc.sb_size)) (super_block.ptr) desc 0 (w.pages))
  returned (record w { pages = pages })

-- `unregister_desc`, for a missing heap or the heap at an address
unfoldable pub unregister_desc : Option ℕ → Segment → World → Outcome World
unregister_desc heap super_block w = do
  pages ← elim heap [
    | none ↦ update_page_map none (super_block.ptr) 0 0 (w.pages)
    | some h ↦ get_size_class_data h w >>= λ sc.
        update_page_map (some (sc.sb_size)) (super_block.ptr) 0 0 (w.pages)
  ]
  returned (record w { pages = pages })

-- The loop of `no_met_stack`: block `k` links to the block after it, the last one to null.
unfoldable pub link_blocks : ℕ → ℕ → ℕ → ℕ → Memory → Memory
link_blocks zero super_block block_size last m = m
link_blocks (suc block_num) super_block block_size last m =
    let current = super_block + block_size * block_num % u32_mod in
    link_blocks block_num super_block block_size current (update m current last)

-- The first words of the `n` blocks of a new super block.
unfoldable pub init_blocks : (no_met_stack : Bool) → ℕ → ℕ → ℕ → Memory → Memory
unfolding link_blocks
init_blocks true super_block block_size n m = link_blocks n super_block block_size 0 m
init_blocks false super_block block_size n m =
    update m (super_block + block_size * n - block_size) usize_max

-- The anchor of a super block whose `n` blocks all went to a bin.
unfoldable pub full_anchor : ℕ → ℕ
full_anchor n = set_state full (set_count 0 (set_avail n default_anchor))

-- The fields that `malloc_from_new_sb` fills in.
unfoldable pub own : ℕ → SizeClassData → Option Segment → Descriptor → Descriptor
own heap sc segment d = record d {
  proc_heap = heap;
  block_size = sc.block_size;
  max_count = sc.block_num % u32_mod;
  super_block = segment;
}

-- The end of `malloc_from_new_sb`, for a descriptor `d` that is filled in: `n` blocks go to the bin.
unfoldable pub hand_out :
    (no_met_stack : Bool)
    → ℕ
    → Descriptor
    → ℕ
    → ThreadCacheBin
    → World
    → Outcome (ThreadCacheBin × World)
hand_out no_met_stack desc d n cache w = do
  super_block ← unwrap d.super_block
  let m = init_blocks no_met_stack (super_block.ptr) (d.block_size) n (w.memory)
  cache' ← push_list cache (super_block.ptr) (n % u32_mod)
  w' ←
      register_desc desc
        (set_desc desc (record d { anchor = full_anchor n }) (record w { memory = m }))
  returned (cache', w')

-- `malloc_from_new_sb`, with the answers of `page_alloc` and of the segment allocator
unfoldable pub malloc_from_new_sb :
    (no_met_stack : Bool)
    → Option ℕ
    → Option Segment
    → ℕ
    → ThreadCacheBin
    → ℕ
    → World
    → Outcome (ThreadCacheBin × ℕ × World)
malloc_from_new_sb no_met_stack page segment index cache block_num w = do
  heap ← get_heap_at_mut index w
  sc ← unwrap (get_elem? w.classes index)
  (desc, store) ← alloc page (w.store)
  (cache', w') ←
      hand_out no_met_stack desc (own heap sc segment (store.descs desc)) (sc.block_num) cache
        (record w { store = store })
  returned (cache', block_num + sc.block_num, w')

-- `compute_index`: the number of the block at `block`, in a class of the macro's table
unfoldable pub compute_index : ℕ → ℕ → ℕ → Outcome ℕ
compute_index super_block block size_class_index =
    let diff = (block % u32_mod + (u32_mod - super_block % u32_mod)) % u32_mod in
    if size_class_index == 0
    then panicked
    else unwrap (get_elem? small_classes (size_class_index - 1)) >>= λ sc.
        returned (diff / sc.block_size)
