-- ===== src/Malloc.antt =====
-- src/lib.rs: malloc, aligned malloc, realloc and free for a thread whose program has run
-- `init_malloc`. What the kernel answers in a call is an argument; memory is copied word by word.
-- State has the statics, Hooks the tuners of the thread.
mod State
pub mod Aligned
pub mod Hooks
pub mod Init
pub mod Power
pub mod Small
pub mod Large
pub mod Tests
pub use State.{Thread, Tuning, new_tuning, Call, BinHolds}
use Hooks.{tune_malloc, tune_free}
use lralloc_rs.Common.{
  ℕ, zero, suc, ◌+◌, ◌-◌, ◌*◌, ◌%◌, bit_and, max, Bool, true, false, ◌&&◌, ◌||◌, not, Option, none,
  some, List, [], ◌∷◌, get_elem?, set, ltb, leb, ◌==◌, if◌then◌else◌, Outcome, returned, panicked,
  unwrap, ◌>>=◌, ◌>>◌,
}
use lralloc_rs.MemInfo.{word, not64, max_sz, page, align_size, align_addr, page_ceiling}
use lralloc_rs.SizeClasses.{u32_mod, get_size_class}
use lralloc_rs.AllocationData.{full, set_state, default_anchor}
use lralloc_rs.AllocationData.Desc.{Segment, Descriptor, alloc, retire}
use lralloc_rs.ThreadCache.{Memory, ThreadCacheBin, push_block, pop_block}
use lralloc_rs.PageMap.{get_page_info, get_desc, get_size_class_index, update_page_map}
use lralloc_rs.Alloc.{World, set_desc, register_desc, unregister_desc}
use lralloc_rs.Reserve.{fill_cache, flush_cache}
use lralloc_rs.Bootstrap.{BootstrapReserve, reserve}

-- The fields of a descriptor that has one block of `pages` bytes.
unfoldable pub own_large : ℕ → Option Segment → Descriptor → Descriptor
own_large pages segment d = record d {
  proc_heap = 0;
  block_size = pages % u32_mod;
  max_count = 1;
  super_block = segment;
  anchor = set_state full default_anchor;
}

-- A super block of `pages` bytes of its own: its descriptor and address.
unfoldable pub allocate_large : Call → ℕ → World → Outcome (ℕ × ℕ × World)
unfolding own_large
allocate_large call pages w = do
  (desc, store) ← alloc (call.page_answer) (w.store)
  let d = own_large pages (call.segment_answer) (store.descs desc)
  w' ← register_desc desc (set_desc desc d (record w { store = store }))
  super_block ← unwrap d.super_block
  returned (desc, super_block.ptr, w')

-- The branch of `allocate_to_cache` for the thread's bin.
unfoldable pub allocate_from_bin : Call → ℕ → Thread → Outcome (ℕ × Thread)
allocate_from_bin call index t = do
  bin ← unwrap (get_elem? t.bins index)
  (filled, w) ←
      (if bin.block_num == 0
        then fill_cache (call.no_met_stack) (call.fuel) (call.page_answer) (call.segment_answer)
            index bin (t.world)
        else returned (bin, t.world))
  (ptr, popped) ← pop_block (call.no_met_stack) filled (w.memory)
  let t' = record t { world = w; bins = set (t.bins) index popped }
  t'' ← tune_malloc call index ptr t'
  returned (ptr, t'')

unfoldable pub allocate_to_cache : Call → ℕ → ℕ → Thread → Outcome (ℕ × Thread)
allocate_to_cache call size index t =
    if t.use_bootstrap
    then (reserve (call.segment_answer) size (t.bootstrap) >>= λ r.
        returned (r.0, record t { bootstrap = r.1 }))
    else allocate_from_bin call index t

unfoldable pub do_malloc : Call → ℕ → Thread → Outcome (ℕ × Thread)
do_malloc call size t =
    if ltb max_sz size
    then (allocate_large call (page_ceiling size) (t.world) >>= λ r.
        returned (r.1, record t { world = r.2 }))
    else allocate_to_cache call size (get_size_class (t.table) size) t

-- `(x != 0) && (!(x & (x - 1)) != 0)`, where `!` complements a usize
unfoldable pub is_power_of_two : ℕ → Bool
is_power_of_two x = not (x == 0) && not (not64 (bit_and x (x - 1)) == 0)

-- The super block of an aligned allocation above a page; an address in it that is aligned further is entered
-- in the page map, too.
unfoldable pub allocate_aligned : Call → ℕ → ℕ → World → Outcome (ℕ × World)
allocate_aligned call align size w = do
  let need_more_pages = ltb page align
  let larger = max size (max_sz + 1)
  let asked = if need_more_pages then (larger + align) % word else larger
  (desc, ptr, w') ← allocate_large call (page_ceiling asked) w
  let aligned = align_addr ptr align
  if need_more_pages
      then (update_page_map none aligned desc 0 (w'.pages) >>= λ pages.
          returned (aligned, record w' { pages = pages }))
      else returned (ptr, w')

unfoldable pub do_aligned_alloc : Call → ℕ → ℕ → Thread → Outcome (ℕ × Thread)
unfolding allocate_aligned
do_aligned_alloc call align size t =
    let size' = align_size size align in
    if not (is_power_of_two align)
    then returned (0, t)
    else if ltb page size'
    then elim (call.segment_answer) [
      | none ↦ returned (0, t)
      | some segment ↦ allocate_aligned call align size' (t.world) >>= λ r.
          returned (r.0, record t { world = r.1 })
    ]
    else allocate_to_cache call size' (get_size_class (t.table) size') t

-- `get_allocation_size`; no value stands for `Err(())`
unfoldable pub get_allocation_size : ℕ → World → Option ℕ
get_allocation_size ptr w = elim (get_desc (get_page_info (w.pages) ptr)) [
  | none ↦ none
  | some desc ↦ some ((w.store.descs desc).block_size)
]

-- The branch of `do_free` for a super block of one block.
unfoldable pub free_large : ℕ → ℕ → World → Outcome World
free_large ptr desc w = do
  super_block ← unwrap (w.store.descs desc).super_block
  w1 ← unregister_desc none super_block w
  w2 ← if ptr == super_block.ptr then returned w1 else unregister_desc none super_block w1
  let w3 =
      set_desc desc (record (w2.store.descs desc) { super_block = none })
        (record w2 { unmapped = super_block ∷ w2.unmapped })
  returned (record w3 { store = retire desc (w3.store) })

-- The branch of `do_free` for a block of a size class.
unfoldable pub free_to_bin : Call → ℕ → ℕ → Thread → Outcome Thread
free_to_bin call index ptr t0 = do
  t ← tune_free call index ptr t0
  bin ← unwrap (get_elem? t.bins index)
  sc ← unwrap (get_elem? t.world.classes index)
  (room, w) ←
      (if not t.use_apf && leb (sc.cache_block_num) (bin.block_num)
        then flush_cache index bin (t.world)
        else returned (bin, t.world))
  let (pushed, m) = push_block (call.no_met_stack) room ptr (w.memory)
  returned (record t { world = record w { memory = m }; bins = set (t.bins) index pushed })

-- `do_free`, with the descriptor and the size class index that the page map gives for the pointer
unfoldable pub free_found : Call → ℕ → ℕ → ℕ → Thread → Outcome Thread
free_found call ptr desc zero t =
    free_large ptr desc (t.world) >>= λ w. returned (record t { world = w })
free_found call ptr desc (suc i) t = free_to_bin call (suc i) ptr t

unfoldable pub do_free : Call → ℕ → Thread → Outcome Thread
unfolding free_found
do_free call ptr t =
    let info = get_page_info (t.world.pages) ptr in
    let block_size = λ (d : ℕ). (t.world.store.descs d).block_size in
    if ptr == 0 then returned t else elim (get_desc info) [
      | none ↦ returned t
      | some desc ↦ elim (get_size_class_index block_size (t.table) info) [
        | none ↦ free_found call ptr desc 0 t
        | some index ↦ free_found call ptr desc index t
      ]
    ]

-- `memcpy`
unfoldable pub copy : ℕ → ℕ → ℕ → Memory → Memory
copy to from size m a = if leb to a && ltb a (to + size) then m (from + (a - to)) else m a

-- The branch of `do_realloc` that moves `old_size` bytes; the call of `do_free` has its own answers.
unfoldable pub move : Call → Call → ℕ → ℕ → ℕ → Thread → Outcome (ℕ × Thread)
unfolding copy
move call free_call ptr size old_size t = do
  (ret, t') ← do_malloc call size t
  let m =
      if not (ret == 0) && not (ret == ptr)
      then copy ret ptr old_size (t'.world.memory)
      else t'.world.memory
  t'' ← do_free free_call ptr (record t' { world = record (t'.world) { memory = m } })
  returned (ret, t'')

-- whether `do_realloc` keeps the block
unfoldable pub keeps : (ℕ → ℕ) → ℕ → ℕ → Bool
keeps table size old_size =
    let new_class = get_size_class table size in
    let old_class = get_size_class table old_size in
    not (old_class == 0) && old_class == new_class
    || old_class == 0 && new_class == 0 && ltb size old_size

unfoldable pub do_realloc : Call → Call → ℕ → ℕ → Thread → Outcome (ℕ × Thread)
unfolding move keeps
do_realloc call free_call ptr size t =
    if ptr == 0 then do_malloc call size t else elim (get_allocation_size ptr (t.world)) [
      | none ↦ do_malloc call size t
      | some old_size ↦
          if keeps (t.table) size old_size
          then returned (ptr, t)
          else move call free_call ptr size old_size t
    ]
