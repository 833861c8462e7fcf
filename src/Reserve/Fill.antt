-- ===== src/Reserve/Fill.antt =====
-- Filling a bin when the reserve has no partly used super block.
use lralloc_rs.Common.{
  ℕ, suc, ◌+◌, ◌*◌, ◌<◌, ◌≡◌, refl, sym, false, true, not, ◌||◌, [], Option, some, arith, ltb,
  lt→ltb, ◌==◌, Returns, returns, returned, result,
}
use lralloc_rs.MemInfo.{max_sz_idx}
use lralloc_rs.SizeClasses.{SizeClassData}
use lralloc_rs.AllocationData.{full}
use lralloc_rs.AllocationData.Anchor.{Fields}
use lralloc_rs.AllocationData.Desc.{Segment, Store, alloc}
use lralloc_rs.AllocationData.Desc.Nodes.{IsPlace}
use lralloc_rs.ThreadCache.{ThreadCacheBin}
use lralloc_rs.ThreadCache.Stack.{Holds}
use lralloc_rs.PageMap.Update.{Covers}
use lralloc_rs.Alloc.{World, heap_size, get_heap_at_mut, list_pop_partial, malloc_from_partial}
use lralloc_rs.Alloc.Partial.{IsPartial}
use lralloc_rs.Alloc.Fresh.{
  IsClass, IsMapped, IsSetUp, blocks, length-blocks, malloc_from_new_sb-IsFilled,
}
use lralloc_rs.Reserve.{fill_cache}

malloc_from_partial-none :
    (index fuel : ℕ) (c : ThreadCacheBin) (b : ℕ) (w : World)
    → index < max_sz_idx
    → IsPartial (w.heaps_at + index * heap_size) w []
    → malloc_from_partial (suc fuel) index c b w ≡ returned (c, b, w)
unfolding malloc_from_partial get_heap_at_mut list_pop_partial
malloc_from_partial-none index fuel c b w inside l =
    let ok : ltb index max_sz_idx ≡ true = lt→ltb index max_sz_idx inside in
    rw (ok, list_pop_partial, l) refl

-- Where the heap of the class has no partly used super block, the segment allocator answers zeroed
-- whole pages and a descriptor is given, fill_cache returns with a bin that holds all blocks of the
-- new super block in the order of their addresses; the addresses of the super block lead to its
-- descriptor and all other addresses lead where they led before, and the anchor is FULL and counts
-- no block.
pub fill_cache-Holds :
    (index fuel : ℕ) (sc : SizeClassData) (seg : Segment) (c : ThreadCacheBin) (w : World)
    (given : Option ℕ) (desc : ℕ) (store : Store)
    → IsSetUp index sc w
    → IsClass sc
    → IsMapped sc seg (w.memory)
    → IsPartial (w.heaps_at + index * heap_size) w []
    → alloc given (w.store) ≡ returned (desc, store)
    → IsPlace desc
    → c.block_num ≡ 0
    → Returns
        (λ r.
          Holds (sc.block_size) (r.1.memory) r.0 (blocks (sc.block_num) (sc.block_size) (seg.ptr))
          × Covers (seg.ptr) (sc.sb_size) (some desc) (w.pages) (r.1.pages)
          × Fields ((r.1.store.descs desc).anchor) full (sc.block_num) 0)
        (fill_cache false (suc fuel) given (some seg) index c w)
unfolding fill_cache
fill_cache-Holds index fuel sc seg c w given desc store s k g l got p none_left =
    let (r, ran, both) =
      result
        (malloc_from_new_sb-IsFilled index sc seg c 0 w given desc store s k g got p none_left) in
    let filled = both.0 in
    let counted = both.1 in
    let some_left : not (r.1 == 0 || r.0.block_num == 0) ≡ true =
      rw (counted, filled.number) (ground (arith, k.some_block)) in
    rw (malloc_from_partial-none index fuel c 0 w (s.inside) l, ran, some_left, s.class)
      (returns (
        record {
          sized = refl;
          counted =
              rw (filled.number) (sym (length-blocks (sc.block_num) (sc.block_size) (seg.ptr)));
          linked = filled.linked;
        },
        filled.covers,
        filled.anchor,
      ))
