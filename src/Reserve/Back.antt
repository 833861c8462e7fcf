-- ===== src/Reserve/Back.antt =====
-- A bin whose blocks all go back to their super block.
use lralloc_rs.Common.{
  has, ℕ, suc, ◌+◌, ◌*◌, ◌%◌, ◌^◌, ◌≡◌, refl, ap, ◌∙◌, false, true, none, some, List, ◌∷◌, arith,
  ltb, lt→ltb, ◌==◌, length, update, Returns, returns, returned, step, result, unwrap,
}
use lralloc_rs.AllocationData.{full, partial, avail}
use lralloc_rs.AllocationData.Anchor.{Fields}
use lralloc_rs.ThreadCache.{ThreadCacheBin}
use lralloc_rs.MemInfo.{max_sz_idx}
use lralloc_rs.SizeClasses.{SizeClassData}
use lralloc_rs.AllocationData.Desc.{Segment}
use lralloc_rs.AllocationData.Desc.Nodes.{IsPlace}
use lralloc_rs.PageMap.{desc_for_ptr}
use lralloc_rs.Alloc.{World, heap_size, get_heap_at_mut, compute_index}
use lralloc_rs.Alloc.Partial.{IsPartial}
use lralloc_rs.Alloc.Fresh.{IsSetUp}
use lralloc_rs.Reserve.{run_length, flush_run, flush_cache}
use lralloc_rs.Reserve.Flush.{
  Chain, last, run_length-Chain, returned_anchor-Fields, pop_all, reclaim-Relisted, flush_runs-none,
  flush_runs-once,
}

-- A bin whose blocks `x ∷ xs` are all in the super block at `seg`, but not all blocks of it, with a
-- descriptor that is FULL, so in no list; block `v` is where its list of free blocks ends.
pub record IsOut (index : ℕ) (sc : SizeClassData) (seg : Segment) (desc v i : ℕ)
    (c : ThreadCacheBin) (w : World) (x : ℕ) (xs ds : List ℕ) : Type 0 where
  pub set_up : IsSetUp index sc w
  pub chained : Chain (seg.ptr) (seg.ptr + sc.sb_size) (w.memory) (c.block) (x ∷ xs)
  pub counted : c.block_num ≡ suc (length xs)
  pub found : desc_for_ptr (w.pages) x ≡ some desc
  pub super_block : (w.store.descs desc).super_block ≡ some seg
  pub fields : Fields ((w.store.descs desc).anchor) full v 0
  pub fewer : (suc (length xs) == (w.store.descs desc).max_count) ≡ false
  pub number : compute_index (seg.ptr) x index ≡ returned i
  pub heap : (w.store.descs desc).proc_heap ≡ w.heaps_at + index * heap_size
  pub place : IsPlace desc
  pub unlisted : has desc ds ≡ false
  pub listed : IsPartial (w.heaps_at + index * heap_size) w ds

-- The bin is empty; the super block lists the blocks from the bin's top on and counts them, the last
-- links to block `v`, and the descriptor is the first in the partial list of its heap.
pub record IsBack (index : ℕ) (sc : SizeClassData) (seg : Segment) (desc v i : ℕ) (w : World)
    (x : ℕ) (xs ds : List ℕ) (c' : ThreadCacheBin) (w' : World) : Type 0 where
  pub none_left : c'.block_num ≡ 0
  pub anchor : Fields ((w'.store.descs desc).anchor) partial (i % 2 ^ 30) (suc (length xs) % 2 ^ 32)
  pub memory : w'.memory ≡ update (w.memory) (last x xs) (seg.ptr + v * sc.block_size)
  pub listed : IsPartial (w.heaps_at + index * heap_size) w' (desc ∷ ds)

flush_run-IsBack :
    (index : ℕ) (sc : SizeClassData) (seg : Segment) (desc v i : ℕ) (c : ThreadCacheBin) (w : World)
    (x : ℕ) (xs ds : List ℕ)
    → IsOut index sc seg desc v i c w x xs ds
    → Returns
        (λ r. IsBack index sc seg desc v i w x xs ds r.0 r.1)
        (flush_run index sc (w.heaps_at + index * heap_size) desc c w)
unfolding flush_run
flush_run-IsBack index sc seg desc v i c w x xs ds o =
    let d = w.store.descs desc in
    let n = suc (length xs) in
    let counted = o.counted in
    let top = o.chained.0 in
    let run : run_length (c.block_num) (c.block_num) (seg.ptr) (sc.sb_size) 1 (c.block) (w.memory)
        ≡ (n, last x xs) =
      rw (counted, top)
        (run_length-Chain n 1 n (seg.ptr) (sc.sb_size) x (w.memory) xs (o.chained.3) (omega arith)
          (omega arith)) in
    let number : compute_index (seg.ptr) (c.block) index ≡ returned i = rw top (o.number) in
    let (a', ran, f) =
      result (returned_anchor-Fields (d.max_count) i n (d.anchor) v 0 full (o.fields) (λ e. cc)) in
    let fields : Fields a' partial (i % 2 ^ 30) (n % 2 ^ 32) =
      let fewer : (0 + n == d.max_count) ≡ false = ground (arith, o.fewer) in rw fewer at f in
    let m = update (w.memory) (last x xs) (seg.ptr + avail (d.anchor) * sc.block_size) in
    let (w', gone, re) = result (
      reclaim-Relisted (w.heaps_at + index * heap_size) desc a' m ds w (o.fields.state_is)
        (fields.state_is) (o.heap) (o.place) (o.unlisted) (o.listed)) in
    step _ (ap unwrap (o.super_block)) (
      rw run (
        step _ (pop_all c n (w.memory (last x xs)) counted) (
          step _ number (
            step _ ran (
              step (λ w''. returned (record c { block = w.memory (last x xs); block_num = 0 }, w''))
                gone
                (returns (record {
                  none_left = refl;
                  anchor = rw (re.anchor) fields;
                  memory = re.memory ∙ rw (o.fields.avail_is) refl;
                  listed = re.listed;
                })))))))

-- Flushing a bin whose blocks are linked by whole addresses and are some, not all, blocks of one
-- FULL super block returns: the bin is empty, the anchor is PARTIAL with the number of the first
-- block and the count of the blocks, the last block links to the old free list, and the descriptor
-- heads the partial list of its heap.
pub flush_cache-IsBack :
    (index : ℕ) (sc : SizeClassData) (seg : Segment) (desc v i : ℕ) (c : ThreadCacheBin) (w : World)
    (x : ℕ) (xs ds : List ℕ)
    → IsOut index sc seg desc v i c w x xs ds
    → Returns
        (λ r. IsBack index sc seg desc v i w x xs ds r.0 r.1 × (r.0.block_size ≡ none))
        (flush_cache index c w)
unfolding flush_cache get_heap_at_mut
flush_cache-IsBack index sc seg desc v i c w x xs ds o =
    let ok : ltb index max_sz_idx ≡ true = lt→ltb index max_sz_idx (o.set_up.inside) in
    let (r, ran, back) = result (flush_run-IsBack index sc seg desc v i c w x xs ds o) in
    let found : desc_for_ptr (w.pages) (c.block) ≡ some desc = rw (o.chained.0) (o.found) in
    let heap = w.heaps_at + index * heap_size in
    let done =
      flush_runs-once (length xs) index heap desc sc c w r (o.counted) found ran
      ∙ flush_runs-none (length xs) index heap sc r.0 r.1 (back.none_left) in
    rw (ok, o.set_up.class, done)
      (returns (
        record {
          none_left = back.none_left;
          anchor = back.anchor;
          memory = back.memory;
          listed = back.listed;
        },
        refl,
      ))
