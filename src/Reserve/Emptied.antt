-- ===== src/Reserve/Emptied.antt =====
-- A bin whose blocks complete a super block, which goes back to the kernel.
use lralloc_rs.Common.{
  ℕ, suc, ◌+◌, ◌-◌, ◌*◌, ◌%◌, ◌^◌, ◌≤◌, ◌<◌, ◌≡◌, ◌≢◌, refl, ap, ◌∙◌, false, true, none, some, List,
  ◌∷◌, arith, ltb, lt→ltb, ◌==◌, length, update, Returns, returns, returned, step, result, unwrap,
}
use lralloc_rs.AllocationData.{SuperBlockState, empty, state, avail}
use lralloc_rs.AllocationData.Anchor.{Fields}
use lralloc_rs.ThreadCache.{ThreadCacheBin}
use lralloc_rs.MemInfo.{max_sz_idx, page}
use lralloc_rs.SizeClasses.{SizeClassData}
use lralloc_rs.AllocationData.Desc.{Segment}
use lralloc_rs.PageMap.{PageMap, desc_for_ptr}
use lralloc_rs.PageMap.Update.{Covers, unregister-Covers, address_space}
use lralloc_rs.Alloc.{
  World, heap_size, get_heap_at_mut, get_size_class_data, compute_index, set_desc, unregister_desc,
}
use lralloc_rs.Alloc.Fresh.{IsSetUp}
use lralloc_rs.Reserve.{run_length, reclaim, flush_run, flush_cache}
use lralloc_rs.Reserve.Flush.{
  Chain, last, run_length-Chain, returned_anchor-Fields, pop_all, flush_runs-none, flush_runs-once,
}

-- A bin whose blocks `x ∷ xs` are all in the super block at `seg`, whole pages in the address space; with the
-- `n` blocks that are free, of which `v` is the first, they are all blocks of it.
pub record IsLast (index : ℕ) (sc : SizeClassData) (seg : Segment) (desc v n i : ℕ)
    (s : SuperBlockState) (c : ThreadCacheBin) (w : World) (x : ℕ) (xs : List ℕ) : Type 0 where
  pub set_up : IsSetUp index sc w
  pub chained : Chain (seg.ptr) (seg.ptr + sc.sb_size) (w.memory) (c.block) (x ∷ xs)
  pub counted : c.block_num ≡ suc (length xs)
  pub found : desc_for_ptr (w.pages) x ≡ some desc
  pub super_block : (w.store.descs desc).super_block ≡ some seg
  pub fields : Fields ((w.store.descs desc).anchor) s v n
  pub live : s ≢ empty
  pub all : (n + suc (length xs) == (w.store.descs desc).max_count) ≡ true
  pub number : compute_index (seg.ptr) x index ≡ returned i
  pub ne_null : 0 < seg.ptr
  pub aligned : seg.ptr % page ≡ 0
  pub whole : sc.sb_size % page ≡ 0
  pub fits : seg.ptr + sc.sb_size ≤ address_space

-- The bin is empty, and the super block is gone: the anchor is EMPTY, the descriptor has no segment, the segment
-- went to munmap, its addresses lead nowhere and all others where they led before; heaps and
-- other descriptors are as they were.
pub record IsGone (sc : SizeClassData) (seg : Segment) (desc i : ℕ) (w : World)
    (c' : ThreadCacheBin) (w' : World) : Type 0 where
  pub none_left : c'.block_num ≡ 0
  pub anchor :
      Fields
        ((w'.store.descs desc).anchor)
        empty
        (i % 2 ^ 30)
        (((w.store.descs desc).max_count - 1) % 2 ^ 32)
  pub super_block : (w'.store.descs desc).super_block ≡ none
  pub unmapped : w'.unmapped ≡ seg ∷ w.unmapped
  pub covers : Covers (seg.ptr) (sc.sb_size) none (w.pages) (w'.pages)
  pub heaps : w'.heaps ≡ w.heaps
  pub others : (d : ℕ) → (d == desc) ≡ false → w'.store.descs d ≡ w.store.descs d

unregister_desc-Covers :
    (index : ℕ) (sc : SizeClassData) (seg : Segment) (w : World)
    → IsSetUp index sc w
    → 0 < seg.ptr
    → seg.ptr % page ≡ 0
    → sc.sb_size % page ≡ 0
    → seg.ptr + sc.sb_size ≤ address_space
    → (pages : PageMap) × (unregister_desc (some (w.heaps_at + index * heap_size)) seg w
        ≡ returned (record w { pages = pages }))
      × Covers (seg.ptr) (sc.sb_size) none (w.pages) pages
unfolding unregister_desc get_size_class_data
unregister_desc-Covers index sc seg w s pos aligned whole fits =
    let (pages, ran, covers) =
      result (unregister-Covers (seg.ptr) (sc.sb_size) (w.pages) pos aligned whole fits) in
    (pages, rw (s.heap, s.class, ran) refl, covers)

-- The end of a round whose anchor has become EMPTY.
reclaim-empty :
    (heap desc old new : ℕ) (s : SuperBlockState) (seg : Segment) (pages : PageMap) (w : World)
    → state new ≡ returned empty
    → state old ≡ returned s
    → (w.store.descs desc).super_block ≡ some seg
    → unregister_desc (some heap) seg w ≡ returned (record w { pages = pages })
    → reclaim heap desc old new w
      ≡ returned (
          set_desc desc
            (record (w.store.descs desc) { super_block = none })
            (record w { pages = pages; unmapped = seg ∷ w.unmapped }))
unfolding reclaim
reclaim-empty heap desc old new s seg pages w is was mapped cleared =
    rw (is, was, mapped, cleared) refl

flush_run-IsGone :
    (index : ℕ) (sc : SizeClassData) (seg : Segment) (desc v n i : ℕ) (s : SuperBlockState)
    (c : ThreadCacheBin) (w : World) (x : ℕ) (xs : List ℕ)
    → IsLast index sc seg desc v n i s c w x xs
    → Returns
        (λ r. IsGone sc seg desc i w r.0 r.1)
        (flush_run index sc (w.heaps_at + index * heap_size) desc c w)
unfolding flush_run
flush_run-IsGone index sc seg desc v n i s c w x xs o =
    let d = w.store.descs desc in
    let k = suc (length xs) in
    let self : (desc == desc) ≡ true = ground arith in
    let counted = o.counted in
    let top = o.chained.0 in
    let run : run_length (c.block_num) (c.block_num) (seg.ptr) (sc.sb_size) 1 (c.block) (w.memory)
        ≡ (k, last x xs) =
      rw (counted, top)
        (run_length-Chain k 1 k (seg.ptr) (sc.sb_size) x (w.memory) xs (o.chained.3) (omega arith)
          (omega arith)) in
    let number : compute_index (seg.ptr) (c.block) index ≡ returned i = rw top (o.number) in
    let (a', ran, f) =
      result (returned_anchor-Fields (d.max_count) i k (d.anchor) v n s (o.fields) (o.live)) in
    let fields : Fields a' empty (i % 2 ^ 30) ((d.max_count - 1) % 2 ^ 32) = rw (o.all) at f in
    let after =
      set_desc desc (record d { anchor = a' })
        (record w {
          memory = update (w.memory) (last x xs) (seg.ptr + avail (d.anchor) * sc.block_size);
        }) in
    let set_up : IsSetUp index sc after = record {
      inside = o.set_up.inside;
      class = o.set_up.class;
      heap = o.set_up.heap;
      ne_null = o.set_up.ne_null;
    } in
    let (pages, cleared, covers) =
      unregister_desc-Covers index sc seg after set_up (o.ne_null) (o.aligned) (o.whole) (o.fits) in
    let mapped : (after.store.descs desc).super_block ≡ some seg = rw self (o.super_block) in
    step _ (ap unwrap (o.super_block)) (
      rw run (
        step _ (pop_all c k (w.memory (last x xs)) counted) (
          step _ number (
            step _ ran (
              step (λ w'. returned (record c { block = w.memory (last x xs); block_num = 0 }, w'))
                (reclaim-empty (w.heaps_at + index * heap_size) desc (d.anchor) a' s seg pages after
                  (fields.state_is) (o.fields.state_is) mapped cleared)
                (returns (record {
                  none_left = refl;
                  anchor = rw self fields;
                  super_block = rw self refl;
                  unmapped = refl;
                  covers = covers;
                  heaps = refl;
                  others = λ e ne. rw ne refl;
                })))))))

-- Flushing a bin whose blocks are linked by whole addresses, are all in one super block that is not
-- EMPTY, and with the blocks that its anchor counts are all blocks of it, returns: the bin is
-- empty, the anchor is EMPTY, the descriptor has no segment, the segment went back to the kernel,
-- its addresses lead to no descriptor, all other addresses where they led before, and heaps and
-- other descriptors are as they were.
pub flush_cache-IsGone :
    (index : ℕ) (sc : SizeClassData) (seg : Segment) (desc v n i : ℕ) (s : SuperBlockState)
    (c : ThreadCacheBin) (w : World) (x : ℕ) (xs : List ℕ)
    → IsLast index sc seg desc v n i s c w x xs
    → Returns
        (λ r. IsGone sc seg desc i w r.0 r.1 × (r.0.block_size ≡ none))
        (flush_cache index c w)
unfolding flush_cache get_heap_at_mut
flush_cache-IsGone index sc seg desc v n i s c w x xs o =
    let ok : ltb index max_sz_idx ≡ true = lt→ltb index max_sz_idx (o.set_up.inside) in
    let (r, ran, gone) = result (flush_run-IsGone index sc seg desc v n i s c w x xs o) in
    let found : desc_for_ptr (w.pages) (c.block) ≡ some desc = rw (o.chained.0) (o.found) in
    let heap = w.heaps_at + index * heap_size in
    let done =
      flush_runs-once (length xs) index heap desc sc c w r (o.counted) found ran
      ∙ flush_runs-none (length xs) index heap sc r.0 r.1 (gone.none_left) in
    rw (ok, o.set_up.class, done)
      (returns (
        record {
          none_left = gone.none_left;
          anchor = gone.anchor;
          super_block = gone.super_block;
          unmapped = gone.unmapped;
          covers = gone.covers;
          heaps = gone.heaps;
          others = gone.others;
        },
        refl,
      ))
