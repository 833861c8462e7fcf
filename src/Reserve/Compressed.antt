-- ===== src/Reserve/Compressed.antt =====
-- A bin with a compressed link on top, which `flush_cache` reads as an address.
use lralloc_rs.Common.{
  has, List, ◌∷◌, ◌∙◌, ℕ, suc, ◌+◌, ◌-◌, ◌*◌, ◌%◌, ◌^◌, ◌<◌, ◌≡◌, refl, ap, false, true, not, ◌&&◌,
  ◌||◌, none, some, arith, ltb, leb, lt→ltb, ◌==◌, update, Returns, returns, returned, step, result,
  unwrap,
}
use lralloc_rs.AllocationData.{full, partial, avail}
use lralloc_rs.AllocationData.Anchor.{Fields}
use lralloc_rs.ThreadCache.{ThreadCacheBin, pop_list}
use lralloc_rs.MemInfo.{max_sz_idx}
use lralloc_rs.SizeClasses.{SizeClassData}
use lralloc_rs.AllocationData.Desc.{Segment}
use lralloc_rs.AllocationData.Desc.Nodes.{IsPlace}
use lralloc_rs.Alloc.Partial.{IsPartial}
use lralloc_rs.PageMap.{desc_for_ptr}
use lralloc_rs.Alloc.{World, heap_size, get_heap_at_mut, compute_index}
use lralloc_rs.Alloc.Fresh.{IsSetUp}
use lralloc_rs.Reserve.{run_length, flush_run, flush_runs, flush_cache}
use lralloc_rs.Reserve.Flush.{returned_anchor-Fields, reclaim-Relisted, flush_runs-once}

pop_one :
    (c : ThreadCacheBin) (k b : ℕ)
    → c.block_num ≡ suc (suc k)
    → pop_list c b 1 ≡ returned (record c { block = b; block_num = suc k })
unfolding pop_list
pop_one c k b counted =
    let enough : ltb (suc (suc k)) 1 ≡ false = ground arith in
    let left : suc (suc k) - 1 ≡ suc k = omega arith in rw (counted, enough, left) refl

-- A bin of `k + 2` blocks whose top has the link 0, which stands for the block behind it, and is in a super
-- block that is FULL and has more than one block; its descriptor is not in the partial list `ds`.
pub record IsCompressed (index : ℕ) (seg : Segment) (desc v i k : ℕ) (c : ThreadCacheBin)
    (w : World) (ds : List ℕ) : Type 0 where
  pub counted : c.block_num ≡ suc (suc k)
  pub link : w.memory (c.block) ≡ 0
  pub found : desc_for_ptr (w.pages) (c.block) ≡ some desc
  pub null : desc_for_ptr (w.pages) 0 ≡ none
  pub super_block : (w.store.descs desc).super_block ≡ some seg
  pub ne_null : 0 < seg.ptr
  pub fields : Fields ((w.store.descs desc).anchor) full v 0
  pub fewer : (1 == (w.store.descs desc).max_count) ≡ false
  pub number : compute_index (seg.ptr) (c.block) index ≡ returned i
  pub heap : (w.store.descs desc).proc_heap ≡ w.heaps_at + index * heap_size
  pub place : IsPlace desc
  pub unlisted : has desc ds ≡ false
  pub listed : IsPartial (w.heaps_at + index * heap_size) w ds

-- The top alone is back: the anchor lists and counts one block, which links to block `v`, the descriptor is
-- the first in the partial list of its heap, and the bin has a null top for the blocks that it counts.
pub record IsTopBack (index : ℕ) (sc : SizeClassData) (seg : Segment) (desc v i k : ℕ)
    (c : ThreadCacheBin) (w : World) (ds : List ℕ) (c' : ThreadCacheBin) (w' : World) : Type 0 where
  pub top : c'.block ≡ 0
  pub counted : c'.block_num ≡ suc k
  pub anchor : Fields ((w'.store.descs desc).anchor) partial (i % 2 ^ 30) 1
  pub memory : w'.memory ≡ update (w.memory) (c.block) (seg.ptr + v * sc.block_size)
  pub pages : w'.pages ≡ w.pages
  pub listed : IsPartial (w.heaps_at + index * heap_size) w' (desc ∷ ds)

flush_run-Compressed :
    (index : ℕ) (sc : SizeClassData) (seg : Segment) (desc v i k : ℕ) (c : ThreadCacheBin)
    (w : World) (ds : List ℕ)
    → IsCompressed index seg desc v i k c w ds
    → Returns
        (λ r. IsTopBack index sc seg desc v i k c w ds r.0 r.1)
        (flush_run index sc (w.heaps_at + index * heap_size) desc c w)
unfolding flush_run run_length
flush_run-Compressed index sc seg desc v i k c w ds o =
    let d = w.store.descs desc in
    let counted = o.counted in
    let stop : (ltb 1 (suc (suc k)) && not (ltb 0 (seg.ptr) || leb (seg.ptr + sc.sb_size) 0))
        ≡ false =
      ground (arith, o.ne_null) in
    let run : run_length (c.block_num) (c.block_num) (seg.ptr) (sc.sb_size) 1 (c.block) (w.memory)
        ≡ (1, c.block) =
      rw (counted, o.link, stop) refl in
    let (a', ran, f) =
      result (returned_anchor-Fields (d.max_count) i 1 (d.anchor) v 0 full (o.fields) (λ e. cc)) in
    let fields : Fields a' partial (i % 2 ^ 30) (1 % 2 ^ 32) =
      let fewer : (0 + 1 == d.max_count) ≡ false = ground (arith, o.fewer) in rw fewer at f in
    let m = update (w.memory) (c.block) (seg.ptr + avail (d.anchor) * sc.block_size) in
    let (w', gone, re) = result (
      reclaim-Relisted (w.heaps_at + index * heap_size) desc a' m ds w (o.fields.state_is)
        (fields.state_is) (o.heap) (o.place) (o.unlisted) (o.listed)) in
    step _ (ap unwrap (o.super_block)) (
      rw run (
        step _ (pop_one c k (w.memory (c.block)) counted) (
          step _ (o.number) (
            step _ ran (
              step
                (λ w''. returned (record c { block = w.memory (c.block); block_num = suc k }, w''))
                gone
                (returns (record {
                  top = o.link;
                  counted = refl;
                  anchor = rw (re.anchor) fields;
                  memory = re.memory ∙ rw (o.fields.avail_is) refl;
                  pages = re.pages;
                  listed = re.listed;
                })))))))

-- Where the top of a bin of at least two blocks has a compressed link, its super block is FULL, has
-- more than one block and is not in the partial list of its heap, and page 0 has no descriptor,
-- flush_cache gives back the top alone: the anchor is PARTIAL with the number of this block and the
-- count 1, the block links to the old free list, and the descriptor heads the partial list. It
-- returns with a null top for the blocks that the bin still counts.
pub flush_cache-Compressed :
    (index : ℕ) (sc : SizeClassData) (seg : Segment) (desc v i k : ℕ) (c : ThreadCacheBin)
    (w : World) (ds : List ℕ)
    → IsSetUp index sc w
    → IsCompressed index seg desc v i k c w ds
    → Returns (λ r. IsTopBack index sc seg desc v i k c w ds r.0 r.1) (flush_cache index c w)
unfolding flush_cache flush_runs get_heap_at_mut
flush_cache-Compressed index sc seg desc v i k c w ds s o =
    let ok : ltb index max_sz_idx ≡ true = lt→ltb index max_sz_idx (s.inside) in
    let heap = w.heaps_at + index * heap_size in
    let (r, ran, lost) = result (flush_run-Compressed index sc seg desc v i k c w ds o) in
    let more : (r.0.block_num == 0) ≡ false = ground (arith, lost.counted) in
    let null : desc_for_ptr (r.1.pages) (r.0.block) ≡ none = rw (lost.top, lost.pages) (o.null) in
    let once = flush_runs-once (suc k) index heap desc sc c w r (o.counted) (o.found) ran in
    rw (ok, s.class, once, more, null)
      (returns (record {
        top = lost.top;
        counted = lost.counted;
        anchor = lost.anchor;
        memory = lost.memory;
        pages = lost.pages;
        listed = lost.listed;
      }))
