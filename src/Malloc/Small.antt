-- ===== src/Malloc/Small.antt =====
-- Allocations and frees of the size classes, against the list of blocks that a bin holds.
use lralloc_rs.Common.{
  has, ℕ, suc, ◌+◌, ◌*◌, ◌≤◌, ◌<◌, ◌≡◌, refl, false, true, some, List, [], ◌∷◌, arith, ltb, leb,
  ltb-false, ◌==◌, get_elem?, get_elem?-set_self, length, Returns, returns, returned, step, result,
  ◌>>=◌,
}
use lralloc_rs.MemInfo.{max_sz}
use lralloc_rs.SizeClasses.{SizeClassData, get_size_class}
use lralloc_rs.AllocationData.Desc.{Segment, Store, alloc}
use lralloc_rs.AllocationData.Desc.Nodes.{IsPlace}
use lralloc_rs.ThreadCache.{usize_max, ThreadCacheBin, push_block}
use lralloc_rs.ThreadCache.Stack.{Holds, push_block-Holds, pop_block-Holds}
use lralloc_rs.PageMap.{get_page_info, get_desc, get_size_class_index}
use lralloc_rs.Alloc.{heap_size}
use lralloc_rs.Alloc.Partial.{IsPartial}
use lralloc_rs.Alloc.Fresh.{IsClass, IsMapped, IsSetUp, blocks}
use lralloc_rs.Reserve.Fill.{fill_cache-Holds}
use lralloc_rs.Malloc.State.{BinHolds}
use lralloc_rs.Malloc.Hooks.{tune_malloc, tune_free}
use lralloc_rs.Malloc.{
  Thread, Call, allocate_from_bin, allocate_to_cache, do_malloc, free_found, free_to_bin, do_free,
}

-- A thread that neither tunes nor uses the bootstrap, in a build with compressed links.
pub record IsPlain (call : Call) (t : Thread) : Type 0 where
  pub compressed : call.no_met_stack ≡ false
  pub untuned : t.use_apf ≡ false
  pub own : t.use_bootstrap ≡ false

-- `do_malloc` of a size whose bin holds blocks returns the first of them, and changes nothing but the bin.
pub do_malloc-BinHolds :
    (call : Call) (t : Thread) (size block_size x : ℕ) (xs : List ℕ)
    → IsPlain call t
    → size ≤ max_sz
    → BinHolds (get_size_class (t.table) size) block_size t (x ∷ xs)
    → Returns
        (λ r.
          (r.0 ≡ x)
          × BinHolds (get_size_class (t.table) size) block_size r.1 xs
          × (r.1.world ≡ t.world)
          × (r.1.table ≡ t.table)
          × IsPlain call r.1)
        (do_malloc call size t)
unfolding do_malloc allocate_to_cache allocate_from_bin tune_malloc
do_malloc-BinHolds call t size block_size x xs p fits b =
    let small : ltb max_sz size ≡ false = ltb-false max_sz size fits in
    let bin = b.bin in
    let some_left : (bin.block_num == 0) ≡ false = ground (arith, b.holds.counted) in
    let (r, ran, popped) =
      result (pop_block-Holds block_size (t.world.memory) bin x xs (b.holds)) in
    rw (small, p.own, b.here, some_left, p.compressed, ran, p.untuned)
      (returns (
        popped.0,
        record {
          bin = r.1;
          here = get_elem?-set_self (t.bins) (get_size_class (t.table) size) bin r.1 (b.here);
          holds = popped.1;
        },
        refl,
        refl,
        record { compressed = refl; untuned = refl; own = refl },
      ))

-- The page map leads from the block to a descriptor of a size class.
pub record IsOwned (ptr index : ℕ) (t : Thread) : Type 0 where
  pub desc : ℕ
  pub leads : get_desc (get_page_info (t.world.pages) ptr) ≡ some desc
  pub class :
      get_size_class_index
        (λ d. (t.world.store.descs d).block_size)
        (t.table)
        (get_page_info (t.world.pages) ptr)
      ≡ some (suc index)

-- `do_free` of a block of a class puts it on the top of the bin, where the bin has not reached the
-- number of blocks at which it is flushed, and does not hold the block.
pub do_free-BinHolds :
    (call : Call) (t : Thread) (ptr index block_size : ℕ) (sc : SizeClassData) (xs : List ℕ)
    → IsPlain call t
    → IsOwned ptr index t
    → 0 < ptr
    → ptr < usize_max
    → has ptr xs ≡ false
    → get_elem? t.world.classes (suc index) ≡ some sc
    → length xs < sc.cache_block_num
    → BinHolds (suc index) block_size t xs
    → Returns (λ t'. BinHolds (suc index) block_size t' (ptr ∷ xs)) (do_free call ptr t)
unfolding do_free free_found free_to_bin tune_free
do_free-BinHolds call t ptr index block_size sc xs p o pos small out class room b =
    let given : (ptr == 0) ≡ false = ground arith in
    let bin = b.bin in
    let below : leb (sc.cache_block_num) (bin.block_num) ≡ false =
      ground (arith, b.holds.counted) in
    let pushed = push_block-Holds block_size (t.world.memory) bin xs ptr (b.holds) pos small out in
    rw (given, o.leads, o.class, p.untuned, b.here, class, below, p.compressed)
      (returns (record {
        bin = (push_block false bin ptr (t.world.memory)).0;
        here = get_elem?-set_self (t.bins) (suc index) bin _ (b.here);
        holds = pushed;
      }))

-- For a thread that neither tunes nor uses the bootstrap, with compressed links, a size of a class
-- whose bin holds blocks, the first owned by a descriptor of the class, and a bin that stays below
-- its flush limit: freeing the block that do_malloc returned gives the bin the same blocks again.
pub do_free-do_malloc :
    (call free_call : Call) (t : Thread) (size index block_size x : ℕ) (sc : SizeClassData)
    (xs : List ℕ)
    → IsPlain call t
    → free_call.no_met_stack ≡ false
    → size ≤ max_sz
    → get_size_class (t.table) size ≡ suc index
    → BinHolds (suc index) block_size t (x ∷ xs)
    → IsOwned x index t
    → get_elem? t.world.classes (suc index) ≡ some sc
    → length xs < sc.cache_block_num
    → Returns
        (λ t'. BinHolds (suc index) block_size t' (x ∷ xs))
        (do_malloc call size t >>= λ r. do_free free_call r.0 r.1)
do_free-do_malloc call free_call t size index block_size x sc xs p q fits class b o known room =
    let held : BinHolds (get_size_class (t.table) size) block_size t (x ∷ xs) = rw class b in
    let (r, ran, got) = result (do_malloc-BinHolds call t size block_size x xs p fits held) in
    let plain : IsPlain free_call r.1 = record {
      compressed = q;
      untuned = got.4.untuned;
      own = got.4.own;
    } in
    let owned : IsOwned x index r.1 = record {
      desc = o.desc;
      leads = rw got.2 (o.leads);
      class = rw (got.2, got.3) (o.class);
    } in
    let links = b.holds.linked in
    let held' : BinHolds (suc index) block_size r.1 xs = rw class at got.1 in
    step (λ r'. do_free free_call r'.0 r'.1) ran
      (rw got.0 (
        do_free-BinHolds free_call r.1 x index block_size sc xs plain owned links.1 links.2 links.3
          (rw got.2 known) room held'))

-- For a thread that neither tunes nor uses the bootstrap, with compressed links, an empty bin for
-- the class of the size, a heap without partly used super blocks, a descriptor and zeroed whole
-- pages, do_malloc returns the first block of a new super block, and the bin holds the others.
pub do_malloc-Fresh :
    (call : Call) (t : Thread) (size fuel : ℕ) (sc : SizeClassData) (seg : Segment)
    (bin : ThreadCacheBin) (desc n : ℕ) (store : Store)
    → IsPlain call t
    → size ≤ max_sz
    → call.fuel ≡ suc fuel
    → call.segment_answer ≡ some seg
    → get_elem? t.bins (get_size_class (t.table) size) ≡ some bin
    → bin.block_num ≡ 0
    → IsSetUp (get_size_class (t.table) size) sc (t.world)
    → IsClass sc
    → sc.block_num ≡ suc n
    → IsMapped sc seg (t.world.memory)
    → IsPartial (t.world.heaps_at + get_size_class (t.table) size * heap_size) (t.world) []
    → alloc (call.page_answer) (t.world.store) ≡ returned (desc, store)
    → IsPlace desc
    → Returns
        (λ r.
          (r.0 ≡ seg.ptr)
          × BinHolds
              (get_size_class (t.table) size)
              (sc.block_size)
              r.1
              (blocks n (sc.block_size) (seg.ptr + sc.block_size)))
        (do_malloc call size t)
unfolding do_malloc allocate_to_cache allocate_from_bin tune_malloc blocks
do_malloc-Fresh call t size fuel sc seg bin desc n store p fits fueled given here none_left s k more
      g l got place =
    let small : ltb max_sz size ≡ false = ltb-false max_sz size fits in
    let index = get_size_class (t.table) size in
    let empty : (bin.block_num == 0) ≡ true = rw none_left refl in
    let (f, filled, kept) = result (
      fill_cache-Holds index fuel sc seg bin (t.world) (call.page_answer) desc store s k g l got
        place none_left) in
    let held : Holds (sc.block_size) (f.1.memory) f.0
        (seg.ptr ∷ blocks n (sc.block_size) (seg.ptr + sc.block_size)) =
      rw more at kept.0 in
    let (r, ran, popped) =
      result (pop_block-Holds (sc.block_size) (f.1.memory) f.0 (seg.ptr) _ held) in
    rw (small, p.own, here, empty, p.compressed, fueled, given, filled, ran, p.untuned)
      (returns (
        popped.0,
        record {
          bin = r.1;
          here = get_elem?-set_self (t.bins) index bin r.1 here;
          holds = popped.1;
        },
      ))
