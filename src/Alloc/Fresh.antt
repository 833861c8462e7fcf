-- ===== src/Alloc/Fresh.antt =====
-- A new super block: its blocks stand in the bin in the order of their addresses, its descriptor is
-- filled in, and its pages lead to the descriptor.
use lralloc_rs.Common.{
  has, ℕ, zero, suc, ◌+◌, ◌*◌, ◌%◌, ◌^◌, ◌≤◌, ◌<◌, ◌≡◌, refl, ap, false, true, Option, some, List,
  [], ◌∷◌, arith, ◌==◌, length, ltb, lt→ltb, get_elem?, Returns, returns, bind, returned, result,
}
use native.Mathlib.Nat.{suc-mul}
use lralloc_rs.MemInfo.{page, max_sz_idx}
use lralloc_rs.SizeClasses.{SizeClassData, u32_mod}
use lralloc_rs.AllocationData.{full, state, avail, count, default_anchor}
use lralloc_rs.AllocationData.Anchor.{Fields, set_state-Fields, set_avail-Fields, set_count-Fields}
use lralloc_rs.AllocationData.Desc.{Descriptor, Segment, Store, alloc}
use lralloc_rs.AllocationData.Desc.Nodes.{IsPlace}
use lralloc_rs.ThreadCache.{Memory, usize_max, ThreadCacheBin, push_list, decode}
use lralloc_rs.ThreadCache.Stack.{Linked}
use lralloc_rs.PageMap.{PageMap}
use lralloc_rs.PageMap.Update.{Covers, register-Covers, address_space}
use lralloc_rs.Alloc.{
  World, heap_size, get_heap_at_mut, own, set_desc, full_anchor, init_blocks, register_desc,
  get_size_class_data, hand_out, malloc_from_new_sb,
}

-- `n` blocks of `size` bytes in a row from `at` on.
unfoldable pub blocks : ℕ → ℕ → ℕ → List ℕ
blocks zero size at = []
blocks (suc n) size at = at ∷ blocks n size (at + size)

has-blocks_above : (n size at x : ℕ) → x < at → has x (blocks n size at) ≡ false
unfolding blocks
has-blocks_above zero size at x h = refl
has-blocks_above (suc n) size at x h = ground (arith, has-blocks_above n size (at + size) x)

pub length-blocks : (n size at : ℕ) → length (blocks n size at) ≡ n
unfolding blocks
length-blocks zero size at = refl
length-blocks (suc n) size at = ap suc (length-blocks n size (at + size))

-- Zero links lead from each of the blocks to the one that follows it.
Linked-blocks :
    (n size at : ℕ) (m : Memory)
    → 0 < at
    → 0 < size
    → at + n * size ≤ usize_max
    → ((x : ℕ) → at ≤ x → x + size < at + n * size → m x ≡ 0)
    → Linked size m at (blocks n size at)
unfolding blocks decode
Linked-blocks zero size at m pos wide fits blank = tt
Linked-blocks (suc zero) size at m pos wide fits blank = (refl, pos, omega arith, refl, tt)
Linked-blocks (suc (suc n)) size at m pos wide fits blank =
    let two = suc-mul (suc n) size in
    let one = suc-mul n size in
    let link : m at ≡ 0 = blank at (omega arith) (omega (arith, one, two)) in
    (
      refl,
      pos,
      omega (arith, one, two),
      has-blocks_above (suc n) size (at + size) at (omega arith),
      rw link (
          Linked-blocks (suc n) size (at + size) m (omega arith) wide (omega (arith, one, two))
            (λ x low high. blank x (omega arith) (omega (arith, one, two)))),
    )

-- What a filled bin and its super block are, when `n` blocks of `size` bytes at `seg` went to the bin.
pub record IsFilled (desc : ℕ) (sc : SizeClassData) (seg : Segment) (c : ThreadCacheBin)
    (pages : PageMap) (c' : ThreadCacheBin) (w' : World) : Type 0 where
  pub linked :
      Linked
        (sc.block_size)
        (w'.memory)
        (c'.block)
        (blocks (sc.block_num) (sc.block_size) (seg.ptr))
  pub number : c'.block_num ≡ sc.block_num
  pub kept : c'.block_size ≡ c.block_size
  pub covers : Covers (seg.ptr) (sc.sb_size) (some desc) pages (w'.pages)
  pub anchor : Fields ((w'.store.descs desc).anchor) full (sc.block_num) 0
  pub super_block : (w'.store.descs desc).super_block ≡ some seg

-- A segment that mmap answered for a class: whole pages of zeros in the address space.
pub record IsMapped (sc : SizeClassData) (seg : Segment) (m : Memory) : Type 0 where
  pub ne_null : 0 < seg.ptr
  pub aligned : seg.ptr % page ≡ 0
  pub fits : seg.ptr + sc.sb_size ≤ address_space
  pub blank : (x : ℕ) → seg.ptr ≤ x → x < seg.ptr + sc.sb_size → m x ≡ 0

-- A class with whole pages and whole blocks, and fewer blocks than an anchor can count.
pub record IsClass (sc : SizeClassData) : Type 0 where
  pub wide : 0 < sc.block_size
  pub some_block : 0 < sc.block_num
  pub whole : sc.block_num * sc.block_size ≡ sc.sb_size
  pub paged : sc.sb_size % page ≡ 0
  pub modest : sc.block_num < 2 ^ 30

register_desc-Covers :
    (desc : ℕ) (sc : SizeClassData) (seg : Segment) (m : Memory) (w : World)
    → IsPlace desc
    → IsClass sc
    → IsMapped sc seg m
    → (w.store.descs desc).super_block ≡ some seg
    → 0 < (w.store.descs desc).proc_heap
    → get_size_class_data ((w.store.descs desc).proc_heap) w ≡ returned sc
    → (pages : PageMap) × (register_desc desc w ≡ returned (record w { pages = pages }))
      × Covers (seg.ptr) (sc.sb_size) (some desc) (w.pages) pages
unfolding register_desc
register_desc-Covers desc sc seg m w p k g mapped heap class =
    let owned : ((w.store.descs desc).proc_heap == 0) ≡ false = ground arith in
    let (pages, ran, covers) = result (
      register-Covers (seg.ptr) (sc.sb_size) (w.pages) (g.ne_null) (g.aligned) (k.paged) (g.fits)
        desc p) in
    (pages, rw (mapped, owned, class, ran) refl, covers)

-- Only the last block of a new super block has a link that is not 0.
init_blocks-blank :
    (size n at : ℕ) (m : Memory) (x : ℕ)
    → m x ≡ 0
    → x + size < at + n * size
    → init_blocks false at size n m x ≡ 0
unfolding init_blocks
init_blocks-blank size n at m x blank h = ground (arith, blank)

full_anchor-Fields : (n : ℕ) → n < 2 ^ 30 → Fields (full_anchor n) full n 0
unfolding full_anchor state avail count
full_anchor-Fields n h =
    let start : Fields default_anchor full 0 0 = record {
      word = omega arith;
      state_is = refl;
      avail_is = refl;
      count_is = refl;
    } in
    let low : n % 2 ^ 30 ≡ n = omega arith in
    rw low at (set_state-Fields (set_count-Fields (set_avail-Fields start n) 0) full)

hand_out-IsFilled :
    (desc heap : ℕ) (d : Descriptor) (sc : SizeClassData) (seg : Segment) (c : ThreadCacheBin)
    (w : World)
    → IsPlace desc
    → IsClass sc
    → IsMapped sc seg (w.memory)
    → 0 < heap
    → get_size_class_data heap w ≡ returned sc
    → c.block_num ≡ 0
    → Returns
        (λ r. IsFilled desc sc seg c (w.pages) r.0 r.1)
        (hand_out false desc (own heap sc (some seg) d) (sc.block_num) c w)
unfolding hand_out push_list get_size_class_data own
hand_out-IsFilled desc heap d sc seg c w p k g owned class none_left =
    let self : (desc == desc) ≡ true = ground arith in
    let n = sc.block_num in
    let low : n % u32_mod ≡ n = omega (arith, k.modest) in
    let m = init_blocks false (seg.ptr) (sc.block_size) n (w.memory) in
    let w1 =
      set_desc desc (record (own heap sc (some seg) d) { anchor = full_anchor n })
        (record w { memory = m }) in
    let (pages, ran, covers) =
      register_desc-Covers desc sc seg (w.memory) w1 p k g (rw self refl) (rw self owned)
        (rw self class) in
    let empty : ltb 0 (c.block_num) ≡ false = rw none_left refl in
    rw (empty, ran)
      (returns (record {
        linked =
            Linked-blocks n (sc.block_size) (seg.ptr) m (g.ne_null) (k.wide)
              (omega (arith, k.whole, g.fits))
              (λ x from to.
                init_blocks-blank (sc.block_size) n (seg.ptr) (w.memory) x
                  (g.blank x from (omega (arith, k.whole))) to);
        number = low;
        kept = refl;
        covers = covers;
        anchor = rw self (full_anchor-Fields n (k.modest));
        super_block = rw self refl;
      }))

-- The statics that a class's allocations read: the class in the table, and its heap.
pub record IsSetUp (index : ℕ) (sc : SizeClassData) (w : World) : Type 0 where
  pub inside : index < max_sz_idx
  pub class : get_elem? w.classes index ≡ some sc
  pub heap : (w.heaps (w.heaps_at + index * heap_size)).size_class_index ≡ index
  pub ne_null : 0 < w.heaps_at

-- Given a descriptor and zeroed whole pages for a class, malloc_from_new_sb returns: the empty bin
-- gets all blocks, linked in the order of their addresses, the pages lead to the descriptor, the
-- anchor is FULL, and the caller is told the number of blocks.
pub malloc_from_new_sb-IsFilled :
    (index : ℕ) (sc : SizeClassData) (seg : Segment) (c : ThreadCacheBin) (b : ℕ) (w : World)
    (given : Option ℕ) (desc : ℕ) (store : Store)
    → IsSetUp index sc w
    → IsClass sc
    → IsMapped sc seg (w.memory)
    → alloc given (w.store) ≡ returned (desc, store)
    → IsPlace desc
    → c.block_num ≡ 0
    → Returns
        (λ r. IsFilled desc sc seg c (w.pages) r.0 r.2 × (r.1 ≡ b + sc.block_num))
        (malloc_from_new_sb false given (some seg) index c b w)
unfolding malloc_from_new_sb get_heap_at_mut get_size_class_data
malloc_from_new_sb-IsFilled index sc seg c b w given desc store s k g got p none_left =
    let heap = w.heaps_at + index * heap_size in
    let ok : ltb index max_sz_idx ≡ true = lt→ltb index max_sz_idx (s.inside) in
    rw (ok, s.class, got)
      (bind
        (hand_out-IsFilled desc heap (store.descs desc) sc seg c (record w { store = store }) p k g
          (omega (arith, s.ne_null)) (rw (s.heap, s.class) refl) none_left)
        λ r filled. returns (filled, refl))
