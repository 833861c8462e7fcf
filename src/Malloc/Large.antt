-- ===== src/Malloc/Large.antt =====
-- Allocations above the largest size class: each has a super block and a descriptor of its own.
use lralloc_rs.Common.{
  ℕ, ◌+◌, ◌%◌, ◌≤◌, ◌<◌, ◌≡◌, refl, ap, ◌∙◌, false, true, none, some, ◌∷◌, arith, ltb, lt→ltb,
  Bool-cases, inl, inr, ◌==◌, Returns, returns, returned, step, ◌>>=◌,
}
use lralloc_rs.MemInfo.{max_sz, page, page_ceiling}
use lralloc_rs.MemInfo.Align.{page_ceiling-IsCeiling}
use lralloc_rs.SizeClasses.{u32_mod}
use lralloc_rs.AllocationData.Desc.{Segment, Store, alloc, set, get_counter, retire}
use lralloc_rs.AllocationData.Desc.Nodes.{IsPlace}
use lralloc_rs.PageMap.{
  get_page_info, get_desc, get_size_class_index, update_page_map, set_ptr, set_page_info,
  desc_for_ptr, addr_to_key,
}
use lralloc_rs.PageMap.Update.{set_ptr-place, set_ptr-null}
use lralloc_rs.Alloc.{World, set_desc, register_desc, unregister_desc}
use lralloc_rs.Malloc.{
  Thread, Call, own_large, allocate_large, do_malloc, free_found, free_large, do_free,
  get_allocation_size,
}

-- The world after an allocation of `pages` bytes in a super block of its own.
abbrev large_world : ℕ → ℕ → Segment → Store → World → World
large_world pages desc seg store w =
    record (set_desc desc (own_large pages (some seg) (store.descs desc))
      (record w { store = store })) { pages = set_page_info (w.pages) (seg.ptr) (set_ptr desc 0) }

-- What `do_malloc` of a large size is given: a descriptor and a segment.
pub record IsGiven (call : Call) (w : World) (desc : ℕ) (store : Store) (seg : Segment)
    : Type 0 where
  pub segment : call.segment_answer ≡ some seg
  pub ne_null : 0 < seg.ptr
  pub descriptor : alloc (call.page_answer) (w.store) ≡ returned (desc, store)
  pub place : IsPlace desc

do_malloc_large :
    (call : Call) (t : Thread) (size desc : ℕ) (store : Store) (seg : Segment)
    → max_sz < size
    → IsGiven call (t.world) desc store seg
    → do_malloc call size t
      ≡ returned
          (seg.ptr, record t { world = large_world (page_ceiling size) desc seg store (t.world) })
unfolding do_malloc allocate_large own_large register_desc update_page_map
do_malloc_large call t size desc store seg big g =
    let large : ltb max_sz size ≡ true = lt→ltb max_sz size big in
    let self : (desc == desc) ≡ true = ground arith in
    let given : (seg.ptr == 0) ≡ false = ground (arith, g.ne_null) in
    rw (large, g.descriptor, g.segment, self, given) refl

get_desc-some : (info d : ℕ) → get_desc info ≡ some d → (info ≡ d) × ((info == 0) ≡ false)
unfolding get_desc
get_desc-some info d h = elim (Bool-cases (info == 0)) [
  | inl null ↦ absurd (let e = rw null at h in cc)
  | inr other ↦ (let e = rw other at h in cc, other)
]

get_size_class_index-large :
    (block_size table : ℕ → ℕ) (desc : ℕ)
    → IsPlace desc
    → max_sz < block_size desc
    → get_size_class_index block_size table (set_ptr desc 0) ≡ some 0
unfolding get_size_class_index
get_size_class_index-large block_size table desc p big =
    let info = get_desc-some (set_ptr desc 0) desc (set_ptr-place desc p) in
    rw (info.1, info.0, lt→ltb max_sz (block_size desc) big) refl

-- For a size above the classes and, with a page, at most 4 GiB, given a descriptor and a segment,
-- do_malloc returns the start of the segment, whose page leads to the descriptor, and
-- get_allocation_size gives the size rounded up to pages.
pub do_malloc-Large :
    (call : Call) (t : Thread) (size desc : ℕ) (store : Store) (seg : Segment)
    → max_sz < size
    → size + page ≤ u32_mod
    → IsGiven call (t.world) desc store seg
    → Returns
        (λ r.
          (r.0 ≡ seg.ptr)
          × (desc_for_ptr (r.1.world.pages) (seg.ptr) ≡ some desc)
          × (get_allocation_size (seg.ptr) (r.1.world) ≡ some (page_ceiling size))
          × (size ≤ page_ceiling size))
        (do_malloc call size t)
unfolding get_allocation_size desc_for_ptr get_page_info set_page_info own_large
do_malloc-Large call t size desc store seg big fits g =
    let up = page_ceiling-IsCeiling size (omega arith) in
    let here : (addr_to_key (seg.ptr) == addr_to_key (seg.ptr)) ≡ true = ground arith in
    let self : (desc == desc) ≡ true = ground arith in
    let leads = set_ptr-place desc (g.place) in
    let kept : page_ceiling size % u32_mod ≡ page_ceiling size = omega (arith, up.least) in
    rw (do_malloc_large call t size desc store seg big g) (
      returns (
        refl,
        rw (here, leads) refl,
        rw (get_allocation_size, here, leads, self, kept) refl,
        up.above,
      ))

do_free-free_large :
    (call : Call) (ptr desc : ℕ) (t : Thread)
    → 0 < ptr
    → get_desc (get_page_info (t.world.pages) ptr) ≡ some desc
    → get_size_class_index
        (λ d. (t.world.store.descs d).block_size)
        (t.table)
        (get_page_info (t.world.pages) ptr)
      ≡ some 0
    → do_free call ptr t
      ≡ (free_large ptr desc (t.world) >>= λ w. returned (record t { world = w }))
unfolding do_free free_found
do_free-free_large call ptr desc t pos found class =
    let given : (ptr == 0) ≡ false = ground arith in rw (given, found, class) refl

large_world-found :
    (pages desc : ℕ) (seg : Segment) (store : Store) (w : World)
    → get_page_info ((large_world pages desc seg store w).pages) (seg.ptr) ≡ set_ptr desc 0
unfolding get_page_info set_page_info
large_world-found pages desc seg store w =
    let here : (addr_to_key (seg.ptr) == addr_to_key (seg.ptr)) ≡ true = ground arith in
    rw here refl

-- For a size above the classes and, with a page, at most 4 GiB, given a descriptor and a segment,
-- freeing what do_malloc returned gives the segment back to the kernel and the descriptor to the
-- free list, leads the page of the pointer nowhere, and changes no bin.
pub do_free-Large :
    (call free_call : Call) (t : Thread) (size desc : ℕ) (store : Store) (seg : Segment)
    → max_sz < size
    → size + page ≤ u32_mod
    → IsGiven call (t.world) desc store seg
    → Returns
        (λ t'.
          (t'.world.unmapped ≡ seg ∷ t.world.unmapped)
          × (desc_for_ptr (t'.world.pages) (seg.ptr) ≡ none)
          × (t'.world.store.available ≡ set (some desc) (get_counter (store.available) + 1))
          × (t'.bins ≡ t.bins))
        (do_malloc call size t >>= λ r. do_free free_call r.0 r.1)
unfolding free_large unregister_desc update_page_map desc_for_ptr get_page_info set_page_info
    own_large retire
do_free-Large call free_call t size desc store seg big fits g =
    let up = page_ceiling-IsCeiling size (omega arith) in
    let pages = page_ceiling size in
    let here : (addr_to_key (seg.ptr) == addr_to_key (seg.ptr)) ≡ true = ground arith in
    let self : (desc == desc) ≡ true = ground arith in
    let given : (seg.ptr == 0) ≡ false = ground (arith, g.ne_null) in
    let same : (seg.ptr == seg.ptr) ≡ true = ground arith in
    let kept : pages % u32_mod ≡ pages = omega (arith, up.least) in
    let w = large_world pages desc seg store (t.world) in
    let found = large_world-found pages desc seg store (t.world) in
    let large : max_sz < (w.store.descs desc).block_size =
      rw (self, kept) (omega (arith, up.above)) in
    let sizes : ℕ → ℕ = λ d. (w.store.descs d).block_size in
    let class =
      ap (get_size_class_index sizes (t.table)) found
      ∙ get_size_class_index-large sizes (t.table) desc (g.place) large in
    let leads = ap get_desc found ∙ set_ptr-place desc (g.place) in
    let freed =
      do_free-free_large free_call (seg.ptr) desc (record t { world = w }) (g.ne_null) leads
        class in
    step (λ r. do_free free_call r.0 r.1) (do_malloc_large call t size desc store seg big g)
      (rw freed (rw (self, given, same) (returns (refl, rw here set_ptr-null, refl, refl))))

-- Where a pointer is on another page than the start of the super block of its descriptor, freeing
-- it leaves the page map entry of the pointer as it was, although its descriptor goes to the free
-- list.
pub free_large-Stale :
    (ptr desc : ℕ) (seg : Segment) (w : World)
    → (w.store.descs desc).super_block ≡ some seg
    → 0 < seg.ptr
    → (addr_to_key ptr == addr_to_key (seg.ptr)) ≡ false
    → (ptr == seg.ptr) ≡ false
    → Returns
        (λ w'.
          (desc_for_ptr (w'.pages) ptr ≡ desc_for_ptr (w.pages) ptr)
          × (w'.store.available ≡ set (some desc) (get_counter (w.store.available) + 1)))
        (free_large ptr desc w)
unfolding free_large unregister_desc update_page_map desc_for_ptr get_page_info set_page_info retire
free_large-Stale ptr desc seg w mapped pos apart further =
    let given : (seg.ptr == 0) ≡ false = ground arith in
    rw (mapped, given, further) (returns (rw apart refl, refl))
