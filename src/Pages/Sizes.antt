-- ===== src/Pages/Sizes.antt =====
-- What the holder of sizes knows of an address, and what allocating and freeing pages do to it.
use lralloc_rs.Common.{
  ℕ, ◌<◌, ◌≡◌, ◌≢◌, ◌⊎◌, refl, ◌∙◌, Bool, true, false, Option, none, some, bit_and, ◌==◌, ==_iff,
  if◌then◌else◌, arith, returned, Returns, returns, bind, weaken, Bool-cases, inl, inr,
}
use lralloc_rs.MemInfo.{page_mask}
use lralloc_rs.ThreadCache.{usize_max}
use lralloc_rs.AllocationData.Desc.{Segment}
use lralloc_rs.Collections.HashMap.{HashMap, new_map, contains}
use lralloc_rs.Collections.HashMap.Table.{IsValid, value_of, get_value-value_of, buckets_of-IsValid}
use lralloc_rs.Collections.HashMap.Growth.{Placed-replicate}
use lralloc_rs.Collections.HashMap.Update.{insert-Updates, remove_key-Updates}
use lralloc_rs.Pages.{
  ok, allocation_failed, allocate, deallocate, SegmentHolder, map_of, same_ptr, page_alloc,
  page_free,
}

module _ (hash : ℕ → ℕ) where
  -- the size that the holder has for an address
  unfoldable pub size_of : SegmentHolder → ℕ → Option ℕ
  unfolding map_of
  size_of holder ptr = value_of hash same_ptr ==_iff ptr (map_of holder)

  -- A holder with a map has a valid one.
  pub record Holds (holder : SegmentHolder) : Type 0 where
    pub valid : IsValid {V = ℕ} hash same_ptr ==_iff (map_of holder)

  new_map-IsValid : IsValid {V = ℕ} hash same_ptr ==_iff new_map
  new_map-IsValid = record {
    roomy = omega arith;
    placed = Placed-replicate ℕ hash same_ptr ==_iff 1001 1001 0;
  }

  pub contains-value_of :
      (ptr : ℕ) (m : HashMap ℕ ℕ)
      → IsValid hash same_ptr ==_iff m
      → contains hash same_ptr ptr m
        ≡ returned (elim (value_of hash same_ptr ==_iff ptr m) [ none ↦ false | some v ↦ true ])
  unfolding contains value_of
  contains-value_of ptr m v = rw (buckets_of-IsValid hash same_ptr ==_iff ptr m v) refl

  -- what freeing a page of a size answers, for the sizes before: the segment goes to munmap, the
  -- address has no size any more, and cannot be freed again
  pub record Freed (munmap : Segment → ℕ) (ptr size : ℕ) (sizes : ℕ → Option ℕ)
      (s : Bool × Option Segment × SegmentHolder) : Type 0 where
    pub answer : s.0 ≡ deallocate munmap (record { ptr = ptr; length = size })
    pub segment : s.1 ≡ some (record { ptr = ptr; length = size })
    pub sizes_after : (q : ℕ) → size_of s.2 q ≡ (if ptr == q then none else sizes q)
    pub holds : Holds s.2
    pub again :
        (munmap' : Segment → ℕ) → page_free hash munmap' ptr s.2 ≡ returned (false, none, s.2)

  page_free-Freed :
      (munmap : Segment → ℕ) (ptr size : ℕ) (m : HashMap ℕ ℕ)
      → IsValid hash same_ptr ==_iff m
      → value_of hash same_ptr ==_iff ptr m ≡ some size
      → 0 < m.len
      → Returns
          (Freed munmap ptr size λ q. value_of hash same_ptr ==_iff q m)
          (page_free hash munmap ptr (record { size_map = some m }))
  unfolding page_free size_of map_of
  page_free-Freed munmap ptr size m v present some_left =
      rw
        (
          contains-value_of ptr m v,
          present,
          get_value-value_of hash same_ptr ==_iff ptr m v,
          present,
        )
        (bind (remove_key-Updates hash same_ptr ==_iff ptr m v some_left) λ r u.
          let gone : value_of hash same_ptr ==_iff ptr (r.1) ≡ none =
            u.0.values ptr ∙ rw ((==_iff ptr ptr).1 refl) refl in
          returns (record {
            answer = refl;
            segment = refl;
            sizes_after = u.0.values;
            holds = record { valid = u.0.valid };
            again = λ munmap'. rw (contains-value_of ptr (r.1) (u.0.valid), gone) refl;
          }))

  -- Where the kernel grants memory, and the size is a multiple of the page, page_alloc returns the
  -- address and knows its size; page_free of it then gives this address and size to munmap, answers
  -- whether that succeeded and forgets the address, all other addresses keeping their sizes, and
  -- freeing it once more returns false.
  pub page_free-page_alloc :
      (munmap : Segment → ℕ) (mmap errno size : ℕ) (holder : SegmentHolder)
      → bit_and size page_mask ≡ 0
      → mmap ≢ usize_max
      → Holds holder
      → Returns
          (λ r.
            (r.0 ≡ ok mmap)
            × (size_of r.1 mmap ≡ some size)
            × Returns (Freed munmap mmap size (size_of holder)) (page_free hash munmap mmap r.1))
          (page_alloc hash mmap errno size holder)
  unfolding page_alloc size_of map_of allocate
  page_free-page_alloc munmap mmap errno size holder multiple granted h =
      let whole : (bit_and size page_mask == 0) ≡ true =
        (==_iff (bit_and size page_mask) 0).1 multiple in
      let given : (mmap == usize_max) ≡ false = ground arith in
      rw (whole, given)
        (bind (insert-Updates hash same_ptr ==_iff mmap size (map_of holder) (h.valid)) λ r u.
          let here : value_of hash same_ptr ==_iff mmap (r.1) ≡ some size =
            u.0.values mmap ∙ rw ((==_iff mmap mmap).1 refl) refl in
          returns (
            refl,
            here,
            weaken
                (λ s p. record {
                  answer = p.answer;
                  segment = p.segment;
                  holds = p.holds;
                  again = p.again;
                  sizes_after = λ q. elim (Bool-cases (mmap == q)) [
                    | inl same ↦ p.sizes_after q ∙ rw same refl
                    | inr other ↦ p.sizes_after q ∙ rw other (u.0.values q ∙ rw other refl)
                  ];
                })
                (page_free-Freed munmap mmap size (r.1) (u.0.valid) here (omega (arith, u.1))),
          ))

  -- Where the kernel refuses, or the size is no multiple of the page, `page_alloc` returns the error,
  -- and every address keeps the size that it has.
  pub page_alloc-failed :
      (mmap errno size : ℕ) (holder : SegmentHolder)
      → (mmap ≡ usize_max) ⊎ (bit_and size page_mask ≢ 0)
      → Returns
          (λ r. (r.0 ≡ allocation_failed size errno) × ((q : ℕ) → size_of r.1 q ≡ size_of holder q))
          (page_alloc hash mmap errno size holder)
  unfolding page_alloc size_of map_of allocate
  page_alloc-failed mmap errno size holder h = elim (Bool-cases (bit_and size page_mask == 0)) [
    | inl whole ↦
        (let refused : (mmap == usize_max) ≡ true = ground (arith, whole, h) in
          rw (whole, refused) (returns (refl, λ q. refl)))
    | inr partly ↦ rw partly (returns (refl, λ q. refl))
  ]

  -- before the first call
  pub no_map-Holds : Holds (record { size_map = none })
  unfolding map_of
  no_map-Holds = record { valid = new_map-IsValid }
