-- ===== src/Pages.antt =====
-- src/pages.rs and src/pages/external_mem_reservation.rs: pages from the kernel, and the map from the
-- addresses handed out to their sizes. What mmap, munmap and errno answer are arguments, and so is the
-- hash of an address. The lock makes each function one step; what is for windows is left out.
pub mod Sizes
mod Tests
use lralloc_rs.Common.{
  ℕ, Bool, true, false, Option, none, some, bit_and, ◌==◌, if◌then◌else◌, Outcome, returned, unwrap,
  ◌>>=◌,
}
use lralloc_rs.MemInfo.{page_mask}
use lralloc_rs.ThreadCache.{usize_max}
use lralloc_rs.AllocationData.Desc.{Segment}
use lralloc_rs.Collections.HashMap.{HashMap, new_map, insert, get_value, contains, remove_key}

-- `Result<_, AllocationError>`; `AllocationFailed` has the size and the error of the kernel
pub data AllocResult (A : Type 0) : Type 0 where
  ok : A → AllocResult A
  allocation_failed : ℕ → ℕ → AllocResult A

-- `allocate`, and `allocate_massive` with another flag of mmap
unfoldable pub allocate : ℕ → ℕ → ℕ → AllocResult Segment
allocate mmap errno size =
    if mmap == usize_max
    then allocation_failed size errno
    else ok (record { ptr = mmap; length = size })

abbrev pub deallocate : (Segment → ℕ) → Segment → Bool
deallocate munmap segment = munmap segment == 0

-- `SegmentHolder`
pub record SegmentHolder : Type 0 where
  pub size_map : Option (HashMap ℕ ℕ)

-- the map of the holder, a new one on the first call
unfoldable pub map_of : SegmentHolder → HashMap ℕ ℕ
map_of holder = elim (holder.size_map) [ none ↦ new_map | some m ↦ m ]

abbrev pub same_ptr : ℕ → ℕ → Bool
same_ptr p q = p == q

module _ (hash : ℕ → ℕ) where
  -- `page_alloc`, and `page_alloc_over_commit` with `allocate_massive`
  unfoldable pub page_alloc : ℕ → ℕ → ℕ → SegmentHolder → Outcome (AllocResult ℕ × SegmentHolder)
  unfolding allocate map_of
  page_alloc mmap errno size holder =
      if bit_and size page_mask == 0
      then elim (allocate mmap errno size) [
        | allocation_failed s e ↦
            returned (allocation_failed s e, record { size_map = some (map_of holder) })
        | ok segment ↦ insert hash same_ptr (segment.ptr) size (map_of holder) >>= λ r.
            returned (ok (segment.ptr), record { size_map = some r.1 })
      ]
      else returned (allocation_failed size errno, holder)

  -- `page_free`; the segment is the one that goes to munmap
  unfoldable pub page_free :
      (Segment → ℕ) → ℕ → SegmentHolder → Outcome (Bool × Option Segment × SegmentHolder)
  page_free munmap ptr holder = do
    m ← unwrap holder.size_map
    known ← contains hash same_ptr ptr m
    (if known
        then (do
          present ← get_value hash same_ptr ptr m
          size ← unwrap present
          let segment : Segment = record { ptr = ptr; length = size }
          (old, m') ← remove_key hash same_ptr ptr m
          returned (deallocate munmap segment, some segment, record { size_map = some m' }))
        else returned (false, none, holder))
