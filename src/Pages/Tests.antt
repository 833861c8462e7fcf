-- ===== src/Pages/Tests.antt =====
-- The theorems on pages at concrete answers of the kernel.
use lralloc_rs.Common.{ℕ, ◌*◌, ◌≡◌, refl, some, none, arith, returned, Returns}
use lralloc_rs.MemInfo.{page}
use lralloc_rs.AllocationData.Desc.{Segment}
use lralloc_rs.Pages.{ok, allocation_failed, SegmentHolder, page_alloc, page_free}
use lralloc_rs.Pages.Sizes.{size_of, Freed, page_free-page_alloc, no_map-Holds}

-- the hash of an address is the address, and munmap answers that it has unmapped
abbrev itself : ℕ → ℕ
itself p = p

abbrev unmapped : Segment → ℕ
unmapped segment = 0

abbrev empty : SegmentHolder
empty = record { size_map = none }

page_free-page_alloc_example :
    Returns
      (λ r.
        (r.0 ≡ ok (7 * page))
        × (size_of itself r.1 (7 * page) ≡ some (2 * page))
        × Returns
            (Freed itself unmapped (7 * page) (2 * page) (size_of itself empty))
            (page_free itself unmapped (7 * page) r.1))
      (page_alloc itself (7 * page) 0 (2 * page) empty)
page_free-page_alloc_example =
    page_free-page_alloc itself unmapped (7 * page) 0 (2 * page) empty refl (omega arith)
      (no_map-Holds itself)

-- A size that is no multiple of the page is refused before the kernel is asked.
alloc_of_one : page_alloc itself (7 * page) 12 1 empty ≡ returned (allocation_failed 1 12, empty)
unfolding page_alloc
alloc_of_one = refl
