-- ===== src/Alloc/Tests.antt =====
-- A heap with one class of blocks of 1024 bytes: a new super block, and a partly used one.
use lralloc_rs.Common.{
  false, ◌+◌, update, ◌*◌, ◌^◌, ◌≡◌, refl, none, some, [], ◌∷◌, arith, Returns, returned,
}
use lralloc_rs.SizeClasses.{SizeClassData, large_class}
use lralloc_rs.AllocationData.{state, avail, count}
use lralloc_rs.AllocationData.Desc.{
  Store, Segment, default_descriptor, null_node, alloc, get_desc, next_head, Descriptor,
}
use lralloc_rs.AllocationData.Desc.Free.{IsFree}
use lralloc_rs.ThreadCache.{new_bin}
use lralloc_rs.Alloc.{World, new_none, malloc_from_new_sb, malloc_from_partial}
use lralloc_rs.Alloc.Partial.{IsPartial}
use lralloc_rs.Alloc.Taking.{IsUsed, IsEmpty, Takes, malloc_from_partial-Takes}
use lralloc_rs.Alloc.Fresh.{IsFilled, IsClass, IsMapped, IsSetUp, malloc_from_new_sb-IsFilled}

abbrev kilobyte : SizeClassData
kilobyte = record { block_size = 1024; sb_size = 4096; block_num = 4; cache_block_num = 4 }

abbrev spare : Store
spare = record { descs = λ _. default_descriptor; available = 128 }

abbrev world : World
world = record {
  store = spare;
  heaps = λ _. new_none 1;
  heaps_at = 0x1000;
  classes = large_class ∷ kilobyte ∷ [];
  memory = λ _. 0;
  pages = λ _. 0;
  unmapped = [];
}

abbrev seg : Segment
seg = record { ptr = 0x8000; length = 4096 }

kilobyte-IsClass : IsClass kilobyte
kilobyte-IsClass = record {
  wide = omega arith;
  some_block = omega arith;
  whole = refl;
  paged = refl;
  modest = omega arith;
}

seg-IsMapped : IsMapped kilobyte seg (world.memory)
seg-IsMapped = record {
  ne_null = omega arith;
  aligned = refl;
  fits = omega arith;
  blank = λ x from to. refl;
}

world-IsSetUp : IsSetUp 1 kilobyte world
world-IsSetUp = record { inside = omega arith; class = refl; heap = refl; ne_null = omega arith }

abbrev spent : Store
spent = record spare { available = null_node }

spare_given : alloc none spare ≡ returned (128, spent)
unfolding alloc get_desc next_head
spare_given = refl

malloc_from_new_sb-IsFilled_example :
    Returns
      (λ r. IsFilled 128 kilobyte seg new_bin (world.pages) r.0 r.2 × (r.1 ≡ 4))
      (malloc_from_new_sb false none (some seg) 1 new_bin 0 world)
malloc_from_new_sb-IsFilled_example =
    malloc_from_new_sb-IsFilled 1 kilobyte seg new_bin 0 world none 128 spent world-IsSetUp
      kilobyte-IsClass seg-IsMapped spare_given
      (record { aligned = refl; ne_null = omega arith; small = omega arith }) refl

-- The blocks 1 and 2 of the super block are free; an empty descriptor stands in front of it.
abbrev used : Descriptor
used = record default_descriptor {
  anchor = 2 * 2 ^ 32 + 4 + 1;
  super_block = some seg;
  block_size = 1024;
  max_count = 4;
}

abbrev gone : Descriptor
gone = record default_descriptor { anchor = 2; next_partial = some 256 }

abbrev half_used : World
half_used = record world {
  store = record spare { descs = update (update (λ _. default_descriptor) 256 used) 384 gone };
  heaps = λ _. record { partial_list = some 384; size_class_index = 1 };
}

used-IsUsed : IsUsed used seg 1 2
unfolding state avail count
used-IsUsed = record {
  fields = record { word = omega arith; state_is = refl; avail_is = refl; count_is = refl };
  inside = omega arith;
  mapped = refl;
}

gone-IsEmpty : IsEmpty 384 half_used
unfolding state
gone-IsEmpty = refl

half_used-IsPartial : IsPartial (0x1000 + 1 * 64) half_used (384 ∷ 256 ∷ [])
unfolding get_desc
half_used-IsPartial = (
  (384, refl, refl),
  record { aligned = refl; ne_null = omega arith; small = omega arith },
  refl,
  (
    (256, refl, refl),
    record { aligned = refl; ne_null = omega arith; small = omega arith },
    refl,
    refl,
  ),
)

half_used-IsFree : IsFree (half_used.store) (128 ∷ [])
unfolding get_desc
half_used-IsFree =
    (refl, record { aligned = refl; ne_null = omega arith; small = omega arith }, refl, refl)

malloc_from_partial-Takes_example :
    Returns
      (Takes (0x1000 + 1 * 64) 256 used seg 1 2 new_bin 0 [] (384 ∷ 128 ∷ []))
      (malloc_from_partial 2 1 new_bin 0 half_used)
malloc_from_partial-Takes_example =
    malloc_from_partial-Takes 1 256 used seg 1 2 new_bin 0 (384 ∷ []) [] (128 ∷ []) 2 half_used
      (omega arith) (omega arith) (gone-IsEmpty, tt) half_used-IsPartial refl used-IsUsed refl
      half_used-IsFree (refl, tt)
