-- ===== src/Reserve/Tests.antt =====
-- Bins of the size class 24, blocks of 1024 bytes, that are filled and flushed.
use lralloc_rs.Common.{
  false, ◌+◌, ◌≢◌, replicate, ◌++◌, ◌*◌, ◌^◌, ◌≡◌, refl, none, some, [], ◌∷◌, arith, update,
  Returns, returned,
}
use lralloc_rs.SizeClasses.{SizeClassData, large_class}
use lralloc_rs.AllocationData.{full, partial, state, avail, count, empty, SuperBlockState}
use lralloc_rs.AllocationData.Anchor.{Fields}
use lralloc_rs.AllocationData.Desc.{
  Store, Segment, Descriptor, default_descriptor, null_node, alloc, get_desc, next_head,
}
use lralloc_rs.AllocationData.Desc.Nodes.{IsPlace}
use lralloc_rs.ThreadCache.{ThreadCacheBin, new_bin}
use lralloc_rs.ThreadCache.Stack.{Holds}
use lralloc_rs.PageMap.{desc_for_ptr, get_page_info, addr_to_key, get_desc as page_desc}
use lralloc_rs.PageMap.Update.{Covers}
use lralloc_rs.Alloc.{World, new_none, compute_index}
use lralloc_rs.Alloc.Fresh.{IsSetUp, blocks}
use lralloc_rs.Reserve.{fill_cache, flush_cache}
use lralloc_rs.Reserve.Fill.{fill_cache-Holds}
use lralloc_rs.Reserve.Back.{IsOut, IsBack, flush_cache-IsBack}
use lralloc_rs.Reserve.Emptied.{IsLast, IsGone, flush_cache-IsGone}
use lralloc_rs.Reserve.Compressed.{IsCompressed, IsTopBack, flush_cache-Compressed}

-- Class 24 as the initialisation leaves it for small targets; the classes before it are not used.
abbrev kilobyte : SizeClassData
kilobyte = record { block_size = 1024; sb_size = 4096; block_num = 4; cache_block_num = 4 }

abbrev at_place : IsPlace 128
at_place = record { aligned = refl; ne_null = omega arith; small = omega arith }

abbrev spare : Store
spare = record { descs = λ _. default_descriptor; available = 128 }

abbrev seg : Segment
seg = record { ptr = 0x8000; length = 4096 }

abbrev world : World
world = record {
  store = spare;
  heaps = λ _. new_none 24;
  heaps_at = 0x1000;
  classes = replicate 24 large_class ++ kilobyte ∷ [];
  memory = λ _. 0;
  pages = λ _. 0;
  unmapped = [];
}

world-IsSetUp : IsSetUp 24 kilobyte world
world-IsSetUp = record { inside = omega arith; class = refl; heap = refl; ne_null = omega arith }

spare_given : alloc none spare ≡ returned (128, record spare { available = null_node })
unfolding alloc get_desc next_head
spare_given = refl

fill_cache-Holds_example :
    Returns
      (λ r.
        Holds 1024 (r.1.memory) r.0 (blocks 4 1024 0x8000)
        × Covers 0x8000 4096 (some 128) (world.pages) (r.1.pages)
        × Fields ((r.1.store.descs 128).anchor) full 4 0)
      (fill_cache false 1 none (some seg) 24 new_bin world)
fill_cache-Holds_example =
    fill_cache-Holds 24 0 kilobyte seg new_bin world none 128
      (record spare { available = null_node }) world-IsSetUp
      (record {
        wide = omega arith;
        some_block = omega arith;
        whole = refl;
        paged = refl;
        modest = omega arith;
      })
      (record {
        ne_null = omega arith;
        aligned = refl;
        fits = omega arith;
        blank = λ x from to. refl;
      })
      refl spare_given at_place refl

-- The super block is taken; the bin has its blocks 1 and 2.
abbrev taken : Descriptor
taken = record default_descriptor {
  anchor = 4 * 4;
  super_block = some seg;
  proc_heap = 0x1000 + 24 * 64;
  block_size = 1024;
  max_count = 4;
}

abbrev out : World
out = record world {
  store = record { descs = λ _. taken; available = null_node };
  pages = update (λ _. 0) 8 128;
  memory = update (λ _. 0) 0x8400 0x8800;
}

abbrev bin : ThreadCacheBin
bin = record { block = 0x8400; block_num = 2; block_size = some 1024 }

taken-Fields : Fields (4 * 4) full 4 0
unfolding state avail count
taken-Fields = record { word = omega arith; state_is = refl; avail_is = refl; count_is = refl }

bin-IsOut : IsOut 24 kilobyte seg 128 4 1 bin out 0x8400 (0x8800 ∷ []) []
unfolding desc_for_ptr get_page_info addr_to_key page_desc compute_index
bin-IsOut = record {
  set_up = record { inside = omega arith; class = refl; heap = refl; ne_null = omega arith };
  chained = (refl, omega arith, omega arith, (refl, omega arith, omega arith, tt));
  counted = refl;
  found = refl;
  super_block = refl;
  fields = taken-Fields;
  fewer = refl;
  number = refl;
  heap = refl;
  place = at_place;
  unlisted = refl;
  listed = refl;
}

flush_cache-IsBack_example :
    Returns
      (λ r.
        IsBack 24 kilobyte seg 128 4 1 out 0x8400 (0x8800 ∷ []) [] r.0 r.1
        × (r.0.block_size ≡ none))
      (flush_cache 24 bin out)
flush_cache-IsBack_example =
    flush_cache-IsBack 24 kilobyte seg 128 4 1 bin out 0x8400 (0x8800 ∷ []) [] bin-IsOut

-- The same bin, whose top has a compressed link.
abbrev compressed : World
compressed = record out { memory = λ _. 0 }

bin-IsCompressed : IsCompressed 24 seg 128 4 1 0 bin compressed []
unfolding desc_for_ptr get_page_info addr_to_key page_desc compute_index
bin-IsCompressed = record {
  counted = refl;
  link = refl;
  found = refl;
  null = refl;
  super_block = refl;
  ne_null = omega arith;
  fields = taken-Fields;
  fewer = refl;
  number = refl;
  heap = refl;
  place = at_place;
  unlisted = refl;
  listed = refl;
}

flush_cache-Compressed_example :
    Returns
      (λ r. IsTopBack 24 kilobyte seg 128 4 1 0 bin compressed [] r.0 r.1)
      (flush_cache 24 bin compressed)
flush_cache-Compressed_example =
    flush_cache-Compressed 24 kilobyte seg 128 4 1 0 bin compressed []
      (record { inside = omega arith; class = refl; heap = refl; ne_null = omega arith })
      bin-IsCompressed

-- The super block has two blocks free, 0 and then 3, when 1 and 2 come back; another super block is mapped
-- behind it.
abbrev half_free : World
half_free = record out {
  store = record { descs = λ _. record taken { anchor = 2 * 2 ^ 32 + 1 }; available = null_node };
  pages = update (update (λ _. 0) 9 192) 8 128;
}

half_free-Fields : Fields (2 * 2 ^ 32 + 1) partial 0 2
unfolding state avail count
half_free-Fields = record { word = omega arith; state_is = refl; avail_is = refl; count_is = refl }

bin-IsLast : IsLast 24 kilobyte seg 128 0 2 1 partial bin half_free 0x8400 (0x8800 ∷ [])
unfolding desc_for_ptr get_page_info addr_to_key page_desc compute_index
bin-IsLast = record {
  set_up = record { inside = omega arith; class = refl; heap = refl; ne_null = omega arith };
  chained = (refl, omega arith, omega arith, (refl, omega arith, omega arith, tt));
  counted = refl;
  found = refl;
  super_block = refl;
  fields = half_free-Fields;
  live = λ e. cc;
  all = refl;
  number = refl;
  ne_null = omega arith;
  aligned = refl;
  whole = refl;
  fits = omega arith;
}

flush_cache-IsGone_example :
    Returns
      (λ r. IsGone kilobyte seg 128 1 half_free r.0 r.1 × (r.0.block_size ≡ none))
      (flush_cache 24 bin half_free)
flush_cache-IsGone_example =
    flush_cache-IsGone 24 kilobyte seg 128 0 2 1 partial bin half_free 0x8400 (0x8800 ∷ [])
      bin-IsLast

-- The descriptor of the super block behind still leads there.
kept_behind : desc_for_ptr (half_free.pages) 0x9000 ≡ some 192
unfolding desc_for_ptr get_page_info addr_to_key page_desc
kept_behind = refl

full≢empty : ◌≢◌ {A = SuperBlockState} full empty
full≢empty e = cc
