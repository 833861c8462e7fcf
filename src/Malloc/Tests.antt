-- ===== src/Malloc/Tests.antt =====
-- A thread with blocks of class 24 in its bin, one without, and one that allocates five pages.
use lralloc_rs.Common.{
  true, ◌≢◌, drop, panicked, false, ◌+◌, ◌*◌, ◌≡◌, ◌≤◌, refl, none, some, [], ◌∷◌, ◌++◌, arith,
  update, replicate, Returns, returned, ◌>>=◌,
}
use lralloc_rs.SizeClasses.{SizeClassData, large_class, get_size_class}
use lralloc_rs.AllocationData.Desc.{
  Store, Segment, Descriptor, default_descriptor, null_node, alloc, get_desc, next_head,
  get_counter, set as set_node,
}
use lralloc_rs.AllocationData.Desc.Nodes.{IsPlace}
use lralloc_rs.ThreadCache.{ThreadCacheBin, new_bin, decode}
use lralloc_rs.PageMap.{
  desc_for_ptr, get_page_info, addr_to_key, get_size_class_index, get_desc as page_desc,
}
use lralloc_rs.Bootstrap.{bootstrap_reserve}
use lralloc_rs.Alloc.{World, new_none}
use lralloc_rs.Alloc.Fresh.{blocks}
use lralloc_rs.Apf.Trace.{alloc as alloc_event}
use lralloc_rs.Apf.Tuner.{Settings, Quotient, new_tuner, ceil, exceeds, return_demand}
use lralloc_rs.Malloc.Hooks.{fetch_loop, thread_hooks, start_tuning}
use lralloc_rs.Malloc.Hooks.Fetched.{fetch_loop-Ends, fetch_loop-panicked}
use lralloc_rs.Malloc.Hooks.Returned.{returned_count, return_demand-Drops}
use lralloc_rs.Malloc.State.{new_tuning, BinHolds}
use lralloc_rs.Malloc.{Thread, Call, do_malloc, do_free, free_large}
use lralloc_rs.Malloc.Init.{init_malloc, IsUp, init_malloc-IsUp}
use lralloc_rs.Malloc.Small.{IsPlain, IsOwned, do_free-do_malloc, do_malloc-Fresh}
use lralloc_rs.Malloc.Large.{IsGiven, do_free-Large, free_large-Stale}

abbrev pub kilobyte : SizeClassData
kilobyte = record { block_size = 1024; sb_size = 4096; block_num = 4; cache_block_num = 4 }

abbrev seg : Segment
seg = record { ptr = 0x8000; length = 4096 }

abbrev taken : Descriptor
taken = record default_descriptor {
  anchor = 4 * 4;
  super_block = some seg;
  proc_heap = 0x1000 + 24 * 64;
  block_size = 1024;
  max_count = 4;
}

abbrev world : World
world = record {
  store = record { descs = λ _. taken; available = 256 };
  heaps = λ _. new_none 24;
  heaps_at = 0x1000;
  classes = replicate 24 large_class ++ kilobyte ∷ [];
  memory = λ _. 0;
  pages = update (λ _. 0) 8 128;
  unmapped = [];
}

abbrev with_bin : ThreadCacheBin → Thread
with_bin bin = record {
  world = world;
  bins = replicate 24 new_bin ++ bin ∷ [];
  table = λ _. 24;
  use_apf = false;
  use_bootstrap = false;
  bootstrap = bootstrap_reserve;
  tuning = new_tuning;
}

abbrev pub holding : Thread
holding = with_bin (record { block = 0x8000; block_num = 2; block_size = some 1024 })

abbrev settings : Settings
settings = record {
  target_apf = 2500;
  reuse_burst_length = 300;
  reuse_hibernation_period = 600;
  memory = λ _. alloc_event 0;
}

abbrev pub call : Call
call = record {
  no_met_stack = false;
  fuel = 1;
  page_answer = none;
  segment_answer = some (record { ptr = 0x20000; length = 20480 });
  fetch_pages = λ _. none;
  fetch_segments = λ _. none;
  settings = settings;
}

pub holding-IsPlain : IsPlain call holding
holding-IsPlain = record { compressed = refl; untuned = refl; own = refl }

pub two_blocks : BinHolds 24 1024 holding (0x8000 ∷ 0x8400 ∷ [])
unfolding decode
two_blocks = record {
  bin = record { block = 0x8000; block_num = 2; block_size = some 1024 };
  here = refl;
  holds = record {
    sized = refl;
    counted = refl;
    linked = (refl, omega arith, omega arith, refl, (refl, omega arith, omega arith, refl, tt));
  };
}

pub holding-IsOwned : IsOwned 0x8000 23 holding
unfolding get_page_info addr_to_key page_desc get_size_class_index get_size_class
holding-IsOwned = record { desc = 128; leads = refl; class = refl }

class_of_1000 : get_size_class (holding.table) 1000 ≡ 24
unfolding get_size_class
class_of_1000 = refl

do_free-do_malloc_example :
    Returns
      (λ t'. BinHolds 24 1024 t' (0x8000 ∷ 0x8400 ∷ []))
      (do_malloc call 1000 holding >>= λ r. do_free call r.0 r.1)
do_free-do_malloc_example =
    do_free-do_malloc call call holding 1000 23 1024 0x8000 kilobyte (0x8400 ∷ []) holding-IsPlain
      refl (omega arith) class_of_1000 two_blocks holding-IsOwned refl (omega arith)

at_place : IsPlace 256
at_place = record { aligned = refl; ne_null = omega arith; small = omega arith }

abbrev spent : Store
spent = record { descs = λ _. taken; available = null_node }

spare_given : alloc none (world.store) ≡ returned (256, spent)
unfolding alloc get_desc next_head
spare_given = refl

abbrev fresh : Segment
fresh = record { ptr = 0x20000; length = 20480 }

with_bin-IsPlain : IsPlain call (with_bin new_bin)
with_bin-IsPlain = record { compressed = refl; untuned = refl; own = refl }

do_malloc-Fresh_example :
    Returns
      (λ r.
        (r.0 ≡ 0x20000)
        × BinHolds (get_size_class (λ _. 24) 1000) 1024 r.1 (blocks 3 1024 (0x20000 + 1024)))
      (do_malloc call 1000 (with_bin new_bin))
unfolding get_size_class
do_malloc-Fresh_example =
    do_malloc-Fresh call (with_bin new_bin) 1000 0 kilobyte fresh new_bin 256 3 spent
      with_bin-IsPlain (omega arith) refl refl refl refl
      (record { inside = omega arith; class = refl; heap = refl; ne_null = omega arith })
      (record {
        wide = omega arith;
        some_block = omega arith;
        whole = refl;
        paged = refl;
        modest = omega arith;
      })
      refl
      (record {
        ne_null = omega arith;
        aligned = refl;
        fits = omega arith;
        blank = λ x from to. refl;
      })
      refl spare_given at_place

fresh-IsGiven : IsGiven call world 256 spent fresh
fresh-IsGiven = record {
  segment = refl;
  ne_null = omega arith;
  descriptor = spare_given;
  place = at_place;
}

do_free-Large_example :
    Returns
      (λ t'.
        (t'.world.unmapped ≡ fresh ∷ [])
        × (desc_for_ptr (t'.world.pages) 0x20000 ≡ none)
        × (t'.world.store.available ≡ set_node (some 256) (get_counter 0 + 1))
        × (t'.bins ≡ holding.bins))
      (do_malloc call 20000 holding >>= λ r. do_free call r.0 r.1)
do_free-Large_example =
    do_free-Large call call holding 20000 256 spent fresh (omega arith) (omega arith) fresh-IsGiven

free_large-Stale_example :
    Returns
      (λ w'.
        (desc_for_ptr (w'.pages) 0xa000 ≡ desc_for_ptr (world.pages) 0xa000)
        × (w'.store.available ≡ set_node (some 128) (get_counter 256 + 1)))
      (free_large 0xa000 128 world)
unfolding addr_to_key
free_large-Stale_example = free_large-Stale 0xa000 128 seg world refl (omega arith) refl refl

fetch_loop-Ends_example :
    (fetch_loop call 7 0 24 9 new_bin 0 world ≡ fetch_loop call 2 0 24 9 new_bin 0 world)
    × (fetch_loop call 2 0 24 9 new_bin 0 world ≢ returned none)
fetch_loop-Ends_example =
    fetch_loop-Ends call 24 9 world kilobyte refl (omega arith) (omega arith) 5 new_bin 0

fetch_loop-panicked_example :
    fetch_loop call 2 0 24 9
      (record { block = 0x8000; block_num = 2; block_size = some 1024 })
      2
      world
    ≡ panicked
fetch_loop-panicked_example =
    fetch_loop-panicked call 1 0 24 9
      (record { block = 0x8000; block_num = 2; block_size = some 1024 }) 2 world (omega arith)
      (omega arith)

-- a demand of a third of a block
abbrev third : Quotient
third = record { plus = 4; minus = 3; parts = 3 }

return_demand-Drops_example :
    Returns
      (λ r.
        BinHolds 24 1024 r.2 (drop (returned_count 2 third) (0x8000 ∷ 0x8400 ∷ []))
        × (returned_count 2 third ≤ 2)
        × (r.2.world ≡ world))
      (return_demand (thread_hooks call) settings third (new_tuner settings 24 false) holding)
return_demand-Drops_example =
    return_demand-Drops call settings third (new_tuner settings 24 false) holding 1024
      (0x8000 ∷ 0x8400 ∷ []) refl (omega arith) (omega arith) two_blocks

two_returned : returned_count 2 third ≡ 2
unfolding exceeds ceil
two_returned = refl

-- The first allocation of a thread makes its tuners.
started_tuning : (start_tuning settings new_tuning).skip_tuners ≡ 0
unfolding start_tuning
started_tuning = refl

-- the statics before the first call
abbrev idle : Thread
idle = record holding {
  world = record world { heaps = λ _. new_none 0; classes = []; pages = λ _. 7 };
  table = λ _. 9;
}

init_malloc-IsUp_example : Returns (IsUp 2500) (
    init_malloc 2500 true
      (some (record { ptr = 0x100000; length = 4096 }))
      (some (record { ptr = 0x200000; length = 131584 }))
      idle)
init_malloc-IsUp_example =
    init_malloc-IsUp 2500 true (record { ptr = 0x100000; length = 4096 })
      (record { ptr = 0x200000; length = 131584 }) idle (omega arith) (omega arith)
