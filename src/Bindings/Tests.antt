-- ===== src/Bindings/Tests.antt =====
-- The C functions on a thread whose bin of class 24 holds two blocks of 1024 bytes.
use lralloc_rs.Common.{
  false, true, ◌+◌, ◌*◌, ◌^◌, ◌≡◌, ◌≤◌, ◌<◌, refl, none, some, [], ◌∷◌, ◌++◌, arith, replicate, inr,
  Returns, returned, ℕ,
}
use lralloc_rs.SizeClasses.{large_class, get_size_class}
use lralloc_rs.AllocationData.Desc.{default_descriptor}
use lralloc_rs.ThreadCache.{new_bin, decode}
use lralloc_rs.Bootstrap.{bootstrap_reserve}
use lralloc_rs.Alloc.{new_none}
use lralloc_rs.Apf.Trace.{alloc}
use lralloc_rs.Malloc.{Thread, Call, BinHolds, new_tuning}
use lralloc_rs.Bindings.{Library, calloc, posix_memalign, einval}
use lralloc_rs.Bindings.Calloc.{Apart, calloc-Zeroed}
use lralloc_rs.Malloc.Tests.{holding}
use lralloc_rs.Malloc.Tests

abbrev thread : Thread
thread = record {
  world = record {
    store = record { descs = λ _. default_descriptor; available = 0 };
    heaps = λ _. new_none 24;
    heaps_at = 0x1000;
    classes = replicate 25 large_class;
    memory = λ _. 0;
    pages = λ _. 0;
    unmapped = [];
  };
  bins =
      replicate 24 new_bin ++ record { block = 0x8000; block_num = 2; block_size = some 1024 } ∷ [];
  table = λ _. 24;
  use_apf = false;
  use_bootstrap = false;
  bootstrap = bootstrap_reserve;
  tuning = new_tuning;
}

abbrev call : Call
call = record {
  no_met_stack = false;
  fuel = 1;
  page_answer = none;
  segment_answer = none;
  fetch_pages = λ _. none;
  fetch_segments = λ _. none;
  settings = record {
    target_apf = 2500;
    reuse_burst_length = 300;
    reuse_hibernation_period = 600;
    memory = λ _. alloc 0;
  };
}

abbrev library : Library
library = record {
  thread = thread;
  override_malloc = false;
  override_calloc = false;
  override_realloc = false;
  override_free = false;
  override_aligned_alloc = false;
}

two_blocks : BinHolds 24 1024 thread (0x8000 ∷ 0x8400 ∷ [])
unfolding decode
two_blocks = record {
  bin = record { block = 0x8000; block_num = 2; block_size = some 1024 };
  here = refl;
  holds = record {
    sized = refl;
    counted = refl;
    linked = (refl, omega arith, omega arith, refl, (refl, omega arith, omega arith, refl, tt));
  };
}

other-Apart : Apart 0x8000 1000 (0x8400 ∷ [])
other-Apart y h = inr (ground arith)

calloc-Zeroed_example :
    Returns
      (λ r.
        (r.0 ≡ 0x8000)
        × ((a : ℕ) → 0x8000 ≤ a → a < 0x8000 + 10 * 100 → r.1.thread.world.memory a ≡ 0)
        × BinHolds (get_size_class (λ _. 24) 1000) 1024 (r.1.thread) (0x8400 ∷ []))
      (calloc call 10 100 library)
unfolding get_size_class
calloc-Zeroed_example =
    calloc-Zeroed call library 10 100 1024 0x8000 (0x8400 ∷ [])
      (record { compressed = refl; untuned = refl; own = refl }) (omega arith) (omega arith)
      other-Apart two_blocks

calloc_overflow :
    calloc call (2 ^ 63) 2 library ≡ returned (0, record library { override_calloc = true })
unfolding calloc
calloc_overflow = refl

-- a thread whose page map knows the first block
abbrev owning : Library
owning = record library { thread = holding }

posix_memalign-einval :
    posix_memalign call 0x500 12 100 library
    ≡ returned (einval, record library { override_aligned_alloc = true })
unfolding posix_memalign
posix_memalign-einval = refl
