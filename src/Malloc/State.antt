-- ===== src/Malloc/State.antt =====
-- src/lib.rs and src/thread_cache.rs: the state of a thread, and what a call is given.
use lralloc_rs.Common.{ℕ, ◌≡◌, Bool, false, Option, some, List, [], get_elem?}
use lralloc_rs.AllocationData.Desc.{Segment}
use lralloc_rs.ThreadCache.{ThreadCacheBin}
use lralloc_rs.ThreadCache.Stack.{Holds}
use lralloc_rs.Alloc.{World}
use lralloc_rs.Bootstrap.{BootstrapReserve}
use lralloc_rs.Apf.Tuner.{ApfTuner, Settings}

-- The statics of a thread's tuners: skip, skip_tuners, apf_tuners and apf_init.
pub record Tuning : Type 0 where
  pub skip : Bool
  pub skip_tuners : ℕ
  pub apf_tuners : List ApfTuner
  pub apf_init : Bool

abbrev pub new_tuning : Tuning
new_tuning = record { skip = false; skip_tuners = 1; apf_tuners = []; apf_init = false }

-- The bins of a thread, with the statics: the lookup table, USE_APF, and whether the bootstrap is used.
pub record Thread : Type 0 where
  pub world : World
  pub bins : List ThreadCacheBin
  pub table : ℕ → ℕ
  pub use_apf : Bool
  pub use_bootstrap : Bool
  pub bootstrap : BootstrapReserve
  pub tuning : Tuning

-- The features and the settings of the build, the fuel, and what is asked of the kernel in a call: once by
-- the allocation, and in every round by a fetch of the tuner.
pub record Call : Type 0 where
  pub no_met_stack : Bool
  pub fuel : ℕ
  pub page_answer : Option ℕ
  pub segment_answer : Option Segment
  pub fetch_pages : ℕ → Option ℕ
  pub fetch_segments : ℕ → Option Segment
  pub settings : Settings

-- The bin of a class holds the blocks `xs` of `size` bytes.
pub record BinHolds (index size : ℕ) (t : Thread) (xs : List ℕ) : Type 0 where
  pub bin : ThreadCacheBin
  pub here : get_elem? t.bins index ≡ some bin
  pub holds : Holds size (t.world.memory) bin xs
