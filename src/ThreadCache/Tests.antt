-- ===== src/ThreadCache/Tests.antt =====
-- Runs of a bin with blocks of 16 bytes, two of them adjacent, and the theorems there.
use lralloc_rs.Common.{◌≡◌, refl, some, List, [], ◌∷◌, Returns}
use lralloc_rs.ThreadCache.{Memory, ThreadCacheBin}
use lralloc_rs.ThreadCache.Stack.{Holds}
use lralloc_rs.ThreadCache.Refine.{Op, push, pop, bin_run, list_run, bin_run-Holds}

abbrev empty_bin : ThreadCacheBin
empty_bin = record { block = 0; block_num = 0; block_size = some 16 }

abbrev blank : Memory
blank _ = 0

empty-Holds : Holds 16 blank empty_bin []
empty-Holds = record { sized = refl; counted = refl; linked = tt }

abbrev ops : List Op
ops = push 4112 ∷ push 4096 ∷ pop ∷ push 8192 ∷ pop ∷ []

ops_run : list_run ops [] ≡ some (4096 ∷ 8192 ∷ [], 4112 ∷ [])
unfolding list_run
ops_run = refl

bin_run-Holds_example :
    Returns
      (λ r. (r.0 ≡ 4096 ∷ 8192 ∷ []) × Holds 16 r.2 r.1 (4112 ∷ []))
      (bin_run ops empty_bin blank)
bin_run-Holds_example =
    bin_run-Holds 16 ops empty_bin blank [] (4096 ∷ 8192 ∷ []) (4112 ∷ []) empty-Holds ops_run
