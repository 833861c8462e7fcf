-- ===== src/AutoPtr/Tests.antt =====
-- The theorem on taking a value at a concrete thread.
use lralloc_rs.Common.{◌≡◌, refl, true, [], ◌∷◌, arith, ◌>>=◌, Returns}
use lralloc_rs.MemInfo.{align_size}
use lralloc_rs.SizeClasses.{get_size_class}
use lralloc_rs.Malloc.{BinHolds, is_power_of_two}
use lralloc_rs.Malloc.Tests.{kilobyte, holding, call, two_blocks, holding-IsPlain, holding-IsOwned}
use lralloc_rs.AutoPtr.{new_ptr, take}
use lralloc_rs.AutoPtr.Taken.{take-new_ptr}

power_of_eight : is_power_of_two 8 ≡ true
unfolding is_power_of_two
power_of_eight = refl

class_of_aligned : get_size_class (holding.table) (align_size 1000 8) ≡ 24
unfolding get_size_class align_size lralloc_rs.MemInfo.align_val
class_of_aligned = refl

take-new_ptr_example :
    Returns
      (λ r. (r.0 ≡ 77) × BinHolds 24 1024 r.1 (0x8000 ∷ 0x8400 ∷ []))
      (new_ptr call 8 1000 77 holding >>= λ r. take call r.0 r.1)
unfolding align_size lralloc_rs.MemInfo.align_val
take-new_ptr_example =
    take-new_ptr call call holding 8 1000 77 23 1024 0x8000 kilobyte (0x8400 ∷ []) holding-IsPlain
      refl power_of_eight (omega arith) class_of_aligned two_blocks holding-IsOwned refl
      (omega arith)
