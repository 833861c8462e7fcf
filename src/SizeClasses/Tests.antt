-- ===== src/SizeClasses/Tests.antt =====
-- Runs of src/size_classes.rs, and its theorem at the default target.
use lralloc_rs.Common.{ℕ, ◌≡◌, refl, get_or, returned, Outcome, Returns, ◌>>=◌, arith}
use lralloc_rs.SizeClasses.{SizeClassData, large_class, init_size_class, get_size_class}
use lralloc_rs.SizeClasses.Blocks.{IsInit, init_size_class-IsInit}

abbrev default_target : ℕ
default_target = 2500

abbrev class_of : ℕ → Outcome SizeClassData
class_of i = do
  (classes, table) ← init_size_class default_target
  returned (get_or classes i large_class)

class_one :
    class_of 1
    ≡ returned
        (record { block_size = 8; sb_size = 20480; block_num = 2560; cache_block_num = 2560 })
unfolding init_size_class
class_one = refl

abbrev index_of : ℕ → Outcome ℕ
index_of size = do
  (classes, table) ← init_size_class default_target
  returned (get_size_class table size)

index_runs : index_of 100 ≡ returned 11
unfolding init_size_class get_size_class
index_runs = refl

init_size_class-IsInit_example : Returns (IsInit default_target) (init_size_class default_target)
init_size_class-IsInit_example = init_size_class-IsInit default_target (omega arith)
