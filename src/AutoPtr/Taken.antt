-- ===== src/AutoPtr/Taken.antt =====
-- Taking the value out of a new pointer.
use lralloc_rs.Common.{
  ℕ, suc, ◌≤◌, ◌<◌, ◌≡◌, refl, true, false, some, List, ◌∷◌, arith, ◌==◌, ==_iff, get_elem?, length,
  Returns, returns, result, ◌>>=◌,
}
use lralloc_rs.MemInfo.{page, align_size}
use lralloc_rs.SizeClasses.{SizeClassData, get_size_class}
use lralloc_rs.Malloc.{Thread, Call, BinHolds, is_power_of_two}
use lralloc_rs.Malloc.Aligned.{do_free-do_aligned_alloc}
use lralloc_rs.Malloc.Small.{IsPlain, IsOwned}
use lralloc_rs.AutoPtr.{write_word, new_ptr, take}

-- For a thread that neither tunes nor uses the bootstrap, with compressed links, an alignment that
-- the code takes for a power of two, an aligned size of at most a page, whose class has a bin that
-- holds blocks, the first owned by a descriptor of the class, and a bin that stays below its flush
-- limit: taking the value out of a new AutoPtr returns the value that it was made of, and the bin
-- holds the same blocks again.
pub take-new_ptr :
    (call free_call : Call) (t : Thread) (align size val index block_size x : ℕ)
    (sc : SizeClassData) (xs : List ℕ)
    → IsPlain call t
    → free_call.no_met_stack ≡ false
    → is_power_of_two align ≡ true
    → align_size size align ≤ page
    → get_size_class (t.table) (align_size size align) ≡ suc index
    → BinHolds (suc index) block_size t (x ∷ xs)
    → IsOwned x index t
    → get_elem? t.world.classes (suc index) ≡ some sc
    → length xs < sc.cache_block_num
    → Returns
        (λ r. (r.0 ≡ val) × BinHolds (suc index) block_size r.1 (x ∷ xs))
        (new_ptr call align size val t >>= λ r. take free_call r.0 r.1)
unfolding new_ptr take write_word
take-new_ptr call free_call t align size val index block_size x sc xs p q power fits class b o known
      room =
    let (r, ran, got) = result (
      do_free-do_aligned_alloc call free_call t align size index block_size x x val sc xs p q power
        fits class b o known room (b.holds.linked.3)) in
    let (s, freed, back) = result (got.3) in
    let placed : (r.0 == 0) ≡ false = ground (arith, got.0, got.1) in
    rw (ran, placed, got.0, freed) (returns (rw ((==_iff x x).1 refl) refl, back))
