-- ===== src/Reserve/Flush.antt =====
-- The steps of a flush: the blocks of one super block at the top of a bin, and the anchor they change.
use lralloc_rs.Common.{
  Bool, ℕ, zero, suc, ◌+◌, ◌-◌, ◌%◌, ◌^◌, ◌≤◌, ◌<◌, ◌≡◌, ◌≢◌, refl, sym, ap, has, ◌∙◌, false, true,
  not, ◌&&◌, ◌||◌, none, some, List, [], ◌∷◌, arith, ltb, leb, ◌==◌, length, Returns, returns,
  returned, if◌then◌else◌,
}
use lralloc_rs.AllocationData.{SuperBlockState, full, partial, empty, state, set_state, set_count}
use lralloc_rs.AllocationData.Anchor.{Fields, set_state-Fields, set_avail-Fields, set_count-Fields}
use lralloc_rs.ThreadCache.{Memory, ThreadCacheBin, pop_list}
use lralloc_rs.SizeClasses.{SizeClassData}
use lralloc_rs.PageMap.{desc_for_ptr}
use lralloc_rs.AllocationData.Desc.Nodes.{IsPlace}
use mathlib.Core.Path.{subst}
use lralloc_rs.Alloc.{World, list_push_partial, set_desc}
use lralloc_rs.Alloc.Partial.{IsPartial, Partial-frame, update_kept, list_push_partial-IsPartial}
use lralloc_rs.Reserve.{run_length, returned_anchor, reclaim, flush_run, flush_runs}

-- From `b` whole addresses lead through the blocks `xs`, all from `low` on and below `high`.
abbrev pub Chain : ℕ → ℕ → Memory → ℕ → List ℕ → Type 0
Chain low high m b [] = Unit
Chain low high m b (x ∷ xs) = (b ≡ x) × (low ≤ x) × (x < high) × Chain low high m (m x) xs

abbrev pub last : ℕ → List ℕ → ℕ
last x [] = x
last x (y ∷ ys) = last y ys

-- The inner loop counts all blocks of the bin and ends at the last one.
pub run_length-Chain :
    (fuel k block_num low size x : ℕ) (m : Memory) (xs : List ℕ)
    → Chain low (low + size) m (m x) xs
    → k + length xs ≡ block_num
    → length xs < fuel
    → run_length fuel block_num low size k x m ≡ (block_num, last x xs)
unfolding run_length
run_length-Chain zero k block_num low size x m xs c total more = absurd (omega arith)
run_length-Chain (suc fuel) k block_num low size x m [] c total more =
    let stop : ltb k block_num ≡ false = ground arith in
    rw stop (let e : k ≡ block_num = omega arith in rw e refl)
run_length-Chain (suc fuel) k block_num low size x m (y ∷ ys) c total more =
    let go : (ltb k block_num && not (ltb (m x) low || leb (low + size) (m x))) ≡ true =
      ground arith in
    rw (go, c.0)
      (run_length-Chain fuel (k + 1) block_num low size y m ys (c.3) (omega arith) (omega arith))

counted_anchor-Fields :
    (all : Bool) (o v k m n : ℕ)
    → Fields o partial v k
    → let a' = if all then set_state empty (set_count m o) else set_count n o in
      if all then Fields a' empty v (m % 2 ^ 32) else Fields a' partial v (n % 2 ^ 32)
counted_anchor-Fields true o v k m n f = set_state-Fields (set_count-Fields f m) empty
counted_anchor-Fields false o v k m n f = set_count-Fields f n

-- Returning n blocks to a super block that is not EMPTY makes its anchor EMPTY if they complete the
-- super block; otherwise it is PARTIAL, lists the blocks from the given one on and counts n,
-- whatever it counted before.
pub returned_anchor-Fields :
    (max_count index n a v k : ℕ) (s : SuperBlockState)
    → Fields a s v k
    → s ≢ empty
    → Returns
        (λ a'.
          if k + n == max_count
          then Fields a' empty (index % 2 ^ 30) ((max_count - 1) % 2 ^ 32)
          else Fields a' partial (index % 2 ^ 30) (n % 2 ^ 32))
        (returned_anchor max_count index n a)
unfolding returned_anchor
returned_anchor-Fields max_count index n a v k full f live =
    let f' = set_state-Fields (set_avail-Fields f index) partial in
    rw (f.state_is, f.count_is)
      (returns (counted_anchor-Fields (k + n == max_count) _ _ k (max_count - 1) n f'))
returned_anchor-Fields max_count index n a v k partial f live =
    let f' = set_avail-Fields f index in
    rw (f.state_is, f.count_is)
      (returns (counted_anchor-Fields (k + n == max_count) _ _ k (max_count - 1) n f'))
returned_anchor-Fields max_count index n a v k empty f live = absurd (live refl)

pub pop_all :
    (c : ThreadCacheBin) (n b : ℕ)
    → c.block_num ≡ n
    → pop_list c b n ≡ returned (record c { block = b; block_num = 0 })
unfolding pop_list
pop_all c n b all =
    let enough : ltb n n ≡ false = ground arith in
    let none_left : n - n ≡ 0 = omega arith in rw (all, enough, none_left) refl

pub reclaim-full :
    (heap desc old new : ℕ) (w : World)
    → state old ≡ returned full
    → state new ≡ returned partial
    → reclaim heap desc old new w ≡ returned (list_push_partial desc w)
unfolding reclaim
reclaim-full heap desc old new w was is = rw (was, is) refl

pub flush_runs-none :
    (fuel index heap : ℕ) (sc : SizeClassData) (c : ThreadCacheBin) (w : World)
    → c.block_num ≡ 0
    → flush_runs fuel index sc heap c w ≡ returned (record c { block_size = none }, w)
unfolding flush_runs
flush_runs-none zero index heap sc c w none_left = refl
flush_runs-none (suc fuel) index heap sc c w none_left = rw none_left refl

pub flush_runs-once :
    (k index heap desc : ℕ) (sc : SizeClassData) (c : ThreadCacheBin) (w : World)
    (r : ThreadCacheBin × World)
    → c.block_num ≡ suc k
    → desc_for_ptr (w.pages) (c.block) ≡ some desc
    → flush_run index sc heap desc c w ≡ returned r
    → flush_runs (c.block_num) index sc heap c w ≡ flush_runs k index sc heap r.0 r.1
unfolding flush_runs
flush_runs-once k index heap desc sc c w r counted found ran =
    let more : (c.block_num == 0) ≡ false = ground (arith, counted) in
    ap (λ (t : ℕ). flush_runs t index sc heap c w) counted ∙ rw (more, found, ran) refl

-- The world behind a run that went to a super block that was FULL: the anchor and the memory are the
-- new ones, and the descriptor is the first in the partial list of its heap.
pub record Relisted (heap desc a' : ℕ) (m : Memory) (ds : List ℕ) (w w' : World) : Type 0 where
  pub anchor : (w'.store.descs desc).anchor ≡ a'
  pub memory : w'.memory ≡ m
  pub pages : w'.pages ≡ w.pages
  pub listed : IsPartial heap w' (desc ∷ ds)

pub reclaim-Relisted :
    (heap desc a' : ℕ) (m : Memory) (ds : List ℕ) (w : World)
    → state ((w.store.descs desc).anchor) ≡ returned full
    → state a' ≡ returned partial
    → (w.store.descs desc).proc_heap ≡ heap
    → IsPlace desc
    → has desc ds ≡ false
    → IsPartial heap w ds
    → Returns (Relisted heap desc a' m ds w) (
        reclaim heap desc
          ((w.store.descs desc).anchor)
          a'
          (set_desc desc (record (w.store.descs desc) { anchor = a' }) (record w { memory = m })))
unfolding list_push_partial
reclaim-Relisted heap desc a' m ds w was is owned place out l =
    let d = w.store.descs desc in
    let self : (desc == desc) ≡ true = ground arith in
    let after = set_desc desc (record d { anchor = a' }) (record w { memory = m }) in
    let heap_is : (after.store.descs desc).proc_heap ≡ heap = rw self owned in
    let kept : IsPartial heap after ds =
      Partial-frame (λ y. (w.store.descs y).next_partial) _ _ ds
        (λ y h. update_kept (λ t. t.next_partial) desc y _ (w.store.descs) refl) l in
    rw (reclaim-full heap desc (d.anchor) a' after was is) (
      returns (record {
        anchor = rw self refl;
        memory = refl;
        pages = refl;
        listed =
            subst (λ t. IsPartial t (list_push_partial desc after) (desc ∷ ds)) heap_is
              (list_push_partial-IsPartial desc after ds place out
                (subst (λ t. IsPartial t after ds) (sym heap_is) kept));
      }))
