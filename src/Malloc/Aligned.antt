-- ===== src/Malloc/Aligned.antt =====
-- Aligned allocations of at most a page: they are served like others, and freeing gives the block back.
use lralloc_rs.Common.{
  ℕ, suc, ◌≤◌, ◌<◌, ◌≡◌, refl, sym, ap, ◌∙◌, true, false, some, List, ◌∷◌, has, update, arith, ltb,
  ltb-false, ◌==◌, ==_iff, get_elem?, length, Bool-cases, inl, inr, Returns, returns, result,
}
use lralloc_rs.MemInfo.{max_sz, page, align_size}
use lralloc_rs.SizeClasses.{SizeClassData, get_size_class}
use lralloc_rs.ThreadCache.Stack.{Linked-frame}
use lralloc_rs.Malloc.{
  Thread, Call, BinHolds, is_power_of_two, do_malloc, do_aligned_alloc, do_free,
}
use lralloc_rs.Malloc.Small.{IsPlain, IsOwned, do_malloc-BinHolds, do_free-BinHolds}

-- the thread behind a write of a word
abbrev pub set_word : ℕ → ℕ → Thread → Thread
set_word ptr val t = record t {
  world = record (t.world) { memory = update (t.world.memory) ptr val };
}

-- An aligned allocation of at most a page is an allocation of the aligned size.
pub do_aligned_alloc-do_malloc :
    (call : Call) (align size : ℕ) (t : Thread)
    → is_power_of_two align ≡ true
    → align_size size align ≤ page
    → do_aligned_alloc call align size t ≡ do_malloc call (align_size size align) t
unfolding do_aligned_alloc do_malloc
do_aligned_alloc-do_malloc call align size t power fits =
    let inside : ltb page (align_size size align) ≡ false =
      ltb-false page (align_size size align) fits in
    let small : ltb max_sz (align_size size align) ≡ false =
      ltb-false max_sz (align_size size align) (omega arith) in
    rw (power, inside, small) refl

-- Writing to a block that a bin does not hold keeps what it holds.
set_word-BinHolds :
    (index block_size ptr val : ℕ) (t : Thread) (xs : List ℕ)
    → has ptr xs ≡ false
    → BinHolds index block_size t xs
    → BinHolds index block_size (set_word ptr val t) xs
set_word-BinHolds index block_size ptr val t xs out b = record {
  bin = b.bin;
  here = b.here;
  holds = record {
    sized = b.holds.sized;
    counted = b.holds.counted;
    linked =
        Linked-frame block_size (t.world.memory) (update (t.world.memory) ptr val) (b.bin.block) xs
          (λ x inside. elim (Bool-cases (x == ptr)) [
            | inl same ↦
                (let e : x ≡ ptr = (==_iff x ptr).0 same in
                  let clash : has ptr xs ≡ true = ap (λ y. has y xs) (sym e) ∙ inside in
                  absurd (ground (arith, clash, out)))
            | inr other ↦ rw other refl
          ])
          (b.holds.linked);
  };
}

set_word-IsOwned :
    (block index ptr val : ℕ) (t : Thread)
    → IsOwned block index t
    → IsOwned block index (set_word ptr val t)
set_word-IsOwned block index ptr val t o = record {
  desc = o.desc;
  leads = o.leads;
  class = o.class;
}

-- Under the conditions of `do_free-do_malloc` for the aligned size, do_aligned_alloc returns the first block of
-- the bin, and freeing it after a write outside the other blocks gives the bin the same blocks.
pub do_free-do_aligned_alloc :
    (call free_call : Call) (t : Thread) (align size index block_size x ptr val : ℕ)
    (sc : SizeClassData) (xs : List ℕ)
    → IsPlain call t
    → free_call.no_met_stack ≡ false
    → is_power_of_two align ≡ true
    → align_size size align ≤ page
    → get_size_class (t.table) (align_size size align) ≡ suc index
    → BinHolds (suc index) block_size t (x ∷ xs)
    → IsOwned x index t
    → get_elem? t.world.classes (suc index) ≡ some sc
    → length xs < sc.cache_block_num
    → has ptr xs ≡ false
    → Returns
        (λ r.
          (r.0 ≡ x)
          × (0 < x)
          × BinHolds (suc index) block_size (set_word ptr val r.1) xs
          × Returns
              (λ t'. BinHolds (suc index) block_size t' (x ∷ xs))
              (do_free free_call x (set_word ptr val r.1)))
        (do_aligned_alloc call align size t)
do_free-do_aligned_alloc call free_call t align size index block_size x ptr val sc xs p q power fits
      class b o known room out =
    let held : BinHolds (get_size_class (t.table) (align_size size align)) block_size t (x ∷ xs) =
      rw class b in
    let (r, ran, got) =
      result
        (do_malloc-BinHolds call t (align_size size align) block_size x xs p (omega arith) held) in
    let links = b.holds.linked in
    let owned : IsOwned x index r.1 = record {
      desc = o.desc;
      leads = rw got.2 (o.leads);
      class = rw (got.2, got.3) (o.class);
    } in
    let classes : get_elem? r.1.world.classes (suc index) ≡ some sc = rw got.2 known in
    let plain : IsPlain free_call (set_word ptr val r.1) = record {
      compressed = q;
      untuned = got.4.untuned;
      own = got.4.own;
    } in
    let held' : BinHolds (suc index) block_size r.1 xs = rw class at got.1 in
    let written = set_word-BinHolds (suc index) block_size ptr val r.1 xs out held' in
    let back =
      do_free-BinHolds free_call (set_word ptr val r.1) x index block_size sc xs plain
        (set_word-IsOwned x index ptr val r.1 owned) links.1 links.2 links.3 classes room written in
    rw (do_aligned_alloc-do_malloc call align size t power fits, ran)
      (returns (got.0, links.1, written, back))
