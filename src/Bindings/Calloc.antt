-- ===== src/Bindings/Calloc.antt =====
-- `calloc` gives zeroed memory, and leaves the free blocks of the bin as they are.
use lralloc_rs.Common.{
  has, ℕ, ◌+◌, ◌*◌, ◌≤◌, ◌<◌, ◌≡◌, ◌⊎◌, refl, true, false, List, ◌∷◌, arith, ltb, leb, ◌==◌,
  if◌then◌else◌, ◌&&◌, Returns, returns, result, inl, inr,
}
use lralloc_rs.MemInfo.{word, max_sz}
use lralloc_rs.SizeClasses.{get_size_class}
use lralloc_rs.ThreadCache.{Memory}
use lralloc_rs.ThreadCache.Stack.{Linked-frame}
use lralloc_rs.Malloc.{Thread, Call, BinHolds}
use lralloc_rs.Malloc.Small.{IsPlain, do_malloc-BinHolds}
use lralloc_rs.Bindings.{Library, set_memory, malloc, zero_fill, calloc}

-- No block starts in the n bytes from x on.
abbrev pub Apart : ℕ → ℕ → List ℕ → Type 0
Apart x n xs = (y : ℕ) → has y xs ≡ true → (y < x) ⊎ (x + n ≤ y)

abbrev zeroed : ℕ → ℕ → Memory → Memory
zeroed x n m a = if leb x a && ltb a (x + n) then 0 else m a

zeroed-Holds :
    (index size x n : ℕ) (t : Thread) (xs : List ℕ)
    → Apart x n xs
    → BinHolds index size t xs
    → BinHolds index size (set_memory (zeroed x n (t.world.memory)) t) xs
zeroed-Holds index size x n t xs apart b = record {
  bin = b.bin;
  here = b.here;
  holds = record {
    sized = b.holds.sized;
    counted = b.holds.counted;
    linked =
        Linked-frame size (t.world.memory) (zeroed x n (t.world.memory)) _ xs
          (λ y h. elim (apart y h) [ inl low ↦ ground arith | inr high ↦ ground arith ])
          (b.holds.linked);
  };
}

-- For a thread that neither tunes nor uses the bootstrap, with compressed links, and a bin of the
-- class of the product that holds blocks, no other one starting in the bytes asked for: calloc
-- returns the first block, these bytes are zero, and the bin holds the other blocks.
pub calloc-Zeroed :
    (call : Call) (l : Library) (num size block_size x : ℕ) (xs : List ℕ)
    → IsPlain call (l.thread)
    → num * size ≤ max_sz
    → 0 < x
    → Apart x (num * size) xs
    → BinHolds (get_size_class (l.thread.table) (num * size)) block_size (l.thread) (x ∷ xs)
    → Returns
        (λ r.
          (r.0 ≡ x)
          × ((a : ℕ) → x ≤ a → a < x + num * size → r.1.thread.world.memory a ≡ 0)
          × BinHolds (get_size_class (l.thread.table) (num * size)) block_size (r.1.thread) xs)
        (calloc call num size l)
unfolding calloc malloc zero_fill
calloc-Zeroed call l num size block_size x xs plain fits pos apart b =
    let n : ℕ = num * size in
    let index = get_size_class (l.thread.table) n in
    let (r, ran, p) = result (do_malloc-BinHolds call (l.thread) n block_size x xs plain fits b) in
    let counts : leb word n ≡ false = ground arith in
    let some_place : (x == 0) ≡ false = ground arith in
    let kept = zeroed-Holds index block_size x n (r.1) xs apart (p.1) in
    rw (counts, ran, p.0, some_place) (returns (refl, λ a low high. ground arith, kept))
