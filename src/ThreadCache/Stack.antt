-- ===== src/ThreadCache/Stack.antt =====
-- A bin with the compressed links is a stack of blocks.
use lralloc_rs.Common.{
  has, ne_of_has, ℕ, ◌<◌, ◌≡◌, refl, false, true, some, List, [], ◌∷◌, arith, ◌==◌, if◌then◌else◌,
  update, Returns, returns, length,
}
use lralloc_rs.ThreadCache.{
  Memory, usize_max, ThreadCacheBin, push_block, is_contiguous, decode, pop_block,
}

-- From `b` the links of blocks of `size` bytes lead through the distinct blocks `xs`.
abbrev pub Linked : ℕ → Memory → ℕ → List ℕ → Type 0
Linked size m b [] = Unit
Linked size m b (x ∷ xs) =
    (b ≡ x) × (0 < x) × (x < usize_max) × (has x xs ≡ false) × Linked size m (decode size x m) xs

-- The bin holds the blocks `xs`, the top first. The link of the last one is never followed.
pub record Holds (size : ℕ) (m : Memory) (c : ThreadCacheBin) (xs : List ℕ) : Type 0 where
  pub sized : c.block_size ≡ some size
  pub counted : c.block_num ≡ length xs
  pub linked : Linked size m c.block xs

pub Linked-frame :
    (size : ℕ) (m m' : Memory) (b : ℕ) (xs : List ℕ)
    → ((x : ℕ) → has x xs ≡ true → m' x ≡ m x)
    → Linked size m b xs
    → Linked size m' b xs
unfolding decode
Linked-frame size m m' b [] same l = tt
Linked-frame size m m' b (x ∷ xs) same l = (
  l.0,
  l.1,
  l.2,
  l.3,
  rw (same x (ground arith))
      (Linked-frame size m m' (decode size x m) xs (λ y h. same y (ground arith)) l.4),
)

-- The link that `push_block` writes leads back to the old top.
decode-push :
    (size : ℕ) (m : Memory) (c : ThreadCacheBin) (b : ℕ)
    → c.block_size ≡ some size
    → 0 < c.block
    → c.block < usize_max
    → decode size b (update m b (if is_contiguous false c b then 0 else c.block)) ≡ c.block
unfolding decode is_contiguous
decode-push size m c b sized pos small =
    let self : (b == b) ≡ true = ground arith in rw self (ground arith)

Linked-push :
    (size : ℕ) (m : Memory) (c : ThreadCacheBin) (xs : List ℕ) (b link : ℕ)
    → Linked size m c.block xs
    → has b xs ≡ false
    → (0 < c.block → c.block < usize_max → decode size b (update m b link) ≡ c.block)
    → Linked size (update m b link) (decode size b (update m b link)) xs
Linked-push size m c [] b link l out back = tt
Linked-push size m c (x ∷ xs) b link l out back =
    let e : decode size b (update m b link) ≡ c.block = back (rw l.0 l.1) (rw l.0 l.2) in
    let other : (x == b) ≡ false = ground arith in
    let same : (y : ℕ) → has y (x ∷ xs) ≡ true → update m b link y ≡ m y =
      λ y h. rw (ne_of_has y b (x ∷ xs) h out) in
    Linked-frame size m (update m b link) _ (x ∷ xs) same (rw e l)

-- `push_block` of a block that the bin does not hold puts it on the top.
pub push_block-Holds :
    (size : ℕ) (m : Memory) (c : ThreadCacheBin) (xs : List ℕ) (b : ℕ)
    → Holds size m c xs
    → 0 < b
    → b < usize_max
    → has b xs ≡ false
    → let r = push_block false c b m in Holds size r.1 r.0 (b ∷ xs)
unfolding push_block
push_block-Holds size m c xs b h pos small out = record {
  sized = h.sized;
  counted = omega (arith, h.counted);
  linked = (
    refl,
    pos,
    small,
    out,
    Linked-push size m c xs b _ h.linked out (decode-push size m c b h.sized),
  );
}

-- `pop_block` returns the top of a stack that is not empty, and leaves the rest.
pub pop_block-Holds :
    (size : ℕ) (m : Memory) (c : ThreadCacheBin) (x : ℕ) (xs : List ℕ)
    → Holds size m c (x ∷ xs)
    → Returns (λ r. (r.0 ≡ x) × Holds size m r.1 xs) (pop_block false c m)
unfolding pop_block
pop_block-Holds size m c x xs h =
    let some_left : (c.block_num == 0) ≡ false = ground (arith, h.counted) in
    rw (some_left, h.sized)
      (returns (
        h.linked.0,
        record {
          sized = h.sized;
          counted = omega (arith, h.counted);
          linked = rw h.linked.0 h.linked.4;
        },
      ))
