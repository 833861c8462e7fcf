-- ===== src/ThreadCache.antt =====
-- src/thread_cache.rs: the bins of a thread cache. A bin is a stack of free blocks whose links stand in
-- the blocks. With `no_met_stack` off, a link of 0 means that the next block follows at once, and a
-- link of all ones ends a super block. Memory is a function from the addresses of blocks to the
-- first word of each; blocks are at least eight bytes long, so no two of those words overlap.
pub mod Stack
pub mod Refine
mod Tests
use lralloc_rs.Common.{
  ℕ, ◌+◌, ◌-◌, Bool, false, true, ◌&&◌, not, Option, none, some, ltb, ◌==◌, if◌then◌else◌, update,
  Outcome, returned, panicked,
}
use lralloc_rs.MemInfo.{word, cache_line}

abbrev pub Memory : Type 0
Memory = ℕ → ℕ

-- `std::usize::MAX`
abbrev pub usize_max : ℕ
usize_max = word - 1

pub record ThreadCacheBin : Type 0 where
  pub block : ℕ
  pub block_num : ℕ
  pub block_size : Option ℕ

-- `ThreadCacheBin::new`
abbrev pub new_bin : ThreadCacheBin
new_bin = record { block = 0; block_num = 0; block_size = none }

-- whether `push_block` may leave out the link to a block that follows at once
unfoldable pub is_contiguous : (no_met_stack : Bool) → ThreadCacheBin → ℕ → Bool
is_contiguous no_met_stack c block = elim c.block_size [
  | none ↦ false
  | some size ↦ ltb size cache_line && not no_met_stack && block + size == c.block
]

unfoldable pub push_block :
    (no_met_stack : Bool) → ThreadCacheBin → ℕ → Memory → ThreadCacheBin × Memory
unfolding is_contiguous
push_block no_met_stack c block m = (
  record c { block = block; block_num = c.block_num + 1 },
  update m block (if is_contiguous no_met_stack c block then 0 else c.block),
)

unfoldable pub push_list : ThreadCacheBin → ℕ → ℕ → Outcome ThreadCacheBin
push_list c block length =
    if ltb 0 c.block_num
    then panicked
    else returned (record c { block = block; block_num = length })

-- the block behind `b` in a stack with the compressed links
unfoldable pub decode : ℕ → ℕ → Memory → ℕ
decode size b m = if m b == 0 then b + size else if m b == usize_max then 0 else m b

-- a link as it is: with a null top, null is returned and nothing is counted
unfoldable pub pop_plain : ThreadCacheBin → Memory → ℕ × ThreadCacheBin
pop_plain c m =
    if c.block == 0
    then (0, c)
    else (c.block, record c { block = m c.block; block_num = c.block_num - 1 })

unfoldable pub pop_block :
    (no_met_stack : Bool) → ThreadCacheBin → Memory → Outcome (ℕ × ThreadCacheBin)
unfolding decode pop_plain
pop_block no_met_stack c m = if c.block_num == 0 then panicked else elim c.block_size [
  | none ↦ returned (pop_plain c m)
  | some size ↦
      if no_met_stack
      then returned (pop_plain c m)
      else returned
          (c.block, record c { block = decode size c.block m; block_num = c.block_num - 1 })
]

unfoldable pub pop_list : ThreadCacheBin → ℕ → ℕ → Outcome ThreadCacheBin
pop_list c block length =
    if ltb c.block_num length
    then panicked
    else returned (record c { block = block; block_num = c.block_num - length })

-- `peek_block` and `get_block_num`
abbrev pub peek_block : ThreadCacheBin → ℕ
peek_block c = c.block

abbrev pub get_block_num : ThreadCacheBin → ℕ
get_block_num c = c.block_num
