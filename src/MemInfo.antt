-- ===== src/MemInfo.antt =====
-- src/mem_info.rs and the macro `page_ceiling!` of src/macros.rs: sizes, masks and rounding.
-- A `usize` is a number below 2 ^ 64. `!x` is `not64 x`; a sum that overflows wraps here, as it does
-- in a release build.
pub mod Align
mod Tests
use lralloc_rs.Common.{ℕ, ◌+◌, ◌-◌, ◌*◌, ◌%◌, ◌^◌, bit_and, ltb, if◌then◌else◌}

abbrev pub word : ℕ
word = 2 ^ 64

-- `!x` on a `usize`
abbrev pub not64 : ℕ → ℕ
not64 x = word - 1 - x

abbrev pub max_sz_idx : ℕ
max_sz_idx = 40

-- the block size of the largest size class
abbrev pub max_sz : ℕ
max_sz = 2 ^ 13 + 2 ^ 11 * 3

abbrev pub lg_cache_line : ℕ
lg_cache_line = 6

abbrev pub lg_page : ℕ
lg_page = 12

abbrev pub cache_line : ℕ
cache_line = 2 ^ lg_cache_line

abbrev pub page : ℕ
page = 2 ^ lg_page

abbrev pub cache_line_mask : ℕ
cache_line_mask = cache_line - 1

abbrev pub page_mask : ℕ
page_mask = page - 1

abbrev pub descriptor_block_sz : ℕ
descriptor_block_sz = 16 * page

-- `(val + align - 1) & (!align + 1)`
unfoldable pub align_val : ℕ → ℕ → ℕ
align_val val align = bit_and ((val + align + (word - 1)) % word) ((not64 align + 1) % word)

unfoldable pub align_size : ℕ → ℕ → ℕ
align_size size align = if ltb align size then align_val size align else align

unfoldable pub align_addr : ℕ → ℕ → ℕ
align_addr addr align = bit_and ((addr + align + (word - 1)) % word) ((not64 align + 1) % word)

-- `page_ceiling!(s)`
unfoldable pub page_ceiling : ℕ → ℕ
page_ceiling s = bit_and ((s + page + (word - 1)) % word) (not64 (page - 1))
