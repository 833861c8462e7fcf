-- ===== src/MemInfo/Tests.antt =====
-- Runs of the rounding functions.
use lralloc_rs.Common.{◌^◌, ◌≡◌, refl, arith}
use lralloc_rs.MemInfo.{align_val, align_size, page_ceiling}
use lralloc_rs.MemInfo.Align.{IsCeiling, align_size-IsCeiling}

align_val_runs : align_val 13 8 ≡ 16
unfolding align_val
align_val_runs = refl

align_size_runs : align_size 3 8 ≡ 8
unfolding align_size
align_size_runs = refl

page_ceiling_runs : page_ceiling 4097 ≡ 8192
unfolding page_ceiling
page_ceiling_runs = refl

align_size-IsCeiling_example : IsCeiling (2 ^ 3) 3 (align_size 3 (2 ^ 3))
align_size-IsCeiling_example = align_size-IsCeiling 3 3 (omega arith) (omega arith) (omega arith)
