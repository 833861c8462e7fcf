-- ===== src/SizeClasses.antt =====
-- src/size_classes.rs: the table of size classes, its initialisation and the lookup by size. The
-- static arrays are values that `init_size_class` returns; `SIZE_CLASS_LOOK_UP` is a function from
-- its indices. `u32` sums wrap. TARGET_APF is an argument: the build's environment sets it.
pub mod Blocks
pub mod Lookup
mod Tests
use lralloc_rs.Common.{
  ℕ, zero, suc, ◌+◌, ◌*◌, ◌/◌, ◌%◌, ◌^◌, List, [], ◌∷◌, map, ltb, leb, ◌==◌, ◌&&◌, if◌then◌else◌,
  update, Outcome, returned, assert, ◌>>=◌, ◌>>◌,
}
use lralloc_rs.MemInfo.{word, max_sz, page, page_ceiling}

pub record SizeClassData : Type 0 where
  pub block_size : ℕ
  pub sb_size : ℕ
  pub block_num : ℕ
  pub cache_block_num : ℕ

abbrev pub u32_mod : ℕ
u32_mod = 2 ^ 32

-- `sc!` of src/macros.rs
abbrev pub sc : ℕ → ℕ → ℕ → ℕ → SizeClassData
sc lg_grp lg_delta ndelta pgs = record {
  block_size = 2 ^ lg_grp + ndelta * 2 ^ lg_delta;
  sb_size = pgs * page;
  block_num = 0;
  cache_block_num = 0;
}

-- class 0, reserved for large allocations
abbrev pub large_class : SizeClassData
large_class = record { block_size = 0; sb_size = 0; block_num = 0; cache_block_num = 0 }

-- the classes 1 to 39
abbrev pub small_classes : List SizeClassData
small_classes =
    sc 3 3 0 1
    ∷ sc 3 3 1 1
    ∷ sc 3 3 2 3
    ∷ sc 3 3 3 1
    ∷ sc 5 3 1 5
    ∷ sc 5 3 2 3
    ∷ sc 5 3 3 7
    ∷ sc 5 3 4 1
    ∷ sc 6 4 1 5
    ∷ sc 6 4 2 3
    ∷ sc 6 4 3 7
    ∷ sc 6 4 4 1
    ∷ sc 7 5 1 5
    ∷ sc 7 5 2 3
    ∷ sc 7 5 3 7
    ∷ sc 7 5 4 1
    ∷ sc 8 6 1 5
    ∷ sc 8 6 2 3
    ∷ sc 8 6 3 7
    ∷ sc 8 6 4 1
    ∷ sc 9 7 1 5
    ∷ sc 9 7 2 3
    ∷ sc 9 7 3 7
    ∷ sc 9 7 4 1
    ∷ sc 10 8 1 5
    ∷ sc 10 8 2 3
    ∷ sc 10 8 3 7
    ∷ sc 10 8 4 1
    ∷ sc 11 9 1 5
    ∷ sc 11 9 2 3
    ∷ sc 11 9 3 7
    ∷ sc 11 9 4 1
    ∷ sc 12 10 1 5
    ∷ sc 12 10 2 3
    ∷ sc 12 10 3 7
    ∷ sc 12 10 4 2
    ∷ sc 13 11 1 5
    ∷ sc 13 11 2 3
    ∷ sc 13 11 3 7
    ∷ []

-- `while block_size >= sb_size { sb_size += block_size }`; a round adds at least 1
outgrow : ℕ → ℕ → ℕ → ℕ
outgrow zero block_size sb_size = sb_size
outgrow (suc fuel) block_size sb_size =
    let rest = outgrow fuel block_size ((sb_size + block_size) % u32_mod) in
    if leb sb_size block_size then rest else sb_size

-- the first loop of `init_size_class`
pub widen : SizeClassData → SizeClassData
unfolding outgrow
widen c =
    if ltb c.block_size c.sb_size && c.sb_size % c.block_size == 0
    then c
    else record c { sb_size = outgrow (c.block_size + 1) c.block_size c.sb_size }

-- `while sb_size < max { sb_size += step }`
pub raise : ℕ → ℕ → ℕ → ℕ → ℕ
raise zero step max sb_size = sb_size
raise (suc fuel) step max sb_size =
    let rest = raise fuel step max ((sb_size + step) % u32_mod) in
    if ltb sb_size max then rest else sb_size

-- the second loop
pub enlarge : ℕ → SizeClassData → SizeClassData
unfolding raise page_ceiling
enlarge target_apf c =
    let max = page_ceiling (target_apf * c.block_size % word) % u32_mod in
    record c { sb_size = raise max c.sb_size max c.sb_size }

-- the third loop, with its assertions
pub count_blocks : SizeClassData → Outcome SizeClassData
count_blocks c = do
  let n = c.sb_size / c.block_size
  assert (ltb 0 n)
  assert (leb n n)
  returned (record c { block_num = n; cache_block_num = n })

pub count_all : List SizeClassData → Outcome (List SizeClassData)
unfolding count_blocks
count_all [] = returned []
count_all (c ∷ cs) = do c' ← count_blocks c; cs' ← count_all cs; returned (c' ∷ cs')

-- `while lookup_idx <= block_size { SIZE_CLASS_LOOK_UP[lookup_idx] = sc_index; lookup_idx += 1 }`
pub fill_class : ℕ → ℕ → ℕ → ℕ → (ℕ → ℕ) → ℕ × (ℕ → ℕ)
fill_class zero lookup_idx block_size sc_index table = (lookup_idx, table)
fill_class (suc fuel) lookup_idx block_size sc_index table =
    let rest =
      fill_class fuel (lookup_idx + 1) block_size sc_index (update table lookup_idx sc_index) in
    if leb lookup_idx block_size then rest else (lookup_idx, table)

-- the fourth loop, from class `sc_index` on
pub fill_lookup : ℕ → ℕ → List SizeClassData → (ℕ → ℕ) → ℕ → ℕ
unfolding fill_class
fill_lookup lookup_idx sc_index [] table = table
fill_lookup lookup_idx sc_index (c ∷ cs) table =
    let (next, table') = fill_class (c.block_size + 1) lookup_idx c.block_size sc_index table in
    fill_lookup next (sc_index + 1) cs table'

-- The initialised classes and the lookup table.
pub init_size_class : ℕ → Outcome (List SizeClassData × (ℕ → ℕ))
unfolding widen enlarge count_all fill_lookup
init_size_class target_apf = do
  counted ← count_all (map (enlarge target_apf) (map widen small_classes))
  returned (large_class ∷ counted, fill_lookup 0 1 counted (λ _. 0))

unfoldable pub get_size_class : (ℕ → ℕ) → ℕ → ℕ
get_size_class table size = if ltb max_sz size then 0 else table size
