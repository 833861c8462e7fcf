-- ===== src/PageMap.antt =====
-- src/page_map.rs on unix: the array that gives each page of the address space the descriptor of the
-- super block it belongs to, and `update_page_map` and its callers of src/alloc.rs. The array is a
-- function from keys; the kernel maps it full of zeros.
pub mod Update
mod Tests
use lralloc_rs.Common.{
  ℕ, zero, suc, ◌+◌, ◌-◌, ◌*◌, ◌/◌, ◌^◌, bit_and, bit_or, Option, none, some, Bool, ◌||◌, not, ltb,
  leb, ◌==◌, if◌then◌else◌, update, Outcome, returned, panicked,
}
use lralloc_rs.MemInfo.{max_sz, max_sz_idx, lg_page, page, page_mask}
use lralloc_rs.SizeClasses.{get_size_class}

abbrev pub pm_nhs : ℕ
pm_nhs = 14

abbrev pub pm_sb : ℕ
pm_sb = 64 - pm_nhs - lg_page

abbrev pub pm_key_mask : ℕ
pm_key_mask = 2 ^ pm_sb - 1

abbrev pub sc_mask : ℕ
sc_mask = 2 ^ 6 - 1

-- `PageInfo`: the address of a descriptor, or null
abbrev pub PageInfo : Type 0
PageInfo = ℕ

abbrev pub PageMap : Type 0
PageMap = ℕ → PageInfo

-- `PageInfo::set_ptr` and `set`
unfoldable pub set_ptr : ℕ → ℕ → PageInfo
set_ptr desc sc_idx =
    if not (bit_and desc sc_mask == 0) || leb max_sz_idx sc_idx then 0 else bit_or desc sc_idx

unfoldable pub get_desc : PageInfo → Option ℕ
get_desc info = if info == 0 then none else some info

-- `PageInfo::get_size_class_index`, with the block sizes of the descriptors and the lookup table
unfoldable pub get_size_class_index : (ℕ → ℕ) → (ℕ → ℕ) → PageInfo → Option ℕ
get_size_class_index block_size table info =
    if info == 0
    then none
    else some (if ltb max_sz (block_size info) then 0 else get_size_class table (block_size info))

unfoldable pub addr_to_key : ℕ → ℕ
addr_to_key ptr = bit_and (ptr / 2 ^ lg_page) pm_key_mask

unfoldable pub get_page_info : PageMap → ℕ → PageInfo
get_page_info pages ptr = pages (addr_to_key ptr)

unfoldable pub set_page_info : PageMap → ℕ → PageInfo → PageMap
set_page_info pages ptr info = update pages (addr_to_key ptr) info

-- `for index in 0..rounds`, from `index` on
unfoldable pub set_pages : ℕ → ℕ → ℕ → PageInfo → PageMap → PageMap
set_pages zero index ptr info pages = pages
set_pages (suc rounds) index ptr info pages =
    set_pages rounds (index + 1) ptr info (set_page_info pages (ptr + index * page) info)

-- `update_page_map`; the heap is given by the `sb_size` of its class, a missing descriptor by null
unfoldable pub update_page_map : Option ℕ → ℕ → ℕ → ℕ → PageMap → Outcome PageMap
update_page_map heap ptr desc size_class_index pages = if ptr == 0 then panicked else elim heap [
  | none ↦ returned (set_page_info pages ptr (set_ptr desc size_class_index))
  | some sb_size ↦
      if bit_and sb_size page_mask == 0
      then returned (set_pages (sb_size / page) 0 ptr (set_ptr desc size_class_index) pages)
      else panicked
]

-- `get_page_info_for_ptr` and the descriptor in it
unfoldable pub desc_for_ptr : PageMap → ℕ → Option ℕ
desc_for_ptr pages ptr = get_desc (get_page_info pages ptr)
