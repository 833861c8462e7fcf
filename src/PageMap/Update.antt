-- ===== src/PageMap/Update.antt =====
-- Which pages lead to a descriptor after `update_page_map`.
use lralloc_rs.Common.{
  ℕ, zero, suc, ◌+◌, ◌*◌, ◌/◌, ◌%◌, ◌^◌, ◌≤◌, ◌<◌, bit_and, bit_or, ◌≡◌, refl, sym, ap, ◌∙◌, Option,
  none, some, true, false, arith, ◌==◌, ltb, leb, ◌&&◌, if◌then◌else◌, Returns, returns,
  bit_and_mask, bit_or_fields,
}
use lralloc_rs.MemInfo.{page, page_mask}
use lralloc_rs.AllocationData.Desc.Nodes.{IsPlace}
use lralloc_rs.PageMap.{
  PageMap, PageInfo, sc_mask, set_ptr, get_desc, addr_to_key, get_page_info, set_page_info,
  set_pages, update_page_map, desc_for_ptr,
}

-- The addresses that the map covers: 50 bits.
abbrev pub address_space : ℕ
address_space = 2 ^ 50

pub addr_to_key_lem : (a : ℕ) → a < address_space → addr_to_key a ≡ a / page
unfolding addr_to_key
addr_to_key_lem a h = bit_and_mask 38 (a / page) ∙ omega arith

set_pages_lem :
    (rounds index ptr : ℕ) (info : PageInfo) (pages : PageMap) (k : ℕ)
    → ptr % page ≡ 0
    → ptr + (index + rounds) * page ≤ address_space
    → set_pages rounds index ptr info pages k ≡ (
        if leb (ptr / page + index) k && ltb k (ptr / page + index + rounds) then info else pages k)
unfolding set_pages set_page_info
set_pages_lem zero index ptr info pages k aligned fits = ground arith
set_pages_lem (suc rounds) index ptr info pages k aligned fits =
    let at = ptr + index * page in
    let key : addr_to_key at ≡ ptr / page + index =
      addr_to_key_lem at (omega arith) ∙ omega arith in
    set_pages_lem rounds (index + 1) ptr info (set_page_info pages at info) k aligned (omega arith)
    ∙ rw key (ground arith)

-- `set_ptr` of a descriptor's place and class 0 is the place.
pub set_ptr-place : (d : ℕ) → IsPlace d → get_desc (set_ptr d 0) ≡ some d
unfolding set_ptr get_desc
set_ptr-place d p =
    let low : bit_and d sc_mask ≡ 0 = bit_and_mask 6 d ∙ p.aligned in
    let e : d * 2 ^ 0 ≡ d = omega arith in
    let same : bit_or d 0 ≡ d =
      ap (λ (t : ℕ). bit_or t 0) (sym e) ∙ bit_or_fields 0 d 0 (omega arith) ∙ omega arith in
    rw (low, same) (ground (arith, p.ne_null))

pub set_ptr-null : get_desc (set_ptr 0 0) ≡ none
unfolding set_ptr get_desc
set_ptr-null = refl

-- Lookups by the pages of a super block lead to `o`, all others where they led before.
abbrev pub Covers : ℕ → ℕ → Option ℕ → PageMap → PageMap → Type 0
Covers ptr sb_size o before pages =
    (a : ℕ)
    → a < address_space
    → desc_for_ptr pages a
      ≡ (if leb ptr a && ltb a (ptr + sb_size) then o else desc_for_ptr before a)

module _ (ptr sb_size : ℕ) (pages : PageMap) (pos : 0 < ptr) (aligned : ptr % page ≡ 0)
    (whole : sb_size % page ≡ 0) (fits : ptr + sb_size ≤ address_space) where
  update-Covers :
      (desc : ℕ)
      → Returns
          (Covers ptr sb_size (get_desc (set_ptr desc 0)) pages)
          (update_page_map (some sb_size) ptr desc 0 pages)
  unfolding update_page_map desc_for_ptr get_page_info
  update-Covers desc =
      let given : (ptr == 0) ≡ false = ground arith in
      let masked : (bit_and sb_size page_mask == 0) ≡ true =
        rw (bit_and_mask 12 sb_size) (ground (arith, whole)) in
      rw (given, masked)
        (returns (λ a h.
          rw
            (
              addr_to_key_lem a h,
              set_pages_lem (sb_size / page) 0 ptr (set_ptr desc 0) pages (a / page) aligned
                  (omega arith),
            )
            (ground arith)))

  -- For a super block of whole pages at a page that lies in the first 2 ^ 50 bytes, registering a
  -- descriptor returns, makes the addresses of the super block lead to the descriptor, and all
  -- others lead where they led before.
  pub register-Covers :
      (d : ℕ)
      → IsPlace d
      → Returns (Covers ptr sb_size (some d) pages) (update_page_map (some sb_size) ptr d 0 pages)
  register-Covers d p = rw (set_ptr-place d p) at (update-Covers d)

  -- For such a super block, unregistering returns, and makes its addresses lead nowhere, and all others
  -- where they led before.
  pub unregister-Covers :
      Returns (Covers ptr sb_size none pages) (update_page_map (some sb_size) ptr 0 0 pages)
  unregister-Covers = rw set_ptr-null at (update-Covers 0)
