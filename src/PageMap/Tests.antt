-- ===== src/PageMap/Tests.antt =====
-- The page map with one super block of two pages.
use lralloc_rs.Common.{◌≡◌, refl, some, arith, Returns}
use lralloc_rs.AllocationData.Desc.Nodes.{IsPlace}
use lralloc_rs.PageMap.{
  PageMap, update_page_map, set_ptr, desc_for_ptr, get_page_info, set_page_info, set_pages,
  get_desc, addr_to_key,
}
use lralloc_rs.PageMap.Update.{Covers, register-Covers}
use lralloc_rs.Common.{none, ℕ, ◌>>=◌, returned, Option, Outcome}

abbrev blank : PageMap
blank _ = 0

abbrev at_place : IsPlace 0x10000
at_place = record { aligned = refl; ne_null = omega arith; small = omega arith }

abbrev looked_up : ℕ → Outcome (Option ℕ)
looked_up a = do
  pages ← update_page_map (some 0x2000) 0x40000 0x10000 0 blank
  returned (desc_for_ptr pages a)

looked_up_inside : looked_up 0x41fff ≡ returned (some 0x10000)
unfolding update_page_map desc_for_ptr get_page_info set_page_info set_pages set_ptr get_desc
    addr_to_key
looked_up_inside = refl

looked_up_behind : looked_up 0x42000 ≡ returned none
unfolding update_page_map desc_for_ptr get_page_info set_page_info set_pages set_ptr get_desc
    addr_to_key
looked_up_behind = refl

register-Covers_example :
    Returns
      (Covers 0x40000 0x2000 (some 0x10000) blank)
      (update_page_map (some 0x2000) 0x40000 0x10000 0 blank)
register-Covers_example =
    register-Covers 0x40000 0x2000 blank (omega arith) refl refl (omega arith) 0x10000 at_place
