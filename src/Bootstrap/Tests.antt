-- ===== src/Bootstrap/Tests.antt =====
-- The reserve with a segment of 128 kilobytes.
use lralloc_rs.Common.{refl, [], ◌∷◌, arith}
use lralloc_rs.AllocationData.Desc.{Segment}
use lralloc_rs.Bootstrap.{BootstrapReserve}
use lralloc_rs.Bootstrap.Regions.{IsRegion}

abbrev first : Segment
first = record { ptr = 0x1000; length = 131584 }

abbrev second : Segment
second = record { ptr = 0x80000; length = 131584 }

abbrev started : BootstrapReserve
started = record { mem = first ∷ []; next = 0x1010; avail = 131568; max_size = 131584 }

started-IsRegion : IsRegion started [] first
started-IsRegion = record { mem = refl; from = omega arith; ends = omega arith }
