-- ===== src/Bootstrap.antt =====
-- src/bootstrap.rs: the reserve that hands out memory front to back from segments, each as long as
-- `max` or the request. What the segment allocator answers is an argument; on a refusal the process
-- exits.
pub mod Regions
mod Tests
use lralloc_rs.Common.{
  ℕ, ◌+◌, ◌-◌, ◌*◌, Bool, true, false, ◌&&◌, ◌||◌, Option, none, some, List, [], ◌∷◌, ◌++◌, ltb,
  leb, max, if◌then◌else◌, Outcome, returned, panicked, unwrap, ◌>>=◌,
}
use lralloc_rs.AllocationData.Desc.{Segment}

pub record BootstrapReserve : Type 0 where
  pub mem : List Segment
  pub next : ℕ
  pub avail : ℕ
  pub max_size : ℕ

-- `BootstrapReserve::new`
abbrev pub new : ℕ → BootstrapReserve
new size = record { mem = []; next = 0; avail = 0; max_size = size }

abbrev kb : ℕ
kb = 1028

-- `bootstrap_reserve` before `init`
abbrev pub bootstrap_reserve : BootstrapReserve
bootstrap_reserve = new (128 * kb)

-- The segments stand in the order of the array.
unfoldable pub take_segment : ℕ → Segment → BootstrapReserve → BootstrapReserve
take_segment size segment r = record r {
  mem = r.mem ++ segment ∷ [];
  next = segment.ptr;
  avail = size;
}

-- `init`
unfoldable pub init : Option Segment → BootstrapReserve → Outcome BootstrapReserve
unfolding take_segment
init answer r = do segment ← unwrap answer; returned (take_segment (r.max_size) segment r)

unfoldable pub add_new_segment : Option Segment → ℕ → BootstrapReserve → Outcome BootstrapReserve
unfolding take_segment
add_new_segment answer request_size r = do
  segment ← unwrap answer
  returned (take_segment (max (r.max_size) request_size) segment r)

-- `allocate`
unfoldable pub reserve : Option Segment → ℕ → BootstrapReserve → Outcome (ℕ × BootstrapReserve)
unfolding add_new_segment
reserve answer size r = do
  r' ← if ltb (r.avail) size then add_new_segment answer size r else returned r
  returned (r'.next, record r' { next = r'.next + size; avail = r'.avail - size })

unfoldable pub in_segment : ℕ → Segment → Bool
in_segment ptr segment = leb (segment.ptr) ptr && ltb ptr (segment.ptr + segment.length)

unfoldable pub ptr_in_bootstrap : ℕ → List Segment → Bool
unfolding in_segment
ptr_in_bootstrap ptr [] = false
ptr_in_bootstrap ptr (segment ∷ mem) =
    if in_segment ptr segment then true else ptr_in_bootstrap ptr mem
