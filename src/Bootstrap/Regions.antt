-- ===== src/Bootstrap/Regions.antt =====
-- Every allocation lies in a segment, behind all that was handed out from the segment before.
use lralloc_rs.Common.{
  ℕ, ◌+◌, ◌≤◌, ◌<◌, ◌≡◌, refl, true, some, List, [], ◌∷◌, ◌++◌, arith, ltb, max, if◌then◌else◌,
  Returns, returns, Bool-cases, inl, inr,
}
use lralloc_rs.AllocationData.Desc.{Segment}
use lralloc_rs.Bootstrap.{
  BootstrapReserve, take_segment, add_new_segment, reserve, in_segment, ptr_in_bootstrap,
}

-- The rest of the reserve is the end of its last segment.
pub record IsRegion (r : BootstrapReserve) (before : List Segment) (segment : Segment)
    : Type 0 where
  pub mem : r.mem ≡ before ++ segment ∷ []
  pub from : segment.ptr ≤ r.next
  pub ends : r.next + r.avail ≤ segment.ptr + segment.length

-- An allocation returns `size` bytes that lie in a segment of the reserve; the reserve goes on behind them in
-- that segment, which is the one before or, where the rest is too short, the answered one.
pub record IsReserved (r : BootstrapReserve) (before : List Segment) (segment fresh : Segment)
    (size : ℕ) (p : ℕ × BootstrapReserve) : Type 0 where
  pub next : p.1.next ≡ p.0 + size
  pub region :
      if ltb (r.avail) size
      then IsRegion p.1 (r.mem) fresh × (p.0 ≡ fresh.ptr) × (size ≤ fresh.length)
      else IsRegion p.1 before segment
        × (p.0 ≡ r.next)
        × (p.0 + size ≤ segment.ptr + segment.length)

-- Where a new segment is as long as asked for, the bootstrap reserve returns an address whose bytes
-- lie in a segment: the current one where its rest is long enough, the new one otherwise; the next
-- address follows the allocation.
pub reserve-IsReserved :
    (r : BootstrapReserve) (before : List Segment) (segment fresh : Segment) (size : ℕ)
    → IsRegion r before segment
    → fresh.length ≡ max (r.max_size) size
    → Returns (IsReserved r before segment fresh size) (reserve (some fresh) size r)
unfolding reserve add_new_segment take_segment
reserve-IsReserved r before segment fresh size g long = elim (Bool-cases (ltb (r.avail) size)) [
  | inl short ↦ rw short (
      returns (record {
        next = refl;
        region = rw short (
          record { mem = refl; from = omega arith; ends = omega (arith, long) },
          refl,
          omega (arith, long),
        );
      }))
  | inr enough ↦ rw enough (
      returns (record {
        next = refl;
        region = rw enough (
          record { mem = g.mem; from = omega (arith, g.from); ends = ground (arith, g.ends) },
          refl,
          ground (arith, g.ends),
        );
      }))
]

ptr_in_bootstrap-last :
    (ptr : ℕ) (before : List Segment) (segment : Segment)
    → in_segment ptr segment ≡ true
    → ptr_in_bootstrap ptr (before ++ segment ∷ []) ≡ true
unfolding ptr_in_bootstrap
ptr_in_bootstrap-last ptr [] segment h = rw h refl
ptr_in_bootstrap-last ptr (s ∷ before) segment h = elim (Bool-cases (in_segment ptr s)) [
  | inl here ↦ rw here refl
  | inr further ↦ rw further (ptr_in_bootstrap-last ptr before segment h)
]

in_segment-true :
    (ptr : ℕ) (segment : Segment)
    → segment.ptr ≤ ptr
    → ptr < segment.ptr + segment.length
    → in_segment ptr segment ≡ true
unfolding in_segment
in_segment-true ptr segment low high = ground arith

-- ptr_in_bootstrap holds of every address of the last segment of the reserve, from its start to the
-- end of the rest.
pub ptr_in_bootstrap-IsRegion :
    (r : BootstrapReserve) (before : List Segment) (segment : Segment) (ptr : ℕ)
    → IsRegion r before segment
    → segment.ptr ≤ ptr
    → ptr < r.next + r.avail
    → ptr_in_bootstrap ptr (r.mem) ≡ true
ptr_in_bootstrap-IsRegion r before segment ptr g low high =
    let inside : in_segment ptr segment ≡ true =
      in_segment-true ptr segment low (omega (arith, g.ends)) in
    rw (g.mem) (ptr_in_bootstrap-last ptr before segment inside)
