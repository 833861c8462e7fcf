-- ===== src/Apf/Histogram.antt =====
-- src/apf/histogram.rs: counts by key in an array that grows. Growing keeps the old counts, as
-- do_realloc copies them; whether it returned memory is an argument.
pub mod Reads
use lralloc_rs.Common.{
  ℕ, zero, suc, ◌+◌, ◌-◌, ◌*◌, ◌%◌, Bool, true, false, Option, List, ◌++◌, get_elem?, get_or, set,
  replicate, length, ltb, leb, if◌then◌else◌, Outcome, returned, panicked, assert, unwrap, ◌>>=◌,
  ◌>>◌,
}
use lralloc_rs.MemInfo.{word}

abbrev pub init_histogram_length : ℕ
init_histogram_length = 32

pub record Histogram : Type 0 where
  pub histogram : List ℕ
  pub max_key : ℕ

-- `Histogram::new`, where the allocation succeeds
abbrev pub new_histogram : Histogram
new_histogram = record {
  histogram = replicate init_histogram_length 0;
  max_key = init_histogram_length;
}

-- `while output <= failed_key { output *= 2 }`
unfoldable pub double : ℕ → ℕ → ℕ → ℕ
double zero failed_key output = output
double (suc fuel) failed_key output =
    let rest = double fuel failed_key (output * 2) in if leb output failed_key then rest else output

unfoldable pub grow : Bool → ℕ → Histogram → Outcome Histogram
unfolding double
grow granted failed_key h = do
  let new_max = double (failed_key + 1) failed_key (h.max_key * 2)
  assert granted
  returned
      (record { histogram = h.histogram ++ replicate (new_max - h.max_key) 0; max_key = new_max })

-- `self.histogram[key] + val`, written back; an index out of bounds panics
unfoldable pub add_at : ℕ → ℕ → Histogram → Outcome Histogram
add_at key val h = do
  old ← unwrap (get_elem? h.histogram key)
  returned (record h { histogram = set (h.histogram) key ((old + val) % word) })

unfoldable pub add : Bool → ℕ → ℕ → Histogram → Outcome Histogram
unfolding grow add_at
add granted key val h =
    if leb (h.max_key - 1) key then grow granted key h >>= add_at key val else add_at key val h

unfoldable pub increment : Bool → ℕ → Histogram → Outcome Histogram
increment granted key h = add granted key 1 h

unfoldable pub get : Histogram → ℕ → ℕ
get h key = if leb (h.max_key) key then 0 else get_or (h.histogram) key 0

abbrev pub number : Histogram → ℕ
number h = length (h.histogram)
