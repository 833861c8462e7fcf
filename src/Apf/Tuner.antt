-- ===== src/Apf/Tuner.antt =====
-- src/apf/mod.rs: the tuner of a size class, which asks for blocks when the bin of its class is empty, and gives
-- some back when it is long. The function pointers check, get and ret are the hooks, which read and change a
-- state that is theirs. USE_ALLOCATION_CLOCK is true, so the branches of the other clock, and with them
-- the operations of the liveness counter, do not run. A float is a quotient of whole numbers.
pub mod Demand
mod Tests
use lralloc_rs.Common.{
  ℕ, ◌+◌, ◌-◌, ◌*◌, ◌/◌, Bool, true, false, Option, none, some, List, [], ◌∷◌, ◌++◌, ltb, leb, ◌==◌,
  if◌then◌else◌, Outcome, returned, ◌>>=◌, ◌>>◌,
}
use lralloc_rs.Apf.Trace.{Event, alloc, free}
use lralloc_rs.Apf.Liveness.{LivenessCounter, new_counter}
use lralloc_rs.Apf.Reuse.{ReuseCounter, new_reuse_counter, sample, inc_reuse_timer, reuse_of}

-- check, get and ret, over the state that they act on
pub record Hooks (S : Type 0) : Type 0 where
  pub check : ℕ → S → Outcome ℕ
  pub get : ℕ → ℕ → S → Outcome S
  pub ret : ℕ → ℕ → S → Outcome S

-- What the environment of the build sets, and what the memory of a new trace holds.
pub record Settings : Type 0 where
  pub target_apf : ℕ
  pub reuse_burst_length : ℕ
  pub reuse_hibernation_period : ℕ
  pub memory : ℕ → Event

pub record ApfTuner : Type 0 where
  pub id : ℕ
  pub l_counter : LivenessCounter
  pub r_counter : ReuseCounter
  pub time : ℕ
  pub fetch_count : ℕ
  pub dapf : ℕ
  pub records : Option (List (ℕ × ℕ))

-- `ApfTuner::new`
abbrev pub new_tuner : Settings → ℕ → Bool → ApfTuner
new_tuner settings id use_record = record {
  id = id;
  l_counter = new_counter;
  r_counter =
      new_reuse_counter (settings.memory) (settings.reuse_burst_length)
        (settings.reuse_hibernation_period);
  time = 0;
  fetch_count = 0;
  dapf = 0;
  records = if use_record then some [] else none;
}

-- `set_id`
abbrev pub set_id : ℕ → ApfTuner → ApfTuner
set_id id t = record t { id = id }

unfoldable pub calculate_dapf : ℕ → ApfTuner → ℕ
calculate_dapf target_apf t =
    if leb (target_apf * (t.fetch_count + 1)) (t.time)
    then target_apf
    else target_apf * (t.fetch_count + 1) - t.time

-- The float (plus - minus) / parts.
pub record Quotient : Type 0 where
  pub plus : ℕ
  pub minus : ℕ
  pub parts : ℕ

-- `demand`
unfoldable pub demand : ℕ → ApfTuner → Option Quotient
demand k t = if ltb (t.time) k then none else elim (reuse_of (t.r_counter) k) [
  | none ↦ none
  | some (sum, number) ↦ some (record { plus = k * number; minus = sum; parts = number })
]

-- `ceil`, and the cast to an unsigned number, which makes 0 of what is below it
unfoldable pub ceil : Quotient → ℕ
ceil q = (q.plus - q.minus + (q.parts - 1)) / q.parts

abbrev pub is_negative : Quotient → Bool
is_negative q = ltb (q.plus) (q.minus)

-- n >= 2.0 * q + 1.0
unfoldable pub exceeds : ℕ → Quotient → Bool
exceeds n q = leb (2 * q.plus + q.parts) (n * q.parts + 2 * q.minus)

-- `count_fetch`
abbrev pub count_fetch : ApfTuner → ApfTuner
count_fetch t = record t { fetch_count = t.fetch_count + 1 }

-- the entry of a fetch, where the tuner records
abbrev pub record_fetch : ℕ → ℕ → Option (List (ℕ × ℕ)) → Option (List (ℕ × ℕ))
record_fetch time dapf none = none
record_fetch time dapf (some rec) = some (rec ++ (time, dapf) ∷ [])

module _ {S : Type 0} (hooks : Hooks S) (settings : Settings) where
  -- the branch of `malloc` without free blocks, where the demand is known
  unfoldable pub fetch_demand : Quotient → ApfTuner → S → Outcome (Bool × ApfTuner × S)
  unfolding ceil calculate_dapf
  fetch_demand d t s = do
    let records' = record_fetch (t.time) (calculate_dapf (settings.target_apf) t) (t.records)
    s' ← hooks.get (t.id) (ceil d) s
    returned (true, count_fetch (record t { records = records' }), s')

  -- `malloc`
  unfoldable pub tuner_malloc : ℕ → ApfTuner → S → Outcome (Bool × ApfTuner × S)
  unfolding fetch_demand demand
  tuner_malloc ptr t s = do
    sampled ← sample (alloc ptr) (t.r_counter)
    ticked ← inc_reuse_timer (settings.memory) sampled
    let t' = record t { time = t.time + 1; r_counter = ticked }
    free_blocks ← hooks.check (t'.id) s
    if free_blocks == 0
        then elim (demand (calculate_dapf (settings.target_apf) t') t') [
          | none ↦ returned (false, t', s)
          | some d ↦ fetch_demand d t' s
        ]
        else returned (true, t', s)

  -- the rest of `free`, with the demand
  unfoldable pub return_demand : Quotient → ApfTuner → S → Outcome (Bool × ApfTuner × S)
  unfolding ceil exceeds
  return_demand d t s = do
    free_blocks ← hooks.check (t.id) s
    s' ← if exceeds free_blocks d then hooks.ret (t.id) (ceil d + 1) s else returned s
    returned (true, t, s')

  -- `free`
  unfoldable pub tuner_free : ℕ → ApfTuner → S → Outcome (Bool × ApfTuner × S)
  unfolding return_demand demand calculate_dapf
  tuner_free ptr t s = do
    sampled ← sample (free ptr) (t.r_counter)
    let t' = record t { r_counter = sampled }
    elim (demand (calculate_dapf (settings.target_apf) t') t') [
      | none ↦ returned (false, t', s)
      | some d ↦ if is_negative d then returned (false, t', s) else return_demand d t' s
    ]
