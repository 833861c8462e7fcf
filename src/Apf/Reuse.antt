-- ===== src/Apf/Reuse.antt =====
-- src/apf/reuse_counter.rs: the counter samples a trace for a burst, computes the reuse from it, hibernates, and
-- samples again. Offline has the function `reuse`, whose quotients are pairs.
pub mod Burst
pub mod Offline
use lralloc_rs.Common.{
  ℕ, ◌+◌, Bool, true, false, Option, none, some, List, [], ◌∷◌, leb, if◌then◌else◌, Outcome,
  returned, panicked, ◌>>=◌,
}
use lralloc_rs.Apf.Trace.{Event, alloc, free, Trace, new_trace, add_event}
use Offline

pub record ReuseCounter : Type 0 where
  pub burst_length : ℕ
  pub hibernation_period : ℕ
  pub n : ℕ
  pub trace : Option Trace
  pub reuse : Option (ℕ → Option (ℕ × ℕ))

-- `ReuseCounter::new`, with what the memory of the trace holds
abbrev pub new_reuse_counter : (ℕ → Event) → ℕ → ℕ → ReuseCounter
new_reuse_counter memory bl hp = record {
  burst_length = bl;
  hibernation_period = hp;
  n = 0;
  trace = some (new_trace memory);
  reuse = none;
}

-- `alloc` and `free`: an event for the trace, where the memory is granted
unfoldable pub sample : Event → ReuseCounter → Outcome ReuseCounter
sample e c = elim (c.trace) [
  | none ↦ returned c
  | some t ↦ add_event true e t >>= λ t'. returned (record c { trace = some t' })
]

-- `sampling`
unfoldable pub sampling : ReuseCounter → Bool
sampling c = elim (c.trace) [ none ↦ false | some t ↦ true ]

-- `inc_timer`
unfoldable pub inc_reuse_timer : (ℕ → Event) → ReuseCounter → Outcome ReuseCounter
inc_reuse_timer memory c = elim (c.trace) [
  | some t ↦
      if leb (c.burst_length) (c.n + 1)
      then (Offline.reuse t >>= λ r. returned (record c { n = 0; trace = none; reuse = some r }))
      else returned (record c { n = c.n + 1 })
  | none ↦
      if leb (c.hibernation_period) (c.n + 1)
      then returned (record c { n = 0; trace = some (new_trace memory) })
      else returned (record c { n = c.n + 1 })
]

-- The method `reuse`: for a length without an entry it is 0.
unfoldable pub reuse_of : ReuseCounter → ℕ → Option (ℕ × ℕ)
reuse_of c k = elim (c.reuse) [
  | none ↦ none
  | some r ↦ elim (r k) [ none ↦ some (0, 1) | some q ↦ some q ]
]

pub data Op : Type 0 where
  event : Event → Op
  tick : Op

-- The operations of a thread on its counter, in order.
unfoldable pub run : (ℕ → Event) → List Op → ReuseCounter → Outcome ReuseCounter
unfolding sample inc_reuse_timer
run memory [] c = returned c
run memory (event e ∷ ops) c = sample e c >>= run memory ops
run memory (tick ∷ ops) c = inc_reuse_timer memory c >>= run memory ops
