-- ===== src/Apf/Trace/Add.antt =====
-- What `add` and `extend` make of a trace.
use lralloc_rs.Common.{
  ℕ, zero, suc, ◌+◌, ◌-◌, ◌*◌, ◌≤◌, ◌<◌, ◌≡◌, refl, ap, ◌∙◌, true, false, List, [], ◌∷◌, length,
  get_or, lt→ltb, ◌==◌, arith, Outcome, returned, ◌>>=◌, Returns, returns, result, Bool-cases, inl,
  inr,
}
use lralloc_rs.Apf.Trace.{Event, Trace, is_alloc, write, write_all, add_event, extend}

-- The trace has room for an event.
pub record HasRoom (t : Trace) : Type 0 where
  pub room : t.length < t.capacity
  pub many : 1 < t.capacity

unfoldable pub allocs : List Event → ℕ
allocs [] = 0
allocs (e ∷ es) = is_alloc e + allocs es

-- The trace goes on with the events `es`.
pub record Recorded (t : Trace) (es : List Event) (t' : Trace) : Type 0 where
  pub length_is : t'.length ≡ t.length + length es
  pub allocs_is : t'.alloc_count ≡ t.alloc_count + allocs es
  pub events : (i : ℕ) → i < length es → (d : Event) → t'.accesses (t.length + i) ≡ get_or es i d
  pub before : (i : ℕ) → i < t.length → t'.accesses i ≡ t.accesses i

write-Recorded :
    (e : Event) (t : Trace) (c : ℕ)
    → t.length < c
    → Returns
        (λ t'. (t'.capacity ≡ c) × Recorded t (e ∷ []) t')
        (write e (record t { capacity = c }))
unfolding write allocs
write-Recorded e t c room = rw (lt→ltb (t.length) c room) (
    returns (
      refl,
      record {
        length_is = refl;
        allocs_is = omega arith;
        events = λ i h d.
            let here : (t.length + i == t.length) ≡ true = ground arith in
            let first : i ≡ 0 = omega (arith, h) in rw (here, first) refl;
        before = λ i h. let other : (i == t.length) ≡ false = ground arith in rw other refl;
      },
    ))

pub add_event-Recorded :
    (e : Event) (t : Trace)
    → HasRoom t
    → Returns (λ t'. HasRoom t' × Recorded t (e ∷ []) t') (add_event true e t)
unfolding add_event
add_event-Recorded e t r = elim (Bool-cases (t.length == t.capacity - 1)) [
  | inl full ↦
      (let (t', ran, w) = result (write-Recorded e t (t.capacity * 2) (omega (arith, r.room))) in
        rw (full, ran)
          (returns (
            record {
              room = ground (arith, w.0, w.1.length_is, r.room);
              many = omega (arith, w.0, r.many);
            },
            w.1,
          )))
  | inr room ↦
      (let (t', ran, w) = result (write-Recorded e t (t.capacity) (r.room)) in
        rw (room, ran)
          (returns (
            record {
              room = ground (arith, w.0, w.1.length_is, r.room);
              many = omega (arith, w.0, r.many);
            },
            w.1,
          )))
]

pub Recorded-cons :
    (t t1 t' : Trace) (e : Event) (es : List Event)
    → Recorded t (e ∷ []) t1
    → Recorded t1 es t'
    → Recorded t (e ∷ es) t'
unfolding allocs
Recorded-cons t t1 t' e es a b = record {
  length_is = omega (arith, a.length_is, b.length_is);
  allocs_is = omega (arith, a.allocs_is, b.allocs_is);
  events = at;
  before = λ i h. b.before i (omega (arith, a.length_is)) ∙ a.before i h;
}
  where
    at :
        (i : ℕ)
        → i < suc (length es)
        → (d : Event) → t'.accesses (t.length + i) ≡ get_or (e ∷ es) i d
    at zero h d = b.before (t.length + 0) (omega (arith, a.length_is)) ∙ a.events 0 (omega arith) d
    at (suc i) h d =
        let e : t.length + suc i ≡ t1.length + i = omega (arith, a.length_is) in
        ap (t'.accesses) e ∙ b.events i (omega arith) d

pub Recorded-nil : (t : Trace) → Recorded t [] t
unfolding allocs
Recorded-nil t = record {
  length_is = omega arith;
  allocs_is = omega arith;
  events = λ i h. absurd (omega arith);
  before = λ i h. refl;
}

-- `add` of each of the events, in order.
unfoldable pub add_all : List Event → Trace → Outcome Trace
add_all [] t = returned t
add_all (e ∷ es) t = add_event true e t >>= add_all es

-- Where memory is granted, adding events to a trace with room returns a trace with room that goes
-- on with these events and counts them and the allocations among them.
pub add_all-Recorded :
    (es : List Event) (t : Trace)
    → HasRoom t
    → Returns (λ t'. HasRoom t' × Recorded t es t') (add_all es t)
unfolding add_all allocs
add_all-Recorded [] t r = returns (r, Recorded-nil t)
add_all-Recorded (e ∷ es) t r =
    let (t1, ran, a) = result (add_event-Recorded e t r) in
    let (t', ran', b) = result (add_all-Recorded es t1 a.0) in
    rw (ran, ran') (returns (b.0, Recorded-cons t t1 t' e es a.1 b.1))

write_all-Recorded :
    (es : List Event) (t : Trace)
    → t.length + length es ≤ t.capacity
    → Returns (λ t'. Recorded t es t') (write_all es t)
unfolding write_all allocs
write_all-Recorded [] t room = returns (Recorded-nil t)
write_all-Recorded (e ∷ es) t room =
    let (t1, ran, w) = result (write-Recorded e t (t.capacity) (omega arith)) in
    let (t', ran', b) = result (write_all-Recorded es t1 (omega (arith, w.0, w.1.length_is))) in
    rw (ran, ran') (returns (Recorded-cons t t1 t' e es w.1 b))

-- With room for the events, extend writes them behind the others and then adds twice their number
-- to the length.
pub extend-Twice :
    (es : List Event) (t : Trace)
    → t.length + length es ≤ t.capacity
    → Returns
        (λ t'.
          (t'.length ≡ t.length + 2 * length es)
          × ((i : ℕ) → i < length es → (d : Event) → t'.accesses (t.length + i) ≡ get_or es i d))
        (extend es t)
unfolding extend
extend-Twice es t room =
    let (t', ran, r) = result (write_all-Recorded es t room) in
    rw ran (returns (omega (arith, r.length_is), r.events))
