-- ===== src/Apf/Reuse/Offline/Counted.antt =====
-- Adding events keeps the count of allocations right.
use lralloc_rs.Common.{
  ℕ, zero, suc, ◌+◌, ◌≤◌, ◌<◌, ◌≡◌, refl, sym, ap, ◌∙◌, List, [], ◌∷◌, length, get_or, arith,
}
use lralloc_rs.Apf.Trace.{Event, Trace}
use lralloc_rs.Apf.Trace.Add.{Recorded, allocs}
use lralloc_rs.Apf.Reuse.Offline.Windows.{allocs_from, IsCounted}

allocs_from-eq :
    (rounds i : ℕ) (a b : ℕ → Event)
    → ((j : ℕ) → i ≤ j → j < i + rounds → a j ≡ b j)
    → allocs_from rounds i a ≡ allocs_from rounds i b
unfolding allocs_from
allocs_from-eq zero i a b e = refl
allocs_from-eq (suc rounds) i a b e =
    rw
      (
        e i (omega arith) (omega arith),
        allocs_from-eq rounds (i + 1) a b (λ j h l. e j (omega arith) (omega arith)),
      )
      refl

allocs_from-add :
    (rounds more i : ℕ) (a : ℕ → Event)
    → allocs_from (rounds + more) i a ≡ allocs_from rounds i a + allocs_from more (i + rounds) a
unfolding allocs_from
allocs_from-add zero more i a =
    let e : 0 + more ≡ more = omega arith in
    let f : i + 0 ≡ i = omega arith in rw (e, f) (omega arith)
allocs_from-add (suc rounds) more i a =
    let e : suc rounds + more ≡ suc (rounds + more) = omega arith in
    let f : i + suc rounds ≡ i + 1 + rounds = omega arith in
    rw (e, f) (omega (arith, allocs_from-add rounds more (i + 1) a))

allocs_from-allocs :
    (es : List Event) (i : ℕ) (a : ℕ → Event)
    → ((j : ℕ) → j < length es → (d : Event) → a (i + j) ≡ get_or es j d)
    → allocs_from (length es) i a ≡ allocs es
unfolding allocs_from allocs
allocs_from-allocs [] i a e = refl
allocs_from-allocs (x ∷ es) i a e =
    let first : a i ≡ x = ap a (omega arith) ∙ e 0 (omega arith) x in
    let rest =
      allocs_from-allocs es (i + 1) a (λ j h d. ap a (omega arith) ∙ e (suc j) (omega arith) d) in
    rw first (omega (arith, rest))

-- Added events are counted.
pub Recorded-IsCounted :
    (t t' : Trace) (es : List Event) → IsCounted t → Recorded t es t' → IsCounted t'
Recorded-IsCounted t t' es counted r =
    let n = t.length in
    let old = allocs_from-eq n 0 (t'.accesses) (t.accesses) (λ j h l. r.before j (omega arith)) in
    let new =
      allocs_from-allocs es (0 + n) (t'.accesses)
        (λ j h d. ap (t'.accesses) (omega arith) ∙ r.events j h d) in
    r.allocs_is
    ∙ omega (arith, counted, old, new, allocs_from-add n (length es) 0 (t'.accesses))
    ∙ sym (ap (λ (m : ℕ). allocs_from m 0 (t'.accesses)) (r.length_is))
