-- ===== src/SingleAccess/Once.antt =====
-- What holds in every state that calls of `with` and `with_then` can reach.
use lralloc_rs.Common.{
  ℕ, ◌≤◌, ◌≡◌, refl, ap, Bool, true, false, ◌==◌, ==_iff, if◌then◌else◌, update, arith, Bool-cases,
  inl, inr,
}
use lralloc_rs.SingleAccess.{
  Pc, outside, checked, in_func, after_func, released, in_after, spinning, gone, System, start,
  goto, Step, pass, check, win, lose, complete, release, set_skip, set_skip_then, end_after, spin,
  leave, Reachable, begin, next,
}

-- the places behind the end of `func`
abbrev pub is_past : Pc → Bool
is_past after_func = true
is_past released = true
is_past in_after = true
is_past gone = true
is_past _ = false

-- the places of the thread that the others wait for
abbrev pub is_busy : Pc → Bool
is_busy in_func = true
is_busy after_func = true
is_busy _ = false

-- the places behind the exchange of `access`, up to the end of the call
abbrev pub is_entered : Pc → Bool
is_entered outside = false
is_entered checked = false
is_entered gone = false
is_entered _ = true

record Inv (s : System) : Type 0 where
  pub once : s.runs ≡ (if s.access then 1 else 0)
  pub waited : s.wait ≡ false → s.completed ≡ true
  pub skipped : s.skip ≡ true → s.completed ≡ true
  pub past : (i : ℕ) → is_past (s.threads i) ≡ true → s.completed ≡ true
  pub taken : (i : ℕ) → is_entered (s.threads i) ≡ true → s.access ≡ true
  pub owned : s.access ≡ true → s.wait ≡ true → (j : ℕ) × (is_busy (s.threads j) ≡ true)

start-Inv : Inv start
start-Inv = record {
  once = refl;
  waited = λ e. cc;
  skipped = λ e. cc;
  past = λ i e. cc;
  taken = λ i e. cc;
  owned = λ e. absurd cc;
}

-- A fact on all threads, after thread `i` moved to `pc`.
moved {ℓ} :
    (P : Pc → Type ℓ) (threads : ℕ → Pc) (i : ℕ) (pc : Pc)
    → P pc
    → ((j : ℕ) → P (threads j))
    → (j : ℕ) → P (update threads i pc j)
moved P threads i pc here others j = elim (Bool-cases (j == i)) [
  | inl same ↦ rw same here
  | inr other ↦ rw other (others j)
]

-- Another thread is where it was.
moved-other :
    (threads : ℕ → Pc) (i j : ℕ) (pc : Pc) → (j == i) ≡ false → update threads i pc j ≡ threads j
moved-other threads i j pc other = rw other refl

self : (threads : ℕ → Pc) (i : ℕ) (pc : Pc) → update threads i pc i ≡ pc
self threads i pc = let same : (i == i) ≡ true = ground arith in rw same refl

-- The owner stays where it is when a thread that is not busy moves.
owner_kept :
    (threads : ℕ → Pc) (i : ℕ) (pc : Pc)
    → is_busy (threads i) ≡ false
    → (j : ℕ) × (is_busy (threads j) ≡ true)
    → (j : ℕ) × (is_busy (update threads i pc j) ≡ true)
owner_kept threads i pc idle (j, busy) = elim (Bool-cases (j == i)) [
  | inl same ↦ absurd (let e = ap threads ((==_iff j i).0 same) in cc)
  | inr other ↦ (j, rw other busy)
]

-- A step of an idle thread that writes no field.
goto-Inv :
    (s : System) (i : ℕ) (pc : Pc)
    → is_busy (s.threads i) ≡ false
    → (is_past pc ≡ true → s.completed ≡ true)
    → (is_entered pc ≡ true → s.access ≡ true)
    → Inv s
    → Inv (goto i pc s)
goto-Inv s i pc idle past taken v = record {
  once = v.once;
  waited = v.waited;
  skipped = v.skipped;
  past = moved (λ p. is_past p ≡ true → s.completed ≡ true) (s.threads) i pc past (v.past);
  taken = moved (λ p. is_entered p ≡ true → s.access ≡ true) (s.threads) i pc taken (v.taken);
  owned = λ a w. owner_kept (s.threads) i pc idle (v.owned a w);
}

-- The write of `skip`.
skip-Inv :
    (s : System) (i : ℕ) (pc : Pc)
    → is_busy (s.threads i) ≡ false
    → s.completed ≡ true
    → s.access ≡ true
    → Inv s
    → Inv (record (goto i pc s) { skip = true })
skip-Inv s i pc idle ended taken v =
    let g = goto-Inv s i pc idle (λ e. ended) (λ e. taken) v in
    record {
      once = g.once;
      waited = g.waited;
      skipped = λ e. ended;
      past = g.past;
      taken = g.taken;
      owned = g.owned;
    }

Step-Inv : {s t : System} → Step s t → Inv s → Inv t
Step-Inv (pass {s} i at skip) v =
    goto-Inv s i gone (rw at refl) (λ e. v.skipped skip) (λ e. absurd cc) v
Step-Inv (check {s} i at skip) v =
    goto-Inv s i checked (rw at refl) (λ e. absurd cc) (λ e. absurd cc) v
Step-Inv (lose {s} i at taken) v =
    goto-Inv s i spinning (rw at refl) (λ e. absurd cc) (λ e. taken) v
Step-Inv (end_after {s} i at) v =
    goto-Inv s i spinning (rw at refl) (λ e. absurd cc) (λ e. v.taken i (rw at refl)) v
Step-Inv (leave {s} i at free) v =
    goto-Inv s i gone (rw at refl) (λ e. v.waited free) (λ e. absurd cc) v
Step-Inv (spin i at wait) v = v
Step-Inv (win {s} i at free) v = record {
  once = let fresh : s.runs ≡ 0 = rw free at (v.once) in rw fresh refl;
  waited = v.waited;
  skipped = v.skipped;
  past =
      moved (λ p. is_past p ≡ true → s.completed ≡ true) (s.threads) i in_func (λ e. absurd cc)
        (v.past);
  taken = λ j e. refl;
  owned = λ a w. (i, rw (self (s.threads) i in_func) refl);
}
Step-Inv (complete {s} i at) v = record {
  once = v.once;
  waited = λ e. refl;
  skipped = λ e. refl;
  past = λ j e. refl;
  taken =
      moved (λ p. is_entered p ≡ true → s.access ≡ true) (s.threads) i after_func
        (λ e. v.taken i (rw at refl)) (v.taken);
  owned = λ a w. (i, rw (self (s.threads) i after_func) refl);
}
Step-Inv (release {s} i at) v = record {
  once = v.once;
  waited = λ e. v.past i (rw at refl);
  skipped = v.skipped;
  past =
      moved (λ p. is_past p ≡ true → s.completed ≡ true) (s.threads) i released
        (λ e. v.past i (rw at refl)) (v.past);
  taken =
      moved (λ p. is_entered p ≡ true → s.access ≡ true) (s.threads) i released
        (λ e. v.taken i (rw at refl)) (v.taken);
  owned = λ a w. absurd cc;
}
Step-Inv (set_skip {s} i at) v =
    skip-Inv s i spinning (rw at refl) (v.past i (rw at refl)) (v.taken i (rw at refl)) v
Step-Inv (set_skip_then {s} i at) v =
    skip-Inv s i in_after (rw at refl) (v.past i (rw at refl)) (v.taken i (rw at refl)) v

Reachable-Inv : {s : System} → Reachable s → Inv s
Reachable-Inv begin = start-Inv
Reachable-Inv (next r step) = Step-Inv step (Reachable-Inv r)

-- In every reachable state the function of a SingleAccess has been called at most once.
pub runs-le : {s : System} → Reachable s → s.runs ≤ 1
runs-le {s} r =
    let v = Reachable-Inv r in
    elim (Bool-cases (s.access)) [
      | inl taken ↦ (let e : s.runs ≡ 1 = rw taken at (v.once) in omega arith)
      | inr free ↦ (let e : s.runs ≡ 0 = rw free at (v.once) in omega arith)
    ]

-- In every reachable state a thread whose call has returned returned after the function had ended.
pub gone-Completed : {s : System} (i : ℕ) → Reachable s → s.threads i ≡ gone → s.completed ≡ true
gone-Completed i r at = (Reachable-Inv r).past i (rw at refl)

-- In every reachable state, while a thread spins and may not leave, some thread is in the function
-- or about to write wait.
pub spinning-Busy :
    {s : System} (i : ℕ)
    → Reachable s
    → s.threads i ≡ spinning
    → s.wait ≡ true
    → (j : ℕ) × (is_busy (s.threads j) ≡ true)
spinning-Busy i r at wait = let v = Reachable-Inv r in v.owned (v.taken i (rw at refl)) wait
