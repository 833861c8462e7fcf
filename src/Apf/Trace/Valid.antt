-- ===== src/Apf/Trace/Valid.antt =====
-- `valid` against the automaton of a single slot.
use lralloc_rs.Common.{
  ℕ, zero, suc, ◌+◌, ◌≡◌, ◌↔◌, refl, sym, ap, ◌∙◌, Bool, true, false, Option, none, some, ◌==◌,
  ==_iff, if◌then◌else◌, update, arith, Bool-cases, inl, inr, ◌⊎◌, ◌&&◌, not,
}
use lralloc_rs.Apf.Trace.{Event, alloc, free, Trace, valid_from, valid}

-- A slot's events, from index `i` on, are by turns an allocation and a free; `held` says that the last one
-- was an allocation.
unfoldable pub alternates : ℕ → Bool → ℕ → ℕ → (ℕ → Event) → Bool
alternates slot held zero i accesses = true
alternates slot held (suc rounds) i accesses = elim (accesses i) [
  | alloc s ↦
      let rest = alternates slot true rounds (i + 1) accesses in
      if slot == s then not held && rest else alternates slot held rounds (i + 1) accesses
  | free s ↦
      let rest = alternates slot false rounds (i + 1) accesses in
      if slot == s then held && rest else alternates slot held rounds (i + 1) accesses
]

abbrev is_held : Option Bool → Bool
is_held none = false
is_held (some b) = b

-- Setting the state of one slot sets what its later events must be.
set_slot :
    (slots : ℕ → Option Bool) (s slot rounds i : ℕ) (b : Bool) (accesses : ℕ → Event)
    → alternates slot (is_held (update slots s (some b) slot)) rounds i accesses ≡ (
        if slot == s
        then alternates slot b rounds i accesses
        else alternates slot (is_held (slots slot)) rounds i accesses)
set_slot slots s slot rounds i b accesses = elim (Bool-cases (slot == s)) [
  | inl same ↦ rw same refl
  | inr other ↦ rw other refl
]

-- One event of slot `s` that leaves it in state `b`.
Agrees : (rounds i : ℕ) → (ℕ → Event) → (ℕ → Option Bool) → Type 0
Agrees rounds i accesses slots =
    (valid_from rounds i accesses slots ≡ true)
    ↔ ((slot : ℕ) → alternates slot (is_held (slots slot)) rounds i accesses ≡ true)

Agrees-step :
    (rounds i s : ℕ) (b : Bool) (accesses : ℕ → Event) (slots : ℕ → Option Bool)
    → valid_from (suc rounds) i accesses slots
      ≡ valid_from rounds (i + 1) accesses (update slots s (some b))
    → ((slot : ℕ)
        → alternates slot (is_held (slots slot)) (suc rounds) i accesses ≡ (
            if slot == s
            then alternates slot b rounds (i + 1) accesses
            else alternates slot (is_held (slots slot)) rounds (i + 1) accesses))
    → Agrees rounds (i + 1) accesses (update slots s (some b))
    → Agrees (suc rounds) i accesses slots
unfolding Agrees
Agrees-step rounds i s b accesses slots goes each later = (
  λ h slot.
      each slot
      ∙ sym (set_slot slots s slot rounds (i + 1) b accesses)
      ∙ later.0 (sym goes ∙ h) slot,
  λ h.
      goes
      ∙ later.1
          (λ slot. set_slot slots s slot rounds (i + 1) b accesses ∙ sym (each slot) ∙ h slot),
)

-- An event that slot `s` may not have in its state.
Agrees-stop :
    (rounds i s : ℕ) (accesses : ℕ → Event) (slots : ℕ → Option Bool)
    → valid_from rounds i accesses slots ≡ false
    → alternates s (is_held (slots s)) rounds i accesses ≡ false
    → Agrees rounds i accesses slots
unfolding Agrees
Agrees-stop rounds i s accesses slots stops bad =
    (λ h. absurd (let e = sym h ∙ stops in cc), λ h. absurd (let e = sym (h s) ∙ bad in cc))

alternates-alloc :
    (slots : ℕ → Option Bool) (s slot rounds i : ℕ) (accesses : ℕ → Event)
    → accesses i ≡ alloc s
    → is_held (slots s) ≡ false
    → alternates slot (is_held (slots slot)) (suc rounds) i accesses ≡ (
        if slot == s
        then alternates slot true rounds (i + 1) accesses
        else alternates slot (is_held (slots slot)) rounds (i + 1) accesses)
unfolding alternates
alternates-alloc slots s slot rounds i accesses at freed = elim (Bool-cases (slot == s)) [
  | inl same ↦
      (let here : is_held (slots slot) ≡ false =
          ap (λ (t : ℕ). is_held (slots t)) ((==_iff slot s).0 same) ∙ freed in
        rw (alternates, at, same, here) refl)
  | inr other ↦ rw (alternates, at, other) refl
]

alternates-free :
    (slots : ℕ → Option Bool) (s slot rounds i : ℕ) (accesses : ℕ → Event)
    → accesses i ≡ free s
    → is_held (slots s) ≡ true
    → alternates slot (is_held (slots slot)) (suc rounds) i accesses ≡ (
        if slot == s
        then alternates slot false rounds (i + 1) accesses
        else alternates slot (is_held (slots slot)) rounds (i + 1) accesses)
unfolding alternates
alternates-free slots s slot rounds i accesses at held = elim (Bool-cases (slot == s)) [
  | inl same ↦
      (let here : is_held (slots slot) ≡ true =
          ap (λ (t : ℕ). is_held (slots t)) ((==_iff slot s).0 same) ∙ held in
        rw (alternates, at, same, here) refl)
  | inr other ↦ rw (alternates, at, other) refl
]

Event-cases : (e : Event) → ((s : ℕ) × (e ≡ alloc s)) ⊎ ((s : ℕ) × (e ≡ free s))
Event-cases (alloc s) = inl (s, refl)
Event-cases (free s) = inr (s, refl)

state_cases : (o : Option Bool) → (o ≡ none) ⊎ ((o ≡ some true) ⊎ (o ≡ some false))
state_cases none = inl refl
state_cases (some true) = inr (inl refl)
state_cases (some false) = inr (inr refl)

self : (s : ℕ) → (s == s) ≡ true
self s = ground arith

valid_from-Agrees :
    (rounds i : ℕ) (accesses : ℕ → Event) (slots : ℕ → Option Bool) → Agrees rounds i accesses slots
unfolding Agrees valid_from alternates
valid_from-Agrees zero i accesses slots = (λ h slot. refl, λ h. refl)
valid_from-Agrees (suc rounds) i accesses slots = elim (Event-cases (accesses i)) [
  | inl (s, at) ↦ elim (state_cases (slots s)) [
    | inl fresh ↦
        Agrees-step rounds i s true accesses slots (rw (valid_from, at, fresh) refl)
          (λ slot. alternates-alloc slots s slot rounds i accesses at (rw fresh refl))
          (valid_from-Agrees rounds (i + 1) accesses (update slots s (some true)))
    | inr (inl held) ↦
        Agrees-stop (suc rounds) i s accesses slots (rw (valid_from, at, held) refl)
          (rw (alternates, at, self s, held) refl)
    | inr (inr freed) ↦
        Agrees-step rounds i s true accesses slots (rw (valid_from, at, freed) refl)
          (λ slot. alternates-alloc slots s slot rounds i accesses at (rw freed refl))
          (valid_from-Agrees rounds (i + 1) accesses (update slots s (some true)))
  ]
  | inr (s, at) ↦ elim (state_cases (slots s)) [
    | inl fresh ↦
        Agrees-stop (suc rounds) i s accesses slots (rw (valid_from, at, fresh) refl)
          (rw (alternates, at, self s, fresh) refl)
    | inr (inl held) ↦
        Agrees-step rounds i s false accesses slots (rw (valid_from, at, held) refl)
          (λ slot. alternates-free slots s slot rounds i accesses at (rw held refl))
          (valid_from-Agrees rounds (i + 1) accesses (update slots s (some false)))
    | inr (inr freed) ↦
        Agrees-stop (suc rounds) i s accesses slots (rw (valid_from, at, freed) refl)
          (rw (alternates, at, self s, freed) refl)
  ]
]

-- A trace is valid exactly if the events of each slot are by turns an allocation and a free, an
-- allocation first.
pub valid_iff :
    (t : Trace)
    → (valid t ≡ true) ↔ ((slot : ℕ) → alternates slot false (t.length) 0 (t.accesses) ≡ true)
unfolding valid Agrees
valid_iff t = valid_from-Agrees (t.length) 0 (t.accesses) (λ _. none)
