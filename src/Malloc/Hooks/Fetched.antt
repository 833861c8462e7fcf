-- ===== src/Malloc/Hooks/Fetched.antt =====
-- `fetch`: its loop ends in the second round, and then by a panic.
use lralloc_rs.Common.{
  ℕ, suc, ◌+◌, ◌%◌, min, ◌<◌, ◌≡◌, ◌≢◌, refl, Bool, Option, none, some, get_elem?, ltb, lt→ltb,
  ltb→lt, arith, Outcome, returned, panicked, unwrap, ◌>>=◌, Bool-cases, inl, inr,
}
use lralloc_rs.SizeClasses.{SizeClassData, u32_mod}
use lralloc_rs.AllocationData.Desc.{Segment, Descriptor, alloc}
use lralloc_rs.ThreadCache.{ThreadCacheBin, push_list}
use lralloc_rs.Alloc.{
  World, get_heap_at_mut, own, hand_out, register_desc, set_desc, full_anchor, init_blocks,
}
use lralloc_rs.Alloc.Counted.{malloc_count_from_new_sb}
use lralloc_rs.Malloc.State.{Call}
use lralloc_rs.Malloc.Hooks.{fetch_loop}

bind-panicked :
    {A B : Type 0} (m : Outcome A) (k : A → Outcome B)
    → ((a : A) → k a ≡ panicked)
    → (m >>= k) ≡ panicked
bind-panicked (returned a) k h = h a
bind-panicked panicked k h = refl

-- If it returns, the result satisfies `P`.
data Ensures {A : Type 0} (P : A → Type 0) : Outcome A → Type 0 where
  kept : {a : A} → P a → Ensures P (returned a)
  stopped : Ensures P panicked

abbrev Any : {A : Type 0} → A → Type 0
Any a = Unit {0}

Ensures-Any : {A : Type 0} (m : Outcome A) → Ensures Any m
Ensures-Any (returned a) = kept tt
Ensures-Any panicked = stopped

Ensures-bind :
    {A B : Type 0} {P : A → Type 0} {Q : B → Type 0} {m : Outcome A} {k : A → Outcome B}
    → Ensures P m
    → ((a : A) → P a → Ensures Q (k a))
    → Ensures Q (m >>= k)
Ensures-bind (kept {a} p) next = next a p
Ensures-bind stopped next = stopped

ne_none : {A : Type 0} {m : Outcome (Option A)} → Ensures (λ o. o ≢ none) m → m ≢ returned none
ne_none (kept p) e = p (cc)
ne_none stopped e = cc

bind-eq :
    {A B : Type 0} {P : A → Type 0} {m : Outcome A} {k k' : A → Outcome B}
    → Ensures P m
    → ((a : A) → P a → k a ≡ k' a)
    → (m >>= k) ≡ (m >>= k')
bind-eq (kept {a} p) e = e a p
bind-eq stopped e = refl

-- A list of blocks can only go to an empty bin.
hand_out-panicked :
    (met : Bool) (desc : ℕ) (d : Descriptor) (n : ℕ) (cache : ThreadCacheBin) (w : World)
    → 0 < cache.block_num
    → hand_out met desc d n cache w ≡ panicked
unfolding hand_out push_list
hand_out-panicked met desc d n cache w h =
    bind-panicked (unwrap (d.super_block)) _ (λ s. rw (lt→ltb 0 (cache.block_num) h) refl)

new_sb-panicked :
    (met : Bool) (page : Option ℕ) (segment : Option Segment) (index : ℕ) (cache : ThreadCacheBin)
    (block_num number : ℕ) (w : World)
    → 0 < cache.block_num
    → malloc_count_from_new_sb met page segment index cache block_num number w ≡ panicked
unfolding malloc_count_from_new_sb
new_sb-panicked met page segment index cache block_num number w h =
    bind-panicked (get_heap_at_mut index w) _ (λ heap.
      bind-panicked (unwrap (get_elem? (w.classes) index)) _ (λ sc.
        bind-panicked (alloc page (w.store)) _ (λ r.
          rw
            (hand_out-panicked met (r.0) (own heap sc segment (r.1.descs r.0))
              (min (sc.block_num) number) cache (record w { store = r.1 }) h)
            refl)))

-- Where the bin holds blocks and fewer than the count were fetched, the next round of fetch panics.
pub fetch_loop-panicked :
    (call : Call) (fuel round index count : ℕ) (cache : ThreadCacheBin) (block_num : ℕ) (w : World)
    → 0 < cache.block_num
    → block_num < count
    → fetch_loop call (suc fuel) round index count cache block_num w ≡ panicked
unfolding fetch_loop
fetch_loop-panicked call fuel round index count cache block_num w h more =
    rw
      (
        lt→ltb block_num count more,
        new_sb-panicked (call.no_met_stack) (call.fetch_pages round) (call.fetch_segments round)
            index cache block_num count w h,
      )
      refl

push_list-pos :
    (cache : ThreadCacheBin) (block length : ℕ)
    → 0 < length
    → Ensures (λ c. 0 < c.block_num) (push_list cache block length)
unfolding push_list
push_list-pos cache block length pos = elim (Bool-cases (ltb 0 (cache.block_num))) [
  | inl full ↦ rw full stopped
  | inr room ↦ rw room (kept pos)
]

hand_out-pos :
    (met : Bool) (desc : ℕ) (d : Descriptor) (n : ℕ) (cache : ThreadCacheBin) (w : World)
    → 0 < n % u32_mod
    → Ensures (λ r. 0 < r.0.block_num) (hand_out met desc d n cache w)
unfolding hand_out
hand_out-pos met desc d n cache w pos = Ensures-bind (Ensures-Any (unwrap (d.super_block))) (λ s _.
    Ensures-bind (push_list-pos cache (s.ptr) (n % u32_mod) pos) (λ cache' long.
      Ensures-bind
        (Ensures-Any (
          register_desc desc (
            set_desc desc (record d { anchor = full_anchor n })
              (record w { memory = init_blocks met (s.ptr) (d.block_size) n (w.memory) }))))
        (λ w' _. kept long)))

-- A round that returns leaves blocks in the bin.
new_sb-pos :
    (met : Bool) (page : Option ℕ) (segment : Option Segment) (index : ℕ) (cache : ThreadCacheBin)
    (block_num number : ℕ) (w : World) (sc : SizeClassData)
    → get_elem? (w.classes) index ≡ some sc
    → 0 < min (sc.block_num) number % u32_mod
    → Ensures
        (λ r. 0 < r.0.block_num)
        (malloc_count_from_new_sb met page segment index cache block_num number w)
unfolding malloc_count_from_new_sb
new_sb-pos met page segment index cache block_num number w sc class pos =
    Ensures-bind (Ensures-Any (get_heap_at_mut index w)) (λ heap _. rw class (
      Ensures-bind (Ensures-Any (alloc page (w.store))) (λ r _.
        Ensures-bind
          (hand_out-pos met (r.0) (own heap sc segment (r.1.descs r.0)) (min (sc.block_num) number)
            cache (record w { store = r.1 }) pos)
          (λ out long. kept long))))

module _ (call : Call) (index count : ℕ) (w : World) (sc : SizeClassData)
    (class : get_elem? (w.classes) index ≡ some sc) (pos : 0 < sc.block_num)
    (small : sc.block_num < u32_mod) where
  first_round :
      (cache : ThreadCacheBin) (block_num : ℕ)
      → block_num < count
      → Ensures
          (λ r. 0 < r.0.block_num)
          (malloc_count_from_new_sb
            (call.no_met_stack)
            (call.fetch_pages 0)
            (call.fetch_segments 0)
            index
            cache
            block_num
            count
            w)
  first_round cache block_num more =
      new_sb-pos (call.no_met_stack) (call.fetch_pages 0) (call.fetch_segments 0) index cache
        block_num count w sc class (omega arith)

  stop :
      (cache : ThreadCacheBin) (block_num : ℕ) (w' : World)
      → 0 < cache.block_num
      → malloc_count_from_new_sb
          (call.no_met_stack)
          (call.fetch_pages (0 + 1))
          (call.fetch_segments (0 + 1))
          index
          cache
          block_num
          count
          w'
        ≡ panicked
  stop cache block_num w' long =
      new_sb-panicked (call.no_met_stack) (call.fetch_pages (0 + 1)) (call.fetch_segments (0 + 1))
        index cache block_num count w' long

  fetch_loop-more :
      (fuel : ℕ) (cache : ThreadCacheBin) (block_num : ℕ)
      → fetch_loop call (suc (suc fuel)) 0 index count cache block_num w
        ≡ fetch_loop call 2 0 index count cache block_num w
  unfolding fetch_loop
  fetch_loop-more fuel cache block_num = elim (Bool-cases (ltb block_num count)) [
    | inr done ↦ rw done refl
    | inl more ↦ rw more (
        bind-eq (first_round cache block_num (ltb→lt block_num count more)) (λ r long.
          elim (Bool-cases (ltb (r.1) count)) [
            | inr done ↦ rw done refl
            | inl again ↦ rw (again, stop (r.0) (r.1) (r.2) long) refl
          ]))
  ]

  fetch_loop-some :
      (cache : ThreadCacheBin) (block_num : ℕ)
      → Ensures (λ o. o ≢ none) (fetch_loop call 2 0 index count cache block_num w)
  unfolding fetch_loop
  fetch_loop-some cache block_num = elim (Bool-cases (ltb block_num count)) [
    | inr done ↦ rw done (kept (λ e. cc))
    | inl more ↦ rw more (
        Ensures-bind (first_round cache block_num (ltb→lt block_num count more)) (λ r long.
          elim (Bool-cases (ltb (r.1) count)) [
            | inr done ↦ rw done (kept (λ e. cc))
            | inl again ↦ rw (again, stop (r.0) (r.1) (r.2) long) stopped
          ]))
  ]

  -- For a class with blocks, fewer than 2 ^ 32, two rounds of the loop of fetch are enough: with
  -- two the fuel does not run out, and more fuel changes nothing.
  pub fetch_loop-Ends :
      (fuel : ℕ) (cache : ThreadCacheBin) (block_num : ℕ)
      → (fetch_loop call (suc (suc fuel)) 0 index count cache block_num w
          ≡ fetch_loop call 2 0 index count cache block_num w)
        × (fetch_loop call 2 0 index count cache block_num w ≢ returned none)
  fetch_loop-Ends fuel cache block_num =
      (fetch_loop-more fuel cache block_num, ne_none (fetch_loop-some cache block_num))
