-- ===== src/Alloc/Taking.antt =====
-- What `malloc_from_partial` of src/alloc.rs makes of a partial list.
use lralloc_rs.Common.{
  ◌%◌, ◌^◌, ◌++◌, leb, All, has, ne_of_has, ℕ, zero, suc, ◌+◌, ◌*◌, ◌≤◌, ◌<◌, ◌≡◌, refl, false,
  true, some, List, [], ◌∷◌, arith, ◌==◌, length, ltb, lt→ltb, Returns, returns, returned, le→leb,
  ◌∙◌, sym,
}
use lralloc_rs.AllocationData.Desc.{Descriptor, Segment, retire}
use lralloc_rs.AllocationData.Desc.Nodes.{Listed-frame}
use lralloc_rs.AllocationData.Desc.Free.{IsFree, retire-IsFree}
use mathlib.Core.Path.{subst}
use lralloc_rs.MemInfo.{max_sz_idx}
use lralloc_rs.AllocationData.{state, empty, partial, full, avail}
use lralloc_rs.AllocationData.Anchor.{Fields, set_state-Fields, set_avail-Fields, set_count-Fields}
use lralloc_rs.ThreadCache.{ThreadCacheBin, push_list}
use lralloc_rs.Alloc.{
  World, take_all, taken_anchor, heap_size, get_heap_at_mut, malloc_from_partial, set_partial_list,
}
use lralloc_rs.Alloc.Partial.{Partial-frame, IsPartial, list_pop_partial-IsPartial, update_kept}

-- The state of an anchor is EMPTY.
abbrev pub IsEmpty : ℕ → World → Type 0
IsEmpty d w = state ((w.store.descs d).anchor) ≡ returned empty

-- How a round of `malloc_from_partial` that retires an empty descriptor goes on.
record Skipped (heap index fuel e : ℕ) (c : ThreadCacheBin) (b : ℕ) (w : World) (ds : List ℕ)
    : Type 0 where
  pub after : World
  pub goes_on :
      malloc_from_partial (suc fuel) index c b w ≡ malloc_from_partial fuel index c b after
  pub listed : IsPartial heap after ds
  pub anchors : (x : ℕ) → (after.store.descs x).anchor ≡ (w.store.descs x).anchor
  pub others : (x : ℕ) → (x == e) ≡ false → after.store.descs x ≡ w.store.descs x
  pub base : after.heaps_at ≡ w.heaps_at
  pub store : after.store ≡ retire e (w.store)

skip_empty :
    (index fuel e : ℕ) (c : ThreadCacheBin) (b : ℕ) (w : World) (ds : List ℕ)
    → index < max_sz_idx
    → IsEmpty e w
    → IsPartial (w.heaps_at + index * heap_size) w (e ∷ ds)
    → Skipped (w.heaps_at + index * heap_size) index fuel e c b w ds
unfolding malloc_from_partial get_heap_at_mut retire
skip_empty index fuel e c b w ds inside gone l =
    let heap = w.heaps_at + index * heap_size in
    let ok : ltb index max_sz_idx ≡ true = lt→ltb index max_sz_idx inside in
    let self : (heap == heap) ≡ true = ground arith in
    let (o, ran, rest, out) = list_pop_partial-IsPartial heap e w ds l in
    record {
      after = record (set_partial_list heap o w) { store = retire e (w.store) };
      goes_on = rw (ok, ran, gone) refl;
      listed =
          Partial-frame (λ x. (w.store.descs x).next_partial) _ _ ds
            (λ x h. update_kept (λ v. v.next_partial) e x _ (w.store.descs) refl) rest;
      anchors = λ x. update_kept (λ v. v.anchor) e x _ (w.store.descs) refl;
      others = λ x ne. rw ne refl;
      base = refl;
      store = refl;
    }

-- A descriptor in a partial list: `n` blocks of its super block are free, block `v` the first.
pub record IsUsed (d : Descriptor) (seg : Segment) (v n : ℕ) : Type 0 where
  pub fields : Fields (d.anchor) partial v n
  pub inside : v ≤ d.max_count
  pub mapped : d.super_block ≡ some seg

-- What `malloc_from_partial` makes of the descriptor `d`, which is `v`: the bin gets all free blocks, the anchor
-- says that none is left, the list is shortened to `xs`, and the free descriptors are `fs`.
pub record Takes (heap d : ℕ) (old : Descriptor) (seg : Segment) (v n : ℕ) (c : ThreadCacheBin)
    (b : ℕ) (xs fs : List ℕ) (r : ThreadCacheBin × ℕ × World) : Type 0 where
  pub block : r.0.block ≡ seg.ptr + v * old.block_size
  pub number : r.0.block_num ≡ n
  pub kept : r.0.block_size ≡ c.block_size
  pub counted : r.1 ≡ b + 1
  pub left : IsPartial heap r.2 xs
  pub anchor : Fields ((r.2.store.descs d).anchor) full (old.max_count % 2 ^ 30) 0
  pub free : IsFree r.2.store fs

taken_anchor-Fields :
    (m a v n : ℕ) → Fields a partial v n → Fields (taken_anchor m a) full (m % 2 ^ 30) 0
unfolding taken_anchor
taken_anchor-Fields m a v n f = set_state-Fields (set_avail-Fields (set_count-Fields f 0) m) full

take_all-Takes :
    (heap d : ℕ) (seg : Segment) (v n : ℕ) (c : ThreadCacheBin) (b : ℕ) (w : World) (xs fs : List ℕ)
    → IsUsed (w.store.descs d) seg v n
    → c.block_num ≡ 0
    → IsPartial heap w xs
    → IsFree (w.store) fs
    → Returns (Takes heap d (w.store.descs d) seg v n c b xs fs) (take_all d c b w)
unfolding take_all push_list
take_all-Takes heap d seg v n c b w xs fs u none_left l free =
    let self : (d == d) ≡ true = ground arith in
    let old = w.store.descs d in
    let fits : leb (avail (old.anchor)) (old.max_count) ≡ true =
      le→leb _ _ (rw (u.fields.avail_is) (u.inside)) in
    rw (u.mapped, fits, none_left)
      (returns (record {
        block = rw (u.fields.avail_is) refl;
        number = u.fields.count_is;
        kept = refl;
        counted = refl;
        left =
            Partial-frame (λ x. (w.store.descs x).next_partial) _ _ xs
              (λ x h. update_kept (λ t. t.next_partial) d x _ (w.store.descs) refl) l;
        anchor = rw self (taken_anchor-Fields (old.max_count) (old.anchor) v n (u.fields));
        free =
            Listed-frame (λ x. (w.store.descs x).next_free) _ _ fs
              (λ x h. update_kept (λ t. t.next_free) d x _ (w.store.descs) refl) free;
      }))

has-middle : (d : ℕ) (es xs : List ℕ) → has d (es ++ d ∷ xs) ≡ true
has-middle d [] xs = ground arith
has-middle d (e ∷ es) xs = ground (arith, has-middle d es xs)

All-IsEmpty :
    (es : List ℕ) (w w' : World)
    → ((x : ℕ) → (w'.store.descs x).anchor ≡ (w.store.descs x).anchor)
    → All (λ e. IsEmpty e w) es
    → All (λ e. IsEmpty e w') es
All-IsEmpty [] w w' same h = tt
All-IsEmpty (e ∷ es) w w' same h = (rw (same e) h.0, All-IsEmpty es w w' same h.1)

-- Descriptors in front of a list, each put there in turn.
abbrev pub onto : List ℕ → List ℕ → List ℕ
onto [] fs = fs
onto (e ∷ es) fs = onto es (e ∷ fs)

-- Descriptors that are neither free nor `e` are not free when `e` is.
All-unfree :
    (e : ℕ) (es ds fs : List ℕ)
    → has e (es ++ ds) ≡ false
    → All (λ x. has x fs ≡ false) es
    → All (λ x. has x (e ∷ fs) ≡ false) es
All-unfree e [] ds fs out h = tt
All-unfree e (x ∷ es) ds fs out h =
    (ground (arith, out, h.0), All-unfree e es ds fs (ground (arith, out)) h.1)

-- With fuel for the empty descriptors in front of the partial list, none of them free,
-- malloc_from_partial puts them in front of the list of free descriptors, the last one first, and
-- gives the counted free blocks of the first used descriptor to an empty bin; the anchor then says
-- that none is left, and the partial list goes on behind that descriptor.
pub malloc_from_partial-Takes :
    (index d : ℕ) (old : Descriptor) (seg : Segment) (v n : ℕ) (c : ThreadCacheBin) (b : ℕ)
    (es xs fs : List ℕ) (fuel : ℕ) (w : World)
    → index < max_sz_idx
    → length es < fuel
    → All (λ e. IsEmpty e w) es
    → IsPartial (w.heaps_at + index * heap_size) w (es ++ d ∷ xs)
    → w.store.descs d ≡ old
    → IsUsed old seg v n
    → c.block_num ≡ 0
    → IsFree (w.store) fs
    → All (λ e. has e fs ≡ false) es
    → Returns
        (Takes (w.heaps_at + index * heap_size) d old seg v n c b xs (onto es fs))
        (malloc_from_partial fuel index c b w)
unfolding malloc_from_partial get_heap_at_mut
malloc_from_partial-Takes index d old seg v n c b es xs fs zero w inside more gone l same u
      none_left free unfree =
    absurd (omega arith)
malloc_from_partial-Takes index d old seg v n c b [] xs fs (suc fuel) w inside more gone l same u
      none_left free unfree =
    let heap = w.heaps_at + index * heap_size in
    let ok : ltb index max_sz_idx ≡ true = lt→ltb index max_sz_idx inside in
    let (o, ran, rest, out) = list_pop_partial-IsPartial heap d w xs l in
    let used : state ((w.store.descs d).anchor) ≡ returned partial = rw same (u.fields.state_is) in
    let taken =
      take_all-Takes heap d seg v n c b (set_partial_list heap o w) xs fs (rw same u) none_left rest
        free in
    rw (ok, ran, used)
      (subst
        (λ t.
          Returns (Takes heap d t seg v n c b xs fs) (take_all d c b (set_partial_list heap o w)))
        same taken)
malloc_from_partial-Takes index d old seg v n c b (e ∷ es) xs fs (suc fuel) w inside more gone l
      same u none_left free unfree =
    let s = skip_empty index fuel e c b w (es ++ d ∷ xs) inside (gone.0) l in
    let base = s.base in
    let retired = (retire-IsFree e (w.store) fs (l.1) (unfree.0) free).0 in
    rw s.goes_on (
      subst
        (λ t.
          Returns (Takes (t + index * heap_size) d old seg v n c b xs (onto es (e ∷ fs)))
            (malloc_from_partial fuel index c b (s.after)))
        base
        (malloc_from_partial-Takes index d old seg v n c b es xs (e ∷ fs) fuel (s.after) inside
          (omega arith) (All-IsEmpty es w (s.after) (s.anchors) (gone.1)) (rw base (s.listed))
          (s.others d (ne_of_has d e (es ++ d ∷ xs) (has-middle d es xs) (l.2)) ∙ same) u none_left
          (subst (λ t. IsFree t (e ∷ fs)) (sym (s.store)) retired)
          (All-unfree e es (d ∷ xs) fs (l.2) (unfree.1))))
