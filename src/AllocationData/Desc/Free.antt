-- ===== src/AllocationData/Desc/Free.antt =====
-- The list of free descriptors as a stack of distinct addresses.
use lralloc_rs.Common.{
  has, ne_of_has, ℕ, ◌+◌, ◌≡◌, refl, false, true, Option, none, some, List, ◌∷◌, arith, ◌==◌,
  Returns, returns,
}
use lralloc_rs.AllocationData.Desc.{DescriptorNode, get_counter, Store, retire, next_head, alloc}
use lralloc_rs.AllocationData.Desc.Nodes.{
  IsPlace, node_fields, get_desc-null, target, Listed, Listed-frame, Listed-target, retag-target,
}

-- AVAILABLE_DESC leads through the free descriptors `xs`, in order.
abbrev pub IsFree : Store → List ℕ → Type 0
IsFree s xs = Listed (λ d. (s.descs d).next_free) (some s.available) xs

-- Retiring a descriptor on a cache line that is not free puts it in front of the free list, keeps
-- the list, and clears the block size.
pub retire-IsFree :
    (d : ℕ) (s : Store) (xs : List ℕ)
    → IsPlace d
    → has d xs ≡ false
    → IsFree s xs
    → IsFree (retire d s) (d ∷ xs) × (((retire d s).descs d).block_size ≡ 0)
unfolding retire
retire-IsFree d s xs p out free =
    let self : (d == d) ≡ true = ground arith in
    rw self (
      (
        (node_fields d (get_counter s.available + 1) p).0,
        p,
        out,
        Listed-frame (λ x. (s.descs x).next_free) _ (some s.available) xs
            (λ x h. rw (ne_of_has x d xs h out)) free,
      ),
      refl,
    )

next_head-target :
    (old : DescriptorNode) (next : ℕ → Option DescriptorNode) (o : Option DescriptorNode)
    (xs : List ℕ)
    → Listed next o xs
    → target (some (next_head old o)) ≡ target o
unfolding next_head
next_head-target old next none xs l = get_desc-null
next_head-target old next (some node) xs l = retag-target next node (get_counter old) xs l

-- With a free descriptor, alloc returns the first one, which is then not free, keeps the rest of
-- the list, and changes no descriptor.
pub alloc-IsFree :
    (pages : Option ℕ) (s : Store) (d : ℕ) (xs : List ℕ)
    → IsFree s (d ∷ xs)
    → Returns
        (λ r. (r.0 ≡ d) × IsFree r.1 xs × (has d xs ≡ false) × (r.1.descs ≡ s.descs))
        (alloc pages s)
unfolding alloc
alloc-IsFree pages s d xs free =
    rw (alloc, free.0)
      (returns (
        refl,
        Listed-target (λ x. (s.descs x).next_free) (s.descs d).next_free _ xs
            (next_head-target s.available (λ x. (s.descs x).next_free) (s.descs d).next_free xs
              free.3)
            free.3,
        free.2,
        refl,
      ))
