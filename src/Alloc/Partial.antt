-- ===== src/Alloc/Partial.antt =====
-- The partial lists of the heaps: pushes and pops.
use lralloc_rs.Common.{
  has, ne_of_has, ℕ, ◌≡◌, refl, false, true, Option, none, some, List, [], ◌∷◌, arith, ◌==◌, update,
  result, ==_iff, Returns, returns, returned, Bool-cases, inl, inr, ap, ◌∙◌, sym,
}
use lralloc_rs.AllocationData.Desc.{DescriptorNode, set, get_desc, get_counter, Descriptor}
use lralloc_rs.AllocationData.Desc.Nodes.{IsPlace, node_fields}
use lralloc_rs.Alloc.{
  World, tail_node, next_counter, list_pop_partial, list_push_partial, set_partial_list,
}

-- From the link `o` the links `next` lead through the distinct places `xs` to an absent link.
abbrev pub Partial : (ℕ → Option DescriptorNode) → Option DescriptorNode → List ℕ → Type 0
Partial next o [] = o ≡ none
Partial next o (d ∷ xs) =
    ((node : DescriptorNode) × (o ≡ some node) × (get_desc node ≡ some d))
    × IsPlace d
    × (has d xs ≡ false)
    × Partial next (next d) xs

pub Partial-frame :
    (next next' : ℕ → Option DescriptorNode) (o : Option DescriptorNode) (xs : List ℕ)
    → ((d : ℕ) → has d xs ≡ true → next' d ≡ next d)
    → Partial next o xs
    → Partial next' o xs
Partial-frame next next' o [] same l = l
Partial-frame next next' o (d ∷ xs) same l = (
  l.0,
  l.1,
  l.2,
  rw (same d (ground arith))
      (Partial-frame next next' (next d) xs (λ x h. same x (ground arith)) l.3),
)

-- The heap at an address has the descriptors `xs` in its partial list.
abbrev pub IsPartial : ℕ → World → List ℕ → Type 0
IsPartial heap w xs = Partial (λ d. (w.store.descs d).next_partial) (w.heaps heap).partial_list xs

-- Pushing a descriptor that the list does not hold puts it in front of the partial list of its heap
-- and keeps the rest.
pub list_push_partial-IsPartial :
    (d : ℕ) (w : World) (xs : List ℕ)
    → IsPlace d
    → has d xs ≡ false
    → IsPartial (w.store.descs d).proc_heap w xs
    → IsPartial (w.store.descs d).proc_heap (list_push_partial d w) (d ∷ xs)
unfolding list_push_partial
list_push_partial-IsPartial d w xs p out l =
    let heap = (w.store.descs d).proc_heap in
    let self : (heap == heap) ≡ true = ground arith in
    let here : (d == d) ≡ true = ground arith in
    let old = (w.heaps heap).partial_list in
    rw (self, here)
      (
        (set (some d) (next_counter old), refl, (node_fields d (next_counter old) p).0),
        p,
        out,
        Partial-frame (λ x. (w.store.descs x).next_partial) _ old xs
            (λ x h. rw (ne_of_has x d xs h out)) l,
      )

tail_node-Partial :
    (next : ℕ → Option DescriptorNode) (o : Option DescriptorNode) (xs : List ℕ)
    → Partial next o xs
    → Returns (λ o'. Partial next o' xs) (tail_node o)
unfolding tail_node
tail_node-Partial next none [] l = returns l
tail_node-Partial next (some node) [] l = absurd cc
tail_node-Partial next none (d ∷ xs) l = absurd (let e = l.0.1 in cc)
tail_node-Partial next (some node) (d ∷ xs) l =
    let e : get_desc node ≡ some d = let e1 = l.0.1 in let e2 = l.0.2 in cc in
    rw e (
      returns (
        (set (some d) (get_counter node), refl, (node_fields d (get_counter node) l.1).0),
        l.1,
        l.2,
        l.3,
      ))

-- Popping from a partial list that is not empty returns the first descriptor, leaves the rest as
-- the list, and changes nothing but the head of the list.
pub list_pop_partial-IsPartial :
    (heap d : ℕ) (w : World) (xs : List ℕ)
    → IsPartial heap w (d ∷ xs)
    → (o : Option DescriptorNode) × (list_pop_partial heap w
        ≡ returned (some d, set_partial_list heap o w))
      × IsPartial heap (set_partial_list heap o w) xs
      × (has d xs ≡ false)
unfolding list_pop_partial
list_pop_partial-IsPartial heap d w xs l =
    let self : (heap == heap) ≡ true = ground arith in
    let (o, ran, rest) =
      result (tail_node-Partial (λ x. (w.store.descs x).next_partial) _ xs l.3) in
    (o, rw (list_pop_partial, l.0.1, l.0.2, ran) refl, rw self rest, l.2)

-- A projection that a write to `d` keeps is kept at every descriptor.
pub update_kept {ℓ} :
    {A : Type ℓ} (f : Descriptor → A) (d x : ℕ) (v : Descriptor) (descs : ℕ → Descriptor)
    → f v ≡ f (descs d)
    → f (update descs d v x) ≡ f (descs x)
update_kept f d x v descs same = elim (Bool-cases (x == d)) [
  | inl here ↦ rw here (same ∙ sym (ap (λ (t : ℕ). f (descs t)) ((==_iff x d).0 here)))
  | inr other ↦ rw other refl
]
