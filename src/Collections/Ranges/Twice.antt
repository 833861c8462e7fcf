-- ===== src/Collections/Ranges/Twice.antt =====
-- What a lookup in a tree of ranges returns after the first and after the second insertion.
use lralloc_rs.Common.{
  ℕ, zero, suc, ◌-◌, ◌<◌, ◌≡◌, ◌≢◌, refl, ap, ◌∙◌, true, false, none, some, ltb, ◌==◌,
  if◌then◌else◌, arith, Bool-cases, inl, inr,
}
use lralloc_rs.PageMap.{PageInfo}
use lralloc_rs.Collections.Ranges.{
  info, children, Node, PageRangeMapping, node_at, contains, create_parent_node, child_for,
  own_info, find_info, get_page_info, write_node, insert_node, descend, round,
}

-- The first insertion makes the node the head, and a lookup returns its information in its range.
pub insert_node-First :
    (fuel n node address : ℕ) (i : PageInfo) (m : PageRangeMapping)
    → m.head ≡ 0
    → 0 < node
    → (node_at m node).inner ≡ info i
    → (insert_node fuel node m ≡ some (record m { head = node }))
      × (get_page_info (suc n) (record m { head = node }) address
          ≡ some (if contains address (node_at m node) then some i else none))
unfolding insert_node get_page_info find_info child_for
insert_node-First fuel n node address i m empty pos leaf =
    let none_yet : (m.head == 0) ≡ true = ground (arith, empty) in
    let placed : (node == 0) ≡ false = ground arith in
    (
      rw none_yet refl,
      elim (Bool-cases (contains address (node_at m node))) [
        | inl inside ↦ rw (placed, inside, leaf) (ap (λ x. some (own_info x)) leaf)
        | inr outside ↦ rw (placed, outside) refl
      ],
    )

child_for-less :
    (m : PageRangeMapping) (address less more : ℕ)
    → contains address (node_at m less) ≡ true
    → child_for m address (children less more) ≡ some less
unfolding child_for
child_for-less m address less more h = rw h refl

child_for-more :
    (m : PageRangeMapping) (address less more : ℕ)
    → contains address (node_at m less) ≡ false
    → contains address (node_at m more) ≡ true
    → child_for m address (children less more) ≡ some more
unfolding child_for
child_for-more m address less more h k = rw (h, k) refl

-- the children of a new parent
parent_inner :
    (m : PageRangeMapping) (ptr other : ℕ)
    → (create_parent_node m ptr other).inner ≡ (
        if ltb ((node_at m ptr).end) ((node_at m other).start)
        then children ptr other
        else children other ptr)
unfolding create_parent_node
parent_inner m ptr other = refl

module _ (m : PageRangeMapping) (node address : ℕ)
    (inside : contains address (node_at m (m.head)) ≡ true)
    (outside : contains address (node_at m node) ≡ false)
    (apart : (node - 1 == m.head - 1) ≡ false) where
  -- the head after the second insertion
  abbrev combined : Node
  combined = create_parent_node m node (m.head)

  abbrev inserted : PageRangeMapping
  inserted = write_node (m.head) combined m

  combined-contains : contains address combined ≡ true
  unfolding create_parent_node
  combined-contains = ground (arith, inside)

  head_again : node_at inserted (m.head) ≡ combined
  unfolding write_node
  head_again = let here : (m.head - 1 == m.head - 1) ≡ true = ground arith in rw here refl

  node_again : node_at inserted node ≡ node_at m node
  unfolding write_node
  node_again = rw apart refl

  -- The head is its own child.
  child_again : child_for inserted address (combined.inner) ≡ some (m.head)
  child_again =
      let stays = ap (contains address) node_again ∙ outside in
      let grown = ap (contains address) head_again ∙ combined-contains in
      ap (child_for inserted address) (parent_inner m node (m.head))
      ∙ elim (Bool-cases (ltb ((node_at m node).end) ((node_at m (m.head)).start))) [
        | inl before ↦ rw before (child_for-more inserted address node (m.head) stays grown)
        | inr behind ↦ rw behind (child_for-less inserted address (m.head) node grown)
      ]

  never : (n : ℕ) → find_info n inserted address (m.head) ≡ none
  unfolding find_info
  never zero = refl
  never (suc n) = rw (head_again, combined-contains, child_again) (never n)

descend-leaf :
    (fuel ptr : ℕ) (main : Node) (i : PageInfo) (m : PageRangeMapping)
    → (node_at m ptr).inner ≡ info i
    → descend (suc fuel) m main ptr ≡ some ptr
unfolding descend round
descend-leaf fuel ptr main i m leaf = rw (descend, leaf) refl

-- Inserting a node into a tree that is one node without children returns, and then no lookup of an
-- address in the range of the first node and outside that of the second ends, however much fuel it
-- has.
pub insert_node-Second :
    (fuel node address : ℕ) (i : PageInfo) (m : PageRangeMapping)
    → m.head ≢ 0
    → (node_at m (m.head)).inner ≡ info i
    → (node - 1 == m.head - 1) ≡ false
    → contains address (node_at m (m.head)) ≡ true
    → contains address (node_at m node) ≡ false
    → (m' : PageRangeMapping) × (insert_node (suc fuel) node m ≡ some m')
      × ((n : ℕ) → get_page_info n m' address ≡ none)
unfolding insert_node get_page_info
insert_node-Second fuel node address i m some_head leaf apart inside outside =
    let placed : (m.head == 0) ≡ false = ground arith in
    (
      inserted m node address inside outside apart,
      rw (placed, descend-leaf fuel (m.head) (node_at m node) i m leaf) refl,
      λ n. rw placed (never m node address inside outside apart n),
    )
