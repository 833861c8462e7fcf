-- ===== src/AllocationData/Desc/Nodes.antt =====
-- Tagged pointers: the address and the counter of a node, and lists of descriptors that nodes link.
use lralloc_rs.Common.{
  has, ℕ, ◌+◌, ◌*◌, ◌/◌, ◌%◌, ◌^◌, ◌<◌, ◌≡◌, refl, sym, ap, ◌∙◌, false, true, Option, none, some,
  List, [], ◌∷◌, arith, bit_or, bit_and, bit_or_fields, bit_and_mask, bit_and_high,
}
use lralloc_rs.MemInfo.{word, not64, cache_line_mask}
use lralloc_rs.AllocationData.Desc.{DescriptorNode, null_node, set, get_desc, get_counter}

-- Where a descriptor can stand: on a cache line, not at null.
pub record IsPlace (d : ℕ) : Type 0 where
  pub aligned : d % 64 ≡ 0
  pub ne_null : 0 < d
  pub small : d < word

set_as_sum : (d c : ℕ) → IsPlace d → set (some d) c ≡ d + c % 64
unfolding set
set_as_sum d c p =
    let e : d ≡ d / 64 * 2 ^ 6 = omega (arith, p.aligned) in
    rw (bit_and_mask 6 c) (
      ap (λ (t : ℕ). bit_or t (c % 2 ^ 6)) e
      ∙ bit_or_fields 6 (d / 64) (c % 64) (omega arith)
      ∙ omega (arith, e))

-- The address of a node that is made of a place and a tag.
untag : (d r : ℕ) → IsPlace d → r < 64 → get_desc (d + r) ≡ some d
unfolding get_desc
untag d r p h =
    let e : d ≡ d / 64 * 2 ^ 6 = omega (arith, p.aligned) in
    let cleared : bit_and (d + r) (not64 cache_line_mask) ≡ d =
      ap (λ (t : ℕ). bit_and (t + r) (not64 cache_line_mask)) e
      ∙ bit_and_high 6 58 (d / 64) r h (omega (arith, p.small))
      ∙ sym e in
    rw cleared (ground (arith, p.ne_null))

-- For an address on a cache line, not null, the address of a tagged pointer can be read back, and
-- its counter modulo 64.
pub node_fields :
    (d c : ℕ)
    → IsPlace d
    → (get_desc (set (some d) c) ≡ some d) × (get_counter (set (some d) c) ≡ c % 64)
unfolding get_counter
node_fields d c p = (
  rw (set_as_sum d c p) (untag d (c % 64) p (omega arith)),
  rw (set_as_sum d c p, bit_and_mask 6 (d + c % 64)) (omega (arith, p.aligned)),
)

pub get_desc-place : (d : ℕ) → IsPlace d → get_desc d ≡ some d
get_desc-place d p =
    let e : d + 0 ≡ d = omega arith in ap get_desc (sym e) ∙ untag d 0 p (omega arith)

pub get_desc-null : get_desc null_node ≡ none
unfolding get_desc
get_desc-null = refl

pub get_desc-set-none : (c : ℕ) → get_desc (set none c) ≡ none
unfolding set
get_desc-set-none c = get_desc-null

-- The descriptor that a link leads to.
abbrev pub target : Option DescriptorNode → Option ℕ
target none = none
target (some node) = get_desc node

-- From the link `o` the links `next` lead through the distinct places `xs` and then nowhere.
abbrev pub Listed : (ℕ → Option DescriptorNode) → Option DescriptorNode → List ℕ → Type 0
Listed next o [] = target o ≡ none
Listed next o (d ∷ xs) =
    (target o ≡ some d) × IsPlace d × (has d xs ≡ false) × Listed next (next d) xs

-- A list survives a change of the links of other descriptors.
pub Listed-frame :
    (next next' : ℕ → Option DescriptorNode) (o : Option DescriptorNode) (xs : List ℕ)
    → ((d : ℕ) → has d xs ≡ true → next' d ≡ next d)
    → Listed next o xs
    → Listed next' o xs
Listed-frame next next' o [] same l = l
Listed-frame next next' o (d ∷ xs) same l = (
  l.0,
  l.1,
  l.2,
  rw (same d (ground arith))
      (Listed-frame next next' (next d) xs (λ x h. same x (ground arith)) l.3),
)

-- Only the descriptor that the first link leads to matters.
pub Listed-target :
    (next : ℕ → Option DescriptorNode) (o o' : Option DescriptorNode) (xs : List ℕ)
    → target o' ≡ target o
    → Listed next o xs
    → Listed next o' xs
Listed-target next o o' [] e l = e ∙ l
Listed-target next o o' (d ∷ xs) e l = (e ∙ l.0, l.1, l.2, l.3)

-- Tagging the address of a link anew leaves its target, in a list.
pub retag-target :
    (next : ℕ → Option DescriptorNode) (node c : ℕ) (xs : List ℕ)
    → Listed next (some node) xs
    → get_desc (set (get_desc node) c) ≡ get_desc node
retag-target next node c [] l = rw (l, get_desc-set-none c)
retag-target next node c (d ∷ xs) l = rw (l.0, (node_fields d c l.1).0)
