-- ===== src/AllocationData/Desc/Block.antt =====
-- A fresh descriptor block: the first descriptor is handed out, the others become the free list.
use lralloc_rs.Common.{
  has, ℕ, zero, suc, ◌+◌, ◌*◌, ◌%◌, ◌<◌, ◌≤◌, ◌≡◌, refl, sym, ap, ◌∙◌, true, false, Option, none,
  some, List, [], ◌∷◌, arith, ◌==◌, ◌⊎◌, inl, update, Returns, returns, panicked,
}
use lralloc_rs.MemInfo.{word, page, descriptor_block_sz}
use lralloc_rs.AllocationData.Desc.{
  DescriptorNode, set, Descriptor, default_descriptor, descriptor_size, Store, init_block,
  link_block, set_next_free, alloc_block, alloc,
}
use lralloc_rs.AllocationData.Desc.Nodes.{
  IsPlace, node_fields, get_desc-place, target, Listed, Listed-target,
}
use lralloc_rs.AllocationData.Desc.Free.{IsFree}

-- `n` places in a row from `at` on.
pub places : ℕ → ℕ → List ℕ
places zero at = []
places (suc n) at = at ∷ places n (at + descriptor_size)

-- The address lies before or behind `n` places from `at` on.
abbrev pub Outside : ℕ → ℕ → ℕ → Type 0
Outside n at x = (x < at) ⊎ (at + n * descriptor_size ≤ x)

places_above : (n at x : ℕ) → x < at → has x (places n at) ≡ false
unfolding places
places_above zero at x h = refl
places_above (suc n) at x h = ground (arith, places_above n (at + descriptor_size) x)

link_block-Outside :
    (rounds prev : ℕ) (descs : ℕ → Descriptor) (x : ℕ)
    → Outside (suc rounds) prev x
    → link_block rounds prev descs x ≡ descs x
unfolding link_block
link_block-Outside zero prev descs x h = ground arith
link_block-Outside (suc rounds) prev descs x h = ground (
  arith,
  link_block-Outside rounds (prev + descriptor_size)
      (set_next_free prev (some (prev + descriptor_size)) descs) x,
)

init_block-Outside :
    (n at : ℕ) (descs : ℕ → Descriptor) (x : ℕ) → Outside n at x → init_block n at descs x ≡ descs x
unfolding init_block
init_block-Outside zero at descs x h = refl
init_block-Outside (suc n) at descs x h =
    ground
      (arith, init_block-Outside n (at + descriptor_size) (update descs at default_descriptor) x)

link_block-Listed :
    (rounds prev : ℕ) (descs : ℕ → Descriptor)
    → prev % 64 ≡ 0
    → 0 < prev
    → prev + suc rounds * descriptor_size ≤ word
    → Listed
        (λ x. (link_block rounds prev descs x).next_free)
        (some prev)
        (places (suc rounds) prev)
unfolding link_block places
link_block-Listed zero prev descs aligned pos fits =
    let p : IsPlace prev = record { aligned = aligned; ne_null = pos; small = omega arith } in
    let self : (prev == prev) ≡ true = ground arith in
    (get_desc-place prev p, p, refl, rw self refl)
link_block-Listed (suc rounds) prev descs aligned pos fits =
    let p : IsPlace prev = record { aligned = aligned; ne_null = pos; small = omega arith } in
    let self : (prev == prev) ≡ true = ground arith in
    let second = prev + descriptor_size in
    let descs' = set_next_free prev (some second) descs in
    let rest = link_block-Listed rounds second descs' (omega arith) (omega arith) (omega arith) in
    let link : (link_block rounds second descs' prev).next_free ≡ some second =
      rw (link_block-Outside rounds second descs' prev (inl (omega arith)), self) refl in
    let next : ℕ → Option DescriptorNode = λ x. (link_block rounds second descs' x).next_free in
    (
      get_desc-place prev p,
      p,
      places_above (suc rounds) second prev (omega arith),
      Listed-target next (some second) (next prev) (places (suc rounds) second) (ap target link)
          rest,
    )

-- What `alloc` makes of a page when no descriptor is free: it returns the page's first descriptor,
-- a default one, the other 511 are the free list in the order of their addresses, and no
-- descriptor outside of the page changes.
pub record IsFresh (p : ℕ) (s : Store) (r : ℕ × Store) : Type 0 where
  pub first : r.0 ≡ p
  pub default : r.1.descs p ≡ default_descriptor
  pub free : IsFree r.1 (places 511 (p + descriptor_size))
  pub kept : (x : ℕ) → Outside 512 p x → r.1.descs x ≡ s.descs x

init_block-first :
    (n p : ℕ) (descs : ℕ → Descriptor) → init_block (suc n) p descs p ≡ default_descriptor
unfolding init_block
init_block-first n p descs =
    let self : (p == p) ≡ true = ground arith in
    init_block-Outside n (p + descriptor_size) (update descs p default_descriptor) p
      (inl (omega arith))
    ∙ rw self refl

-- With no free descriptor and a page that is aligned and ends in the address space, alloc returns
-- the first descriptor of the page, a default one, makes the other 511 the free list in the order
-- of their addresses, and changes no descriptor outside of the page.
pub alloc-IsFresh :
    (p : ℕ) (s : Store)
    → p % page ≡ 0
    → 0 < p
    → p + descriptor_block_sz ≤ word
    → IsFree s []
    → Returns (IsFresh p s) (alloc (some p) s)
unfolding alloc alloc_block
alloc-IsFresh p s aligned pos fits empty =
    let first = p + descriptor_size in
    let at : IsPlace first = record {
      aligned = omega arith;
      ne_null = omega arith;
      small = omega arith;
    } in
    let descs = init_block 512 p s.descs in
    let next : ℕ → Option DescriptorNode = λ x. (link_block 510 first descs x).next_free in
    rw (alloc, empty)
      (returns (record {
        first = refl;
        default =
            link_block-Outside 510 first descs p (inl (omega arith))
            ∙ init_block-first 511 p s.descs;
        free =
            Listed-target next (some first) (some (set (some first) 0)) (places 511 first)
              ((node_fields first 0 at).0 ∙ sym (get_desc-place first at))
              (link_block-Listed 510 first descs (omega arith) (omega arith) (omega arith));
        kept = λ x out.
            link_block-Outside 510 first descs x (ground arith)
            ∙ init_block-Outside 512 p s.descs x out;
      }))

-- Without a page `alloc` panics.
pub alloc_no_page : (s : Store) → IsFree s [] → alloc none s ≡ panicked
unfolding alloc alloc_block
alloc_no_page s empty = rw (alloc, empty) refl
