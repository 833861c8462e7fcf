-- ===== src/AllocationData/Desc.antt =====
-- src/allocation_data/desc.rs: descriptors of super blocks, tagged pointers to them, and the list of
-- free descriptors behind AVAILABLE_DESC. A pointer is its address, null is 0. The descriptors stand
-- in a store from addresses; AVAILABLE_DESC is locked around each operation, so an operation is one
-- step. The bytes of a descriptor block come from `page_alloc`, whose answer is an argument.
pub mod Nodes
pub mod Free
pub mod Block
use lralloc_rs.Common.{
  ℕ, zero, suc, ◌+◌, ◌-◌, ◌*◌, ◌/◌, bit_and, bit_or, Option, none, some, ◌==◌, if◌then◌else◌,
  update, Outcome, returned, panicked,
}
use lralloc_rs.MemInfo.{not64, cache_line_mask, descriptor_block_sz}
use lralloc_rs.AllocationData.{default_anchor}

-- `Segment` of src/pages/external_mem_reservation.rs
pub record Segment : Type 0 where
  pub ptr : ℕ
  pub length : ℕ

-- `DescriptorNode`: an address with a counter in the six low bits
abbrev pub DescriptorNode : Type 0
DescriptorNode = ℕ

-- `DescriptorNode::new()` and `default()`
abbrev pub null_node : DescriptorNode
null_node = 0

-- `DescriptorNode::set`
unfoldable pub set : Option ℕ → ℕ → DescriptorNode
set none count = null_node
set (some desc) count = bit_or desc (bit_and count cache_line_mask)

unfoldable pub get_desc : DescriptorNode → Option ℕ
get_desc node =
    let fixed = bit_and node (not64 cache_line_mask) in if fixed == 0 then none else some fixed

unfoldable pub get_counter : DescriptorNode → ℕ
get_counter node = bit_and node cache_line_mask

pub record Descriptor : Type 0 where
  pub next_free : Option DescriptorNode
  pub next_partial : Option DescriptorNode
  pub anchor : ℕ
  pub super_block : Option Segment
  pub proc_heap : ℕ
  pub block_size : ℕ
  pub max_count : ℕ

-- `Descriptor::default()`
abbrev pub default_descriptor : Descriptor
default_descriptor = record {
  next_free = none;
  next_partial = none;
  anchor = default_anchor;
  super_block = none;
  proc_heap = 0;
  block_size = 0;
  max_count = 0;
}

-- `size_of::<Descriptor>()`: 80 bytes of fields, rounded up to the alignment of 64
abbrev pub descriptor_size : ℕ
descriptor_size = 128

pub record Store : Type 0 where
  pub descs : ℕ → Descriptor
  pub available : DescriptorNode

-- `Descriptor::retire`
unfoldable pub retire : ℕ → Store → Store
retire desc s =
    let old_head = s.available in
    record s {
      descs =
          update s.descs desc (record (s.descs desc) { block_size = 0; next_free = some old_head });
      available = set (some desc) (get_counter old_head + 1);
    }

-- `Array::from_ptr`: a default descriptor in each of `count` places from `at` on
unfoldable pub init_block : ℕ → ℕ → (ℕ → Descriptor) → ℕ → Descriptor
init_block zero at descs = descs
init_block (suc count) at descs =
    init_block count (at + descriptor_size) (update descs at default_descriptor)

abbrev pub set_next_free : ℕ → Option DescriptorNode → (ℕ → Descriptor) → ℕ → Descriptor
set_next_free desc node descs = update descs desc (record (descs desc) { next_free = node })

-- The loop over `slice`, from the descriptor behind `prev` on, and the store that ends the list.
unfoldable pub link_block : ℕ → ℕ → (ℕ → Descriptor) → ℕ → Descriptor
link_block zero prev descs = set_next_free prev none descs
link_block (suc rounds) prev descs =
    link_block rounds (prev + descriptor_size)
      (set_next_free prev (some (prev + descriptor_size)) descs)

-- The branch of `alloc` that finds no free descriptor. `page` is what `page_alloc` returned; the
-- first descriptor is returned, and the others are linked.
unfoldable pub alloc_block : Option ℕ → Store → Outcome (ℕ × Store)
alloc_block none s = panicked
alloc_block (some page) s =
    let count = descriptor_block_sz / descriptor_size in
    let first = page + descriptor_size in
    returned (
      page,
      record {
        descs = link_block (count - 2) first (init_block count page s.descs);
        available = set (some first) 0;
      },
    )

-- The head that follows `old_head`, from the `next_free` of its descriptor.
unfoldable pub next_head : DescriptorNode → Option DescriptorNode → DescriptorNode
next_head old_head none = null_node
next_head old_head (some node) = set (get_desc node) (get_counter old_head)

-- `Descriptor::alloc`
unfoldable pub alloc : Option ℕ → Store → Outcome (ℕ × Store)
alloc page s = elim (get_desc s.available) [
  | none ↦ alloc_block page s
  | some desc ↦
      returned (desc, record s { available = next_head s.available (s.descs desc).next_free })
]
