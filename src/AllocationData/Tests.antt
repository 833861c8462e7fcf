-- ===== src/AllocationData/Tests.antt =====
-- Runs of the anchor and of the list of free descriptors, and the theorems there.
use lralloc_rs.Common.{◌%◌, ◌^◌, ◌≡◌, refl, some, [], ◌∷◌, arith, panicked, Returns}
use lralloc_rs.AllocationData.{
  full, empty, state, set_state, avail, count, set_count, default_anchor,
}
use lralloc_rs.AllocationData.Anchor.{Fields, set_state-Fields, set_count-Fields}
use lralloc_rs.AllocationData.Desc.{Store, default_descriptor, null_node, retire, alloc}
use lralloc_rs.AllocationData.Desc.Nodes.{IsPlace, get_desc-null}
use lralloc_rs.AllocationData.Desc.Free.{IsFree, retire-IsFree}
use lralloc_rs.AllocationData.Desc.Block.{IsFresh, alloc-IsFresh}

default-Fields : Fields default_anchor full 0 0
unfolding state avail count
default-Fields = record { word = omega arith; state_is = refl; avail_is = refl; count_is = refl }

set_state-Fields_example : Fields (set_state empty default_anchor) empty 0 0
set_state-Fields_example = set_state-Fields default-Fields empty

set_count-Fields_example : Fields (set_count 7 default_anchor) full 0 (7 % 2 ^ 32)
set_count-Fields_example = set_count-Fields default-Fields 7

invalid_state : state 3 ≡ panicked
unfolding state
invalid_state = refl

abbrev at_place : IsPlace 128
at_place = record { aligned = refl; ne_null = omega arith; small = omega arith }

abbrev blank : Store
blank = record { descs = λ _. default_descriptor; available = null_node }

blank-IsFree : IsFree blank []
blank-IsFree = get_desc-null

retire-IsFree_example :
    IsFree (retire 128 blank) (128 ∷ []) × (((retire 128 blank).descs 128).block_size ≡ 0)
retire-IsFree_example = retire-IsFree 128 blank [] at_place refl blank-IsFree

alloc-IsFresh_example : Returns (IsFresh 4096 blank) (alloc (some 4096) blank)
alloc-IsFresh_example = alloc-IsFresh 4096 blank refl (omega arith) (omega arith) blank-IsFree
