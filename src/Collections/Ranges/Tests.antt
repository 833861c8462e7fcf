-- ===== src/Collections/Ranges/Tests.antt =====
-- The theorems on trees of ranges at concrete trees.
use lralloc_rs.Common.{ℕ, ◌≡◌, refl, none, some, ◌==◌, if◌then◌else◌, arith}
use lralloc_rs.Collections.Ranges.{info, Node, PageRangeMapping, insert_node, get_page_info}
use lralloc_rs.Collections.Ranges.Twice.{insert_node-First, insert_node-Second}

abbrev low : Node
low = record { start = 4096; end = 8191; inner = info 64 }

abbrev high : Node
high = record { start = 16384; end = 20479; inner = info 128 }

-- both nodes stand in the array, the first one in the tree
abbrev one_range : ℕ → PageRangeMapping
one_range head = record {
  head = head;
  memory_array = record { size = 2; capacity = 8; slots = λ i. if i == 0 then low else high };
}

-- A lookup in a tree of one range.
lookup_of_one :
    (insert_node 1 1 (one_range 0) ≡ some (one_range 1))
    × (get_page_info 1 (one_range 1) 5000 ≡ some (some 64))
lookup_of_one = insert_node-First 1 0 1 5000 64 (one_range 0) refl (omega arith) refl

insert_node-Second_example :
    (m' : PageRangeMapping) × (insert_node 1 2 (one_range 1) ≡ some m')
    × ((n : ℕ) → get_page_info n m' 5000 ≡ none)
insert_node-Second_example =
    insert_node-Second 0 2 5000 64 (one_range 1) (omega arith) refl refl refl refl
