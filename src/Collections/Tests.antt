-- ===== src/Collections/Tests.antt =====
-- The theorems on arrays at concrete arrays.
use lralloc_rs.Common.{ℕ, zero, suc, ◌+◌, ◌<◌, ◌≡◌, refl, some, none, [], ◌∷◌, get_elem?, arith}
use lralloc_rs.Collections.{Array, get_slot, swap}
use lralloc_rs.Collections.Slots.{Holds}

-- three elements in a segment for four
abbrev three : Array ℕ
three = record { size = 3; capacity = 4; slots = λ i. i + 5 }

three-Holds : Holds three (5 ∷ 6 ∷ 7 ∷ [])
three-Holds = record { counted = refl; room = omega arith; at = at_three }
  where
    at_three : (i : ℕ) → i < 3 → get_elem? (5 ∷ 6 ∷ 7 ∷ []) i ≡ some (i + 5)
    at_three zero q = refl
    at_three (suc zero) q = refl
    at_three (suc (suc zero)) q = refl
    at_three (suc (suc (suc i))) q = absurd (omega arith)

-- a full array
abbrev full : Array ℕ
full = record { size = 1; capacity = 1; slots = λ i. 9 }

full-Holds : Holds full (9 ∷ [])
full-Holds = record { counted = refl; room = omega arith; at = at_full }
  where
    at_full : (i : ℕ) → i < 1 → get_elem? {A = ℕ} (9 ∷ []) i ≡ some 9
    at_full zero q = refl
    at_full (suc i) q = absurd (omega arith)

get_slot-three : get_slot 2 three ≡ some 7
unfolding get_slot
get_slot-three = refl

get_slot-full : get_slot 1 full ≡ none
unfolding get_slot
get_slot-full = refl

swap-three : get_slot 1 (swap 1 8 three).1 ≡ some 8
unfolding swap get_slot
swap-three = refl
