-- ===== src/Malloc/Hooks/Returned.antt =====
-- `ret` gives no more than the bin holds, and gives it to nobody.
use lralloc_rs.Common.{
  ℕ, zero, suc, ◌+◌, ◌-◌, ◌*◌, ◌≤◌, ◌<◌, ◌≡◌, refl, true, false, List, [], ◌∷◌, length, drop,
  get_elem?-set_self, le→leb, leb→le, if◌then◌else◌, arith, Returns, returns, result, Bool-cases,
  inl, inr,
}
use native.Mathlib.Nat.{div-lt_iff_lt-mul}
use lralloc_rs.ThreadCache.{Memory, ThreadCacheBin}
use lralloc_rs.ThreadCache.Stack.{Holds, pop_block-Holds}
use lralloc_rs.Apf.Tuner.{ApfTuner, Settings, Quotient, ceil, exceeds, return_demand}
use lralloc_rs.Malloc.State.{Thread, Call, BinHolds}
use lralloc_rs.Malloc.Hooks.{check, pop_blocks, ret, thread_hooks}

pop_blocks-Holds :
    (n size : ℕ) (m : Memory) (c : ThreadCacheBin) (xs : List ℕ)
    → Holds size m c xs
    → n ≤ length xs
    → Returns (λ c'. Holds size m c' (drop n xs)) (pop_blocks false n c m)
unfolding pop_blocks
pop_blocks-Holds zero size m c xs h few = returns h
pop_blocks-Holds (suc n) size m c [] h few = absurd (omega arith)
pop_blocks-Holds (suc n) size m c (x ∷ xs) h few =
    let (r, ran, p) = result (pop_block-Holds size m c x xs h) in
    rw ran (pop_blocks-Holds n size m (r.1) xs (p.1) (omega arith))

-- Where the bin is long enough to give some back, it holds what is given.
exceeds-le :
    (n : ℕ) (q : Quotient) → 0 < q.parts → q.minus ≤ q.plus → exceeds n q ≡ true → ceil q + 1 ≤ n
unfolding exceeds ceil
exceeds-le n q pos known more =
    let enough : 2 * q.plus + q.parts ≤ n * q.parts + 2 * q.minus = leb→le _ _ more in
    omega (
      arith,
      (div-lt_iff_lt-mul {k = q.parts} {x = q.plus - q.minus + (q.parts - 1)} {y = n} pos).1
          (omega arith),
    )

ret-Drops :
    (call : Call) (index count size : ℕ) (t : Thread) (xs : List ℕ)
    → call.no_met_stack ≡ false
    → BinHolds index size t xs
    → count ≤ length xs
    → Returns
        (λ t'. BinHolds index size t' (drop count xs) × (t'.world ≡ t.world))
        (ret call index count t)
unfolding ret
ret-Drops call index count size t xs links b few =
    let bin = b.bin in
    let (c, ran, h) = result (pop_blocks-Holds count size (t.world.memory) bin xs (b.holds) few) in
    rw (b.here, le→leb count (bin.block_num) (omega (arith, b.holds.counted)), links, ran)
      (returns (
        record { bin = c; here = get_elem?-set_self (t.bins) index bin c (b.here); holds = h },
        refl,
      ))

-- What the tuner gives back of n blocks.
abbrev pub returned_count : ℕ → Quotient → ℕ
returned_count n d = if exceeds n d then ceil d + 1 else 0

-- With compressed links and a demand that is not negative, giving back returns and asks for no more
-- blocks than the bin holds; these blocks leave the bin, and the world with its memory, super
-- blocks and partial lists stays as it is.
pub return_demand-Drops :
    (call : Call) (settings : Settings) (d : Quotient) (tuner : ApfTuner) (t : Thread) (size : ℕ)
    (xs : List ℕ)
    → call.no_met_stack ≡ false
    → 0 < d.parts
    → d.minus ≤ d.plus
    → BinHolds (tuner.id) size t xs
    → Returns
        (λ r.
          BinHolds (tuner.id) size r.2 (drop (returned_count (length xs) d) xs)
          × (returned_count (length xs) d ≤ length xs)
          × (r.2.world ≡ t.world))
        (return_demand (thread_hooks call) settings d tuner t)
unfolding return_demand check
return_demand-Drops call settings d tuner t size xs links pos known b =
    elim (Bool-cases (exceeds (length xs) d)) [
      | inl more ↦
          (let few = exceeds-le (length xs) d pos known more in
            let (t', ran, h) =
              result (ret-Drops call (tuner.id) (ceil d + 1) size t xs links b few) in
            rw (b.here, b.holds.counted, more, ran) (returns (h.0, few, h.1)))
      | inr less ↦ rw (b.here, b.holds.counted, less) (returns (b, omega arith, refl))
    ]
