-- ===== src/ThreadCache/Refine.antt =====
-- Runs of pushes and pops on a bin against a list.
use lralloc_rs.Common.{
  ℕ, ◌≡◌, false, ◌&&◌, not, Option, Option-cases, none, some, List, [], ◌∷◌, arith, has, ltb,
  if◌then◌else◌, Outcome, returned, ◌>>=◌, Returns, returns, bind, Bool-cases, inl, inr,
}
use mathlib.Core.Option
use mathlib.Core.Path.{subst}
use lralloc_rs.ThreadCache.{Memory, usize_max, ThreadCacheBin, push_block, pop_block}
use lralloc_rs.ThreadCache.Stack.{Holds, push_block-Holds, pop_block-Holds}

pub data Op : Type 0 where
  push : ℕ → Op
  pop : Op

-- The operations on the bin; the result is what the pops returned, the bin and the memory.
unfoldable pub bin_run :
    List Op → ThreadCacheBin → Memory → Outcome (List ℕ × ThreadCacheBin × Memory)
bin_run [] c m = returned ([], c, m)
bin_run (push b ∷ ops) c m = let r = push_block false c b m in bin_run ops r.0 r.1
bin_run (pop ∷ ops) c m = do
  (b, c') ← pop_block false c m
  (out, c'', m') ← bin_run ops c' m
  returned (b ∷ out, c'', m')

-- The operations on a list; only blocks that are not held may be pushed, and an empty list cannot
-- be popped.
unfoldable pub list_run : List Op → List ℕ → Option (List ℕ × List ℕ)
list_run [] xs = some ([], xs)
list_run (push b ∷ ops) xs =
    let rest = list_run ops (b ∷ xs) in
    if ltb 0 b && ltb b usize_max && not (has b xs) then rest else none
list_run (pop ∷ ops) [] = none
list_run (pop ∷ ops) (x ∷ xs) = Option.map (λ r. (x ∷ r.0, r.1)) (list_run ops xs)

-- Under any sequence of pushes and pops that a list of blocks allows (no block pushed twice, no pop
-- of an empty list, blocks neither null nor all ones), a bin with compressed links does not panic,
-- returns what the list returns, and holds what the list holds.
pub bin_run-Holds :
    (size : ℕ) (ops : List Op) (c : ThreadCacheBin) (m : Memory) (xs out ys : List ℕ)
    → Holds size m c xs
    → list_run ops xs ≡ some (out, ys)
    → Returns (λ r. (r.0 ≡ out) × Holds size r.2 r.1 ys) (bin_run ops c m)
unfolding bin_run list_run
bin_run-Holds size [] c m xs out ys h e =
    let kept : xs ≡ ys = cc in returns (cc, subst (Holds size m c) kept h)
bin_run-Holds size (push b ∷ ops) c m xs out ys h e =
    elim (Bool-cases (ltb 0 b && ltb b usize_max && not (has b xs))) [
      | inr refused ↦ absurd (ground (arith, refused))
      | inl allowed ↦
          let r = push_block false c b m in
          bin_run-Holds size ops r.0 r.1 (b ∷ xs) out ys
            (push_block-Holds size m c xs b h (ground arith) (ground arith) (ground arith))
            (ground (arith, allowed))
    ]
bin_run-Holds size (pop ∷ ops) c m [] out ys h e = absurd (ground arith)
bin_run-Holds size (pop ∷ ops) c m (x ∷ xs) out ys h e = elim (Option-cases (list_run ops xs)) [
  | inl stuck ↦ absurd (ground (arith, stuck))
  | inr ((o, y), ran) ↦ bind (pop_block-Holds size m c x xs h) λ r popped.
      bind (bin_run-Holds size ops r.1 m xs o y popped.1 ran) λ q rest.
        let same : y ≡ ys = ground (arith, ran) in
        returns (ground (arith, popped.0, rest.0, ran), subst (Holds size q.2 q.1) same rest.1)
]
