-- ===== src/Apf/Reuse/Offline/Columns.antt =====
-- What the vectors hold: sums over the intervals.
use lralloc_rs.Common.{
  ℕ, zero, suc, ◌+◌, ◌-◌, ◌*◌, min, max, ◌<◌, ◌≡◌, refl, sym, ap, List, [], ◌∷◌, All, leb, lt→ltb,
  le→leb, ◌==◌, if◌then◌else◌, arith, returned, Returns, returns, result, Bool-cases, inl, inr, ◌∙◌,
}
use lralloc_rs.Apf.Reuse.Offline.{
  Terms, no_terms, bump, add_interval, tally, start_index_n_k, end_index_k_1, len_l_k, minus, sum_x,
  sum_y, sum_z,
}
use lralloc_rs.Apf.Reuse.Offline.Sums.{
  Interval, Within, sum_over, keyed, sum_over-add, sum_over-eq, sum_over-zero,
}

abbrev pub len : Interval → ℕ
len x = x.1 - x.0 + 1

abbrev pub span : Interval → ℕ
span x = len x - 1

bump-sum : (a : ℕ → ℕ) (k v j r : ℕ) → bump a k v j + r ≡ a j + ((if k == j then v else 0) + r)
bump-sum a k v j r = ground arith

-- The terms are those of the intervals, added to others.
pub record Adds (n : ℕ) (t : Terms) (xs : List Interval) (t' : Terms) : Type 0 where
  pub starts :
      (j : ℕ)
      → t'.start_index_counts j ≡ t.start_index_counts j + sum_over (keyed (λ x. x.0) (λ _. 1) j) xs
  pub ends :
      (j : ℕ)
      → t'.end_index_counts j ≡ t.end_index_counts j + sum_over (keyed (λ x. x.1) (λ _. 1) j) xs
  pub lens : (j : ℕ) → t'.len_counts j ≡ t.len_counts j + sum_over (keyed span (λ _. 1) j) xs
  pub start_sums :
      (j : ℕ)
      → t'.start_indices_sums j ≡ t.start_indices_sums j + sum_over (keyed span (λ x. x.0) j) xs
  pub min_sums :
      (j : ℕ)
      → t'.start_indices_min_sums j
        ≡ t.start_indices_min_sums j + sum_over (keyed span (λ x. min (n - (len x)) (x.0)) j) xs
  pub end_sums :
      (j : ℕ) → t'.end_indices_sums j ≡ t.end_indices_sums j + sum_over (keyed span (λ x. x.1) j) xs
  pub max_sums :
      (j : ℕ)
      → t'.end_indices_max_sums j
        ≡ t.end_indices_max_sums j + sum_over (keyed span (λ x. max (len x) (x.1)) j) xs

pub tally-Adds :
    (n : ℕ) (xs : List Interval) (t : Terms)
    → All (Within n) xs
    → Returns (Adds n t xs) (tally n xs t)
unfolding tally sum_over
tally-Adds n [] t w = returns (record {
  starts = λ j. omega arith;
  ends = λ j. omega arith;
  lens = λ j. omega arith;
  start_sums = λ j. omega arith;
  min_sums = λ j. omega arith;
  end_sums = λ j. omega arith;
  max_sums = λ j. omega arith;
})
tally-Adds n ((s, e) ∷ xs) t w =
    let x : Interval = (s, e) in
    let (t', ran, a) = result (tally-Adds n xs (add_interval n s e t) (w.1)) in
    rw
      (
        le→leb s e (w.0.ordered),
        lt→ltb s n (omega (arith, w.0.ordered, w.0.inside)),
        lt→ltb e n (w.0.inside),
        ran,
      )
      (returns (record {
        starts = λ j.
            a.starts j
            ∙ bump-sum (t.start_index_counts) s 1 j (sum_over (keyed (λ x. x.0) (λ _. 1) j) xs);
        ends = λ j.
            a.ends j
            ∙ bump-sum (t.end_index_counts) e 1 j (sum_over (keyed (λ x. x.1) (λ _. 1) j) xs);
        lens = λ j.
            a.lens j ∙ bump-sum (t.len_counts) (span x) 1 j (sum_over (keyed span (λ _. 1) j) xs);
        start_sums = λ j.
            a.start_sums j
            ∙ bump-sum (t.start_indices_sums) (span x) s j (sum_over (keyed span (λ x. x.0) j) xs);
        min_sums = λ j.
            a.min_sums j
            ∙ bump-sum (t.start_indices_min_sums) (span x) (min (n - len x) s) j
                (sum_over (keyed span (λ x. min (n - len x) (x.0)) j) xs);
        end_sums = λ j.
            a.end_sums j
            ∙ bump-sum (t.end_indices_sums) (span x) e j (sum_over (keyed span (λ x. x.1) j) xs);
        max_sums = λ j.
            a.max_sums j
            ∙ bump-sum (t.end_indices_max_sums) (span x) (max (len x) e) j
                (sum_over (keyed span (λ x. max (len x) (x.1)) j) xs);
      }))

-- What an interval adds to a vector, at an index.
abbrev pub starts_late : ℕ → ℕ → Interval → ℕ
starts_late n i x = if leb (n - i) (x.0) then 1 else 0

abbrev pub ends_early : ℕ → Interval → ℕ
ends_early i x = if leb 1 (x.1) then (if leb (x.1) i then 1 else 0) else 0

abbrev pub fits : ℕ → Interval → ℕ
fits i x = if leb (span x) i then 1 else 0

abbrev pub part_x : ℕ → ℕ → Interval → ℕ
part_x n i x = if leb (span x) i then min (n - (i + 1)) (x.0) else 0

-- What starts at 0 and ends later counts one more, and what ends at 0 nothing.
abbrev pub part_y : ℕ → Interval → ℕ
part_y i x =
    if leb (span x) i
    then (if x.1 == 0 then 0 else (max i (x.1) + (if x.0 == 0 then 1 else 0)))
    else 0

abbrev pub part_z : ℕ → Interval → ℕ
part_z i x = if leb (span x) i then i + 1 else 0

sum_over-keyed :
    (c j : ℕ) (xs : List Interval)
    → c * (0 + sum_over (keyed span (λ _. 1) j) xs) ≡ sum_over (keyed span (λ _. c) j) xs
unfolding sum_over
sum_over-keyed c j [] = omega arith
sum_over-keyed c j (x ∷ xs) = elim (Bool-cases (span x == j)) [
  | inl here ↦ rw here (grind (arith, sum_over-keyed c j xs))
  | inr other ↦ rw other (grind (arith, sum_over-keyed c j xs))
]

module _ (n : ℕ) (xs : List Interval) (w : All (Within n) xs) (t : Terms)
    (a : Adds n no_terms xs t) where
  start_index_n_k_lem : (i : ℕ) → i < n → start_index_n_k n t i ≡ sum_over (starts_late n i) xs
  unfolding start_index_n_k
  start_index_n_k_lem zero h =
      sym (sum_over-zero xs)
      ∙ sum_over-eq {n = n} (λ _. 0) (starts_late n zero) xs w
          (λ x v. ground (arith, v.ordered, v.inside))
  start_index_n_k_lem (suc i) h =
      let before = start_index_n_k_lem i (omega arith) in
      let more =
        sum_over-add {n = n} (starts_late n i) (keyed (λ x. x.0) (λ _. 1) (n - suc i))
          (starts_late n (suc i)) xs w (λ x v. ground (arith, v.ordered, v.inside)) in
      omega (arith, before, more, a.starts (n - suc i))

  end_index_k_1_lem : (i : ℕ) → end_index_k_1 t i ≡ sum_over (ends_early i) xs
  unfolding end_index_k_1
  end_index_k_1_lem zero =
      sym (sum_over-zero xs)
      ∙ sum_over-eq {n = n} (λ _. 0) (ends_early zero) xs w (λ x v. ground arith)
  end_index_k_1_lem (suc i) =
      let more =
        sum_over-add {n = n} (ends_early i) (keyed (λ x. x.1) (λ _. 1) (suc i)) (ends_early (suc i))
          xs w (λ x v. ground arith) in
      omega (arith, end_index_k_1_lem i, more, a.ends (suc i))

  len_l_k_lem : (i : ℕ) → len_l_k t i ≡ sum_over (fits i) xs
  unfolding len_l_k
  len_l_k_lem zero =
      let first =
        sum_over-eq {n = n} (keyed span (λ _. 1) 0) (fits zero) xs w (λ x v. ground arith) in
      omega (arith, a.lens 0, first)
  len_l_k_lem (suc i) =
      let more =
        sum_over-add {n = n} (fits i) (keyed span (λ _. 1) (suc i)) (fits (suc i)) xs w
          (λ x v. ground arith) in
      omega (arith, len_l_k_lem i, more, a.lens (suc i))

  pub sum_z_lem : (i : ℕ) → sum_z t i ≡ sum_over (part_z i) xs
  unfolding sum_z
  sum_z_lem zero =
      let first =
        sum_over-eq {n = n} (keyed span (λ _. 1) 0) (part_z zero) xs w (λ x v. ground arith) in
      omega (arith, a.lens 0, first)
  sum_z_lem (suc i) =
      let new = keyed span (λ _. suc i + 1) (suc i) in
      let half = λ (x : Interval). part_z i x + fits i x in
      let one = sum_over-add {n = n} (part_z i) (fits i) half xs w (λ x v. refl) in
      let two = sum_over-add {n = n} half new (part_z (suc i)) xs w (λ x v. ground arith) in
      let scaled : (suc i + 1) * t.len_counts (suc i) ≡ sum_over new xs =
        ap (λ (c : ℕ). (suc i + 1) * c) (a.lens (suc i)) ∙ sum_over-keyed (suc i + 1) (suc i) xs in
      omega (arith, sum_z_lem i, len_l_k_lem i, one, two, scaled)

  pub sum_y_lem : (i : ℕ) → sum_y t i ≡ sum_over (part_y i) xs
  unfolding sum_y
  sum_y_lem zero =
      let first =
        sum_over-eq {n = n} (keyed span (λ x. x.1) 0) (part_y zero) xs w
          (λ x v. ground (arith, v.ordered)) in
      omega (arith, a.end_sums 0, first)
  sum_y_lem (suc i) =
      let half = λ (x : Interval). part_y i x + ends_early i x in
      let one = sum_over-add {n = n} (part_y i) (ends_early i) half xs w (λ x v. refl) in
      let two =
        sum_over-add {n = n} half (keyed span (λ x. max (len x) (x.1)) (suc i)) (part_y (suc i)) xs
          w (λ x v. ground (arith, v.ordered)) in
      omega (arith, sum_y_lem i, end_index_k_1_lem i, one, two, a.max_sums (suc i))

  pub sum_x_lem : (i : ℕ) → i < n → sum_x n t i ≡ returned (sum_over (part_x n i) xs)
  unfolding sum_x minus
  sum_x_lem zero h =
      let first =
        sum_over-eq {n = n} (keyed span (λ x. x.0) 0) (part_x n zero) xs w
          (λ x v. ground (arith, v.ordered, v.inside)) in
      ap returned (omega (arith, a.start_sums 0, first))
  sum_x_lem (suc i) h =
      let one =
        sum_over-add {n = n} (part_x n i) (keyed span (λ x. min (n - len x) (x.0)) (suc i))
          (λ x. part_x n (suc i) x + starts_late n (suc i) x) xs w
          (λ x v. ground (arith, v.ordered, v.inside)) in
      let two =
        sum_over-add {n = n} (part_x n (suc i)) (starts_late n (suc i))
          (λ x. part_x n (suc i) x + starts_late n (suc i) x) xs w (λ x v. refl) in
      let before = sum_x_lem i (omega arith) in
      let late = start_index_n_k_lem (suc i) h in
      ground (arith, before, late, one, two, a.min_sums (suc i))
