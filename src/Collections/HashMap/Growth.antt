-- ===== src/Collections/HashMap/Growth.antt =====
-- Growing keeps the map.
use lralloc_rs.Common.{
  ℕ, zero, suc, ◌+◌, ◌*◌, ◌≤◌, ◌<◌, ◌≡◌, ◌↔◌, refl, sym, ap, ◌∙◌, Bool, true, false, Option, none,
  some, List, [], ◌∷◌, ◌++◌, All, length, length-set, length-replicate, get_or, replicate,
  if◌then◌else◌, arith, Bool-cases, inl, inr,
}
use mathlib.Core.Path.{subst}
use native.Mathlib.Nat.{mod-lt}
use lralloc_rs.Collections.HashMap.{
  Bucket, HashMap, concat, home, place, place_all, grow, find_value,
}
use lralloc_rs.Collections.HashMap.Chain.{
  Distinct, or_else, or_else-none, differ, All-append, All-map, Distinct-snoc, find_value-append,
  find_value-none, find_value-snoc,
}
use lralloc_rs.Collections.HashMap.Table.{
  Placed, Placed-get_or, Placed-set, value_in, value_in-set, IsValid, value_of,
}

pub get_or-replicate : {A : Type 0} (rounds j : ℕ) (d : A) → get_or (replicate rounds d) j d ≡ d
get_or-replicate zero j d = refl
get_or-replicate (suc rounds) zero d = refl
get_or-replicate (suc rounds) (suc j) d = get_or-replicate rounds j d

-- Keys with other homes differ.
other_home :
    {K : Type 0} (hash : K → ℕ) (eq : K → K → Bool) (eq_iff : (a b : K) → (eq a b ≡ true) ↔ (a ≡ b))
    (n i : ℕ) (a b : K)
    → i + 1 ≤ home hash a n
    → home hash b n ≡ i
    → eq a b ≡ false
other_home hash eq eq_iff n i a b far near = elim (Bool-cases (eq a b)) [
  | inl same ↦
      (let e : home hash a n ≡ home hash b n =
          ap (λ (k : _). home hash k n) ((eq_iff a b).0 same) in
        absurd (omega (arith, far, near, e)))
  | inr other ↦ other
]

pub Placed-replicate :
    {K : Type 0} (V : Type 0) (hash : K → ℕ) (eq : K → K → Bool)
    (eq_iff : (a b : K) → (eq a b ≡ true) ↔ (a ≡ b)) (rounds n i : ℕ)
    → Placed {V = V} hash eq eq_iff n i (replicate rounds [])
Placed-replicate V hash eq eq_iff zero n i = tt
Placed-replicate V hash eq eq_iff (suc rounds) n i =
    (tt, tt, Placed-replicate V hash eq eq_iff rounds n (i + 1))

module _ {K V : Type 0} (hash : K → ℕ) (eq : K → K → Bool)
    (eq_iff : (a b : K) → (eq a b ≡ true) ↔ (a ≡ b)) where
  -- `value_in` and `Placed` of this hash
  abbrev value : K → ℕ → List (List (Bucket K V)) → Option V
  value = value_in hash eq eq_iff

  place-Placed :
      (n : ℕ) (b : Bucket K V) (arrays : List (List (Bucket K V))) (used : ℕ)
      → 0 < n
      → length arrays ≡ n
      → Placed hash eq eq_iff n 0 arrays
      → value (b.key) n arrays ≡ none
      → Placed hash eq eq_iff n 0 (place hash n b (arrays, used)).0
        × (length (place hash n b (arrays, used)).0 ≡ n)
        × ((q : K)
            → value q n (place hash n b (arrays, used)).0
              ≡ (if eq (b.key) q then some (b.value) else value q n arrays))
  unfolding place
  place-Placed n b arrays used pos sized placed fresh =
      let index = home hash (b.key) n in
      let array = get_or arrays index [] in
      let inside : index < length arrays = omega (arith, mod-lt (hash (b.key)) pos) in
      let old = Placed-get_or hash eq eq_iff n 0 index arrays placed in
      let b' : Bucket K V = record b { hash = index } in
      let e : index ≡ 0 + index = omega arith in
      (
        Placed-set hash eq eq_iff n 0 index arrays (array ++ b' ∷ []) placed
            (All-append eq eq_iff (λ k. home hash k n ≡ 0 + index) array (b' ∷ []) (old.0) (e, tt))
            (Distinct-snoc eq eq_iff array b' (old.1) fresh),
        length-set arrays index (array ++ b' ∷ []) ∙ sized,
        λ q.
            value_in-set hash eq eq_iff (b.key) q n arrays (array ++ b' ∷ []) (some (b.value))
              inside (find_value-snoc eq eq_iff q array b' fresh),
      )

  -- The other buckets stay without a match.
  fresh_after :
      (n : ℕ) (b : Bucket K V) (bs : List (Bucket K V)) (arrays arrays' : List (List (Bucket K V)))
      → ((q : K) → value q n arrays' ≡ (if eq (b.key) q then some (b.value) else value q n arrays))
      → All (λ c. value (c.key) n arrays ≡ none) bs
      → All (λ c. eq (c.key) (b.key) ≡ false) bs
      → All (λ c. value (c.key) n arrays' ≡ none) bs
  fresh_after n b [] arrays arrays' after fresh out = tt
  fresh_after n b (c ∷ bs) arrays arrays' after fresh out =
      let apart : eq (b.key) (c.key) ≡ false = differ eq eq_iff (c.key) (b.key) (out.0) in
      (
        after (c.key) ∙ rw apart (fresh.0),
        fresh_after n b bs arrays arrays' after (fresh.1) (out.1),
      )

  -- An old value goes before the new one; a fresh key has no old value.
  before_bucket :
      (n : ℕ) (q : K) (b : Bucket K V) (arrays : List (List (Bucket K V))) (o : Option V)
      → value (b.key) n arrays ≡ none
      → or_else (if eq (b.key) q then some (b.value) else value q n arrays) o
        ≡ or_else (value q n arrays) (if eq (b.key) q then some (b.value) else o)
  before_bucket n q b arrays o fresh = elim (Bool-cases (eq (b.key) q)) [
    | inl here ↦
        (let e : value q n arrays ≡ none =
            subst (λ (k : K). value k n arrays ≡ none) ((eq_iff (b.key) q).0 here) fresh in
          rw (here, e) refl)
    | inr other ↦ rw other refl
  ]

  place_all-Placed :
      (n : ℕ) (bs : List (Bucket K V)) (arrays : List (List (Bucket K V))) (used : ℕ)
      → 0 < n
      → length arrays ≡ n
      → Placed hash eq eq_iff n 0 arrays
      → All (λ c. value (c.key) n arrays ≡ none) bs
      → Distinct eq eq_iff bs
      → Placed hash eq eq_iff n 0 (place_all hash n bs (arrays, used)).0
        × (length (place_all hash n bs (arrays, used)).0 ≡ n)
        × ((q : K)
            → value q n (place_all hash n bs (arrays, used)).0
              ≡ or_else (value q n arrays) (find_value eq q bs))
  unfolding place_all find_value
  place_all-Placed n [] arrays used pos sized placed fresh d =
      (placed, sized, λ q. sym (or_else-none (value q n arrays)))
  place_all-Placed n (b ∷ bs) arrays used pos sized placed fresh d =
      let one = place-Placed n b arrays used pos sized placed (fresh.0) in
      let next = place hash n b (arrays, used) in
      let still : All (λ c. value (c.key) n (next.0) ≡ none) bs =
        fresh_after n b bs arrays (next.0) (one.2) (fresh.1) (d.0) in
      let rest = place_all-Placed n bs (next.0) (next.1) pos (one.1) (one.0) still (d.1) in
      (
        rest.0,
        rest.1,
        λ q.
            rest.2 q
            ∙ ap (λ (o : Option V). or_else o (find_value eq q bs)) (one.2 q)
            ∙ before_bucket n q b arrays (find_value eq q bs) (fresh.0),
      )

  -- The buckets of one array, and those of the arrays behind it.
  cross :
      (n i : ℕ) (xs ys : List (Bucket K V))
      → All (λ c. home hash (c.key) n ≡ i) xs
      → Distinct eq eq_iff xs
      → All (λ c. i + 1 ≤ home hash (c.key) n) ys
      → Distinct eq eq_iff ys
      → Distinct eq eq_iff (xs ++ ys)
  cross n i [] ys a d b e = e
  cross n i (x ∷ xs) ys a d b e =
      let behind : All (λ c. eq (c.key) (x.key) ≡ false) ys =
        All-map eq eq_iff (λ k. i + 1 ≤ home hash k n) (λ k. eq k (x.key) ≡ false) ys
          (λ k h. other_home hash eq eq_iff n i k (x.key) h (a.0)) b in
      (
        All-append eq eq_iff (λ k. eq k (x.key) ≡ false) xs ys (d.0) behind,
        cross n i xs ys (a.1) (d.1) b e,
      )

  Placed-concat :
      (n i : ℕ) (bss : List (List (Bucket K V)))
      → Placed hash eq eq_iff n i bss
      → All (λ c. i ≤ home hash (c.key) n) (concat bss) × Distinct eq eq_iff (concat bss)
  Placed-concat n i [] p = (tt, tt)
  Placed-concat n i (bs ∷ bss) p =
      let rest = Placed-concat n (i + 1) bss (p.2) in
      (
        All-append eq eq_iff (λ k. i ≤ home hash k n) bs (concat bss)
            (All-map eq eq_iff (λ k. home hash k n ≡ i) (λ k. i ≤ home hash k n) bs
              (λ k h. omega (arith, h)) (p.0))
            (All-map eq eq_iff (λ k. i + 1 ≤ home hash k n) (λ k. i ≤ home hash k n) (concat bss)
              (λ k h. omega (arith, h)) (rest.0)),
        cross n i bs (concat bss) (p.0) (p.1) (rest.0) (rest.1),
      )

  -- A key is found among all buckets as in its array.
  find_value-concat :
      (n i j : ℕ) (q : K) (bss : List (List (Bucket K V)))
      → Placed hash eq eq_iff n i bss
      → home hash q n ≡ i + j
      → find_value eq q (concat bss) ≡ find_value eq q (get_or bss j [])
  find_value-concat n i j q [] p h = refl
  find_value-concat n i zero q (bs ∷ bss) p h =
      let rest = Placed-concat n (i + 1) bss (p.2) in
      let out : find_value eq q (concat bss) ≡ none = find_value-none eq eq_iff q (concat bss) (
        All-map eq eq_iff (λ k. i + 1 ≤ home hash k n) (λ k. eq k q ≡ false) (concat bss)
          (λ k l. other_home hash eq eq_iff n i k q l (omega (arith, h))) (rest.0)) in
      find_value-append eq eq_iff q bs (concat bss)
      ∙ ap (or_else (find_value eq q bs)) out
      ∙ or_else-none (find_value eq q bs)
  find_value-concat n i (suc j) q (bs ∷ bss) p h =
      let out : find_value eq q bs ≡ none = find_value-none eq eq_iff q bs (
        All-map eq eq_iff (λ k. home hash k n ≡ i) (λ k. eq k q ≡ false) bs
          (λ k e. differ eq eq_iff q k (other_home hash eq eq_iff n i q k (omega (arith, h)) e))
          (p.0)) in
      find_value-append eq eq_iff q bs (concat bss)
      ∙ ap (λ (o : Option V). or_else o (find_value eq q (concat bss))) out
      ∙ find_value-concat n (i + 1) j q bss (p.2) (omega (arith, h))

  -- Growing a valid map gives a valid map with the same values.
  pub grow-IsValid :
      (m : HashMap K V)
      → IsValid hash eq eq_iff m
      → IsValid hash eq eq_iff (grow hash m)
        × ((grow hash m).len ≡ m.len)
        × ((q : K) → value_of hash eq eq_iff q (grow hash m) ≡ value_of hash eq eq_iff q m)
  unfolding grow value_of find_value
  grow-IsValid m v =
      let n = length (m.buckets) in
      let n' : ℕ = n * 2 + 1 in
      let bs = concat (m.buckets) in
      let all = Placed-concat n 0 (m.buckets) (v.placed) in
      let nothing =
        λ (q : K). ap (find_value {V = V} eq q) (get_or-replicate n' (home hash q n') []) in
      let fresh : All (λ c. value (c.key) n' (replicate n' []) ≡ none) bs =
        All-map eq eq_iff (λ k. 0 ≤ home hash k n) (λ k. value k n' (replicate n' []) ≡ none) bs
          (λ k h. nothing k) (all.0) in
      let r =
        place_all-Placed n' bs (replicate n' []) 0 (omega arith) (length-replicate n' [])
          (Placed-replicate V hash eq eq_iff n' n' 0) fresh (all.1) in
      let new = (place_all hash n' bs (replicate n' [], 0)).0 in
      (
        record {
          roomy = omega (arith, r.1);
          placed = subst (λ (x : ℕ). Placed hash eq eq_iff x 0 new) (sym (r.1)) (r.0);
        },
        refl,
        λ q.
            ap (λ (x : ℕ). value q x new) (r.1)
            ∙ r.2 q
            ∙ ap (λ (o : Option V). or_else o (find_value eq q bs)) (nothing q)
            ∙ find_value-concat n 0 (home hash q n) q (m.buckets) (v.placed) (omega arith),
      )
