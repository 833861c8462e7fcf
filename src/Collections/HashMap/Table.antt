-- ===== src/Collections/HashMap/Table.antt =====
-- The table of a hash map: each bucket stands in the array of its key.
use lralloc_rs.Common.{
  ℕ, zero, suc, ◌+◌, ◌<◌, ◌≡◌, ◌≢◌, ◌↔◌, refl, sym, ap, ◌∙◌, Bool, true, false, Option, some, List,
  [], ◌∷◌, All, length, get_elem?, get_or, get_or-set_self, get_or-set_ne, set, ◌==◌, ==_iff,
  if◌then◌else◌, arith, returned, Bool-cases, inl, inr,
}
use mathlib.Core.Path.{subst}
use native.Mathlib.Nat.{mod-lt}
use lralloc_rs.Collections.HashMap.{Bucket, HashMap, home, buckets_of, find_value, get_value}
use lralloc_rs.Collections.HashMap.Chain.{Distinct}

pub get_elem?-get_or :
    {A : Type 0} (xs : List A) (i : ℕ) (d : A)
    → i < length xs
    → get_elem? xs i ≡ some (get_or xs i d)
get_elem?-get_or [] i d h = absurd (omega arith)
get_elem?-get_or (x ∷ xs) zero d h = refl
get_elem?-get_or (x ∷ xs) (suc i) d h = get_elem?-get_or xs i d (omega arith)

ne_of_false : (a b : ℕ) → (a == b) ≡ false → a ≢ b
ne_of_false a b h e = ground arith

module _ {K V : Type 0} (hash : K → ℕ) (eq : K → K → Bool)
    (eq_iff : (a b : K) → (eq a b ≡ true) ↔ (a ≡ b)) where
  -- From array i on, the keys of an array have its index for n arrays, and are distinct.
  abbrev pub Placed : ℕ → ℕ → List (List (Bucket K V)) → Type 0
  Placed n i [] = Unit {0}
  Placed n i (bs ∷ bss) =
      All (λ c. home hash (c.key) n ≡ i) bs × Distinct eq eq_iff bs × Placed n (i + 1) bss

  pub Placed-get_or :
      (n i j : ℕ) (bss : List (List (Bucket K V)))
      → Placed n i bss
      → All (λ c. home hash (c.key) n ≡ i + j) (get_or bss j [])
        × Distinct eq eq_iff (get_or bss j [])
  Placed-get_or n i j [] p = (tt, tt)
  Placed-get_or n i zero (bs ∷ bss) p =
      let e : i ≡ i + 0 = omega arith in
      (subst (λ (x : ℕ). All (λ c. home hash (c.key) n ≡ x) bs) e (p.0), p.1)
  Placed-get_or n i (suc j) (bs ∷ bss) p =
      let e : i + 1 + j ≡ i + suc j = omega arith in
      let rest = Placed-get_or n (i + 1) j bss (p.2) in
      (subst (λ (x : ℕ). All (λ c. home hash (c.key) n ≡ x) (get_or bss j [])) e (rest.0), rest.1)

  pub Placed-set :
      (n i j : ℕ) (bss : List (List (Bucket K V))) (new : List (Bucket K V))
      → Placed n i bss
      → All (λ c. home hash (c.key) n ≡ i + j) new
      → Distinct eq eq_iff new
      → Placed n i (set bss j new)
  Placed-set n i j [] new p a d = tt
  Placed-set n i zero (bs ∷ bss) new p a d =
      let e : i + 0 ≡ i = omega arith in
      (subst (λ (x : ℕ). All (λ c. home hash (c.key) n ≡ x) new) e a, d, p.2)
  Placed-set n i (suc j) (bs ∷ bss) new p a d =
      let e : i + suc j ≡ i + 1 + j = omega arith in
      (
        p.0,
        p.1,
        Placed-set n (i + 1) j bss new (p.2)
            (subst (λ (x : ℕ). All (λ c. home hash (c.key) n ≡ x) new) e a) d,
      )

  -- The value of a key in n arrays.
  abbrev pub value_in : K → ℕ → List (List (Bucket K V)) → Option V
  value_in q n bss = find_value eq q (get_or bss (home hash q n) [])

  -- Changing the array of a key for that key changes the value of the key alone.
  pub value_in-set :
      (key q : K) (n : ℕ) (bss : List (List (Bucket K V))) (new : List (Bucket K V)) (o : Option V)
      → home hash key n < length bss
      → find_value eq q new
        ≡ (if eq key q then o else find_value eq q (get_or bss (home hash key n) []))
      → value_in q n (set bss (home hash key n) new) ≡ (if eq key q then o else value_in q n bss)
  value_in-set key q n bss new o inside e = elim (Bool-cases (home hash key n == home hash q n)) [
    | inl same ↦
        (let h : home hash key n ≡ home hash q n =
            (==_iff (home hash key n) (home hash q n)).0 same in
          let new_array : get_or (set bss (home hash key n) new) (home hash q n) [] ≡ new =
            ap (λ (x : ℕ). get_or (set bss (home hash key n) new) x []) (sym h)
            ∙ get_or-set_self bss (home hash key n) new [] inside in
          ap (find_value eq q) new_array
          ∙ e
          ∙ ap (λ (x : ℕ). if eq key q then o else find_value eq q (get_or bss x [])) h)
    | inr other ↦
        (let ne : home hash key n ≢ home hash q n =
            λ h. ne_of_false (home hash key n) (home hash q n) other h in
          let old = get_or-set_ne bss (home hash key n) (home hash q n) new [] ne in
          elim (Bool-cases (eq key q)) [
            | inl same ↦ absurd (ne (ap (λ (k : K). home hash k n) ((eq_iff key q).0 same)))
            | inr apart ↦ rw apart (ap (find_value eq q) old)
          ])
  ]

  pub record IsValid (m : HashMap K V) : Type 0 where
    pub roomy : 0 < length (m.buckets)
    pub placed : Placed (length (m.buckets)) 0 (m.buckets)

  -- The map as a function from its keys.
  unfoldable pub value_of : K → HashMap K V → Option V
  value_of q m = value_in q (length (m.buckets)) (m.buckets)

  pub buckets_of-IsValid :
      (key : K) (m : HashMap K V)
      → IsValid m
      → buckets_of hash key m
        ≡ returned (get_or (m.buckets) (home hash key (length (m.buckets))) [])
  unfolding buckets_of
  buckets_of-IsValid key m v =
      rw
        (get_elem?-get_or (m.buckets) (home hash key (length (m.buckets))) []
          (mod-lt (hash key) (v.roomy)))
        refl

  pub get_value-value_of :
      (key : K) (m : HashMap K V) → IsValid m → get_value hash eq key m ≡ returned (value_of key m)
  unfolding get_value value_of
  get_value-value_of key m v = rw (buckets_of-IsValid key m v) refl
