-- ===== src/Collections/HashMap/Chain.antt =====
-- The buckets of one array: what the loops find in them.
use lralloc_rs.Common.{
  ℕ, zero, suc, ◌+◌, ◌≡◌, ◌↔◌, refl, sym, ap, ◌∙◌, Bool, true, false, Option, none, some, List, [],
  ◌∷◌, ◌++◌, All, get_elem?, set, if◌then◌else◌, arith, Bool-cases, inl, inr,
}
use mathlib.Core.Path.{subst}
use lralloc_rs.Collections.HashMap.{Bucket, remove_at, old_index, find_value}

-- The first value, where there is one.
abbrev pub or_else {ℓ} : {A : Type ℓ} → Option A → Option A → Option A
or_else none o = o
or_else (some a) o = some a

pub or_else-none {ℓ} : {A : Type ℓ} (o : Option A) → or_else o none ≡ o
or_else-none none = refl
or_else-none (some a) = refl

-- Two keys that differ, whichever comes first.
pub differ :
    {K : Type 0} (eq : K → K → Bool) (eq_iff : (a b : K) → (eq a b ≡ true) ↔ (a ≡ b)) (a b : K)
    → eq a b ≡ false
    → eq b a ≡ false
differ eq eq_iff a b h = elim (Bool-cases (eq b a)) [
  | inl same ↦
      (let e : b ≡ a = (eq_iff b a).0 same in let f : eq a b ≡ true = (eq_iff a b).1 (sym e) in cc)
  | inr other ↦ other
]

module _ {K V : Type 0} (eq : K → K → Bool) (eq_iff : (a b : K) → (eq a b ≡ true) ↔ (a ≡ b)) where
  -- No two buckets have the same key.
  abbrev pub Distinct : List (Bucket K V) → Type 0
  Distinct [] = Unit {0}
  Distinct (b ∷ bs) = All (λ c. eq (c.key) (b.key) ≡ false) bs × Distinct bs

  pub find_value-append :
      (key : K) (bs cs : List (Bucket K V))
      → find_value eq key (bs ++ cs) ≡ or_else (find_value eq key bs) (find_value eq key cs)
  unfolding find_value
  find_value-append key [] cs = refl
  find_value-append key (b ∷ bs) cs = elim (Bool-cases (eq (b.key) key)) [
    | inl here ↦ rw here refl
    | inr other ↦ rw other (find_value-append key bs cs)
  ]

  -- A key that is none of the keys is not found.
  pub find_value-none :
      (key : K) (bs : List (Bucket K V))
      → All (λ c. eq (c.key) key ≡ false) bs
      → find_value eq key bs ≡ none
  unfolding find_value
  find_value-none key [] out = refl
  find_value-none key (b ∷ bs) out = rw (out.0) (find_value-none key bs (out.1))

  pub All-of-none :
      (key : K) (bs : List (Bucket K V))
      → find_value eq key bs ≡ none
      → All (λ c. eq (c.key) key ≡ false) bs
  unfolding find_value
  All-of-none key [] h = tt
  All-of-none key (b ∷ bs) h = elim (Bool-cases (eq (b.key) key)) [
    | inl here ↦ cc (rw here at h)
    | inr other ↦ (other, All-of-none key bs (rw other at h))
  ]

  pub old_index-none :
      (key : K) (i : ℕ) (bs : List (Bucket K V)) (found : Option ℕ)
      → find_value eq key bs ≡ none
      → old_index eq key i bs found ≡ found
  unfolding find_value old_index
  old_index-none key i [] found h = refl
  old_index-none key i (b ∷ bs) found h = elim (Bool-cases (eq (b.key) key)) [
    | inl here ↦ cc (rw here at h)
    | inr other ↦ rw other (old_index-none key (i + 1) bs found (rw other at h))
  ]

  -- The bucket of a key, at an index.
  pub record At (key : K) (bs : List (Bucket K V)) (j : ℕ) (v : V) : Type 0 where
    pub bucket : Bucket K V
    pub here : get_elem? bs j ≡ some bucket
    pub keyed : bucket.key ≡ key
    pub valued : bucket.value ≡ v

  pub old_index-some :
      (key : K) (i : ℕ) (bs : List (Bucket K V)) (found : Option ℕ) (v : V)
      → Distinct bs
      → find_value eq key bs ≡ some v
      → (j : ℕ) × (old_index eq key i bs found ≡ some (i + j)) × At key bs j v
  unfolding find_value old_index
  old_index-some key i [] found v d h = absurd cc
  old_index-some key i (b ∷ bs) found v d h = elim (Bool-cases (eq (b.key) key)) [
    | inl here ↦
        (let same : b.key ≡ key = (eq_iff (b.key) key).0 here in
          let out : find_value eq key bs ≡ none = find_value-none key bs (rw same at (d.0)) in
          let start : some i ≡ some (i + 0) = ap some (omega arith) in
          (
            0,
            rw here (old_index-none key (i + 1) bs (some i) out ∙ start),
            record { bucket = b; here = refl; keyed = same; valued = cc (rw here at h) },
          ))
    | inr other ↦
        (let (j, e, a) = old_index-some key (i + 1) bs found v (d.1) (rw other at h) in
          let next : some (i + 1 + j) ≡ some (i + suc j) = ap some (omega arith) in
          (
            suc j,
            rw other (e ∙ next),
            record { bucket = a.bucket; here = a.here; keyed = a.keyed; valued = a.valued },
          ))
  ]

  pub All-get_elem? :
      (P : K → Type 0) (bs : List (Bucket K V)) (j : ℕ) (b : Bucket K V)
      → All (λ c. P (c.key)) bs
      → get_elem? bs j ≡ some b
      → P (b.key)
  All-get_elem? P [] j b a h = absurd cc
  All-get_elem? P (c ∷ bs) zero b a h =
      let same : c ≡ b = cc in subst (λ (x : Bucket K V). P (x.key)) same (a.0)
  All-get_elem? P (c ∷ bs) (suc j) b a h = All-get_elem? P bs j b (a.1) h

  -- A new value leaves what is said of keys.
  pub All-set :
      (P : K → Type 0) (bs : List (Bucket K V)) (j : ℕ) (b : Bucket K V) (v : V)
      → All (λ c. P (c.key)) bs
      → get_elem? bs j ≡ some b
      → All (λ c. P (c.key)) (set bs j (record b { value = v }))
  All-set P [] j b v a h = tt
  All-set P (c ∷ bs) zero b v a h = (All-get_elem? P (c ∷ bs) zero b a h, a.1)
  All-set P (c ∷ bs) (suc j) b v a h = (a.0, All-set P bs j b v (a.1) h)

  pub All-map :
      (P Q : K → Type 0) (bs : List (Bucket K V))
      → ((k : K) → P k → Q k)
      → All (λ c. P (c.key)) bs
      → All (λ c. Q (c.key)) bs
  All-map P Q [] f a = tt
  All-map P Q (c ∷ bs) f a = (f (c.key) (a.0), All-map P Q bs f (a.1))

  pub Distinct-set :
      (bs : List (Bucket K V)) (j : ℕ) (b : Bucket K V) (v : V)
      → Distinct bs
      → get_elem? bs j ≡ some b
      → Distinct (set bs j (record b { value = v }))
  Distinct-set [] j b v d h = tt
  Distinct-set (c ∷ bs) zero b v d h =
      let same : c ≡ b = cc in
      (subst (λ (x : Bucket K V). All (λ y. eq (y.key) (x.key) ≡ false) bs) same (d.0), d.1)
  Distinct-set (c ∷ bs) (suc j) b v d h =
      (All-set (λ k. eq k (c.key) ≡ false) bs j b v (d.0) h, Distinct-set bs j b v (d.1) h)

  pub All-remove_at :
      (P : K → Type 0) (bs : List (Bucket K V)) (j : ℕ)
      → All (λ c. P (c.key)) bs
      → All (λ c. P (c.key)) (remove_at bs j)
  All-remove_at P [] j a = tt
  All-remove_at P (c ∷ bs) zero a = a.1
  All-remove_at P (c ∷ bs) (suc j) a = (a.0, All-remove_at P bs j (a.1))

  pub Distinct-remove_at :
      (bs : List (Bucket K V)) (j : ℕ) → Distinct bs → Distinct (remove_at bs j)
  Distinct-remove_at [] j d = tt
  Distinct-remove_at (c ∷ bs) zero d = d.1
  Distinct-remove_at (c ∷ bs) (suc j) d =
      (All-remove_at (λ k. eq k (c.key) ≡ false) bs j (d.0), Distinct-remove_at bs j (d.1))

  pub All-append :
      (P : K → Type 0) (bs cs : List (Bucket K V))
      → All (λ c. P (c.key)) bs
      → All (λ c. P (c.key)) cs
      → All (λ c. P (c.key)) (bs ++ cs)
  All-append P [] cs a b = b
  All-append P (c ∷ bs) cs a b = (a.0, All-append P bs cs (a.1) b)

  pub Distinct-snoc :
      (bs : List (Bucket K V)) (b : Bucket K V)
      → Distinct bs
      → find_value eq (b.key) bs ≡ none
      → Distinct (bs ++ b ∷ [])
  unfolding find_value
  Distinct-snoc [] b d h = (tt, tt)
  Distinct-snoc (c ∷ bs) b d h = elim (Bool-cases (eq (c.key) (b.key))) [
    | inl here ↦ cc (rw here at h)
    | inr other ↦ (
      All-append (λ k. eq k (c.key) ≡ false) bs (b ∷ []) (d.0)
          (differ eq eq_iff (c.key) (b.key) other, tt),
      Distinct-snoc bs b (d.1) (rw other at h),
    )
  ]

  -- Another key is not that of a bucket behind.
  later :
      (key q : K) (c : Bucket K V) (bs : List (Bucket K V)) (j : ℕ) (v : V)
      → At key bs j v
      → All (λ y. eq (y.key) (c.key) ≡ false) bs
      → eq (c.key) q ≡ true
      → eq key q ≡ false
  later key q c bs j v a out h =
      let same : c.key ≡ q = (eq_iff (c.key) q).0 h in
      let apart : eq (a.bucket.key) (c.key) ≡ false =
        All-get_elem? (λ k. eq k (c.key) ≡ false) bs j (a.bucket) out (a.here) in
      rw (a.keyed, same) at apart

  pub find_value-set :
      (key q : K) (bs : List (Bucket K V)) (j : ℕ) (w v : V) (a : At key bs j w)
      → Distinct bs
      → find_value eq q (set bs j (record (a.bucket) { value = v }))
        ≡ (if eq key q then some v else find_value eq q bs)
  unfolding find_value
  find_value-set key q [] j w v a d = absurd (cc (a.here))
  find_value-set key q (c ∷ bs) zero w v a d =
      let same : c ≡ a.bucket = cc (a.here) in
      let keyed : c.key ≡ key = ap (λ (x : Bucket K V). x.key) same ∙ a.keyed in
      elim (Bool-cases (eq key q)) [
        | inl here ↦ rw (a.keyed, here) refl
        | inr other ↦ rw (a.keyed, keyed, other) refl
      ]
  find_value-set key q (c ∷ bs) (suc j) w v a d =
      let a' : At key bs j w = record {
        bucket = a.bucket;
        here = a.here;
        keyed = a.keyed;
        valued = a.valued;
      } in
      elim (Bool-cases (eq (c.key) q)) [
        | inl here ↦ rw (here, later key q c bs j w a' (d.0) here) refl
        | inr other ↦ rw other (find_value-set key q bs j w v a' (d.1))
      ]

  pub find_value-remove_at :
      (key q : K) (bs : List (Bucket K V)) (j : ℕ) (w : V)
      → At key bs j w
      → Distinct bs
      → find_value eq q (remove_at bs j) ≡ (if eq key q then none else find_value eq q bs)
  unfolding find_value
  find_value-remove_at key q [] j w a d = absurd (cc (a.here))
  find_value-remove_at key q (c ∷ bs) zero w a d =
      let same : c ≡ a.bucket = cc (a.here) in
      let keyed : c.key ≡ key = ap (λ (x : Bucket K V). x.key) same ∙ a.keyed in
      elim (Bool-cases (eq key q)) [
        | inl here ↦
            (let e : c.key ≡ q = keyed ∙ (eq_iff key q).0 here in
              rw here (find_value-none q bs (rw e at (d.0))))
        | inr other ↦ rw (keyed, other) refl
      ]
  find_value-remove_at key q (c ∷ bs) (suc j) w a d =
      let a' : At key bs j w = record {
        bucket = a.bucket;
        here = a.here;
        keyed = a.keyed;
        valued = a.valued;
      } in
      elim (Bool-cases (eq (c.key) q)) [
        | inl here ↦ rw (here, later key q c bs j w a' (d.0) here) refl
        | inr other ↦ rw other (find_value-remove_at key q bs j w a' (d.1))
      ]

  -- A bucket with a new key, at the end.
  pub find_value-snoc :
      (q : K) (bs : List (Bucket K V)) (b : Bucket K V)
      → find_value eq (b.key) bs ≡ none
      → find_value eq q (bs ++ b ∷ [])
        ≡ (if eq (b.key) q then some (b.value) else find_value eq q bs)
  unfolding find_value
  find_value-snoc q bs b h = elim (Bool-cases (eq (b.key) q)) [
    | inl here ↦
        (let e : find_value eq q bs ≡ none =
            subst (λ (k : K). find_value eq k bs ≡ none) ((eq_iff (b.key) q).0 here) h in
          find_value-append q bs (b ∷ []) ∙ rw (e, here) refl)
    | inr other ↦ find_value-append q bs (b ∷ []) ∙ rw other (or_else-none (find_value eq q bs))
  ]
