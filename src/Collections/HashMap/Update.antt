-- ===== src/Collections/HashMap/Update.antt =====
-- Insertion and removal change the map at one key, and the count whether the key was there or not.
use lralloc_rs.Common.{
  ℕ, ◌+◌, ◌-◌, ◌<◌, ◌≡◌, ◌↔◌, refl, sym, ap, ◌∙◌, Bool, true, Option, none, some, List, [], ◌∷◌,
  ◌++◌, All, length, length-set, get_or, set, ◌==◌, ltb, lt→ltb, if◌then◌else◌, arith, Returns,
  returns, result, step, Bool-cases, Option-cases, inl, inr,
}
use mathlib.Core.Path.{subst}
use native.Mathlib.Nat.{mod-lt}
use lralloc_rs.Collections.HashMap.{
  Bucket, HashMap, home, find_value, insert_grown, must_grow, grow, insert, remove_key, remove_at,
}
use lralloc_rs.Collections.HashMap.Chain.{
  Distinct, All-append, All-set, All-remove_at, Distinct-set, Distinct-remove_at, Distinct-snoc,
  old_index-none, old_index-some, find_value-set, find_value-remove_at, find_value-snoc,
}
use lralloc_rs.Collections.HashMap.Table.{
  Placed, Placed-get_or, Placed-set, value_in, value_in-set, IsValid, value_of, buckets_of-IsValid,
}
use lralloc_rs.Collections.HashMap.Growth.{grow-IsValid}

module _ {K V : Type 0} (hash : K → ℕ) (eq : K → K → Bool)
    (eq_iff : (a b : K) → (eq a b ≡ true) ↔ (a ≡ b)) where
  -- The old value is returned, and the key has the new one in a valid map.
  pub record Updates (key : K) (o : Option V) (m : HashMap K V) (r : Option V × HashMap K V)
      : Type 0 where
    pub old : r.0 ≡ value_of hash eq eq_iff key m
    pub valid : IsValid hash eq eq_iff (r.1)
    pub values :
        (q : K)
        → value_of hash eq eq_iff q (r.1) ≡ (if eq key q then o else value_of hash eq eq_iff q m)

  -- A new array for a key.
  array-Updates :
      (key : K) (o : Option V) (m : HashMap K V) (new : List (Bucket K V)) (used len : ℕ)
      → IsValid hash eq eq_iff m
      → All (λ c. home hash (c.key) (length (m.buckets)) ≡ home hash key (length (m.buckets))) new
      → Distinct eq eq_iff new
      → ((q : K)
          → find_value eq q new ≡ (
              if eq key q
              then o
              else find_value eq q (get_or (m.buckets) (home hash key (length (m.buckets))) [])))
      → Updates key o m (
        value_of hash eq eq_iff key m,
        record {
          buckets = set (m.buckets) (home hash key (length (m.buckets))) new;
          containers_used = used;
          len = len;
        },
      )
  unfolding value_of
  array-Updates key o m new used len v a d e =
      let n = length (m.buckets) in
      let index = home hash key n in
      let sized : length (set (m.buckets) index new) ≡ n = length-set (m.buckets) index new in
      let start : index ≡ 0 + index = omega arith in
      record {
        old = refl;
        valid = record {
          roomy = omega (arith, sized, v.roomy);
          placed =
              subst (λ (x : ℕ). Placed hash eq eq_iff x 0 (set (m.buckets) index new)) (sym sized)
                (Placed-set hash eq eq_iff n 0 index (m.buckets) new (v.placed)
                  (subst (λ (x : ℕ). All (λ c. home hash (c.key) n ≡ x) new) start a) d);
        };
        values = λ q.
            ap (λ (x : ℕ). value_in hash eq eq_iff q x (set (m.buckets) index new)) sized
            ∙ value_in-set hash eq eq_iff key q n (m.buckets) new o (mod-lt (hash key) (v.roomy))
                (e q);
      }

  module _ (key : K) (m : HashMap K V) (v : IsValid hash eq eq_iff m) where
    -- the array of the key
    abbrev array : List (Bucket K V)
    array = get_or (m.buckets) (home hash key (length (m.buckets))) []

    array_lem :
        All (λ c. home hash (c.key) (length (m.buckets)) ≡ home hash key (length (m.buckets))) array
        × Distinct eq eq_iff array
    array_lem =
        let index = home hash key (length (m.buckets)) in
        let p = Placed-get_or hash eq eq_iff (length (m.buckets)) 0 index (m.buckets) (v.placed) in
        let start : 0 + index ≡ index = omega arith in
        (
          subst (λ (x : ℕ). All (λ c. home hash (c.key) (length (m.buckets)) ≡ x) array) start
              (p.0),
          p.1,
        )

    insert_grown-Updates :
        (value : V)
        → Returns
            (λ r. Updates key (some value) m r × (r.1.len ≡ m.len + 1))
            (insert_grown hash eq key value m)
    unfolding insert_grown value_of find_value
    insert_grown-Updates value =
        let n = length (m.buckets) in
        let index = home hash key n in
        let used : ℕ = if length array == 0 then m.containers_used + 1 else m.containers_used in
        let (homes, d) = array_lem in
        elim (Option-cases (find_value eq key array)) [
          | inl h ↦
              (let b : Bucket K V = record { hash = index; key = key; value = value } in
                let u =
                  array-Updates key (some value) m (array ++ b ∷ []) used (m.len + 1) v
                    (All-append eq eq_iff (λ k. home hash k n ≡ index) array (b ∷ []) homes
                      (refl, tt))
                    (Distinct-snoc eq eq_iff array b d h)
                    (λ q. find_value-snoc eq eq_iff q array b h) in
                step _ (buckets_of-IsValid hash eq eq_iff key m v) (
                  rw (old_index-none eq eq_iff key 0 array none h)
                    (returns (record { old = sym h; valid = u.valid; values = u.values }, refl))))
          | inr (w, h) ↦
              (let (j, e, a) = old_index-some eq eq_iff key 0 array none w d h in
                let at_j : some (0 + j) ≡ some j = ap some (omega arith) in
                let b = a.bucket in
                let u =
                  array-Updates key (some value) m (set array j (record b { value = value })) used
                    (m.len + 1) v
                    (All-set eq eq_iff (λ k. home hash k n ≡ index) array j b value homes (a.here))
                    (Distinct-set eq eq_iff array j b value d (a.here))
                    (λ q. find_value-set eq eq_iff key q array j w value a d) in
                step _ (buckets_of-IsValid hash eq eq_iff key m v) (
                  rw (e ∙ at_j, a.here)
                    (returns (
                      record {
                        old = ap some (a.valued) ∙ sym h;
                        valid = u.valid;
                        values = u.values;
                      },
                      refl,
                    ))))
        ]

    -- Removing a key that is not there changes no value.
    absent :
        find_value eq key array ≡ none
        → (q : K)
        → value_of hash eq eq_iff q m ≡ (if eq key q then none else value_of hash eq eq_iff q m)
    unfolding value_of
    absent h q = elim (Bool-cases (eq key q)) [
      | inl here ↦
          rw here (subst (λ (k : K). value_of hash eq eq_iff k m ≡ none) ((eq_iff key q).0 here) h)
      | inr other ↦ rw other refl
    ]

    -- For keys that are equal only if they are the same, removing a key from a valid map whose
    -- count is not 0 returns its old value, and gives a valid map without the key and with the old
    -- values for all others, whose count is one less whether the key was there or not.
    pub remove_key-Updates :
        0 < m.len
        → Returns (λ r. Updates key none m r × (r.1.len + 1 ≡ m.len)) (remove_key hash eq key m)
    unfolding remove_key value_of find_value
    remove_key-Updates some_left =
        let n = length (m.buckets) in
        let index = home hash key n in
        let (homes, d) = array_lem in
        let counts : ltb 0 (m.len) ≡ true = lt→ltb 0 (m.len) some_left in
        elim (Option-cases (find_value eq key array)) [
          | inl h ↦
              rw
                (
                  buckets_of-IsValid hash eq eq_iff key m v,
                  counts,
                  old_index-none eq eq_iff key 0 array none h,
                )
                (returns (
                  record {
                    old = sym h;
                    valid = record { roomy = v.roomy; placed = v.placed };
                    values = absent h;
                  },
                  omega arith,
                ))
          | inr (w, h) ↦
              (let (j, e, a) = old_index-some eq eq_iff key 0 array none w d h in
                let at_j : some (0 + j) ≡ some j = ap some (omega arith) in
                let u =
                  array-Updates key none m (remove_at array j) (m.containers_used) (m.len - 1) v
                    (All-remove_at eq eq_iff (λ k. home hash k n ≡ index) array j homes)
                    (Distinct-remove_at eq eq_iff array j d)
                    (λ q. find_value-remove_at eq eq_iff key q array j w a d) in
                rw (buckets_of-IsValid hash eq eq_iff key m v, counts, e ∙ at_j, a.here)
                  (returns (
                    record { old = ap some (a.valued) ∙ sym h; valid = u.valid; values = u.values },
                    omega arith,
                  )))
        ]

  -- For keys that are equal only if they are the same, inserting into a valid map returns, also
  -- when it grows; it returns the old value of the key, and gives a valid map with the new value
  -- for the key and the old values for all others, whose count is one more whether the key was
  -- there or not.
  pub insert-Updates :
      (key : K) (value : V) (m : HashMap K V)
      → IsValid hash eq eq_iff m
      → Returns
          (λ r. Updates key (some value) m r × (r.1.len ≡ m.len + 1))
          (insert hash eq key value m)
  unfolding insert
  insert-Updates key value m v =
      let roomy : ltb 0 (length (m.buckets)) ≡ true = lt→ltb 0 (length (m.buckets)) (v.roomy) in
      elim (Bool-cases (must_grow m)) [
        | inl full ↦
            (let (v', len, same) = grow-IsValid hash eq eq_iff m v in
              let (r, ran, u) = result (insert_grown-Updates key (grow hash m) v' value) in
              rw (roomy, full, ran)
                (returns (
                  record {
                    old = u.0.old ∙ same key;
                    valid = u.0.valid;
                    values = λ q.
                        u.0.values q
                        ∙ ap (λ (o : Option V). if eq key q then some value else o) (same q);
                  },
                  u.1 ∙ ap (λ (n : ℕ). n + 1) len,
                )))
        | inr room ↦ rw (roomy, room) (insert_grown-Updates key m v value)
      ]
