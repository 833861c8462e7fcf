-- ===== src/Collections/HashMap.antt =====
-- src/independent_collections/hash_map.rs: a hash map whose buckets are arrays. Arrays are lists here, with memory
-- granted; the hash of a key, `finish` of the default hasher, and the equality of keys are arguments. What points
-- into the map is left out of the results.
pub mod Chain
pub mod Table
pub mod Growth
pub mod Update
mod Tests
use lralloc_rs.Common.{
  ℕ, zero, suc, ◌+◌, ◌-◌, ◌*◌, ◌/◌, ◌%◌, Bool, true, false, ◌&&◌, ◌||◌, not, Option, none, some,
  List, [], ◌∷◌, ◌++◌, length, get_elem?, get_or, set, replicate, ltb, leb, ◌==◌, if◌then◌else◌,
  Outcome, returned, panicked, assert, unwrap, ◌>>=◌, ◌>>◌,
}

pub record Bucket (K V : Type 0) : Type 0 where
  pub hash : ℕ
  pub key : K
  pub value : V

pub record HashMap (K V : Type 0) : Type 0 where
  pub buckets : List (List (Bucket K V))
  pub containers_used : ℕ
  pub len : ℕ

-- `Array::remove` at an index in use
abbrev pub remove_at {ℓ} : {A : Type ℓ} → List A → ℕ → List A
remove_at [] i = []
remove_at (x ∷ xs) zero = xs
remove_at (x ∷ xs) (suc i) = x ∷ remove_at xs i

abbrev pub concat {ℓ} : {A : Type ℓ} → List (List A) → List A
concat [] = []
concat (xs ∷ xss) = xs ++ concat xss

-- `with_capacity`
abbrev pub with_capacity : {K V : Type 0} → ℕ → HashMap K V
with_capacity capacity = record { buckets = replicate capacity []; containers_used = 0; len = 0 }

-- `new`
abbrev pub new_map : {K V : Type 0} → HashMap K V
new_map = with_capacity 1001

-- `spread` below 0.5; that of an empty map is no number, and below nothing
abbrev pub is_crowded : {K V : Type 0} → HashMap K V → Bool
is_crowded m = not (m.len == 0) && ltb (m.containers_used * 2) (m.len)

-- the test of `insert_keep_key`
abbrev pub must_grow : {K V : Type 0} → HashMap K V → Bool
must_grow m =
    leb (length (m.buckets) / 2) (m.len) && is_crowded m || m.len == length (m.buckets) - 1

-- `get_hash` and `get_rehash`, for a number of buckets
abbrev pub home : {K : Type 0} → (K → ℕ) → K → ℕ → ℕ
home hash key capacity = hash key % capacity

module _ {K V : Type 0} (hash : K → ℕ) where
  -- the bucket array of a key; without any the remainder panics
  unfoldable pub buckets_of : K → HashMap K V → Outcome (List (Bucket K V))
  buckets_of key m = unwrap (get_elem? m.buckets (home hash key (length (m.buckets))))

  -- the body of the loop of `grow`
  unfoldable pub place :
      ℕ → Bucket K V → List (List (Bucket K V)) × ℕ → List (List (Bucket K V)) × ℕ
  place new_capacity bucket (arrays, used) =
      let new_hash = home hash (bucket.key) new_capacity in
      let array = get_or arrays new_hash [] in
      (
        set arrays new_hash (array ++ record bucket { hash = new_hash } ∷ []),
        if length array == 0 then used + 1 else used,
      )

  unfoldable pub place_all :
      ℕ → List (Bucket K V) → List (List (Bucket K V)) × ℕ → List (List (Bucket K V)) × ℕ
  unfolding place
  place_all new_capacity [] r = r
  place_all new_capacity (b ∷ bs) r = place_all new_capacity bs (place new_capacity b r)

  unfoldable pub grow : HashMap K V → HashMap K V
  unfolding place_all
  grow m =
      let new_capacity = length (m.buckets) * 2 + 1 in
      let r = place_all new_capacity (concat (m.buckets)) (replicate new_capacity [], 0) in
      record m { buckets = r.0; containers_used = r.1 }

module _ {K V : Type 0} (eq : K → K → Bool) where
  -- the loop that looks for the key, from an index on; the last match counts
  unfoldable pub old_index : K → ℕ → List (Bucket K V) → Option ℕ → Option ℕ
  old_index key index [] found = found
  old_index key index (b ∷ bs) found =
      old_index key (index + 1) bs (if eq (b.key) key then some index else found)

  -- the loop of `get`
  unfoldable pub find_value : K → List (Bucket K V) → Option V
  find_value key [] = none
  find_value key (b ∷ bs) = if eq (b.key) key then some (b.value) else find_value key bs

module _ {K V : Type 0} (hash : K → ℕ) (eq : K → K → Bool) where
  -- `insert_keep_key` behind the growth; `insert` is its value
  unfoldable pub insert_grown : K → V → HashMap K V → Outcome (Option V × HashMap K V)
  unfolding buckets_of old_index
  insert_grown key value m = do
    buckets ← buckets_of hash key m
    let index = home hash key (length (m.buckets))
    let used = if length buckets == 0 then m.containers_used + 1 else m.containers_used
    elim (old_index eq key 0 buckets none) [
      | none ↦ returned (
        none,
        record {
          buckets =
              set (m.buckets) index
                (buckets ++ record { hash = index; key = key; value = value } ∷ []);
          containers_used = used;
          len = m.len + 1;
        },
      )
      | some i ↦ unwrap (get_elem? buckets i) >>= λ bucket. returned (
        some (bucket.value),
        record {
          buckets = set (m.buckets) index (set buckets i (record bucket { value = value }));
          containers_used = used;
          len = m.len + 1;
        },
      )
    ]

  unfoldable pub insert : K → V → HashMap K V → Outcome (Option V × HashMap K V)
  insert key value m = do
    assert (ltb 0 (length (m.buckets)))
    insert_grown key value (if must_grow m then grow hash m else m)

  -- `replace`; no value stands for `Err(())`
  unfoldable pub replace : K → V → HashMap K V → Outcome (Option V × HashMap K V)
  unfolding buckets_of old_index
  replace key value m = do
    buckets ← buckets_of hash key m
    let index = home hash key (length (m.buckets))
    elim (old_index eq key 0 buckets none) [
      | none ↦ returned (none, m)
      | some i ↦ unwrap (get_elem? buckets i) >>= λ bucket. returned (
        some (bucket.value),
        record m {
          buckets = set (m.buckets) index (set buckets i (record bucket { value = value }));
        },
      )
    ]

  -- `get`
  unfoldable pub get_value : K → HashMap K V → Outcome (Option V)
  unfolding buckets_of find_value
  get_value key m = do buckets ← buckets_of hash key m; returned (find_value eq key buckets)

  unfoldable pub contains : K → HashMap K V → Outcome Bool
  unfolding buckets_of find_value
  contains key m = do
    buckets ← buckets_of hash key m
    returned (elim (find_value eq key buckets) [ none ↦ false | some v ↦ true ])

  unfoldable pub remove_key : K → HashMap K V → Outcome (Option V × HashMap K V)
  unfolding buckets_of old_index
  remove_key key m = do
    buckets ← buckets_of hash key m
    assert (ltb 0 (m.len))
    let index = home hash key (length (m.buckets))
    let shorter = m.len - 1
    elim (old_index eq key 0 buckets none) [
      | none ↦ returned (none, record m { len = shorter })
      | some i ↦ unwrap (get_elem? buckets i) >>= λ bucket. returned (
        some (bucket.value),
        record m { buckets = set (m.buckets) index (remove_at buckets i); len = shorter },
      )
    ]

  -- `entry` and `or_insert`: the value that the reference leads to
  unfoldable pub or_insert : K → V → HashMap K V → Outcome (V × HashMap K V)
  unfolding get_value insert
  or_insert key value m = do
    present ← get_value key m
    elim present [
      | some v ↦ returned (v, m)
      | none ↦ (do
        (old, m') ← insert key value m
        now ← get_value key m'
        v ← unwrap now
        returned (v, m'))
    ]
