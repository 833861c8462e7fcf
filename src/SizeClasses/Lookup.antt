-- ===== src/SizeClasses/Lookup.antt =====
-- The lookup table of src/size_classes.rs against a search for the first class that is large enough.
use lralloc_rs.Common.{
  ℕ, zero, suc, ◌+◌, ◌-◌, ◌≤◌, ◌<◌, ◌≡◌, List, [], ◌∷◌, map, length, get_or, leb, leb→le, le→leb,
  ◌&&◌, Bool-cases, inl, inr, update, if◌then◌else◌, arith, max,
}
use lralloc_rs.SizeClasses.{SizeClassData, fill_class, fill_lookup}

abbrev pub sizes : List SizeClassData → List ℕ
sizes = map (λ c. c.block_size)

-- The first class from index `n` on whose blocks hold `size` bytes, and `d` if there is none.
abbrev pub first_fit : ℕ → List ℕ → ℕ → ℕ → ℕ
first_fit n [] size d = d
first_fit n (b ∷ bs) size d = if leb size b then n else first_fit (n + 1) bs size d

fill_class_lem :
    (fuel idx b n : ℕ) (t : ℕ → ℕ)
    → b + 1 ≤ idx + fuel
    → ((fill_class fuel idx b n t).0 ≡ max idx (b + 1))
      × ((s : ℕ) → (fill_class fuel idx b n t).1 s ≡ (if leb idx s && leb s b then n else t s))
unfolding fill_class
fill_class_lem zero idx b n t h = (omega arith, λ s. ground arith)
fill_class_lem (suc fuel) idx b n t h = elim (Bool-cases (leb idx b)) [
  | inr past ↦ rw past (ground arith, λ s. ground arith)
  | inl more ↦
      let (at_end, fills) = fill_class_lem fuel (idx + 1) b n (update t idx n) (omega arith) in
      rw more (ground arith, λ s. ground (arith, fills s))
]

-- Filling the table in one pass puts the first class that fits under every size from `idx` on.
pub fill_lookup-first_fit :
    (idx n : ℕ) (cs : List SizeClassData) (t : ℕ → ℕ) (s : ℕ)
    → fill_lookup idx n cs t s ≡ (if leb idx s then first_fit n (sizes cs) s (t s) else t s)
unfolding fill_lookup
fill_lookup-first_fit idx n [] t s = ground arith
fill_lookup-first_fit idx n (c ∷ cs) t s =
    let filled = fill_class (c.block_size + 1) idx c.block_size n t in
    let (next, fills) = fill_class_lem (c.block_size + 1) idx c.block_size n t (omega arith) in
    rw (fill_lookup-first_fit filled.0 (n + 1) cs filled.1 s, next, fills s) (ground arith)

-- `i` is the least index from `n` on at which `bs` holds a number not below `size`.
pub record IsFirst (n : ℕ) (bs : List ℕ) (size i : ℕ) : Type 0 where
  pub from : n ≤ i
  pub inside : i < n + length bs
  pub fits : size ≤ get_or bs (i - n) 0
  pub before : (j : ℕ) → j + n < i → get_or bs j 0 < size

IsFirst-here : (n b : ℕ) (bs : List ℕ) (size : ℕ) → size ≤ b → IsFirst n (b ∷ bs) size n
IsFirst-here n b bs size h =
    let e : n - n ≡ 0 = omega arith in
    record {
      from = omega arith;
      inside = omega arith;
      fits = rw e h;
      before = λ j q. absurd (omega arith);
    }

IsFirst-later :
    (n b : ℕ) (bs : List ℕ) (size i : ℕ)
    → b < size
    → IsFirst (n + 1) bs size i
    → IsFirst n (b ∷ bs) size i
IsFirst-later n b bs size i small f =
    let e : i - n ≡ suc (i - (n + 1)) = omega (arith, f.from) in
    record {
      from = omega (arith, f.from);
      inside = omega (arith, f.inside);
      fits = rw e f.fits;
      before = earlier;
    }
  where
    earlier : (j : ℕ) → j + n < i → get_or (b ∷ bs) j 0 < size
    earlier zero q = small
    earlier (suc j) q = f.before j (omega arith)

pub first_fit-IsFirst :
    (n : ℕ) (bs : List ℕ) (size d k : ℕ)
    → k < length bs
    → size ≤ get_or bs k 0
    → IsFirst n bs size (first_fit n bs size d)
first_fit-IsFirst n [] size d k inside h = absurd (omega arith)
first_fit-IsFirst n (b ∷ bs) size d zero inside h =
    rw (le→leb size b h) (IsFirst-here n b bs size h)
first_fit-IsFirst n (b ∷ bs) size d (suc k) inside h = elim (Bool-cases (leb size b)) [
  | inl here ↦ rw here (IsFirst-here n b bs size (leb→le size b here))
  | inr past ↦ rw past (
      IsFirst-later n b bs size _ (ground arith)
        (first_fit-IsFirst (n + 1) bs size d k (omega arith) h))
]
