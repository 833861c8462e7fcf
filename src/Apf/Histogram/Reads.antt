-- ===== src/Apf/Histogram/Reads.antt =====
-- A histogram is a function from keys to counts.
use lralloc_rs.Common.{
  ℕ, zero, suc, ◌+◌, ◌-◌, ◌*◌, ◌%◌, ◌≤◌, ◌<◌, ◌≡◌, refl, sym, ap, ◌∙◌, true, some, List, [], ◌∷◌,
  ◌++◌, get_elem?, get_or, set, replicate, length, length-append, length-replicate, length-set,
  get_or-set_self, get_or-set_ne, leb, leb→le, ◌==◌, ==_iff, if◌then◌else◌, arith, Returns, returns,
  step, Bool-cases, inl, inr, result,
}
use lralloc_rs.MemInfo.{word}
use lralloc_rs.Apf.Histogram.{Histogram, new_histogram, double, grow, add_at, add, get}

-- The array is as long as `max_key`, which is not 0.
pub record IsHistogram (h : Histogram) : Type 0 where
  pub sized : length (h.histogram) ≡ h.max_key
  pub pos : 0 < h.max_key

get_elem?-get_or : (xs : List ℕ) (i : ℕ) → i < length xs → get_elem? xs i ≡ some (get_or xs i 0)
get_elem?-get_or [] i h = absurd (omega arith)
get_elem?-get_or (x ∷ xs) zero h = refl
get_elem?-get_or (x ∷ xs) (suc i) h = get_elem?-get_or xs i (omega arith)

get_or-zeros : (n i : ℕ) → get_or {A = ℕ} (replicate n 0) i 0 ≡ 0
get_or-zeros zero i = refl
get_or-zeros (suc n) zero = refl
get_or-zeros (suc n) (suc i) = get_or-zeros n i

get_or-out : (xs : List ℕ) (i : ℕ) → length xs ≤ i → get_or xs i 0 ≡ 0
get_or-out [] i h = refl
get_or-out (x ∷ xs) zero h = absurd (omega arith)
get_or-out (x ∷ xs) (suc i) h = get_or-out xs i (omega arith)

get_or-padded : (xs : List ℕ) (n i : ℕ) → get_or (xs ++ replicate n 0) i 0 ≡ get_or xs i 0
get_or-padded [] n i = get_or-zeros n i
get_or-padded (x ∷ xs) n zero = refl
get_or-padded (x ∷ xs) n (suc i) = get_or-padded xs n i

-- A read is a read of the array with zeros behind it.
get-get_or : (h : Histogram) (i : ℕ) → IsHistogram h → get h i ≡ get_or (h.histogram) i 0
unfolding get
get-get_or h i g = elim (Bool-cases (leb (h.max_key) i)) [
  | inl out ↦ rw out (sym (get_or-out (h.histogram) i (rw (g.sized) (leb→le (h.max_key) i out))))
  | inr inside ↦ rw inside refl
]

-- Doubling a number that is not 0 passes the key in as many rounds as the key counts.
double-lt :
    (fuel key output : ℕ)
    → 0 < output
    → key < output + fuel
    → (key < double fuel key output) × (output ≤ double fuel key output)
unfolding double
double-lt zero key output pos more = (omega arith, omega arith)
double-lt (suc fuel) key output pos more = elim (Bool-cases (leb output key)) [
  | inl low ↦
      (let r = double-lt fuel key (output * 2) (omega arith) (omega arith) in
        rw low (r.0, omega (arith, r.1)))
  | inr high ↦ rw high (ground arith, omega arith)
]

-- `grow` makes room for the key and keeps every count.
grow-Reads :
    (key : ℕ) (h : Histogram)
    → IsHistogram h
    → Returns
        (λ h'. IsHistogram h' × (key < h'.max_key) × ((i : ℕ) → get h' i ≡ get h i))
        (grow true key h)
unfolding grow
grow-Reads key h g =
    let d = double-lt (key + 1) key (h.max_key * 2) (omega (arith, g.pos)) (omega arith) in
    let new_max = double (key + 1) key (h.max_key * 2) in
    let h' : Histogram = record {
      histogram = h.histogram ++ replicate (new_max - h.max_key) 0;
      max_key = new_max;
    } in
    let g' : IsHistogram h' = record {
      sized =
          length-append (h.histogram) (replicate (new_max - h.max_key) 0)
          ∙ omega (arith, g.sized, length-replicate {A = ℕ} (new_max - h.max_key) 0, d.1);
      pos = omega (arith, d.0);
    } in
    returns (
      g',
      d.0,
      λ i.
          get-get_or h' i g'
          ∙ get_or-padded (h.histogram) (new_max - h.max_key) i
          ∙ sym (get-get_or h i g),
    )

-- A histogram after an addition.
abbrev pub Added : ℕ → ℕ → Histogram → Histogram → Type 0
Added key val h h' =
    IsHistogram h' × ((i : ℕ) → get h' i ≡ (if i == key then (get h key + val) % word else get h i))

add_at-Reads :
    (key val : ℕ) (h : Histogram)
    → IsHistogram h
    → key < h.max_key
    → Returns (Added key val h) (add_at key val h)
unfolding add_at
add_at-Reads key val h g inside =
    let room : key < length (h.histogram) = omega (arith, g.sized) in
    let v = (get_or (h.histogram) key 0 + val) % word in
    let h' : Histogram = record h { histogram = set (h.histogram) key v } in
    let g' : IsHistogram h' = record {
      sized = length-set (h.histogram) key v ∙ g.sized;
      pos = g.pos;
    } in
    rw (get_elem?-get_or (h.histogram) key room) (
      returns (
        g',
        λ i.
            rw (get-get_or h' i g', get-get_or h i g, get-get_or h key g)
              (elim (Bool-cases (i == key)) [
                | inl same ↦ rw same (
                    ap (λ (t : ℕ). get_or (set (h.histogram) key v) t 0) ((==_iff i key).0 same)
                    ∙ get_or-set_self (h.histogram) key v 0 room)
                | inr other ↦
                    rw other (get_or-set_ne (h.histogram) key i v 0 (λ e. ground (arith, e, other)))
              ]),
      ))

-- Where memory is granted, adding to a histogram returns; it adds to the count of one key, modulo
-- the word, and keeps all others, also when the array grows.
pub add-Reads :
    (key val : ℕ) (h : Histogram) → IsHistogram h → Returns (Added key val h) (add true key val h)
unfolding add
add-Reads key val h g = elim (Bool-cases (leb (h.max_key - 1) key)) [
  | inl full ↦
      (let (h', ran, grown) = result (grow-Reads key h g) in
        let (h'', ran', a) = result (add_at-Reads key val h' grown.0 grown.1) in
        rw full (
          step (add_at key val) ran
            (rw ran' (returns (a.0, λ i. a.1 i ∙ rw (grown.2 i, grown.2 key) refl)))))
  | inr room ↦ rw room (add_at-Reads key val h g (ground arith))
]

-- A new histogram counts nothing.
pub new_histogram-Reads : (i : ℕ) → get new_histogram i ≡ 0
new_histogram-Reads i =
    let g : IsHistogram new_histogram = record { sized = refl; pos = omega arith } in
    get-get_or new_histogram i g ∙ get_or-zeros 32 i

pub new_histogram-IsHistogram : IsHistogram new_histogram
new_histogram-IsHistogram = record { sized = refl; pos = omega arith }
