-- ===== src/SizeClasses/Blocks.antt =====
-- What `init_size_class` makes of every small class: whole pages, whole blocks, enough of them.
use native.Mathlib.Nat.{
  mul-le-mul_left, mul-le-mul_right, le-div_iff_mul-le, div-add-mod', mul-mod_left, mul_assoc,
  le_refl,
}
use lralloc_rs.Common.{
  ℕ, zero, suc, ◌+◌, ◌*◌, ◌/◌, ◌%◌, ◌^◌, ◌≤◌, ◌<◌, ◌≡◌, refl, sym, ap, ◌∙◌, List, [], ◌∷◌, map, ltb,
  Bool-cases, ltb→lt, lt→ltb, le→leb, ltb-false, tail, ap₂, inl, inr, arith, All, Returns, returns,
  bind,
}
use lralloc_rs.MemInfo.{word, max_sz, page, page_ceiling}
use lralloc_rs.MemInfo.Align.{page_ceiling-IsCeiling}
use lralloc_rs.SizeClasses.{
  SizeClassData, u32_mod, small_classes, widen, raise, enlarge, count_blocks, count_all,
  init_size_class, get_size_class,
}
use lralloc_rs.SizeClasses.Lookup.{sizes, IsFirst, fill_lookup-first_fit, first_fit-IsFirst}

-- A class after the first loop.
pub record IsWhole (c : SizeClassData) : Type 0 where
  pub pos : 0 < c.block_size
  pub more : c.block_size < c.sb_size
  pub exact : c.sb_size % c.block_size ≡ 0
  pub paged : c.sb_size % page ≡ 0
  pub small : c.sb_size ≤ 2 ^ 16
  pub fits : c.block_size ≤ max_sz

widen-IsWhole : All IsWhole (map widen small_classes)
unfolding widen
widen-IsWhole = omega arith

-- With enough fuel and no overflow the second loop ends at a multiple of the step not below `max`.
raise_lem :
    (fuel step max m : ℕ)
    → 0 < step
    → max + step ≤ u32_mod
    → max ≤ m * step + fuel
    → (k : ℕ) × (m ≤ k) × (raise fuel step max (m * step) ≡ k * step) × (max ≤ k * step)
unfolding raise
raise_lem zero step max m pos fits enough = (m, omega arith, refl, omega arith)
raise_lem (suc fuel) step max m pos fits enough = elim (Bool-cases (ltb (m * step) max)) [
  | inr done ↦ (m, omega arith, rw done, ground arith)
  | inl more ↦
      let below : m * step < max = ltb→lt (m * step) max more in
      let next : (m * step + step) % u32_mod ≡ (m + 1) * step = omega arith in
      let (k, above, ends, high) = raise_lem fuel step max (m + 1) pos fits (omega arith) in
      (k, omega arith, rw (more, next) ends, high)
]

mul-mod : (k x m : ℕ) → x % m ≡ 0 → k * x % m ≡ 0
mul-mod k x m h =
    let e : x ≡ x / m * m = omega (arith, div-add-mod' x m) in
    ap (λ (t : ℕ). k * t % m) e
    ∙ ap (λ (t : ℕ). t % m) (sym (mul_assoc k (x / m) m))
    ∙ mul-mod_left (k * (x / m)) m

pos_of_mul : (n m : ℕ) → 0 < n * m → 0 < n
pos_of_mul zero m h = absurd (omega arith)
pos_of_mul (suc n) m h = omega arith

-- A class after the second loop: its super block holds `target` blocks, in whole pages.
pub record IsSized (target : ℕ) (c : SizeClassData) : Type 0 where
  pub pos : 0 < c.block_size
  pub exact : c.sb_size % c.block_size ≡ 0
  pub paged : c.sb_size % page ≡ 0
  pub filled : 0 < c.sb_size
  pub enough : target * c.block_size ≤ c.sb_size

-- The bound on TARGET_APF under which no `u32` of the initialisation overflows.
abbrev pub IsModest : ℕ → Type 0
IsModest target = target * max_sz + page + 2 ^ 16 ≤ u32_mod

enlarge-IsSized :
    (target : ℕ) (c : SizeClassData)
    → IsModest target
    → IsWhole c
    → IsSized target (enlarge target c)
unfolding enlarge
enlarge-IsSized target c modest w =
    let asked = target * c.block_size in
    let bound : asked ≤ target * max_sz = mul-le-mul_left target w.fits in
    let kept : asked % word ≡ asked = omega arith in
    let up = page_ceiling-IsCeiling asked (omega arith) in
    let ceil = page_ceiling asked in
    let cut : ceil % u32_mod ≡ ceil = omega (arith, up.least) in
    let one : 1 * c.sb_size ≡ c.sb_size = omega arith in
    let (k, above, ends, high) =
      raise_lem ceil c.sb_size ceil 1 (omega arith) (omega (arith, up.least)) (omega arith) in
    let size : raise ceil c.sb_size ceil c.sb_size ≡ k * c.sb_size = rw one at ends in
    rw (kept, cut, size)
      (record {
        pos = w.pos;
        exact = mul-mod k c.sb_size c.block_size w.exact;
        paged = mul-mod k c.sb_size page w.paged;
        filled = omega (arith, mul-le-mul_right c.sb_size above);
        enough = omega (arith, up.above, high);
      })

-- A class as `init_size_class` leaves it.
pub record IsReady (target : ℕ) (c : SizeClassData) : Type 0 where
  pub pos : 0 < c.block_size
  pub paged : c.sb_size % page ≡ 0
  pub whole : c.block_num * c.block_size ≡ c.sb_size
  pub enough : target ≤ c.block_num
  pub some_block : 0 < c.block_num
  pub cached : c.cache_block_num ≡ c.block_num

count_blocks-IsReady :
    (target : ℕ) (c : SizeClassData)
    → IsSized target c
    → Returns (λ c'. IsReady target c' × (c'.block_size ≡ c.block_size)) (count_blocks c)
unfolding count_blocks
count_blocks-IsReady target c s =
    let n = c.sb_size / c.block_size in
    let whole : n * c.block_size ≡ c.sb_size =
      omega (arith, div-add-mod' c.sb_size c.block_size, s.exact) in
    let enough : target ≤ n = (le-div_iff_mul-le s.pos).1 s.enough in
    let some_block : 0 < n = pos_of_mul n c.block_size (omega (arith, whole, s.filled)) in
    rw (lt→ltb 0 n some_block, le→leb n n (le_refl n))
      (returns (
        record {
          pos = s.pos;
          paged = s.paged;
          whole = whole;
          enough = enough;
          some_block = some_block;
          cached = refl;
        },
        refl,
      ))

count_all-IsReady :
    (target : ℕ) (cs : List SizeClassData)
    → All (IsSized target) cs
    → Returns (λ cs'. All (IsReady target) cs' × (sizes cs' ≡ sizes cs)) (count_all cs)
unfolding count_all
count_all-IsReady target [] h = returns (tt, refl)
count_all-IsReady target (c ∷ cs) h = bind (count_blocks-IsReady target c h.0) λ c' ready.
    bind (count_all-IsReady target cs h.1)
      λ cs' rest. returns ((ready.0, rest.0), ap₂ ◌∷◌ ready.1 rest.1)

All-map-enlarge :
    (target : ℕ) (cs : List SizeClassData)
    → IsModest target
    → All IsWhole cs
    → All (IsSized target) (map (enlarge target) cs)
All-map-enlarge target [] modest h = tt
All-map-enlarge target (c ∷ cs) modest h =
    (enlarge-IsSized target c modest h.0, All-map-enlarge target cs modest h.1)

sizes-enlarge : (target : ℕ) (cs : List SizeClassData) → sizes (map (enlarge target) cs) ≡ sizes cs
unfolding enlarge
sizes-enlarge target [] = refl
sizes-enlarge target (c ∷ cs) = ap (◌∷◌ c.block_size) (sizes-enlarge target cs)

sizes-widen : sizes (map widen small_classes) ≡ sizes small_classes
unfolding widen
sizes-widen = refl

-- What `init_size_class` promises: no assertion fails; every class has whole pages that hold a whole
-- number of blocks, at least `target` of them; and `get_size_class` gives every size up to `max_sz`
-- the first class whose blocks hold it, and 0 to all others.
pub record IsInit (target : ℕ) (r : List SizeClassData × (ℕ → ℕ)) : Type 0 where
  pub ready : All (IsReady target) (tail r.0)
  pub block_sizes : sizes r.0 ≡ 0 ∷ sizes small_classes
  pub found :
      (size : ℕ) → size ≤ max_sz → IsFirst 1 (sizes small_classes) size (get_size_class r.1 size)
  pub large : (size : ℕ) → max_sz < size → get_size_class r.1 size ≡ 0

-- For a TARGET_APF under which no u32 of the initialisation overflows, init_size_class fails no
-- assertion, leaves every small class with whole pages that hold a whole number of blocks, at least
-- TARGET_APF of them, and builds a table with which get_size_class gives every size up to the
-- largest the first class that holds it, and 0 to all others.
pub init_size_class-IsInit :
    (target : ℕ) → IsModest target → Returns (IsInit target) (init_size_class target)
unfolding init_size_class get_size_class
init_size_class-IsInit target modest =
    bind
      (count_all-IsReady target (map (enlarge target) (map widen small_classes))
        (All-map-enlarge target (map widen small_classes) modest widen-IsWhole))
      λ cs ready.
        let same = ready.1 ∙ sizes-enlarge target (map widen small_classes) ∙ sizes-widen in
        returns (record {
          ready = ready.0;
          block_sizes = ap (◌∷◌ 0) same;
          found = λ size h.
              rw
                (
                  ltb-false max_sz size h,
                  fill_lookup-first_fit 0 1 cs (λ _. 0) size,
                  le→leb 0 size (omega arith),
                  same,
                )
                (first_fit-IsFirst 1 (sizes small_classes) size 0 38 (omega arith) h);
          large = λ size h. rw (lt→ltb max_sz size h);
        })
