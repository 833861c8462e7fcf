-- ===== src/Malloc/Init.antt =====
-- `init_malloc` of src/lib.rs, with `init` of src/page_map.rs: what the program starts with.
use lralloc_rs.Common.{
  ℕ, zero, suc, ◌+◌, ◌*◌, ◌≤◌, ◌<◌, ◌≡◌, refl, sym, ap, ◌∙◌, Bool, true, false, Option, none, some,
  List, [], ◌∷◌, length, get_elem?, ltb, ◌==◌, ==_iff, if◌then◌else◌, update, arith, Outcome,
  returned, unwrap, ◌>>=◌, Returns, returns, bind, weaken, Bool-cases, inl, inr,
}
use mathlib.Core.Path.{subst}
use lralloc_rs.MemInfo.{max_sz_idx}
use lralloc_rs.SizeClasses.{SizeClassData, init_size_class}
use lralloc_rs.SizeClasses.Lookup.{sizes}
use lralloc_rs.SizeClasses.Blocks.{IsInit, IsModest, init_size_class-IsInit}
use lralloc_rs.AllocationData.Desc.{Segment}
use lralloc_rs.PageMap.{get_page_info, get_desc}
use lralloc_rs.Alloc.{World, heap_size, get_heap_at_mut, new_none}
use lralloc_rs.Alloc.Partial.{IsPartial}
use lralloc_rs.Alloc.Fresh.{IsSetUp}
use lralloc_rs.Bootstrap.{init}
use lralloc_rs.Malloc.{Thread}

-- the loop over the heaps, for `rounds` of them from `idx` on
unfoldable pub init_heaps : ℕ → ℕ → World → Outcome World
init_heaps zero idx w = returned w
init_heaps (suc rounds) idx w = do
  heap ← get_heap_at_mut idx w
  init_heaps rounds (idx + 1) (record w { heaps = update (w.heaps) heap (new_none idx) })

-- The page map is memory from the kernel, which is zeroed; `off` says that USE_APF is set to "false".
unfoldable pub init_malloc : ℕ → Bool → Option Segment → Option Segment → Thread → Outcome Thread
unfolding init_heaps
init_malloc target_apf off map_answer segment t = do
  (classes, table) ← init_size_class target_apf
  mapped ← unwrap map_answer
  w ← init_heaps max_sz_idx 0 (record (t.world) { classes = classes; pages = λ _. 0 })
  reserve ← init segment (t.bootstrap)
  returned (record t {
    world = w;
    table = table;
    use_apf = if off then false else t.use_apf;
    bootstrap = reserve;
  })

-- The heaps below `n` are those of their classes, with empty lists.
record HeapsUp (n : ℕ) (w : World) : Type 0 where
  up : (i : ℕ) → i < n → w.heaps (w.heaps_at + i * heap_size) ≡ new_none i

init_heaps-HeapsUp :
    (rounds idx : ℕ) (w : World)
    → idx + rounds ≤ max_sz_idx
    → HeapsUp idx w
    → Returns
        (λ w'.
          HeapsUp (idx + rounds) w'
          × (w'.heaps_at ≡ w.heaps_at)
          × (w'.classes ≡ w.classes)
          × (w'.pages ≡ w.pages))
        (init_heaps rounds idx w)
unfolding init_heaps get_heap_at_mut
init_heaps-HeapsUp zero idx w fits h =
    returns (record { up = λ i q. h.up i (omega arith) }, refl, refl, refl)
init_heaps-HeapsUp (suc rounds) idx w fits h =
    let inside : ltb idx max_sz_idx ≡ true = ground arith in
    rw inside (
      weaken (λ w' r. (record { up = λ i q. r.0.up i (omega arith) }, r.1, r.2, r.3))
        (init_heaps-HeapsUp rounds (idx + 1)
          (record w { heaps = update (w.heaps) (w.heaps_at + idx * heap_size) (new_none idx) })
          (omega arith)
          (record {
            up = λ i q. elim (Bool-cases (i == idx)) [
              | inl last ↦
                  (let e : i ≡ idx = (==_iff i idx).0 last in
                    let here : (w.heaps_at + i * heap_size == w.heaps_at + idx * heap_size) ≡ true =
                      ground (arith, e) in
                    rw here (ap new_none (sym e)))
              | inr before ↦
                  (let other : (w.heaps_at + i * heap_size == w.heaps_at + idx * heap_size)
                        ≡ false =
                      ground (arith, before) in
                    rw other (h.up i (ground (arith, before))))
            ];
          })))

get_elem?-inside :
    {A : Type 0} (xs : List A) (i : ℕ) → i < length xs → (a : A) × (get_elem? xs i ≡ some a)
get_elem?-inside [] i q = absurd (omega arith)
get_elem?-inside (x ∷ xs) zero q = (x, refl)
get_elem?-inside (x ∷ xs) (suc i) q = get_elem?-inside xs i (omega arith)

length-sizes : (cs : List SizeClassData) → length (sizes cs) ≡ length cs
length-sizes [] = refl
length-sizes (c ∷ cs) = ap suc (length-sizes cs)

-- What holds after `init_malloc`: every class and its heap are set up, no super block is partly used,
-- the classes and the lookup table are those of `init_size_class`, and no page leads to a descriptor.
pub record IsUp (target : ℕ) (t : Thread) : Type 0 where
  pub set_up :
      (index : ℕ)
      → index < max_sz_idx
      → (sc : SizeClassData) × IsSetUp index sc t.world
        × IsPartial (t.world.heaps_at + index * heap_size) t.world []
  pub sized : IsInit target (t.world.classes, t.table)
  pub unmapped : (ptr : ℕ) → get_desc (get_page_info (t.world.pages) ptr) ≡ none

-- For a TARGET_APF under which no u32 overflows, where the kernel grants the page map and the
-- segment of the bootstrap reserve: init_malloc returns, every class and its heap are set up with
-- an empty partial list, classes and lookup table are as init_size_class makes them, and the page
-- map leads from no pointer to a descriptor.
pub init_malloc-IsUp :
    (target : ℕ) (off : Bool) (page_map segment : Segment) (t : Thread)
    → IsModest target
    → 0 < t.world.heaps_at
    → Returns (IsUp target) (init_malloc target off (some page_map) (some segment) t)
unfolding init_malloc init get_page_info get_desc
init_malloc-IsUp target off page_map segment t modest placed =
    bind (init_size_class-IsInit target modest) λ r sized.
      bind
        (init_heaps-HeapsUp max_sz_idx 0 (record (t.world) { classes = r.0; pages = λ _. 0 })
          (omega arith) (record { up = λ i q. absurd (omega arith) }))
        λ w h.
          let count : length (r.0) ≡ max_sz_idx =
            sym (length-sizes (r.0)) ∙ ap length (sized.block_sizes) in
          returns (record {
            set_up = λ index q.
                let (sc, class) = get_elem?-inside (r.0) index (omega (arith, q, count)) in
                let up = h.0.up index q in
                (
                  sc,
                  record {
                    inside = q;
                    class = ap (λ cs. get_elem? cs index) h.2 ∙ class;
                    heap = ap (λ heap. heap.size_class_index) up;
                    ne_null = omega (arith, h.1);
                  },
                  ap (λ heap. heap.partial_list) up,
                );
            sized = subst (λ cs. IsInit target (cs, r.1)) (sym h.2) sized;
            unmapped = λ ptr. rw h.3 refl;
          })
