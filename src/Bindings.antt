-- ===== src/Bindings.antt =====
-- apfmalloc/src/lib.rs: the functions of the C library, and the global allocator of Rust programs, on a build for
-- unix. What each call of the allocator is given is an argument. Memory holds a value at each address.
pub mod Calloc
pub mod Aligned
mod Tests
use lralloc_rs.Common.{
  ℕ, ◌+◌, ◌*◌, ◌%◌, Bool, true, false, ◌&&◌, not, ltb, leb, ◌==◌, if◌then◌else◌, update, Outcome,
  returned, panicked, assert, ◌>>=◌, ◌>>◌,
}
use lralloc_rs.MemInfo.{word, align_val}
use lralloc_rs.ThreadCache.{Memory}
use lralloc_rs.Malloc.{Thread, Call, do_malloc, do_aligned_alloc, do_realloc, do_free}

-- The thread that calls, and the statics that record which functions ran.
pub record Library : Type 0 where
  pub thread : Thread
  pub override_malloc : Bool
  pub override_calloc : Bool
  pub override_realloc : Bool
  pub override_free : Bool
  pub override_aligned_alloc : Bool

abbrev pub set_memory : Memory → Thread → Thread
set_memory m t = record t { world = record (t.world) { memory = m } }

unfoldable pub malloc : Call → ℕ → Library → Outcome (ℕ × Library)
malloc call size l = do
  (ptr, t) ← do_malloc call size (l.thread)
  returned (ptr, record l { override_malloc = true; thread = t })

-- the loop of `calloc`, which writes a zero at each address; a write to null ends the program
unfoldable pub zero_fill : ℕ → ℕ → Memory → Outcome Memory
zero_fill ptr n m =
    if ptr == 0 && ltb 0 n
    then panicked
    else returned (λ a. if leb ptr a && ltb a (ptr + n) then 0 else m a)

unfoldable pub calloc : Call → ℕ → ℕ → Library → Outcome (ℕ × Library)
unfolding malloc zero_fill
calloc call num size l =
    let started = record l { override_calloc = true } in
    if leb word (num * size) then returned (0, started) else (do
      (ptr, l') ← malloc call (num * size) started
      m ← zero_fill ptr (num * size) (l'.thread.world.memory)
      returned (ptr, record l' { thread = set_memory m (l'.thread) }))

unfoldable pub realloc : Call → Call → ℕ → ℕ → Library → Outcome (ℕ × Library)
realloc call free_call ptr new_size l = do
  (ret, t) ← do_realloc call free_call ptr new_size (l.thread)
  returned (ret, record l { override_realloc = true; thread = t })

unfoldable pub free : Call → ℕ → Library → Outcome Library
free call ptr l = do
  t ← do_free call ptr (l.thread)
  returned (record l { override_free = true; thread = t })

-- `aligned_alloc`; a remainder by 0 panics
unfoldable pub aligned_alloc : Call → ℕ → ℕ → Library → Outcome (ℕ × Library)
aligned_alloc call alignment size l =
    let started = record l { override_aligned_alloc = true } in
    if alignment == 0
    then panicked
    else if not (size % alignment == 0)
    then returned (0, started)
    else (do_aligned_alloc call alignment size (l.thread) >>= λ r.
        returned (r.0, record started { thread = r.1 }))

-- the error codes of libc
abbrev pub enomem : ℕ
enomem = 12

abbrev pub einval : ℕ
einval = 22

unfoldable pub posix_memalign : Call → ℕ → ℕ → ℕ → Library → Outcome (ℕ × Library)
unfolding aligned_alloc
posix_memalign call ptr alignment size l =
    let started = record l { override_aligned_alloc = true } in
    if not (alignment % 8 == 0) then returned (einval, started) else (do
      (out_ptr, l') ← aligned_alloc call alignment size started
      if ptr == 0
          then returned (enomem, l')
          else returned (
            0,
            record l' {
              thread = set_memory (update (l'.thread.world.memory) ptr out_ptr) (l'.thread);
            },
          ))

-- `check_override` from the reallocation on
unfoldable pub check_later : (ℕ → Call) → ℕ → Library → Outcome (ℕ × Library)
unfolding realloc calloc free
check_later calls ptr l = do
  (new_ptr, l2) ← realloc (calls 1) (calls 2) ptr 64 l
  assert (not (new_ptr == ptr))
  if not (l2.override_realloc) then returned (0, l2) else (do
    (calloced, l3) ← calloc (calls 3) 8 8 l2
    assert (not (new_ptr == calloced))
    if not (l3.override_calloc) then returned (0, l3) else (do
      l4 ← free (calls 4) new_ptr l3
      l5 ← free (calls 5) calloced l4
      returned (if l5.override_free then 1 else 0, l5)))

unfoldable pub check_override : (ℕ → Call) → Library → Outcome (ℕ × Library)
unfolding malloc check_later
check_override calls l = do
  (ptr, l1) ← malloc (calls 0) 8 l
  if not (l1.override_malloc) then returned (0, l1) else check_later calls ptr l1

pub record Layout : Type 0 where
  pub size : ℕ
  pub align : ℕ

-- `RustAllocator`
unfoldable pub rust_alloc : Call → Layout → Library → Outcome (ℕ × Library)
rust_alloc call layout l = do
  (ptr, t) ← do_aligned_alloc call (layout.align) (layout.size) (l.thread)
  returned (ptr, record l { override_aligned_alloc = true; thread = t })

unfoldable pub rust_dealloc : Call → ℕ → Layout → Library → Outcome Library
rust_dealloc call ptr layout l = do
  t ← do_free call ptr (l.thread)
  returned (record l { override_free = true; thread = t })

unfoldable pub rust_alloc_zeroed : Call → Layout → Library → Outcome (ℕ × Library)
unfolding calloc
rust_alloc_zeroed call layout l = calloc call 1 (align_val (layout.size) (layout.align)) l

unfoldable pub rust_realloc : Call → Call → ℕ → Layout → ℕ → Library → Outcome (ℕ × Library)
rust_realloc call free_call ptr layout new_size l = do
  (ret, t) ← do_realloc call free_call ptr (align_val new_size (layout.align)) (l.thread)
  returned (ret, record l { override_realloc = true; thread = t })
