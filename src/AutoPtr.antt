-- ===== src/AutoPtr.antt =====
-- src/ptr/auto_ptr.rs: a pointer that owns its place, and the allocations for a type of src/lib.rs that
-- it stands on. The type has values of one word, which dropping leaves alone; `align` and `size` are its
-- layout. A write to null ends the program.
pub mod Taken
mod Tests
use lralloc_rs.Common.{
  ℕ, update, Bool, true, false, not, ◌==◌, if◌then◌else◌, Outcome, returned, assert, ◌>>=◌, ◌>>◌,
}
use lralloc_rs.Malloc.{Thread, Call, do_aligned_alloc, do_free}

pub record AutoPtr : Type 0 where
  pub ptr : ℕ

-- `ptr.write`
unfoldable pub write_word : ℕ → ℕ → Thread → Thread
write_word ptr val t = record t {
  world = record (t.world) { memory = update (t.world.memory) ptr val };
}

-- `allocate_val`, with `allocate_type`
unfoldable pub allocate_val : Call → ℕ → ℕ → ℕ → Thread → Outcome (ℕ × Thread)
unfolding write_word
allocate_val call align size val t = do
  (ret, t') ← do_aligned_alloc call align size t
  returned (ret, if ret == 0 then t' else write_word ret val t')

-- `AutoPtr::new`
unfoldable pub new_ptr : Call → ℕ → ℕ → ℕ → Thread → Outcome (AutoPtr × Thread)
unfolding write_word
new_ptr call align size val t = do
  (ptr, t') ← do_aligned_alloc call align size t
  assert (not (ptr == 0))
  returned (record { ptr = ptr }, write_word ptr val t')

-- `deref`
abbrev pub deref : AutoPtr → Thread → ℕ
deref p t = t.world.memory (p.ptr)

unfoldable pub take : Call → AutoPtr → Thread → Outcome (ℕ × Thread)
take call p t = do let output = deref p t; t' ← do_free call (p.ptr) t; returned (output, t')

-- `replace`; `write` forgets the old value
unfoldable pub replace : ℕ → AutoPtr → Thread → ℕ × Thread
unfolding write_word
replace new p t = (deref p t, write_word (p.ptr) new t)

-- `from_ptr`, which `into_ptr` undoes
abbrev pub from_ptr : ℕ → AutoPtr
from_ptr ptr = record { ptr = ptr }

-- `drop`
unfoldable pub drop_ptr : Call → AutoPtr → Thread → Outcome Thread
drop_ptr call p t = do_free call (p.ptr) t

-- `clone`
unfoldable pub clone_ptr : Call → ℕ → ℕ → AutoPtr → Thread → Outcome (AutoPtr × Thread)
unfolding new_ptr
clone_ptr call align size p t = new_ptr call align size (deref p t) t
