-- ===== src/SingleAccess.antt =====
-- src/single_access.rs: the barrier that lets one thread run a function while the others spin. A thread's
-- position in `with` or `with_then` is a program counter, and each read or write of a shared field
-- is a step. The steps are interleaved one at a time: the fields that are no atomics are
-- taken to be read and written in that order.
pub mod Once
mod Tests
use lralloc_rs.Common.{ℕ, ◌+◌, ◌≡◌, Bool, true, false, update}

-- Where a thread is: before the call, behind the test of `skip`, in `func`, behind it, behind the write of
-- `wait`, in `after`, at `while self.wait`, and behind the call.
pub data Pc : Type 0 where
  outside checked in_func after_func released in_after spinning gone : Pc

-- `SingleAccessInternal`, with the threads; `runs` counts the calls of `func`, and `completed` says that one has
-- ended.
pub record System : Type 0 where
  pub access : Bool
  pub wait : Bool
  pub skip : Bool
  pub runs : ℕ
  pub completed : Bool
  pub threads : ℕ → Pc

-- `SingleAccess::new`, before any call
abbrev pub start : System
start = record {
  access = false;
  wait = true;
  skip = false;
  runs = 0;
  completed = false;
  threads = λ _. outside;
}

abbrev pub goto : ℕ → Pc → System → System
goto i pc s = record s { threads = update (s.threads) i pc }

-- `with` and `with_then`
pub data Step : System → System → Type 0 where
  pass : {s : System} (i : ℕ) → s.threads i ≡ outside → s.skip ≡ true → Step s (goto i gone s)
  check : {s : System} (i : ℕ) → s.threads i ≡ outside → s.skip ≡ false → Step s (goto i checked s)
  win :
      {s : System} (i : ℕ)
      → s.threads i ≡ checked
      → s.access ≡ false
      → Step s (record (goto i in_func s) { access = true; runs = s.runs + 1 })
  lose : {s : System} (i : ℕ) → s.threads i ≡ checked → s.access ≡ true → Step s (goto i spinning s)
  complete :
      {s : System} (i : ℕ)
      → s.threads i ≡ in_func
      → Step s (record (goto i after_func s) { completed = true })
  release :
      {s : System} (i : ℕ)
      → s.threads i ≡ after_func
      → Step s (record (goto i released s) { wait = false })
  set_skip :
      {s : System} (i : ℕ)
      → s.threads i ≡ released
      → Step s (record (goto i spinning s) { skip = true })
  set_skip_then :
      {s : System} (i : ℕ)
      → s.threads i ≡ released
      → Step s (record (goto i in_after s) { skip = true })
  end_after : {s : System} (i : ℕ) → s.threads i ≡ in_after → Step s (goto i spinning s)
  spin : {s : System} (i : ℕ) → s.threads i ≡ spinning → s.wait ≡ true → Step s s
  leave : {s : System} (i : ℕ) → s.threads i ≡ spinning → s.wait ≡ false → Step s (goto i gone s)

pub data Reachable : System → Type 0 where
  begin : Reachable start
  next : {s t : System} → Reachable s → Step s t → Reachable t
