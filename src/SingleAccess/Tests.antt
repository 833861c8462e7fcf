-- ===== src/SingleAccess/Tests.antt =====
-- Two threads: one runs the function to its end and returns, the other spins.
use lralloc_rs.Common.{ℕ, ◌≤◌, ◌≡◌, refl, true, false}
use lralloc_rs.SingleAccess.{
  in_func, after_func, released, spinning, gone, checked, System, start, goto, check, win, lose,
  complete, release, set_skip, leave, Reachable, begin, next,
}
use lralloc_rs.SingleAccess.Once.{is_busy, runs-le, gone-Completed, spinning-Busy}

abbrev in_race : System
in_race = record (goto 0 in_func (goto 1 checked (goto 0 checked start))) {
  access = true;
  runs = 1;
}

abbrev waiting : System
waiting = goto 1 spinning in_race

waiting-Reachable : Reachable waiting
waiting-Reachable =
    next (next (next (next begin (check 0 refl refl)) (check 1 refl refl)) (win 0 refl refl))
      (lose 1 refl refl)

abbrev ended : System
ended = record (goto 0 after_func waiting) { completed = true }

abbrev opened : System
opened = record (goto 0 released ended) { wait = false }

abbrev skipped : System
skipped = record (goto 0 spinning opened) { skip = true }

left-Reachable : Reachable (goto 0 gone skipped)
left-Reachable =
    next (next (next (next waiting-Reachable (complete 0 refl)) (release 0 refl)) (set_skip 0 refl))
      (leave 0 refl refl)

runs-le_example : (goto 0 gone skipped).runs ≤ 1
runs-le_example = runs-le left-Reachable

gone-Completed_example : (goto 0 gone skipped).completed ≡ true
gone-Completed_example = gone-Completed 0 left-Reachable refl

spinning-Busy_example : (j : ℕ) × (is_busy (waiting.threads j) ≡ true)
spinning-Busy_example = spinning-Busy 1 waiting-Reachable refl refl
