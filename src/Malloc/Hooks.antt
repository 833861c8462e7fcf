-- ===== src/Malloc/Hooks.antt =====
-- src/thread_cache.rs: the hooks that the tuners call on the bins of their thread, and the parts of malloc and
-- free in src/lib.rs that call the tuners. A tuner's own allocations are left out.
pub mod Returned
pub mod Fetched
use lralloc_rs.Common.{
  ℕ, zero, suc, ◌+◌, ◌-◌, Bool, true, false, Option, none, some, List, [], ◌∷◌, ◌++◌, get_elem?,
  set, ltb, leb, ◌==◌, if◌then◌else◌, Outcome, returned, panicked, assert, unwrap, ◌>>=◌, ◌>>◌,
  ◌&&◌, not,
}
use lralloc_rs.MemInfo.{max_sz_idx}
use lralloc_rs.AllocationData.Desc.{Segment}
use lralloc_rs.ThreadCache.{Memory, ThreadCacheBin, pop_block}
use lralloc_rs.Alloc.{World}
use lralloc_rs.Alloc.Counted.{malloc_count_from_partial, malloc_count_from_new_sb}
use lralloc_rs.Apf.Tuner.{Hooks, Settings, ApfTuner, new_tuner, tuner_malloc, tuner_free}
use lralloc_rs.Malloc.State.{Tuning, Thread, Call}

-- `check`
unfoldable pub check : ℕ → Thread → Outcome ℕ
check size_class_index t =
    unwrap (get_elem? t.bins size_class_index) >>= λ bin. returned (bin.block_num)

-- The loop of `fetch`, from a round on; without a value the fuel has run out.
unfoldable pub fetch_loop :
    Call → ℕ → ℕ → ℕ → ℕ → ThreadCacheBin → ℕ → World → Outcome (Option (ThreadCacheBin × World))
fetch_loop call zero round index count cache block_num w =
    if ltb block_num count then returned none else returned (some (cache, w))
fetch_loop call (suc fuel) round index count cache block_num w =
    let rest =
      malloc_count_from_new_sb (call.no_met_stack) (call.fetch_pages round)
        (call.fetch_segments round) index cache block_num count w
      >>= λ r. fetch_loop call fuel (round + 1) index count r.0 r.1 r.2 in
    if ltb block_num count then rest else returned (some (cache, w))

-- `fetch`; two rounds are enough
unfoldable pub fetch : Call → ℕ → ℕ → Thread → Outcome Thread
unfolding fetch_loop
fetch call index count t = do
  cache ← unwrap (get_elem? t.bins index)
  (cache', block_num, w) ←
      malloc_count_from_partial (call.no_met_stack) (call.fuel) index cache 0 count (t.world)
  fetched ← fetch_loop call 2 0 index count cache' block_num w
  (cache'', w') ← unwrap fetched
  returned (record t { world = w'; bins = set (t.bins) index cache'' })

-- the loop of `ret`
unfoldable pub pop_blocks :
    (no_met_stack : Bool) → ℕ → ThreadCacheBin → Memory → Outcome ThreadCacheBin
pop_blocks no_met_stack zero cache m = returned cache
pop_blocks no_met_stack (suc rounds) cache m =
    pop_block no_met_stack cache m >>= λ r. pop_blocks no_met_stack rounds r.1 m

-- `ret`
unfoldable pub ret : Call → ℕ → ℕ → Thread → Outcome Thread
unfolding pop_blocks
ret call index count t = do
  cache ← unwrap (get_elem? t.bins index)
  assert (leb count (cache.block_num))
  cache' ← pop_blocks (call.no_met_stack) count cache (t.world.memory)
  returned (record t { bins = set (t.bins) index cache' })

abbrev pub thread_hooks : Call → Hooks Thread
thread_hooks call = record { check = check; get = fetch call; ret = ret call }

-- `no_tuning`
unfoldable pub no_tuning : (Tuning → Tuning) → Tuning → Tuning
no_tuning func b =
    let b' = func (record b { skip_tuners = b.skip_tuners + 1 }) in
    if ltb 0 (b'.skip_tuners) then record b' { skip_tuners = b'.skip_tuners - 1 } else b'

abbrev pub recorded_sc : ℕ
recorded_sc = 41

-- the tuners for `rounds` classes, from class i on
unfoldable pub new_tuners : Settings → ℕ → ℕ → List ApfTuner
new_tuners settings zero i = []
new_tuners settings (suc rounds) i =
    new_tuner settings i (i == recorded_sc) ∷ new_tuners settings rounds (i + 1)

unfoldable pub init_tuners : Settings → Tuning → Tuning
unfolding no_tuning new_tuners
init_tuners settings = no_tuning (λ b. record b {
  apf_tuners = b.apf_tuners ++ new_tuners settings max_sz_idx 0;
  apf_init = true;
  skip_tuners = 0;
})

-- what the first allocation of a thread does
unfoldable pub start_tuning : Settings → Tuning → Tuning
unfolding init_tuners
start_tuning settings b =
    if b.skip
    then b
    else if b.apf_init
    then record b { skip = true }
    else record (init_tuners settings (record b { skip = true })) { apf_init = true }

abbrev set_tuner : ℕ → Bool × ApfTuner × Thread → Thread
set_tuner index (told, tuner, t) = record t {
  tuning = record (t.tuning) { apf_tuners = set (t.tuning.apf_tuners) index tuner };
}

-- the part of `allocate_to_cache` behind the block's pop
unfoldable pub tune_malloc : Call → ℕ → ℕ → Thread → Outcome Thread
unfolding start_tuning
tune_malloc call index ptr t =
    let started = record t { tuning = start_tuning (call.settings) (t.tuning) } in
    if not (t.use_apf)
    then returned t
    else if started.tuning.skip_tuners == 0
    then (unwrap (get_elem? started.tuning.apf_tuners index) >>= λ tuner.
        tuner_malloc (thread_hooks call) (call.settings) ptr tuner started >>= λ r.
        returned (set_tuner index r))
    else returned started

-- the part of `do_free` in front of the block's push
unfoldable pub tune_free : Call → ℕ → ℕ → Thread → Outcome Thread
tune_free call index ptr t =
    if t.use_apf && t.tuning.apf_init && t.tuning.skip_tuners == 0
    then (unwrap (get_elem? t.tuning.apf_tuners index) >>= λ tuner.
        tuner_free (thread_hooks call) (call.settings) ptr tuner t >>= λ r.
        returned (set_tuner index r))
    else returned t
