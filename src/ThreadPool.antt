-- ===== src/ThreadPool.antt =====
-- util/threadpool.c: the queue of jobs, the workers that take jobs from it, and the signals that put
-- jobs into it. A job is its address. Each section under a job's mutex is one step, and so is each
-- section under `job_mutex` alone: a job's counter is touched only under the job's mutex, and the
-- section of a push is the only other effect of the section around it. The steps of the workers and
-- the callers interleave in any order; `pthread_cond_wait` is a place of its own. `signals` and `calls` count the calls of `do_job` and of the
-- callback; the code does not keep them.
pub mod Invariant
pub mod Safety
pub mod Progress
mod Tests
use kvmc.Prelude.{
  ◌<◌, ◌≢◌, length, ℕ, suc, ◌+◌, ◌-◌, ◌≡◌, List, [], ◌∷◌, ◌++◌, Bool, true, false, Option, none,
  some, ltb, ◌==◌, if◌then◌else◌, get_elem?, set, replicate,
}

-- A function with one value replaced.
abbrev pub update : (ℕ → ℕ) → ℕ → ℕ → ℕ → ℕ
update f j v k = if k == j then v else f k

-- `head`, the jobs' `signalcount`, and `running`.
pub record JobPool : Type 0 where
  pub head : List ℕ
  pub signalcount : ℕ → ℕ
  pub running : Bool

-- `thread_pool__job_pop_locked` and `thread_pool__job_pop`: the job, or NULL.
pub job_pop : JobPool → Option ℕ × JobPool
job_pop p = elim p.head [ [] ↦ (none, p) | j ∷ js ↦ (some j, record p { head = js }) ]

-- `thread_pool__job_push`
pub job_push : ℕ → JobPool → JobPool
job_push j p = record p { head = p.head ++ (j ∷ []) }

-- The section of `thread_pool__do_job` under the job's mutex.
pub signal_job : ℕ → JobPool → JobPool
unfolding job_push
signal_job j p =
    let counted = record p { signalcount = update p.signalcount j (p.signalcount j + 1) } in
    if p.signalcount j == 0 then job_push j counted else counted

-- The section of `thread_pool__handle_job` under the job's mutex, behind the callback.
pub finish_job : ℕ → JobPool → JobPool
unfolding job_push
finish_job j p =
    let counted = record p { signalcount = update p.signalcount j (p.signalcount j - 1) } in
    if ltb 0 (p.signalcount j - 1) then job_push j counted else counted

-- Where a worker stands: in the loop of `thread_pool__threadfunc`; in its `pthread_cond_wait`; behind that loop's pop, before
-- the second test of `running`; in the callback of a job; behind a job, before the pop of
-- `thread_pool__handle_job`; or at the end of its thread, maybe with a job that it has popped and
-- not run.
pub data Worker : Type 0 where
  idle : Worker
  waits : Worker
  popped : ℕ → Worker
  busy : ℕ → Worker
  next : Worker
  ended : Option ℕ → Worker

-- `notices` counts the calls of `pthread_cond_signal` that are due: each `thread_pool__do_job` has
-- one behind its section under the job's mutex.
pub record System : Type 0 where
  pub pool : JobPool
  pub notices : ℕ
  pub workers : List Worker
  pub signals : ℕ → ℕ
  pub calls : ℕ → ℕ

-- `thread_pool__init` with `n` threads, before any signal.
abbrev pub init : ℕ → System
init n = record {
  pool = record { head = []; signalcount = λ j. 0; running = true };
  notices = 0;
  workers = replicate n idle;
  signals = λ j. 0;
  calls = λ j. 0;
}

-- One step of a caller or of the worker at a place. `callback j` is whether the job has a callback.
pub data Step (callback : ℕ → Bool) (s : System) : System → Type 0 where
  -- `thread_pool__do_job` with a job that has a callback.
  signal :
      (j : ℕ)
      → callback j ≡ true
      → Step callback s (record s {
        pool = signal_job j s.pool;
        notices = s.notices + 1;
        signals = update s.signals j (s.signals j + 1);
      })
  -- `pthread_cond_signal` wakes a worker that waits.
  notify :
      (i : ℕ)
      → 0 < s.notices
      → get_elem? s.workers i ≡ some waits
      → Step callback s (record s { notices = s.notices - 1; workers = set s.workers i idle })
  -- `pthread_cond_signal` where no worker waits.
  unheard :
      0 < s.notices
      → ((k : ℕ) → get_elem? s.workers k ≢ some waits)
      → Step callback s (record s { notices = s.notices - 1 })
  -- `pthread_cond_wait` may also return by itself.
  spurious :
      (i : ℕ)
      → get_elem? s.workers i ≡ some waits
      → Step callback s (record s { workers = set s.workers i idle })
  -- The pop of `thread_pool__threadfunc` finds none, and the worker waits, in one section.
  sleep :
      (i : ℕ) (p : JobPool)
      → get_elem? s.workers i ≡ some idle
      → s.pool.running ≡ true
      → job_pop s.pool ≡ (none, p)
      → Step callback s (record s { workers = set s.workers i waits })
  -- `thread_pool__do_job` with NULL or with a job that has no callback.
  ignored : Step callback s s
  -- The pop of `thread_pool__threadfunc` finds a job.
  take :
      (i j : ℕ) (p : JobPool)
      → get_elem? s.workers i ≡ some idle
      → s.pool.running ≡ true
      → job_pop s.pool ≡ (some j, p)
      → Step callback s (record s { pool = p; workers = set s.workers i (popped j) })
  -- The second test of `running`.
  start :
      (i j : ℕ)
      → get_elem? s.workers i ≡ some (popped j)
      → s.pool.running ≡ true
      → Step callback s (record s { workers = set s.workers i (busy j) })
  drop :
      (i j : ℕ)
      → get_elem? s.workers i ≡ some (popped j)
      → s.pool.running ≡ false
      → Step callback s (record s { workers = set s.workers i (ended (some j)) })
  -- The callback returns, and the section behind it runs.
  finish :
      (i j : ℕ)
      → get_elem? s.workers i ≡ some (busy j)
      → Step callback s (record s {
        pool = finish_job j s.pool;
        workers = set s.workers i next;
        calls = update s.calls j (s.calls j + 1);
      })
  -- The pop of `thread_pool__handle_job`.
  more :
      (i j : ℕ) (p : JobPool)
      → get_elem? s.workers i ≡ some next
      → job_pop s.pool ≡ (some j, p)
      → Step callback s (record s { pool = p; workers = set s.workers i (busy j) })
  done :
      (i : ℕ) (p : JobPool)
      → get_elem? s.workers i ≡ some next
      → job_pop s.pool ≡ (none, p)
      → Step callback s (record s { workers = set s.workers i idle })
  -- A worker leaves the loop of `thread_pool__threadfunc`.
  leave :
      (i : ℕ)
      → get_elem? s.workers i ≡ some idle
      → s.pool.running ≡ false
      → Step callback s (record s { workers = set s.workers i (ended none) })
  -- `thread_pool__exit` stops the pool, and then signals once for each worker.
  exit : Step callback s (record s {
    pool = record s.pool { running = false };
    notices = s.notices + length s.workers;
  })

pub data Reach (callback : ℕ → Bool) (n : ℕ) : System → Type 0 where
  at_start : Reach callback n (init n)
  later : {s t : System} → Reach callback n s → Step callback s t → Reach callback n t
