-- ===== src/ThreadPool/Progress.antt =====
-- The thread pool does not stop while work is left.
use kvmc.Prelude.{ℕ, ◌≡◌, ◌≢◌, List, [], Bool, false, Option, some, get_elem?}
use kvmc.ThreadPool.{Worker, waits, ended, System, Step}

-- A worker ends only after the pool has been stopped.
abbrev EndedStopped : System → Type 0
EndedStopped s =
    (k : ℕ) (o : Option ℕ) → get_elem? s.workers k ≡ some (ended o) → s.pool.running ≡ false

-- Some worker does not wait.
abbrev AwakeOne : List Worker → Type 0
AwakeOne ws = (i : ℕ) × (w : Worker) × (get_elem? ws i ≡ some w) × (w ≢ waits)

-- While a job is in the queue, and no notice is due, not all workers wait.
abbrev Roused : System → Type 0
Roused s =
    s.pool.head ≢ []
    → s.notices ≡ 0
    → (first : Worker) → get_elem? s.workers 0 ≡ some first
    → AwakeOne s.workers

-- Some worker can move: there is a step after which it stands elsewhere.
pub record Moves (callback : ℕ → Bool) (s : System) : Type 0 where
  pub worker : ℕ
  pub place : Worker
  pub after : System
  pub step : Step callback s after
  pub before : get_elem? s.workers worker ≢ some place
  pub moved : get_elem? after.workers worker ≡ some place
