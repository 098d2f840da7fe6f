-- ===== src/ThreadPool/Tests.antt =====
-- The theorems of the thread pool at runs of two workers.
use kvmc.Prelude.{inl, ℕ, ◌≡◌, refl, Bool, true}
use kvmc.ThreadPool.{
  System, signal, take, start, finish, done, Reach, at_start, later, job_pop, signal_job,
  finish_job,
}
use kvmc.ThreadPool.Safety.{callback_exclusive, signals_answered}

abbrev all_jobs : ℕ → Bool
all_jobs j = true

record Run : Type 0 where
  last : System
  reach : Reach all_jobs 2 last

-- Job 7 has been signalled.
abbrev signalled : Run
signalled = record { last = _; reach = later at_start (signal 7 refl) }

-- Worker 1 runs its callback.
running : Run
unfolding signal_job job_pop
running = record {
  last = _;
  reach = later (later signalled.reach (take 1 7 _ refl refl refl)) (start 1 7 refl refl);
}

-- The callback has returned.
finished : Run
unfolding signal_job job_pop running finish_job
finished = record {
  last = _;
  reach = later (later running.reach (finish 1 7 refl)) (done 1 _ refl refl);
}

callback_exclusive_example : ◌≡◌ {A = ℕ} 1 1
unfolding running
callback_exclusive_example = callback_exclusive running.reach 1 1 7 refl refl

signals_answered_example : finished.last.calls 7 ≡ finished.last.signals 7
unfolding finished
signals_answered_example = signals_answered finished.reach refl (inl refl, (inl refl, tt)) 7
