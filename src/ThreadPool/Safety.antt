-- ===== src/ThreadPool/Safety.antt =====
-- What the thread pool promises its callers, in every reachable state.
use kvmc.Prelude.{
  ◌⊎◌, inl, inr, ℕ, zero, suc, ◌+◌, ◌≤◌, ◌<◌, ◌≡◌, refl, List, [], ◌∷◌, Bool, some, get_elem?,
  arith,
}
use native.Mathlib.Decide.{dec_lt, ℕ_discrete}
use kvmc.ThreadPool.{Worker, idle, waits, busy, System, Reach}
use kvmc.ThreadPool.Invariant.{queued, held, has, Reach-Inv}

held-get : (j i : ℕ) (ws : List Worker) (w : Worker) → get_elem? ws i ≡ some w → has j w ≤ held j ws
unfolding held
held-get j i [] w e = ground arith
held-get j zero (x ∷ ws) w e = ground arith
held-get j (suc i) (x ∷ ws) w e = omega (arith, held-get j i ws w e)

held-two :
    (j i k : ℕ) (ws : List Worker) (v w : Worker)
    → i < k
    → get_elem? ws i ≡ some v
    → get_elem? ws k ≡ some w
    → has j v + has j w ≤ held j ws
unfolding held
held-two j i k [] v w lt e f = ground arith
held-two j zero zero (x ∷ ws) v w lt e f = absurd (omega arith)
held-two j zero (suc k) (x ∷ ws) v w lt e f = ground (arith, held-get j k ws w f)
held-two j (suc i) zero (x ∷ ws) v w lt e f = absurd (omega arith)
held-two j (suc i) (suc k) (x ∷ ws) v w lt e f =
    omega (arith, held-two j i k ws v w (omega arith) e f)

-- In every reachable state, for any number of workers, a job's callback runs in at most one worker:
-- two workers in the callback of one job are the same worker.
pub callback_exclusive :
    {callback : ℕ → Bool} {n : ℕ} {s : System}
    → Reach callback n s
    → (i k j : ℕ) → get_elem? s.workers i ≡ some (busy j)
    → get_elem? s.workers k ≡ some (busy j)
    → i ≡ k
callback_exclusive {s} r i k j e f = elim (ℕ_discrete i k) [
  | yes same ↦ same
  | no apart ↦ elim (dec_lt i k) [
    | yes below ↦ absurd (
        ground
          (arith, (Reach-Inv r).placed j, held-two j i k s.workers (busy j) (busy j) below e f))
    | no above ↦ absurd (
        ground (
          arith,
          (Reach-Inv r).placed j,
          held-two j k i s.workers (busy j) (busy j) (omega arith) f e,
        ))
  ]
]

-- Each worker waits, or is about to look for a job.
abbrev pub AllIdle : List Worker → Type 0
AllIdle [] = Unit
AllIdle (w ∷ ws) = ((w ≡ idle) ⊎ (w ≡ waits)) × AllIdle ws

AllIdle-held : (j : ℕ) (ws : List Worker) → AllIdle ws → held j ws ≡ 0
unfolding held
AllIdle-held j [] h = refl
AllIdle-held j (w ∷ ws) h = elim h.0 [
  | inl looks ↦ rw looks (omega (arith, AllIdle-held j ws h.1))
  | inr asleep ↦ rw asleep (omega (arith, AllIdle-held j ws h.1))
]

-- No signal is lost: in a reachable state in which the queue is empty and every worker waits, or is
-- about to look for a job, the callback of each job has returned as often as the job was signalled.
pub signals_answered :
    {callback : ℕ → Bool} {n : ℕ} {s : System}
    → Reach callback n s
    → s.pool.head ≡ []
    → AllIdle s.workers
    → (j : ℕ) → s.calls j ≡ s.signals j
unfolding queued
signals_answered {s} r empty quiet j =
    ground (
      arith,
      (Reach-Inv r).placed j,
      (Reach-Inv r).answered j,
      AllIdle-held j s.workers quiet,
      empty,
    )
