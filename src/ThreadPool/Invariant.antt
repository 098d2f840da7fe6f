-- ===== src/ThreadPool/Invariant.antt =====
-- What every step of the thread pool keeps.
use kvmc.Prelude.{
  ℕ, zero, suc, ◌+◌, ◌-◌, ◌≡◌, refl, List, [], ◌∷◌, ◌++◌, Bool, none, some, ltb, ◌==◌,
  if◌then◌else◌, get_elem?, set, replicate, arith,
}
use kvmc.ThreadPool.{
  JobPool, Worker, idle, waits, notify, unheard, spurious, sleep, popped, busy, next, ended, System,
  Step, signal, ignored, take, start, drop, finish, more, done, leave, exit, Reach, at_start, later,
  job_pop, signal_job, finish_job,
}

-- How often a job stands in the queue.
unfoldable pub queued : ℕ → List ℕ → ℕ
queued j [] = 0
queued j (k ∷ ks) = (if k == j then 1 else 0) + queued j ks

-- Whether a worker has the job: popped, in its callback, or left behind at the end.
abbrev pub has : ℕ → Worker → ℕ
has j (popped k) = if k == j then 1 else 0
has j (busy k) = if k == j then 1 else 0
has j (ended (some k)) = if k == j then 1 else 0
has j (ended none) = 0
has j idle = 0
has j waits = 0
has j next = 0

unfoldable pub held : ℕ → List Worker → ℕ
held j [] = 0
held j (w ∷ ws) = has j w + held j ws

-- A job with signals is in exactly one place, the queue or a worker, and any other job in none. Each
-- signal has either been answered by a call or is still counted.
pub record Inv (s : System) : Type 0 where
  pub placed :
      (j : ℕ)
      → queued j s.pool.head + held j s.workers ≡ (if ltb 0 (s.pool.signalcount j) then 1 else 0)
  pub answered : (j : ℕ) → s.calls j + s.pool.signalcount j ≡ s.signals j

queued-append :
    (j k : ℕ) (ks : List ℕ) → queued j (ks ++ (k ∷ [])) ≡ queued j ks + (if k == j then 1 else 0)
unfolding queued
queued-append j k [] = ground arith
queued-append j k (x ∷ ks) = omega (arith, queued-append j k ks)

pub held-set :
    (j i : ℕ) (ws : List Worker) (w v : Worker)
    → get_elem? ws i ≡ some w
    → held j (set ws i v) + has j w ≡ held j ws + has j v
unfolding held
held-set j i [] w v e = ground arith
held-set j zero (x ∷ ws) w v e = ground arith
held-set j (suc i) (x ∷ ws) w v e = omega (arith, held-set j i ws w v e)

pub pop_lem :
    (j k : ℕ) (p q : JobPool)
    → job_pop p ≡ (some k, q)
    → (queued j p.head ≡ (if k == j then 1 else 0) + queued j q.head)
      × (q.signalcount ≡ p.signalcount)
unfolding job_pop queued
pop_lem j k p q e = pop_at p.head refl
  where
    pop_at :
        (l : List ℕ)
        → p.head ≡ l
        → (queued j p.head ≡ (if k == j then 1 else 0) + queued j q.head)
          × (q.signalcount ≡ p.signalcount)
    pop_at [] h = ground (arith)
    pop_at (x ∷ l) h = ground (arith)

signal-placed :
    (j k : ℕ) (p : JobPool) (h : ℕ)
    → queued j p.head + h ≡ (if ltb 0 (p.signalcount j) then 1 else 0)
    → queued j (signal_job k p).head + h ≡ (if ltb 0 ((signal_job k p).signalcount j) then 1 else 0)
unfolding signal_job
signal-placed j k p h e = ground (arith, queued-append j k p.head)

finish-placed :
    (j k : ℕ) (p : JobPool) (h : ℕ)
    → queued j p.head + ((if k == j then 1 else 0) + h) ≡ (if ltb 0 (p.signalcount j) then 1 else 0)
    → queued j (finish_job k p).head + h ≡ (if ltb 0 ((finish_job k p).signalcount j) then 1 else 0)
unfolding finish_job
finish-placed j k p h e = ground (arith, queued-append j k p.head)

signal-count :
    (j k : ℕ) (p : JobPool)
    → (signal_job k p).signalcount j ≡ (if k == j then p.signalcount j + 1 else p.signalcount j)
unfolding signal_job
signal-count j k p = ground arith

finish-count :
    (j k : ℕ) (p : JobPool)
    → (finish_job k p).signalcount j ≡ (if k == j then p.signalcount j - 1 else p.signalcount j)
unfolding finish_job
finish-count j k p = ground arith

pub Step-Inv : {callback : ℕ → Bool} {s t : System} → Step callback s t → Inv s → Inv t
Step-Inv {s} (signal k c) v = record {
  placed = λ j. signal-placed j k s.pool (held j s.workers) (v.placed j);
  answered = λ j. ground (arith, v.answered j, signal-count j k s.pool);
}
Step-Inv ignored v = v
Step-Inv {s} (notify i n w) v = record {
  placed = λ j. ground (arith, v.placed j, held-set j i s.workers waits idle w);
  answered = v.answered;
}
Step-Inv (unheard n w) v = record { placed = v.placed; answered = v.answered }
Step-Inv {s} (spurious i w) v = record {
  placed = λ j. ground (arith, v.placed j, held-set j i s.workers waits idle w);
  answered = v.answered;
}
Step-Inv {s} (sleep i p w r e) v = record {
  placed = λ j. ground (arith, v.placed j, held-set j i s.workers idle waits w);
  answered = v.answered;
}
Step-Inv {s} (take i k p w r e) v = record {
  placed = λ j. ground (
    arith,
    v.placed j,
    (pop_lem j k s.pool p e).0,
    (pop_lem j k s.pool p e).1,
    held-set j i s.workers idle (popped k) w,
  );
  answered = λ j. ground (arith, v.answered j, (pop_lem j k s.pool p e).1);
}
Step-Inv {s} (start i k w r) v = record {
  placed = λ j. ground (arith, v.placed j, held-set j i s.workers (popped k) (busy k) w);
  answered = v.answered;
}
Step-Inv {s} (drop i k w r) v = record {
  placed = λ j. ground (arith, v.placed j, held-set j i s.workers (popped k) (ended (some k)) w);
  answered = v.answered;
}
Step-Inv {s} (finish i k w) v = record {
  placed = λ j.
      finish-placed j k s.pool (held j (set s.workers i next))
        (ground (arith, v.placed j, held-set j i s.workers (busy k) next w));
  answered = λ j. ground (
    arith,
    v.placed j,
    v.answered j,
    finish-count j k s.pool,
    held-set j i s.workers (busy k) next w,
  );
}
Step-Inv {s} (more i k p w e) v = record {
  placed = λ j. ground (
    arith,
    v.placed j,
    (pop_lem j k s.pool p e).0,
    (pop_lem j k s.pool p e).1,
    held-set j i s.workers next (busy k) w,
  );
  answered = λ j. ground (arith, v.answered j, (pop_lem j k s.pool p e).1);
}
Step-Inv {s} (done i p w e) v = record {
  placed = λ j. ground (arith, v.placed j, held-set j i s.workers next idle w);
  answered = v.answered;
}
Step-Inv {s} (leave i w r) v = record {
  placed = λ j. ground (arith, v.placed j, held-set j i s.workers idle (ended none) w);
  answered = v.answered;
}
Step-Inv exit v = record { placed = v.placed; answered = v.answered }

held-init : (j n : ℕ) → held j (replicate n idle) ≡ 0
unfolding held
held-init j zero = refl
held-init j (suc n) = omega (arith, held-init j n)

pub Reach-Inv : {callback : ℕ → Bool} {n : ℕ} {s : System} → Reach callback n s → Inv s
unfolding queued
Reach-Inv {n} at_start = record {
  placed = λ j. omega (arith, held-init j n);
  answered = λ j. omega arith;
}
Reach-Inv (later r st) = Step-Inv st (Reach-Inv r)
