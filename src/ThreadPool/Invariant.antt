-- ===== src/ThreadPool/Invariant.antt =====
-- What holds in every state of a pool and its threads.
use cpp_project.Base.{
  ℕ, ◌≡◌, refl, ◌≢◌, ◌≤◌, ◌<◌, List, [], ◌++◌, map, ◌⊎◌, Bool, true, false, none, arith, length,
}
use cpp_project.ThreadPool.{Ptr, Job, init}
use cpp_project.ThreadPool.System.{
  System, Closer, waiting, running, exited, blocked, before, draining, rechecking, unlocked,
  told_workers, joining, destroyed, started,
}
use cpp_project.ThreadPool.Cells.{Cells, Free, Holds}

-- Where the closer stands says whether it has closed the pool.
abbrev pub closed_by : Closer → Bool
closed_by before = false
closed_by draining = false
closed_by rechecking = false
closed_by unlocked = true
closed_by told_workers = true
closed_by joining = true
closed_by destroyed = true

abbrev pub jobs : Cells → List Job
jobs = map (λ c. c.1)

-- The queue is in order and within its limit; every accepted job is in it or was taken, in order; a
-- running job has a cell of its own; every cell is queued or run; who waits unsignalled has reason to, or a broadcast is to come.
pub record Inv (n m : ℕ) (s : System) : Type 0 where
  pub cells : Cells
  pub holds : Holds s.pool cells
  pub threads : s.pool.thread_num ≡ n
  pub limit : s.pool.queue_max_num ≡ m
  pub bounded : length cells ≤ m
  pub history : s.accepted_jobs ≡ s.taken_jobs ++ jobs cells
  pub owned : (i : ℕ) (p : Ptr) → s.workers i ≡ running p → (s.pool.heap p ≢ none) × Free p cells
  pub apart : (i k : ℕ) (p : Ptr) → s.workers i ≡ running p → s.workers k ≡ running p → i ≡ k
  pub worker_waits :
      (i : ℕ)
      → s.workers i ≡ waiting
      → (cells ≡ []) × (s.pool.pool_is_close ≡ true → s.closer ≡ unlocked)
  pub client_waits :
      (i : ℕ) (j : Job)
      → s.clients i ≡ blocked j
      → (length cells ≡ m)
        × (s.pool.pool_is_close ≡ true → (s.closer ≡ unlocked) ⊎ (s.closer ≡ told_workers))
  pub closer_waits : s.closer ≡ draining → cells ≢ []
  pub phase : s.pool.pool_is_close ≡ closed_by s.closer
  pub emptied : s.pool.pool_is_close ≡ true → cells ≡ []
  pub exits : (i : ℕ) → s.workers i ≡ exited → s.pool.pool_is_close ≡ true
  pub kept :
      (p : Ptr)
      → s.pool.heap p ≢ none
      → Free p cells
      → (i : ℕ) × (i < n) × (s.workers i ≡ running p)

pub started-Inv : (n m : ℕ) → Inv n m (started (init true true true n m).1)
unfolding init
started-Inv n m = record {
  cells = [];
  holds = record { head = refl; tail = refl; linked = tt; distinct = tt; count = refl };
  threads = refl;
  limit = refl;
  bounded = omega arith;
  history = refl;
  owned = λ i p e. cc;
  apart = λ i k p e f. cc;
  worker_waits = λ i e. cc;
  client_waits = λ i j e. cc;
  closer_waits = λ e. cc;
  phase = refl;
  emptied = λ e. refl;
  exits = λ i e. cc;
  kept = λ p held out. absurd (held refl);
}
