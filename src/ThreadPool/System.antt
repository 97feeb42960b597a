-- ===== src/ThreadPool/System.antt =====
-- The threads of a pool: workers, clients that add jobs, and the one that destroys the pool. A step is
-- what a thread does with the mutex, a call of a job, or a broadcast. A waiting thread may be woken at
-- any time, as POSIX allows.
use cpp_project.Base.{
  ℕ, ◌<◌, ◌≡◌, List, [], ◌∷◌, ◌++◌, ◌⊎◌, Bool, true, false, Option, none, some, if◌then◌else◌,
  update, ok,
}
use cpp_project.ThreadPool.{
  Ptr, Job, Cell, Pool, Added, full, refused, accepted, Taken, nothing, exit, taken, Closing,
  already, busy, closed, add_section, take_section, close_section, drain_section, free, release,
  init,
}

pub data Worker : Type 0 where
  ready : Worker
  waiting : Worker
  woken : Worker
  running : Ptr → Worker
  exited : Worker

pub data Client : Type 0 where
  idle : Client
  adding : Job → Client
  blocked : Job → Client
  retrying : Job → Client
  returned : Bool → Client

pub data Closer : Type 0 where
  before : Closer
  draining : Closer
  rechecking : Closer
  unlocked : Closer
  told_workers : Closer
  joining : Closer
  destroyed : Closer

-- The jobs that were accepted and that were taken, in order, are kept to state properties.
pub record System : Type 0 where
  pub pool : Pool
  pub workers : ℕ → Worker
  pub clients : ℕ → Client
  pub closer : Closer
  pub accepted_jobs : List Job
  pub taken_jobs : List Job

abbrev pub wake_worker : Worker → Worker
wake_worker waiting = woken
wake_worker w = w

abbrev pub wake_client : Client → Client
wake_client (blocked j) = retrying j
wake_client c = c

abbrev pub wake_closer : Closer → Closer
wake_closer draining = rechecking
wake_closer c = c

unfoldable pub after_add : System → (i : ℕ) → Job → Added → System
after_add s i j full = record s { clients = update s.clients i (blocked j) }
after_add s i j refused = record s { clients = update s.clients i (returned false) }
after_add s i j (accepted p was_empty) = record s {
  pool = p;
  clients = update s.clients i (returned true);
  workers = if was_empty then (λ k. wake_worker (s.workers k)) else s.workers;
  accepted_jobs = s.accepted_jobs ++ j ∷ [];
}

abbrev pub jobs_at : Option Cell → List Job
jobs_at none = []
jobs_at (some c) = c.job ∷ []

unfoldable pub after_take : System → (i : ℕ) → Taken → System
after_take s i nothing = record s { workers = update s.workers i waiting }
after_take s i exit = record s { workers = update s.workers i exited }
after_take s i (taken p q now_empty not_full) = record s {
  pool = p;
  workers = update s.workers i (running q);
  closer = if now_empty then wake_closer s.closer else s.closer;
  clients = if not_full then (λ k. wake_client (s.clients k)) else s.clients;
  taken_jobs = s.taken_jobs ++ jobs_at (p.heap q);
}

unfoldable pub after_close : System → Closing → System
after_close s already = s
after_close s busy = record s { closer = draining }
after_close s (closed p) = record s { pool = p; closer = unlocked }

abbrev pub TriesAdd : Client → Job → Type 0
TriesAdd c j = (c ≡ adding j) ⊎ (c ≡ retrying j)

abbrev pub TriesTake : Worker → Type 0
TriesTake w = (w ≡ ready) ⊎ (w ≡ woken)

-- What `malloc` returns is not in use.
abbrev pub IsUnused : Pool → Option Ptr → Type 0
IsUnused s none = Unit
IsUnused s (some p) = s.heap p ≡ none

abbrev pub Joined : System → Type 0
Joined s = (i : ℕ) → i < s.pool.thread_num → s.workers i ≡ exited

pub data Step (s : System) : System → Type 0 where
  call :
      (i : ℕ) (j : Job)
      → s.clients i ≡ idle
      → Step s (record s { clients = update s.clients i (adding j) })
  add :
      (i : ℕ) (j : Job) (memory : Option Ptr) {r : Added}
      → TriesAdd (s.clients i) j
      → IsUnused s.pool memory
      → add_section s.pool memory j ≡ ok r
      → Step s (after_add s i j r)
  take :
      (i : ℕ) {r : Taken}
      → i < s.pool.thread_num
      → TriesTake (s.workers i)
      → take_section s.pool ≡ ok r
      → Step s (after_take s i r)
  finish :
      (i : ℕ) (p : Ptr)
      → s.workers i ≡ running p
      → Step s (record s { pool = free s.pool p; workers = update s.workers i ready })
  close : s.closer ≡ before → Step s (after_close s (close_section s.pool))
  drain : s.closer ≡ rechecking → Step s (after_close s (drain_section s.pool))
  tell_workers :
      s.closer ≡ unlocked
      → Step s (record s { closer = told_workers; workers = λ k. wake_worker (s.workers k) })
  tell_clients :
      s.closer ≡ told_workers
      → Step s (record s { closer = joining; clients = λ k. wake_client (s.clients k) })
  join :
      (fuel : ℕ) {t : Pool}
      → s.closer ≡ joining
      → Joined s
      → release fuel s.pool ≡ ok t
      → Step s (record s { pool = t; closer = destroyed })
  wake_spuriously :
      (i : ℕ) → Step s (record s { workers = update s.workers i (wake_worker (s.workers i)) })
  retry_spuriously :
      (i : ℕ) → Step s (record s { clients = update s.clients i (wake_client (s.clients i)) })
  recheck_spuriously : Step s (record s { closer = wake_closer s.closer })

-- `Init` has created the threads.
abbrev pub started : Pool → System
started p = record {
  pool = p;
  workers = λ _. ready;
  clients = λ _. idle;
  closer = before;
  accepted_jobs = [];
  taken_jobs = [];
}

pub data Reach (n m : ℕ) : System → Type 0 where
  start : Reach n m (started (init true true true n m).1)
  later : {s t : System} → Reach n m s → Step s t → Reach n m t
