-- ===== src/ThreadPool.antt =====
-- 线程池连接池/ThreadPool.h: the job queue of the thread pool, and what each thread does between taking
-- the mutex and giving it back. A wait on a condition gives the mutex back too.
pub mod System
pub mod Cells
pub mod Sections
pub mod Invariant
pub mod Adding
pub mod Taking
pub mod Shutdown
pub mod Safety
pub mod Progress
pub mod Emptying
pub mod Ending
pub mod Leaks
pub mod Tests
use cpp_project.Base.{
  ℕ, zero, suc, ◌+◌, ◌-◌, Bool, true, false, not, ◌&&◌, Option, none, some, ◌==◌, if◌then◌else◌,
  update, Run, ok, fault, timeout, ◌>>=◌, or_fault,
}

abbrev pub Ptr : Type 0
Ptr = ℕ

-- `callback_function` and `arg`
pub record Job : Type 0 where
  pub callback : ℕ
  pub arg : ℕ

-- `struct job`
pub record Cell : Type 0 where
  pub job : Job
  pub next : Option Ptr

abbrev pub cell : Job → Option Ptr → Cell
cell j q = record { job = j; next = q }

abbrev pub Heap : Type 0
Heap = Ptr → Option Cell

pub record Pool : Type 0 where
  pub thread_num : ℕ
  pub queue_max_num : ℕ
  pub cur_queue_job_num : ℕ
  pub head : Option Ptr
  pub tail : Option Ptr
  pub pool_is_close : Bool
  pub heap : Heap

-- `Init`: the mutex, one of the conditions or the array of threads may fail.
unfoldable pub init :
    (mutex_ok cond_ok malloc_ok : Bool) (thread_num queue_max_num : ℕ) → Bool × Pool
init mutex_ok cond_ok malloc_ok n m = (
  mutex_ok && cond_ok && malloc_ok,
  record {
    thread_num = n;
    queue_max_num = m;
    cur_queue_job_num = 0;
    head = none;
    tail = none;
    pool_is_close = false;
    heap = λ _. none;
  },
)

-- `m_tail->next = pjob`
unfoldable pub set_next : Heap → Option Ptr → Option Ptr → Run Heap
set_next h t q = do p ← or_fault t; c ← or_fault (h p); ok (update h p (some (cell c.job q)))

-- The new job `p` is put at the end. The flag says that the queue was empty.
unfoldable pub enqueue : Pool → Ptr → Job → Run (Pool × Bool)
enqueue s p j =
    let h = update s.heap p (some (cell j none)) in
    let n = s.cur_queue_job_num + 1 in
    elim s.head [
      | none ↦ ok (record s { heap = h; head = some p; tail = some p; cur_queue_job_num = n }, true)
      | some _ ↦ do
        h' ← set_next h s.tail (some p)
        ok (record s { heap = h'; tail = some p; cur_queue_job_num = n }, false)
    ]

-- A worker's `m_CurQueueJobNum--` and what follows, up to the signals.
unfoldable pub dequeue : Pool → Run (Pool × Ptr)
dequeue s = do
  p ← or_fault s.head
  let n = s.cur_queue_job_num - 1
  let last = record s { head = none; tail = none; cur_queue_job_num = n }
  let rest = or_fault (s.heap p) >>= λ c. ok (record s { head = c.next; cur_queue_job_num = n }, p)
  if n == 0 then ok (last, p) else rest

pub data Added : Type 0 where
  full : Added
  refused : Added
  accepted : Pool → (was_empty : Bool) → Added

-- `ThreadPool_AddJob` with the mutex: it waits, returns -1, or adds the job and returns 0.
-- `memory` is what `malloc` returns.
unfoldable pub add_section : Pool → (memory : Option Ptr) → Job → Run Added
add_section s memory j =
    if s.cur_queue_job_num == s.queue_max_num && not s.pool_is_close
    then ok full
    else if s.pool_is_close
    then ok refused
    else elim memory [
      | none ↦ ok refused
      | some p ↦ enqueue s p j >>= λ (s', was_empty). ok (accepted s' was_empty)
    ]

pub data Taken : Type 0 where
  nothing : Taken
  exit : Taken
  taken : Pool → Ptr → (now_empty not_full : Bool) → Taken

-- A worker with the mutex: it waits, exits, or takes a job and signals.
unfoldable pub take_section : Pool → Run Taken
take_section s =
    if s.cur_queue_job_num == 0 && not s.pool_is_close
    then ok nothing
    else if s.pool_is_close
    then ok exit
    else (dequeue s >>= λ (s', p).
        ok (taken s' p (s'.cur_queue_job_num == 0) (s'.cur_queue_job_num + 1 == s'.queue_max_num)))

pub data Closing : Type 0 where
  already : Closing
  busy : Closing
  closed : Pool → Closing

-- The loop of `ThreadPool_Destroy` that waits for an empty queue.
unfoldable pub drain_section : Pool → Closing
drain_section s =
    if s.cur_queue_job_num == 0 then closed (record s { pool_is_close = true }) else busy

-- `ThreadPool_Destroy` with the mutex.
unfoldable pub close_section : Pool → Closing
unfolding drain_section
close_section s = if s.pool_is_close then already else drain_section s

-- `free(pjob)`
abbrev pub free : Pool → Ptr → Pool
free s p = record s { heap = update s.heap p none }

-- The loop at the end of `ThreadPool_Destroy` that frees the jobs of the queue, for `fuel` rounds.
unfoldable pub release : (fuel : ℕ) → Pool → Run Pool
release zero s = timeout
release (suc fuel) s = elim s.head [
  | none ↦ ok s
  | some p ↦ or_fault (s.heap p) >>= λ c. release fuel (free (record s { head = c.next }) p)
]
