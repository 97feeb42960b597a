-- ===== src/ThreadPool/Safety.antt =====
-- What holds of every run of the thread pool: of each state that its threads can reach.
use mathlib.Core.List.{append-nil}
use cpp_project.Base.{
  ℕ, suc, ◌≡◌, refl, sym, ap, ◌∙◌, ◌≢◌, ◌≤◌, List, [], ◌∷◌, ◌++◌, ◌⊎◌, true, Option, none, arith,
  length, ok, subst, ◌<◌,
}
use cpp_project.ThreadPool.{Ptr, Job, Added, Taken, add_section, take_section}
use cpp_project.ThreadPool.System
use cpp_project.ThreadPool.System.{
  System, Worker, Client, Closer, waiting, running, exited, blocked, returned, before, draining,
  unlocked, told_workers, joining, destroyed, Step, Reach, start, later, IsUnused,
}
use cpp_project.ThreadPool.Cells.{Cells, Holds, first}
use cpp_project.ThreadPool.Sections.{add_section_outcome, take_section_outcome}
use cpp_project.ThreadPool.Invariant.{Inv, closed_by, jobs, started-Inv}
use cpp_project.ThreadPool.Adding.{client-Inv, add-Inv}
use cpp_project.ThreadPool.Taking.{take-Inv, finish-Inv}
use cpp_project.ThreadPool.Shutdown.{
  close-Inv, drain-Inv, tell_workers-Inv, tell_clients-Inv, join-Inv, wake_worker-Inv,
  wake_client-Inv, wake_closer-Inv,
}

Step-Inv : {n m : ℕ} {s t : System} → Inv n m s → Step s t → Inv n m t
Step-Inv {n} {m} {s} v (System.call i j e) = client-Inv n m s i (System.adding j) v (λ k d. cc)
Step-Inv {n} {m} {s} v (System.add i j memory {r} tries unused done) =
    add-Inv n m s i j v memory r unused done
Step-Inv {n} {m} {s} v (System.take i {r} in_range tries done) =
    take-Inv n m s i v r (subst (λ x. i < x) v.threads in_range) tries done
Step-Inv {n} {m} {s} v (System.finish i p e) = finish-Inv n m s i v p e
Step-Inv {n} {m} {s} v (System.close e) = close-Inv n m s v e
Step-Inv {n} {m} {s} v (System.drain e) = drain-Inv n m s v (ap closed_by e)
Step-Inv {n} {m} {s} v (System.tell_workers e) = tell_workers-Inv n m s v e
Step-Inv {n} {m} {s} v (System.tell_clients e) = tell_clients-Inv n m s v e
Step-Inv {n} {m} {s} v (System.join fuel {t} e all run) = join-Inv n m s v fuel t e run
Step-Inv {n} {m} {s} v (System.wake_spuriously i) = wake_worker-Inv n m s v i
Step-Inv {n} {m} {s} v (System.retry_spuriously i) = wake_client-Inv n m s v i
Step-Inv {n} {m} {s} v System.recheck_spuriously = wake_closer-Inv n m s v

pub Reach-Inv : {n m : ℕ} {s : System} → Reach n m s → Inv n m s
Reach-Inv {n} {m} start = started-Inv n m
Reach-Inv (later before_it step) = Step-Inv (Reach-Inv before_it) step

abbrev pub Queued : System → List Job → Type 0
Queued s js = (cs : Cells) × Holds s.pool cs × (jobs cs ≡ js)

-- In every reachable state the queue holds some jobs, linked from the head to the tail and counted by
-- the counter, no more than the limit, and the jobs accepted so far are the jobs taken so far followed
-- by these jobs, in the order in which they were accepted.
pub jobs_in_order :
    (n m : ℕ) (s : System)
    → Reach n m s
    → (js : List Job) × Queued s js
      × (s.pool.cur_queue_job_num ≡ length js)
      × (length js ≤ m)
      × (s.accepted_jobs ≡ s.taken_jobs ++ js)
jobs_in_order n m s run =
    let v = Reach-Inv run in
    let size = length-jobs v.cells in
    (
      jobs v.cells,
      (v.cells, v.holds, refl),
      v.holds.count ∙ sym size,
      omega (arith, v.bounded, size),
      v.history,
    )
  where
    length-jobs : (cs : Cells) → length (jobs cs) ≡ length cs
    length-jobs [] = refl
    length-jobs (c ∷ cs) = ap suc (length-jobs cs)

-- In every reachable state in which the pool is closed, every job that was accepted has been taken by
-- a worker and the queue is empty.
pub closed_lost_none :
    (n m : ℕ) (s : System)
    → Reach n m s
    → s.pool.pool_is_close ≡ true
    → (s.accepted_jobs ≡ s.taken_jobs) × (s.pool.cur_queue_job_num ≡ 0) × (s.pool.head ≡ none)
closed_lost_none n m s run is_closed =
    let v = Reach-Inv run in
    let none_left = v.emptied is_closed in
    (
      v.history ∙ ap (λ cs. s.taken_jobs ++ jobs cs) none_left ∙ append-nil s.taken_jobs,
      v.holds.count ∙ ap length none_left,
      v.holds.head ∙ ap first none_left,
    )

-- In every reachable state no two workers run the same job: the cell of a running job is allocated and
-- belongs to one worker only.
pub running_apart :
    (n m : ℕ) (s : System)
    → Reach n m s
    → (i k : ℕ) (p : Ptr) → s.workers i ≡ running p
    → s.workers k ≡ running p
    → (i ≡ k) × (s.pool.heap p ≢ none)
running_apart n m s run i k p a b = let v = Reach-Inv run in (v.apart i k p a b, (v.owned i p a).0)

-- In every reachable state, what `ThreadPool_AddJob` and a worker do with the mutex returns: no null or
-- freed cell is read, whatever unused memory `malloc` returns.
pub sections_return :
    (n m : ℕ) (s : System)
    → Reach n m s
    → (j : Job) (memory : Option Ptr) → IsUnused s.pool memory
    → ((r : Added) × (add_section s.pool memory j ≡ ok r))
      × ((r : Taken) × (take_section s.pool ≡ ok r))
sections_return n m s run j memory unused =
    let v = Reach-Inv run in
    let (r, e, _) = add_section_outcome s.pool v.cells v.holds j memory unused in
    let (r', e', _) = take_section_outcome s.pool v.cells v.holds in ((r, e), (r', e'))

-- No wake-up is lost. In every reachable state a worker that waits has an empty queue, and if the pool
-- is closed the broadcast to the workers is still to come; a client that waits has a full queue, and if
-- the pool is closed the broadcast to the clients is still to come; and when the one that destroys the
-- pool waits, the queue is not empty.
pub no_lost_wake_up :
    (n m : ℕ) (s : System)
    → Reach n m s
    → ((i : ℕ)
        → s.workers i ≡ waiting
        → (s.pool.cur_queue_job_num ≡ 0) × (s.pool.pool_is_close ≡ true → s.closer ≡ unlocked))
      × ((i : ℕ) (j : Job)
          → s.clients i ≡ blocked j
          → (s.pool.cur_queue_job_num ≡ s.pool.queue_max_num)
            × (s.pool.pool_is_close ≡ true → (s.closer ≡ unlocked) ⊎ (s.closer ≡ told_workers)))
      × (s.closer ≡ draining → s.pool.cur_queue_job_num ≢ 0)
no_lost_wake_up n m s run =
    let v = Reach-Inv run in
    (
      λ i e. (v.holds.count ∙ ap length (v.worker_waits i e).0, (v.worker_waits i e).1),
      λ i j e. (v.holds.count ∙ (v.client_waits i j e).0 ∙ sym v.limit, (v.client_waits i j e).1),
      λ e none_left. v.closer_waits e (empty v.cells (sym v.holds.count ∙ none_left)),
    )
  where
    empty : (cs : Cells) → length cs ≡ 0 → cs ≡ []
    empty [] e = refl
    empty (c ∷ cs) e = absurd (ground arith)

-- If the queue may hold a job, then in no reachable state does a worker wait for a job while a client
-- waits for a place or while the one that destroys the pool waits for an empty queue.
never_both_wait :
    (n m : ℕ) (s : System)
    → Reach n m s
    → m ≢ 0
    → (i : ℕ) → s.workers i ≡ waiting
    → ((k : ℕ) (j : Job) → s.clients k ≢ blocked j) × (s.closer ≢ draining)
never_both_wait n m s run some_place i waits =
    let v = Reach-Inv run in
    let none_left = (v.worker_waits i waits).0 in
    (
      λ k j e. some_place (sym (v.client_waits k j e).0 ∙ ap length none_left),
      λ e. v.closer_waits e none_left,
    )
