-- ===== src/ThreadPool/Tests.antt =====
-- Runs of a pool of one worker and a queue of one place, and the theorems at them.
use cpp_project.Base.{
  ℕ, zero, suc, ◌<◌, ◌≡◌, arith, refl, ◌≢◌, ◌≤◌, List, [], ◌∷◌, ◌++◌, ◌⊎◌, inl, inr, true, none,
  some, length, update, Run, ok, fault, timeout,
}
use cpp_project.ThreadPool.{
  Job, Added, Taken, refused, nothing, add_section, take_section, close_section, drain_section,
  init, set_next, enqueue, dequeue, free, release,
}
use cpp_project.ThreadPool.System
use cpp_project.ThreadPool.System.{
  System, waiting, running, blocked, adding, draining, unlocked, told_workers, destroyed, Reach,
  ready, wake_worker, wake_client, joining, exited, Joined, start, later, started, after_add,
  after_take, after_close, IsUnused,
}
use cpp_project.ThreadPool.Progress.{Steps}
use cpp_project.ThreadPool.Ending.{can_be_destroyed}
use cpp_project.ThreadPool.Leaks.{destroyed_frees_all}
use cpp_project.ThreadPool.Safety.{
  Queued, jobs_in_order, closed_lost_none, running_apart, sections_return, no_lost_wake_up,
}

abbrev job_a : Job
job_a = record { callback = 1; arg = 10 }

abbrev job_b : Job
job_b = record { callback = 2; arg = 20 }

abbrev added_of : Run Added → Added
added_of (ok r) = r
added_of fault = refused
added_of timeout = refused

abbrev taken_of : Run Taken → Taken
taken_of (ok r) = r
taken_of fault = nothing
taken_of timeout = nothing

abbrev calls_0 : System → ℕ → Job → System
calls_0 s i j = record s { clients = update s.clients i (adding j) }

abbrev adds : System → ℕ → Job → ℕ → System
adds s i j p = after_add s i j (added_of (add_section s.pool (some p) j))

abbrev takes : System → ℕ → System
takes s i = after_take s i (taken_of (take_section s.pool))

abbrev at_start : System
at_start = started (init true true true 1 1).1

-- A worker waits for a job.
abbrev no_job : System
no_job = takes at_start 0

-- A job is added; a second client finds the queue full and waits.
abbrev one_job : System
one_job = adds (calls_0 at_start 0 job_a) 0 job_a 5

abbrev no_place : System
no_place = adds (calls_0 one_job 1 job_b) 1 job_b 6

-- The worker takes the job, which wakes the client, and the second job is added.
abbrev one_running : System
one_running = takes no_place 0

abbrev next_job : System
next_job = adds one_running 1 job_b 6

-- The pool is destroyed while a job is queued: it waits, the job is taken, and it closes.
abbrev closing_begun : System
closing_begun = after_close one_job (close_section one_job.pool)

abbrev last_taken : System
last_taken = takes closing_begun 0

abbrev all_closed : System
all_closed = after_close last_taken (drain_section last_taken.pool)

-- The worker ends its job, both are told, and the worker exits and is joined.
abbrev last_done : System
last_done = record all_closed {
  pool = free all_closed.pool 5;
  workers = update all_closed.workers 0 ready;
}

abbrev workers_told : System
workers_told = record last_done {
  closer = told_workers;
  workers = λ k. wake_worker (last_done.workers k);
}

abbrev clients_told : System
clients_told = record workers_told {
  closer = joining;
  clients = λ k. wake_client (workers_told.clients k);
}

abbrev all_exited : System
all_exited = takes clients_told 0

abbrev all_destroyed : System
all_destroyed = record all_exited { closer = destroyed }

-- Its `unfolding` line is that of every run below.
steps : System
unfolding init set_next enqueue dequeue release add_section take_section drain_section close_section
    after_add after_take after_close
steps = all_closed

no_job-reached : Reach 1 1 no_job
unfolding steps
no_job-reached = later start (System.take 0 (omega arith) (inl refl) refl)

one_job-reached : Reach 1 1 one_job
unfolding steps
one_job-reached =
    later (later start (System.call 0 job_a refl))
      (System.add 0 job_a (some 5) (inl refl) refl refl)

no_place-reached : Reach 1 1 no_place
unfolding steps
no_place-reached =
    later (later one_job-reached (System.call 1 job_b refl))
      (System.add 1 job_b (some 6) (inl refl) refl refl)

one_running-reached : Reach 1 1 one_running
unfolding steps
one_running-reached = later no_place-reached (System.take 0 (omega arith) (inl refl) refl)

next_job-reached : Reach 1 1 next_job
unfolding steps
next_job-reached = later one_running-reached (System.add 1 job_b (some 6) (inr refl) refl refl)

closing_begun-reached : Reach 1 1 closing_begun
unfolding steps
closing_begun-reached = later one_job-reached (System.close refl)

all_closed-reached : Reach 1 1 all_closed
unfolding steps
all_closed-reached =
    later (later closing_begun-reached (System.take 0 (omega arith) (inl refl) refl))
      (System.drain refl)

all_closed-run : (all_closed.pool.pool_is_close ≡ true) × (all_closed.taken_jobs ≡ job_a ∷ [])
unfolding steps
all_closed-run = (refl, refl)

all_exited-Joined : Joined all_exited
unfolding steps
all_exited-Joined zero l = refl
all_exited-Joined (suc i) l = absurd (omega (arith, l))

all_destroyed-reached : Reach 1 1 all_destroyed
unfolding steps
all_destroyed-reached =
    later
      (later
        (later
          (later (later all_closed-reached (System.finish 0 5 refl)) (System.tell_workers refl))
          (System.tell_clients refl))
        (System.take 0 (omega arith) (inl refl) refl))
      (System.join 1 refl all_exited-Joined refl)

all_destroyed-run : all_destroyed.closer ≡ destroyed
unfolding steps
all_destroyed-run = refl

destroyed_frees_all_example :
    ((i : ℕ) → i < 1 → all_destroyed.workers i ≡ exited)
    × (all_destroyed.pool.head ≡ none)
    × ((p : ℕ) → all_destroyed.pool.heap p ≡ none)
destroyed_frees_all_example =
    destroyed_frees_all 1 1 all_destroyed all_destroyed-reached all_destroyed-run

jobs_in_order_example :
    (js : List Job) × Queued next_job js
    × (next_job.pool.cur_queue_job_num ≡ length js)
    × (length js ≤ 1)
    × (next_job.accepted_jobs ≡ next_job.taken_jobs ++ js)
jobs_in_order_example = jobs_in_order 1 1 next_job next_job-reached

closed_lost_none_example :
    (all_closed.accepted_jobs ≡ all_closed.taken_jobs)
    × (all_closed.pool.cur_queue_job_num ≡ 0)
    × (all_closed.pool.head ≡ none)
closed_lost_none_example = closed_lost_none 1 1 all_closed all_closed-reached all_closed-run.0

running_0 : next_job.workers 0 ≡ running 5
unfolding steps
running_0 = refl

running_apart_example : (◌≡◌ {A = ℕ} 0 0) × (next_job.pool.heap 5 ≢ none)
running_apart_example = running_apart 1 1 next_job next_job-reached 0 0 5 running_0 running_0

at_7-IsUnused : IsUnused next_job.pool (some 7)
unfolding steps
at_7-IsUnused = refl

sections_return_example :
    ((r : Added) × (add_section next_job.pool (some 7) job_a ≡ ok r))
    × ((r : Taken) × (take_section next_job.pool ≡ ok r))
sections_return_example = sections_return 1 1 next_job next_job-reached job_a (some 7) at_7-IsUnused

no_lost_wake_up_example :
    ((i : ℕ)
      → no_place.workers i ≡ waiting
      → (no_place.pool.cur_queue_job_num ≡ 0)
        × (no_place.pool.pool_is_close ≡ true → no_place.closer ≡ unlocked))
    × ((i : ℕ) (j : Job)
        → no_place.clients i ≡ blocked j
        → (no_place.pool.cur_queue_job_num ≡ no_place.pool.queue_max_num)
          × (no_place.pool.pool_is_close ≡ true
              → (no_place.closer ≡ unlocked) ⊎ (no_place.closer ≡ told_workers)))
    × (no_place.closer ≡ draining → no_place.pool.cur_queue_job_num ≢ 0)
no_lost_wake_up_example = no_lost_wake_up 1 1 no_place no_place-reached

no_job-waits : no_job.workers 0 ≡ waiting
unfolding steps
no_job-waits = refl

can_be_destroyed_example :
    (t : System) × Steps 1 no_place t × (t.closer ≡ destroyed) × (t.accepted_jobs ≡ t.taken_jobs)
can_be_destroyed_example = can_be_destroyed 1 1 (omega arith) no_place no_place-reached
