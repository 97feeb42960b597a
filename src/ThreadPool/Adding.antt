-- ===== src/ThreadPool/Adding.antt =====
-- A step in which a client adds a job keeps the invariant.
use mathlib.Core.List.{map-append, append_assoc}
use cpp_project.Base.{
  ℕ, ◌≡◌, refl, sym, ap, ◌∙◌, ◌≢◌, [], ◌∷◌, ◌++◌, Bool, true, false, Option, none, arith, length,
  length-append, update, if◌then◌else◌, All-append, All-left, All-right, ok, append-ne-nil,
}
use cpp_project.ThreadPool.{Ptr, Job, Pool, Added, accepted, add_section}
use cpp_project.ThreadPool.System.{
  System, Worker, Client, waiting, running, exited, blocked, returned, wake_worker, after_add,
  IsUnused,
}
use cpp_project.ThreadPool.Cells.{Free, Holds, Same, is_nil}
use cpp_project.ThreadPool.Sections
use cpp_project.ThreadPool.Sections.{AddOutcome, add_section_outcome}
use cpp_project.ThreadPool.Invariant.{Inv, jobs}

abbrev pub after_wake : Bool → (ℕ → Worker) → ℕ → Worker
after_wake b f = if b then (λ l. wake_worker (f l)) else f

-- A broadcast leaves no worker waiting, and the others as they are.
pub woken_running :
    (b : Bool) (f : ℕ → Worker) (k : ℕ) (q : Ptr) → after_wake b f k ≡ running q → f k ≡ running q
woken_running true f k q e = ground arith
woken_running false f k q e = e

stays_running :
    (b : Bool) (f : ℕ → Worker) (k : ℕ) (q : Ptr) → f k ≡ running q → after_wake b f k ≡ running q
stays_running true f k q e = ground arith
stays_running false f k q e = e

pub woken_exited : (b : Bool) (f : ℕ → Worker) (k : ℕ) → after_wake b f k ≡ exited → f k ≡ exited
woken_exited true f k e = ground arith
woken_exited false f k e = e

pub woken_waiting :
    (b : Bool) (f : ℕ → Worker) (k : ℕ) → after_wake b f k ≡ waiting → (b ≡ false) × (f k ≡ waiting)
woken_waiting true f k e = ground arith
woken_waiting false f k e = (refl, e)

-- A client that does not wait changes nothing that the invariant speaks of.
pub client-Inv :
    (n m : ℕ) (s : System) (i : ℕ) (c : Client)
    → Inv n m s
    → ((j : Job) → c ≢ blocked j)
    → Inv n m (record s { clients = update s.clients i c })
client-Inv n m s i c v out = record {
  cells = v.cells;
  holds = v.holds;
  threads = v.threads;
  limit = v.limit;
  bounded = v.bounded;
  history = v.history;
  owned = v.owned;
  apart = v.apart;
  worker_waits = v.worker_waits;
  client_waits = λ k j e.
      (ground (arith, v.client_waits k j, out j), ground (arith, v.client_waits k j, out j));
  closer_waits = v.closer_waits;
  phase = v.phase;
  emptied = v.emptied;
  exits = v.exits;
  kept = v.kept;
}

module _ (n m : ℕ) (s : System) (i : ℕ) (j : Job) (v : Inv n m s) where
  blocked-Inv :
      s.pool.cur_queue_job_num ≡ s.pool.queue_max_num
      → s.pool.pool_is_close ≡ false
      → Inv n m (record s { clients = update s.clients i (blocked j) })
  blocked-Inv no_room is_open = record {
    cells = v.cells;
    holds = v.holds;
    threads = v.threads;
    limit = v.limit;
    bounded = v.bounded;
    history = v.history;
    owned = v.owned;
    apart = v.apart;
    worker_waits = v.worker_waits;
    client_waits = λ k l e. (sym v.holds.count ∙ no_room ∙ v.limit, λ closed. cc);
    closer_waits = v.closer_waits;
    phase = v.phase;
    emptied = v.emptied;
    exits = v.exits;
    kept = v.kept;
  }

  accepted-Inv :
      (p : Ptr) (t : Pool)
      → s.pool.heap p ≡ none
      → s.pool.cur_queue_job_num ≢ s.pool.queue_max_num
      → s.pool.pool_is_close ≡ false
      → Holds t (v.cells ++ (p, j) ∷ [])
      → ((q : Ptr) → q ≢ p → Free q v.cells → t.heap q ≡ s.pool.heap q)
      → Same s.pool t
      → Inv n m (after_add s i j (accepted t (is_nil v.cells)))
  unfolding after_add
  accepted-Inv p t unused room is_open holds kept same = record {
    cells = v.cells ++ (p, j) ∷ [];
    holds = holds;
    threads = same.thread_num ∙ v.threads;
    limit = same.queue_max_num ∙ v.limit;
    bounded = omega (
      arith,
      v.bounded,
      v.holds.count,
      v.limit,
      length-append v.cells ((p, j) ∷ []),
      λ (e : length v.cells ≡ m). room (v.holds.count ∙ e ∙ sym v.limit),
    );
    history =
        rw (v.history, map-append (λ (c : Ptr × Job). c.1) v.cells ((p, j) ∷ []))
          (append_assoc s.taken_jobs (jobs v.cells) (j ∷ []));
    owned = λ k q e.
        let (held, out) = v.owned k q (run k q e) in
        let ne : q ≢ p = λ (d : q ≡ p). held (ap s.pool.heap d ∙ unused) in
        (
          λ gone. held (sym (kept q ne out) ∙ gone),
          All-append _ v.cells ((p, j) ∷ []) out (λ d. ne (sym d), tt),
        );
    apart = λ k l q e f. v.apart k l q (run k q e) (run l q f);
    worker_waits = λ k e.
        let (b, w) = woken_waiting (is_nil v.cells) s.workers k e in
        let b' = rw (v.worker_waits k w).0 at b in cc;
    client_waits = λ k l e.
        absurd (room (v.holds.count ∙ (v.client_waits k l (ground arith)).0 ∙ sym v.limit));
    closer_waits = λ e d. append-ne-nil v.cells (p, j) [] d;
    phase = same.pool_is_close ∙ v.phase;
    emptied = λ closed. cc (sym is_open ∙ sym same.pool_is_close ∙ closed);
    exits = λ k e. same.pool_is_close ∙ v.exits k (woken_exited (is_nil v.cells) s.workers k e);
    kept = λ q held out.
        let out_first = All-left _ v.cells ((p, j) ∷ []) out in
        let ne : q ≢ p = λ d. (All-right _ v.cells ((p, j) ∷ []) out).0 (sym d) in
        let (k, l, e) = v.kept q (λ gone. held (kept q ne out_first ∙ gone)) out_first in
        (k, l, stays_running (is_nil v.cells) s.workers k q e);
  }
    where
      run :
          (k : ℕ) (q : Ptr)
          → after_wake (is_nil v.cells) s.workers k ≡ running q
          → s.workers k ≡ running q
      run k q e = woken_running (is_nil v.cells) s.workers k q e

  -- `ThreadPool_AddJob`, on each of its branches.
  pub add-Inv :
      (memory : Option Ptr) (r : Added)
      → IsUnused s.pool memory
      → add_section s.pool memory j ≡ ok r
      → Inv n m (after_add s i j r)
  unfolding after_add
  add-Inv memory r unused done =
      let (r', done', outcome) = add_section_outcome s.pool v.cells v.holds j memory unused in
      let same : r' ≡ r = cc (sym done' ∙ done) in rw (← same) (by_outcome memory r' unused outcome)
    where
      by_outcome :
          (memory : Option Ptr) (r : Added)
          → IsUnused s.pool memory
          → AddOutcome s.pool v.cells j memory r
          → Inv n m (after_add s i j r)
      by_outcome memory _ u (Sections.waits no_room is_open) = blocked-Inv no_room is_open
      by_outcome memory _ u (Sections.refuses why) =
          client-Inv n m s i (returned false) v (λ k e. cc)
      by_outcome memory _ u (Sections.accepts p t got room is_open holds kept same) =
          accepted-Inv p t (rw got at u) room is_open holds kept same
