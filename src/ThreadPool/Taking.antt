-- ===== src/ThreadPool/Taking.antt =====
-- A step in which a worker takes a job, or has done one, keeps the invariant.
use mathlib.Core.List.{append_assoc}
use cpp_project.Base.{
  ℕ, ◌+◌, ◌≡◌, refl, sym, ap, ◌∙◌, ◌≢◌, [], ◌∷◌, ◌++◌, inl, inr, Bool, true, false, none, some,
  arith, length, update, if◌then◌else◌, ◌==◌, ==_iff, update_ne, update_cases, ok, ◌<◌, Bool-cases,
  update_self,
}
use cpp_project.ThreadPool.{Ptr, Job, cell, Heap, Pool, Taken, taken, take_section, free}
use cpp_project.ThreadPool.System.{
  System, Worker, Client, Closer, ready, waiting, running, exited, blocked, draining, wake_client,
  wake_closer, after_take, TriesTake,
}
use cpp_project.ThreadPool.Cells.{Cells, Free, Holds, Same, Linked-frame, Linked, Distinct, first}
use cpp_project.ThreadPool.Sections
use cpp_project.ThreadPool.Sections.{TakeOutcome, take_section_outcome}
use cpp_project.ThreadPool.Invariant.{Inv, closed_by, jobs}

abbrev after_tell : Bool → (ℕ → Client) → ℕ → Client
after_tell b f = if b then (λ l. wake_client (f l)) else f

told_blocked :
    (b : Bool) (f : ℕ → Client) (k : ℕ) {j : Job}
    → after_tell b f k ≡ blocked j
    → (b ≡ false) × (f k ≡ blocked j)
told_blocked true f k e = ground arith
told_blocked false f k e = (refl, e)

told_draining : (n : ℕ) (c : Closer) → n ≡ 0 → (if n == 0 then wake_closer c else c) ≢ draining
told_draining n c e = ground arith

told_phase : (b : Bool) (c : Closer) → closed_by c ≡ closed_by (if b then wake_closer c else c)
told_phase b c = ground arith

running_injective : {p q : Ptr} → running p ≡ running q → p ≡ q
running_injective e = cc

-- A worker that gives up its job, or has none.
module _ (n m : ℕ) (s : System) (i : ℕ) (v : Inv n m s) where
  -- A worker that runs a job which the `i`-th does not run is another one.
  still_runs :
      (w : Worker) (k : ℕ) (p : Ptr)
      → s.workers i ≢ running p
      → s.workers k ≡ running p
      → update s.workers i w k ≡ running p
  still_runs w k p other e =
      update_ne s.workers i w k (λ (d : k ≡ i). other (sym (ap s.workers d) ∙ e)) ∙ e

  pub worker-Inv :
      (w : Worker)
      → ((p : Ptr) → s.workers i ≢ running p)
      → ((p : Ptr) → w ≢ running p)
      → (w ≡ waiting → (v.cells ≡ []) × (s.pool.pool_is_close ≡ false))
      → (w ≡ exited → s.pool.pool_is_close ≡ true)
      → Inv n m (record s { workers = update s.workers i w })
  worker-Inv w was_free rests waits exits = record {
    cells = v.cells;
    holds = v.holds;
    threads = v.threads;
    limit = v.limit;
    bounded = v.bounded;
    history = v.history;
    owned = λ k p e. v.owned k p (ground (arith, rests p));
    apart = λ k l p e f. v.apart k l p (ground (arith, rests p)) (ground (arith, rests p));
    worker_waits = λ k e. (ground (arith, v.worker_waits k), λ c. ground (arith, v.worker_waits k));
    client_waits = v.client_waits;
    closer_waits = v.closer_waits;
    phase = v.phase;
    emptied = v.emptied;
    exits = λ k e. ground (arith, v.exits k);
    kept =
        λ p held out. let (k, l, e) = v.kept p held out in (k, l, still_runs w k p (was_free p) e);
  }

  pub finish-Inv :
      (p : Ptr)
      → s.workers i ≡ running p
      → Inv n m (record s { pool = free s.pool p; workers = update s.workers i ready })
  finish-Inv p runs = record {
    cells = v.cells;
    holds = record {
      head = v.holds.head;
      tail = v.holds.tail;
      linked = Linked-frame s.pool.heap p none v.cells (v.owned i p runs).1 v.holds.linked;
      distinct = v.holds.distinct;
      count = v.holds.count;
    };
    threads = v.threads;
    limit = v.limit;
    bounded = v.bounded;
    history = v.history;
    owned = λ k q e. elim (update_cases s.workers i ready k e) [
      | inl (_, d) ↦ cc
      | inr (ne, f) ↦
          let (held, out) = v.owned k q f in
          let other : q ≢ p = λ (d : q ≡ p). ne (v.apart k i p (f ∙ ap running d) runs) in
          (λ gone. held (sym (update_ne s.pool.heap p none q other) ∙ gone), out)
    ];
    apart = λ k l q e f. v.apart k l q (ground arith) (ground arith);
    worker_waits = λ k e. v.worker_waits k (ground arith);
    client_waits = v.client_waits;
    closer_waits = v.closer_waits;
    phase = v.phase;
    emptied = v.emptied;
    exits = λ k e. v.exits k (ground arith);
    kept = λ q held out.
        let ne : q ≢ p =
          λ (d : q ≡ p). held (ap (update s.pool.heap p none) d ∙ update_self s.pool.heap p none) in
        let (k, l, e) = v.kept q (λ gone. held (update_ne s.pool.heap p none q ne ∙ gone)) out in
        (k, l, still_runs ready k q (λ d. ne (running_injective (sym d ∙ runs))) e);
  }

  takes-Inv :
      (p : Ptr) (j : Job) (ds : Cells) (t : Pool)
      → i < n
      → ((q : Ptr) → s.workers i ≢ running q)
      → v.cells ≡ (p, j) ∷ ds
      → s.pool.pool_is_close ≡ false
      → Holds t ds
      → t.heap ≡ s.pool.heap
      → Same s.pool t
      → Inv n m (
          after_take s i
            (taken t p (t.cur_queue_job_num == 0) (t.cur_queue_job_num + 1 == t.queue_max_num)))
  unfolding after_take
  takes-Inv p j ds t in_range was_free e is_open holds heap same = record {
    cells = ds;
    holds = holds;
    threads = same.thread_num ∙ v.threads;
    limit = same.queue_max_num ∙ v.limit;
    bounded = omega (arith, v.bounded, ap length e);
    history =
        rw (heap, linked.0)
          (v.history
            ∙ ap (λ c. s.taken_jobs ++ jobs c) e
            ∙ sym (append_assoc s.taken_jobs (j ∷ []) (jobs ds)));
    owned = λ k q f. elim (update_cases s.workers i (running p) k f) [
      | inl (_, d) ↦
          let same_cell : p ≡ q = cc in
          rw (← same_cell)
            (λ gone. cc (sym linked.0 ∙ sym (ap (λ (h : Heap). h p) heap) ∙ gone), distinct.0)
      | inr (ne, g) ↦ let (held, out) = v.owned k q g in (rw heap held, (rw e at out).1)
    ];
    apart = λ k l q f g. elim (update_cases s.workers i (running p) k f) [
      | inl (a, d) ↦ elim (update_cases s.workers i (running p) l g) [
        | inl (b, _) ↦ a ∙ sym b
        | inr (_, c) ↦ absurd (fresh l q c d)
      ]
      | inr (_, c) ↦ elim (update_cases s.workers i (running p) l g) [
        | inl (b, d) ↦ absurd (fresh k q c d)
        | inr (_, c') ↦ v.apart k l q c c'
      ]
    ];
    worker_waits = λ k f. elim (update_cases s.workers i (running p) k f) [
      | inl (_, d) ↦ cc
      | inr (_, g) ↦ cc (sym e ∙ (v.worker_waits k g).0)
    ];
    client_waits = λ k l f.
        let (not_told, g) =
          told_blocked (t.cur_queue_job_num + 1 == t.queue_max_num) s.clients k f in
        let was_full = (v.client_waits k l g).0 in
        let first_place : t.cur_queue_job_num + 1 ≡ t.queue_max_num =
          omega (arith, holds.count, was_full, ap length e, same.queue_max_num, v.limit) in
        cc (sym ((==_iff _ _).1 first_place) ∙ not_told);
    closer_waits = λ f d. told_draining t.cur_queue_job_num s.closer (holds.count ∙ ap length d) f;
    phase = same.pool_is_close ∙ v.phase ∙ told_phase (t.cur_queue_job_num == 0) s.closer;
    emptied = λ c. cc (sym is_open ∙ sym same.pool_is_close ∙ c);
    exits = λ k f. elim (update_cases s.workers i (running p) k f) [
      | inl (_, d) ↦ cc
      | inr (_, g) ↦ same.pool_is_close ∙ v.exits k g
    ];
    kept = λ q held out. elim (Bool-cases (q == p)) [
      | inl d ↦
          (i, in_range, update_self s.workers i (running p) ∙ ap running (sym ((==_iff q p).0 d)))
      | inr d ↦
          let out_first : Free q v.cells =
            rw e ((λ (x : p ≡ q). cc (sym ((==_iff q p).1 (sym x)) ∙ d)), out) in
          let (k, l, g) = v.kept q (rw heap at held) out_first in
          (k, l, still_runs (running p) k q (was_free q) g)
    ];
  }
    where
      linked : (s.pool.heap p ≡ some (cell j (first ds))) × Linked s.pool.heap ds
      linked = rw e at v.holds.linked

      distinct : Free p ds × Distinct ds
      distinct = rw e at v.holds.distinct

      fresh : (l : ℕ) (q : Ptr) → s.workers l ≡ running q → running p ≡ running q → ⊥
      fresh l q g d =
          let out = rw e at (v.owned l q g).1 in let same_cell : p ≡ q = cc in out.0 same_cell

  -- A worker with the mutex, on each of its branches.
  pub take-Inv :
      (r : Taken)
      → i < n
      → TriesTake (s.workers i)
      → take_section s.pool ≡ ok r
      → Inv n m (after_take s i r)
  unfolding after_take
  take-Inv r in_range tries done =
      let (r', done', outcome) = take_section_outcome s.pool v.cells v.holds in
      let same : r' ≡ r = cc (sym done' ∙ done) in rw (← same) (by_outcome r' outcome)
    where
      was_free : (q : Ptr) → s.workers i ≢ running q
      was_free q e = elim tries [ inl d ↦ cc | inr d ↦ cc ]

      by_outcome : (r : Taken) → TakeOutcome s.pool v.cells r → Inv n m (after_take s i r)
      by_outcome _ (Sections.waits none_left is_open) =
          worker-Inv waiting was_free (λ p e. cc) (λ e. (none_left, is_open)) (λ e. cc)
      by_outcome _ (Sections.exits is_closed) =
          worker-Inv exited was_free (λ p e. cc) (λ e. cc) (λ e. is_closed)
      by_outcome _ (Sections.takes p j ds t e is_open holds heap same) =
          takes-Inv p j ds t in_range was_free e is_open holds heap same
