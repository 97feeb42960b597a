-- ===== src/ThreadPool/Shutdown.antt =====
-- The steps of `ThreadPool_Destroy`, and a call and a wake-up, keep the invariant.
use cpp_project.Base.{
  ℕ, ◌≡◌, refl, sym, ap, ◌∙◌, ◌≢◌, [], ◌∷◌, inl, inr, Bool-cases, true, false, arith, length,
  update, ◌==◌, zero, suc, ok, ok_injective,
}
use cpp_project.ThreadPool.{Pool, drain_section, close_section, release}
use cpp_project.ThreadPool.System.{
  System, Closer, before, draining, unlocked, told_workers, joining, destroyed, wake_worker,
  wake_client, wake_closer, after_close,
}
use cpp_project.ThreadPool.Cells.{Cells, first}
use cpp_project.ThreadPool.Invariant.{Inv, closed_by}

close_section-open : (p : Pool) → p.pool_is_close ≡ false → close_section p ≡ drain_section p
unfolding close_section
close_section-open p e = ground arith

module _ (n m : ℕ) (s : System) (v : Inv n m s) where
  -- The closer moves on without touching the pool.
  closer-Inv :
      (c : Closer)
      → closed_by s.closer ≡ closed_by c
      → (s.closer ≡ unlocked → c ≡ unlocked)
      → (s.closer ≡ told_workers → c ≡ told_workers)
      → (c ≡ draining → v.cells ≢ [])
      → Inv n m (record s { closer = c })
  closer-Inv c phase was_unlocked was_told drains = record {
    cells = v.cells;
    holds = v.holds;
    threads = v.threads;
    limit = v.limit;
    bounded = v.bounded;
    history = v.history;
    owned = v.owned;
    apart = v.apart;
    worker_waits = λ k e. ((v.worker_waits k e).0, λ d. was_unlocked ((v.worker_waits k e).1 d));
    client_waits = λ k j e. (
      (v.client_waits k j e).0,
      λ d. elim ((v.client_waits k j e).1 d) [
        | inl a ↦ inl (was_unlocked a)
        | inr a ↦ inr (was_told a)
      ],
    );
    closer_waits = drains;
    phase = v.phase ∙ phase;
    emptied = v.emptied;
    exits = v.exits;
    kept = v.kept;
  }

  pub closed-Inv :
      s.pool.cur_queue_job_num ≡ 0
      → Inv n m (record s { pool = record s.pool { pool_is_close = true }; closer = unlocked })
  closed-Inv none_left = record {
    cells = v.cells;
    holds = record {
      head = v.holds.head;
      tail = v.holds.tail;
      linked = v.holds.linked;
      distinct = v.holds.distinct;
      count = v.holds.count;
    };
    threads = v.threads;
    limit = v.limit;
    bounded = v.bounded;
    history = v.history;
    owned = v.owned;
    apart = v.apart;
    worker_waits = λ k e. ((v.worker_waits k e).0, λ d. refl);
    client_waits = λ k j e. ((v.client_waits k j e).0, λ d. inl refl);
    closer_waits = λ e. cc;
    phase = refl;
    emptied = λ e. empty v.cells refl;
    exits = λ k e. refl;
    kept = v.kept;
  }
    where
      empty : (cs : Cells) → v.cells ≡ cs → v.cells ≡ []
      empty [] e = e
      empty (c ∷ cs) e = absurd (ground (arith, v.holds.count, ap length e, none_left))

  -- The loop of `ThreadPool_Destroy`.
  pub drain-Inv : closed_by s.closer ≡ false → Inv n m (after_close s (drain_section s.pool))
  unfolding drain_section after_close
  drain-Inv still_open = elim (Bool-cases (s.pool.cur_queue_job_num == 0)) [
    | inl e ↦ rw e (closed-Inv (ground (arith, e)))
    | inr e ↦ rw e (
        closer-Inv draining still_open (λ d. cc) (λ d. cc)
          (λ f d. ground (arith, e, v.holds.count, ap length d)))
  ]

  pub close-Inv : s.closer ≡ before → Inv n m (after_close s (close_section s.pool))
  close-Inv at_first =
      let not_closed : closed_by s.closer ≡ false = ap closed_by at_first in
      rw (close_section-open s.pool (v.phase ∙ not_closed)) (drain-Inv not_closed)

  pub tell_workers-Inv :
      s.closer ≡ unlocked
      → Inv n m (record s { closer = told_workers; workers = λ k. wake_worker (s.workers k) })
  tell_workers-Inv at_unlocked = record {
    cells = v.cells;
    holds = v.holds;
    threads = v.threads;
    limit = v.limit;
    bounded = v.bounded;
    history = v.history;
    owned = λ k p e. v.owned k p (ground arith);
    apart = λ k l p e f. v.apart k l p (ground arith) (ground arith);
    worker_waits = λ k e. absurd (ground arith);
    client_waits = λ k j e. ((v.client_waits k j e).0, λ d. inr refl);
    closer_waits = λ e. cc;
    phase = v.phase ∙ ap closed_by at_unlocked;
    emptied = v.emptied;
    exits = λ k e. v.exits k (ground arith);
    kept = λ p held out. let (k, l, e) = v.kept p held out in (k, l, ground arith);
  }

  pub tell_clients-Inv :
      s.closer ≡ told_workers
      → Inv n m (record s { closer = joining; clients = λ k. wake_client (s.clients k) })
  tell_clients-Inv at_told = record {
    cells = v.cells;
    holds = v.holds;
    threads = v.threads;
    limit = v.limit;
    bounded = v.bounded;
    history = v.history;
    owned = v.owned;
    apart = v.apart;
    worker_waits =
        λ k e. ((v.worker_waits k e).0, λ d. cc (sym ((v.worker_waits k e).1 d) ∙ at_told));
    client_waits = λ k j e. absurd (ground arith);
    closer_waits = λ e. cc;
    phase = v.phase ∙ ap closed_by at_told;
    emptied = v.emptied;
    exits = v.exits;
    kept = v.kept;
  }

  -- The queue is empty when the workers have been joined: there is nothing to free.
  pub release_nothing : s.closer ≡ joining → (fuel : ℕ) → release (suc fuel) s.pool ≡ ok s.pool
  unfolding release
  release_nothing e fuel = rw (v.holds.head ∙ ap first (v.emptied (v.phase ∙ ap closed_by e))) refl

  pub join-Inv :
      (fuel : ℕ) (t : Pool)
      → s.closer ≡ joining
      → release fuel s.pool ≡ ok t
      → Inv n m (record s { pool = t; closer = destroyed })
  unfolding release
  join-Inv zero t e run = absurd (cc run)
  join-Inv (suc fuel) t e run =
      let same : t ≡ s.pool = ok_injective t s.pool (sym run ∙ release_nothing e fuel) in
      rw same (closer-Inv destroyed (ap closed_by e) (λ d. cc) (λ d. cc) (λ d. cc))

  pub wake_worker-Inv :
      (i : ℕ) → Inv n m (record s { workers = update s.workers i (wake_worker (s.workers i)) })
  wake_worker-Inv i = record {
    cells = v.cells;
    holds = v.holds;
    threads = v.threads;
    limit = v.limit;
    bounded = v.bounded;
    history = v.history;
    owned = λ k p e. v.owned k p (ground arith);
    apart = λ k l p e f. v.apart k l p (ground arith) (ground arith);
    worker_waits = λ k e. v.worker_waits k (ground arith);
    client_waits = v.client_waits;
    closer_waits = v.closer_waits;
    phase = v.phase;
    emptied = v.emptied;
    exits = λ k e. v.exits k (ground arith);
    kept = λ p held out. let (k, l, e) = v.kept p held out in (k, l, ground arith);
  }

  pub wake_client-Inv :
      (i : ℕ) → Inv n m (record s { clients = update s.clients i (wake_client (s.clients i)) })
  wake_client-Inv i = record {
    cells = v.cells;
    holds = v.holds;
    threads = v.threads;
    limit = v.limit;
    bounded = v.bounded;
    history = v.history;
    owned = v.owned;
    apart = v.apart;
    worker_waits = v.worker_waits;
    client_waits = λ k j e. v.client_waits k j (ground arith);
    closer_waits = v.closer_waits;
    phase = v.phase;
    emptied = v.emptied;
    exits = v.exits;
    kept = v.kept;
  }

  pub wake_closer-Inv : Inv n m (record s { closer = wake_closer s.closer })
  wake_closer-Inv =
      closer-Inv (wake_closer s.closer) (ground arith) (λ d. ground arith) (λ d. ground arith)
        (λ d. absurd (ground arith))
