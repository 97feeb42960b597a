-- ===== src/ThreadPool/Emptying.antt =====
-- The one that destroys the pool closes it, after the workers have taken the jobs.
use cpp_project.Base.{
  ℕ, ◌≡◌, refl, ap, ◌∙◌, ◌≢◌, ◌<◌, ◌⊎◌, inl, inr, Bool-cases, false, ◌==◌, ==_iff, arith,
}
use cpp_project.ThreadPool.{close_section, drain_section}
use cpp_project.ThreadPool.System
use cpp_project.ThreadPool.System.{
  System, Worker, Closer, ready, waiting, woken, running, exited, before, draining, rechecking,
  unlocked, told_workers, joining, destroyed, Step, Reach, TriesTake, Joined, after_take,
  after_close,
}
use cpp_project.ThreadPool.Invariant.{closed_by}
use cpp_project.ThreadPool.Safety.{Reach-Inv}
use cpp_project.ThreadPool.Progress.{Steps, here, then_on, Steps-append, Reach-Steps, drain_queue}

after_drain :
    (s : System)
    → ((s.pool.cur_queue_job_num ≡ 0) × ((after_close s (drain_section s.pool)).closer ≡ unlocked))
      ⊎ ((s.pool.cur_queue_job_num ≢ 0)
          × ((after_close s (drain_section s.pool)).closer ≡ draining))
unfolding after_close drain_section
after_drain s = elim (Bool-cases (s.pool.cur_queue_job_num == 0)) [
  | inl e ↦ inl ((==_iff s.pool.cur_queue_job_num 0).0 e, rw e refl)
  | inr e ↦ inr (ground (arith, e), rw e refl)
]

close_drains :
    (s : System) → s.pool.pool_is_close ≡ false → close_section s.pool ≡ drain_section s.pool
unfolding close_section
close_drains s e = rw (close_section, e) refl

after_closing_section :
    (s : System)
    → s.pool.pool_is_close ≡ false
    → ((s.pool.cur_queue_job_num ≡ 0) × ((after_close s (close_section s.pool)).closer ≡ unlocked))
      ⊎ ((s.pool.cur_queue_job_num ≢ 0)
          × ((after_close s (close_section s.pool)).closer ≡ draining))
after_closing_section s e = rw (close_drains s e) (after_drain s)

module _ (n m : ℕ) (some_worker : 0 < n) where
  -- An empty pool is closed by the closer's next look at it.
  pub recheck :
      (s : System)
      → Reach n m s
      → s.closer ≡ rechecking
      → (t : System) × Steps n s t × (t.closer ≡ unlocked)
  recheck s r at =
      let t = after_close s (drain_section s.pool) in
      let step : Step s t = System.drain at in
      let run = then_on s t t step tt (here t) in
      elim (after_drain s) [ inl (_, e) ↦ (t, run, e) | inr (_, e) ↦ drained t run e ]
    where
      drained :
          (t : System)
          → Steps n s t
          → t.closer ≡ draining
          → (u : System) × Steps n s u × (u.closer ≡ unlocked)
      drained t run e =
          let (u, run', e', none_left) =
            drain_queue n m t.pool.cur_queue_job_num t some_worker (Reach-Steps n m s t r run) e
              (omega arith) in
          let x = after_close u (drain_section u.pool) in
          elim (after_drain u) [
            | inl (_, closed) ↦ (
              x,
              Steps-append n s u x (Steps-append n s t u run run')
                  (then_on u x x (System.drain e') tt (here x)),
              closed,
            )
            | inr (ne, _) ↦ absurd (ne none_left)
          ]

  pub drain_first :
      (s : System)
      → Reach n m s
      → s.closer ≡ draining
      → (t : System) × Steps n s t × (t.closer ≡ unlocked)
  drain_first s r at =
      let (t, run, e, _) =
        drain_queue n m s.pool.cur_queue_job_num s some_worker r at (omega arith) in
      let (u, run', e') = recheck t (Reach-Steps n m s t r run) e in
      (u, Steps-append n s t u run run', e')

  pub close_first :
      (s : System)
      → Reach n m s
      → s.closer ≡ before
      → (t : System) × Steps n s t × (t.closer ≡ unlocked)
  close_first s r at =
      let open_pool : s.pool.pool_is_close ≡ false = (Reach-Inv r).phase ∙ ap closed_by at in
      let t = after_close s (close_section s.pool) in
      let run = then_on s t t (System.close at) tt (here t) in
      elim (after_closing_section s open_pool) [
        | inl (_, e) ↦ (t, run, e)
        | inr (_, e) ↦
            let (u, run', e') = drain_first t (Reach-Steps n m s t r run) e in
            (u, Steps-append n s t u run run', e')
      ]
