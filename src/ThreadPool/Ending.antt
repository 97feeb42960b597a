-- ===== src/ThreadPool/Ending.antt =====
-- The thread pool can always come to its end.
use cpp_project.ThreadPool.Shutdown.{release_nothing}
use cpp_project.Base.{
  ℕ, zero, suc, ◌≡◌, refl, sym, ap, subst, ◌∙◌, ◌≢◌, ◌≤◌, ◌<◌, inl, inr, Bool-cases, true, ◌==◌,
  ==_iff, arith, update, update_self, update_ne, ok,
}
use cpp_project.ThreadPool.{Taken, take_section}
use cpp_project.ThreadPool.System
use cpp_project.ThreadPool.System.{
  System, Worker, Closer, ready, waiting, woken, running, exited, before, draining, rechecking,
  unlocked, told_workers, joining, destroyed, Step, Reach, TriesTake, Joined, after_take,
  after_close,
}
use cpp_project.ThreadPool.Sections.{TakeOutcome, waits, exits, takes, take_section_outcome}
use cpp_project.ThreadPool.Invariant.{Inv, closed_by}
use cpp_project.ThreadPool.Safety.{Reach-Inv, closed_lost_none}
use cpp_project.ThreadPool.Progress.{Steps, here, then_on, Steps-append, Reach-Steps, to_ready}
use cpp_project.ThreadPool.Emptying.{recheck, drain_first, close_first}

exit_step :
    (n m : ℕ) (s : System) (i : ℕ)
    → Reach n m s
    → i < n
    → TriesTake (s.workers i)
    → s.closer ≡ joining
    → Steps n s (record s { workers = update s.workers i exited })
unfolding after_take
exit_step n m s i r in_range tries at =
    let v = Reach-Inv r in
    let closed : s.pool.pool_is_close ≡ true = v.phase ∙ ap closed_by at in
    let (taken', run, outcome) = take_section_outcome s.pool v.cells v.holds in
    by_outcome v closed taken' run outcome
  where
    by_outcome :
        (v : Inv n m s)
        → s.pool.pool_is_close ≡ true
        → (taken' : Taken) → take_section s.pool ≡ ok taken'
        → TakeOutcome s.pool v.cells taken'
        → Steps n s (record s { workers = update s.workers i exited })
    by_outcome v closed _ run (waits _ e) = absurd (cc (sym closed ∙ e))
    by_outcome v closed _ run (exits _) =
        then_on s _ _ (System.take i (subst (λ x. i < x) (sym v.threads) in_range) tries run)
          in_range (here _)
    by_outcome v closed _ run (takes _ _ _ _ _ e _ _ _) = absurd (cc (sym closed ∙ e))

module _ (n m : ℕ) (some_worker : 0 < n) where
  -- After the broadcasts a worker exits.
  exit_one :
      (s : System) (i : ℕ)
      → Reach n m s
      → i < n
      → s.closer ≡ joining
      → (t : System) × Steps n s t
        × (t.closer ≡ joining)
        × (t.workers i ≡ exited)
        × ((k : ℕ) → k ≢ i → t.workers k ≡ s.workers k)
  exit_one s i r in_range at = by_state (s.workers i) refl
    where
      awake : s.workers i ≢ waiting
      awake e =
          let v = Reach-Inv r in cc (sym at ∙ (v.worker_waits i e).1 (v.phase ∙ ap closed_by at))

      leave :
          (s1 : System)
          → Steps n s s1
          → TriesTake (s1.workers i)
          → s1.closer ≡ joining
          → ((k : ℕ) → k ≢ i → s1.workers k ≡ s.workers k)
          → (t : System) × Steps n s t
            × (t.closer ≡ joining)
            × (t.workers i ≡ exited)
            × ((k : ℕ) → k ≢ i → t.workers k ≡ s.workers k)
      leave s1 run tries at1 others =
          let t = record s1 { workers = update s1.workers i exited } in
          (
            t,
            Steps-append n s s1 t run
                (exit_step n m s1 i (Reach-Steps n m s s1 r run) in_range tries at1),
            at1,
            update_self s1.workers i exited,
            λ k ne. update_ne s1.workers i exited k ne ∙ others k ne,
          )

      by_state :
          (w : Worker)
          → s.workers i ≡ w
          → (t : System) × Steps n s t
            × (t.closer ≡ joining)
            × (t.workers i ≡ exited)
            × ((k : ℕ) → k ≢ i → t.workers k ≡ s.workers k)
      by_state exited e = (s, here s, at, e, λ k ne. refl)
      by_state waiting e = absurd (awake e)
      by_state ready e = leave s (here s) (inl e) at (λ k ne. refl)
      by_state woken e = leave s (here s) (inr e) at (λ k ne. refl)
      by_state (running p) e =
          let (s1, run, tries, same, others, _) =
            to_ready n s i in_range awake (λ d. cc (sym d ∙ e)) in
          leave s1 run tries (same ∙ at) others

  exit_all :
      (k : ℕ) (s : System)
      → k ≤ n
      → Reach n m s
      → s.closer ≡ joining
      → (t : System) × Steps n s t × (t.closer ≡ joining) × ((i : ℕ) → i < k → t.workers i ≡ exited)
  exit_all zero s l' r at = (s, here s, at, λ i l. absurd (omega (arith, l)))
  exit_all (suc k) s l' r at =
      let (t, run, at1, done) = exit_all k s (omega (arith, l')) r at in
      let (u, run', at2, last, others) =
        exit_one t k (Reach-Steps n m s t r run) (omega (arith, l')) at1 in
      (
        u,
        Steps-append n s t u run run',
        at2,
        λ i l. elim (Bool-cases (i == k)) [
          | inl e ↦ subst (λ x. u.workers x ≡ exited) (sym ((==_iff i k).0 e)) last
          | inr e ↦
              let ne : i ≢ k = ground (arith, e) in others i ne ∙ done i (omega (arith, l, ne))
        ],
      )

  join_all :
      (s : System)
      → Reach n m s
      → s.closer ≡ joining
      → (t : System) × Steps n s t × (t.closer ≡ destroyed)
  join_all s r at =
      let (t, run, at1, done) = exit_all n s (omega arith) r at in
      let r1 = Reach-Steps n m s t r run in
      let all : Joined t = λ i l. done i (subst (λ x. i < x) (Reach-Inv r1).threads l) in
      let u = record t { closer = destroyed } in
      (
        u,
        Steps-append n s t u run (
            then_on t u u (System.join 1 at1 all (release_nothing n m t (Reach-Inv r1) at1 0)) tt
              (here u)),
        refl,
      )

  tell_all :
      (s : System)
      → Reach n m s
      → s.closer ≡ told_workers
      → (t : System) × Steps n s t × (t.closer ≡ destroyed)
  tell_all s r at =
      let step = System.tell_clients at in
      let (u, run, e) = join_all _ (Reach-Steps n m s _ r (then_on s _ _ step tt (here _))) refl in
      (u, then_on s _ u step tt run, e)

  wake_all :
      (s : System)
      → Reach n m s
      → s.closer ≡ unlocked
      → (t : System) × Steps n s t × (t.closer ≡ destroyed)
  wake_all s r at =
      let step = System.tell_workers at in
      let (u, run, e) = tell_all _ (Reach-Steps n m s _ r (then_on s _ _ step tt (here _))) refl in
      (u, then_on s _ u step tt run, e)

  after_closing :
      (s : System)
      → Reach n m s
      → (t : System) × Steps n s t × (t.closer ≡ unlocked)
      → (t : System) × Steps n s t × (t.closer ≡ destroyed)
  after_closing s r (t, run, at) =
      let (u, run', e) = wake_all t (Reach-Steps n m s t r run) at in
      (u, Steps-append n s t u run run', e)

  destroy : (s : System) → Reach n m s → (t : System) × Steps n s t × (t.closer ≡ destroyed)
  destroy s r = by_phase s.closer refl
    where
      by_phase : (c : Closer) → s.closer ≡ c → (t : System) × Steps n s t × (t.closer ≡ destroyed)
      by_phase before e = after_closing s r (close_first n m some_worker s r e)
      by_phase draining e = after_closing s r (drain_first n m some_worker s r e)
      by_phase rechecking e = after_closing s r (recheck n m some_worker s r e)
      by_phase unlocked e = wake_all s r e
      by_phase told_workers e = tell_all s r e
      by_phase joining e = join_all s r e
      by_phase destroyed e = (s, here s, e)

  -- No reachable state of a pool with a worker is stuck: from each there is a run, of its workers and of the one
  -- that destroys it, without spurious wake-ups, that ends with the pool destroyed and every accepted
  -- job taken.
  pub can_be_destroyed :
      (s : System)
      → Reach n m s
      → (t : System) × Steps n s t × (t.closer ≡ destroyed) × (t.accepted_jobs ≡ t.taken_jobs)
  can_be_destroyed s r =
      let (t, run, e) = destroy s r in
      let r' = Reach-Steps n m s t r run in
      let closed : t.pool.pool_is_close ≡ true = (Reach-Inv r').phase ∙ ap closed_by e in
      (t, run, e, (closed_lost_none n m t r' closed).0)
