-- ===== src/ThreadPool/Progress.antt =====
-- Runs that lead from a state of the thread pool to its end: steps of the workers and of the closer.
use cpp_project.Base.{
  ℕ, zero, suc, ◌+◌, ◌≡◌, refl, sym, ap, ◌∙◌, ◌≢◌, ◌≤◌, ◌<◌, [], ◌∷◌, ◌⊎◌, inl, inr, Bool,
  Bool-cases, false, none, ◌==◌, ==_iff, arith, length, update, update_self, update_ne, ok, subst,
}
use cpp_project.ThreadPool.{Ptr, Pool, Taken, taken, take_section}
use cpp_project.ThreadPool.System
use cpp_project.ThreadPool.System.{
  System, Worker, Closer, ready, waiting, woken, running, exited, before, draining, rechecking,
  unlocked, told_workers, joining, destroyed, Step, Reach, later, TriesTake, Joined, after_take,
  after_close, wake_closer,
}
use cpp_project.ThreadPool.Cells.{Cells}
use cpp_project.ThreadPool.Sections.{TakeOutcome, waits, exits, takes, take_section_outcome}
use cpp_project.ThreadPool.Invariant.{Inv, closed_by}
use cpp_project.ThreadPool.Safety.{Reach-Inv}

-- The steps of `n` workers and of the closer, less spurious wake-ups.
abbrev pub Helps : ℕ → {s t : System} → Step s t → Type 0
Helps n (System.call i j e) = ⊥
Helps n (System.add i j memory tries unused done) = ⊥
Helps n (System.take i in_range tries done) = i < n
Helps n (System.finish i p e) = i < n
Helps n (System.close e) = Unit
Helps n (System.drain e) = Unit
Helps n (System.tell_workers e) = Unit
Helps n (System.tell_clients e) = Unit
Helps n (System.join fuel e all run) = Unit
Helps n (System.wake_spuriously i) = ⊥
Helps n (System.retry_spuriously i) = ⊥
Helps n System.recheck_spuriously = ⊥

-- A run of such steps, of any length.
pub data Steps (n : ℕ) : System → System → Type 0 where
  here : (s : System) → Steps n s s
  then_on : (s t u : System) (step : Step s t) → Helps n step → Steps n t u → Steps n s u

pub Steps-append : (n : ℕ) (s t u : System) → Steps n s t → Steps n t u → Steps n s u
Steps-append n _ _ u (here s) b = b
Steps-append n _ _ u (then_on s t v step helps a) b =
    then_on s t u step helps (Steps-append n t v u a b)

pub Reach-Steps : (n m : ℕ) (s t : System) → Reach n m s → Steps n s t → Reach n m t
Reach-Steps n m _ _ r (here s) = r
Reach-Steps n m _ _ r (then_on s t u step _ a) = Reach-Steps n m t u (later r step) a

-- A worker that neither waits nor has exited comes to the point where it takes a job.
pub to_ready :
    (n : ℕ) (s : System) (i : ℕ)
    → i < n
    → s.workers i ≢ waiting
    → s.workers i ≢ exited
    → (t : System) × Steps n s t
      × TriesTake (t.workers i)
      × (t.closer ≡ s.closer)
      × ((k : ℕ) → k ≢ i → t.workers k ≡ s.workers k)
      × (t.pool.cur_queue_job_num ≡ s.pool.cur_queue_job_num)
to_ready n s i in_range awake alive = by_state (s.workers i) refl
  where
    by_state :
        (w : Worker)
        → s.workers i ≡ w
        → (t : System) × Steps n s t
          × TriesTake (t.workers i)
          × (t.closer ≡ s.closer)
          × ((k : ℕ) → k ≢ i → t.workers k ≡ s.workers k)
          × (t.pool.cur_queue_job_num ≡ s.pool.cur_queue_job_num)
    by_state ready e = (s, here s, inl e, refl, λ k ne. refl, refl)
    by_state woken e = (s, here s, inr e, refl, λ k ne. refl, refl)
    by_state waiting e = absurd (awake e)
    by_state exited e = absurd (alive e)
    by_state (running p) e = (
      record s {
        pool = record s.pool { heap = update s.pool.heap p none };
        workers = update s.workers i ready;
      },
      then_on s _ _ (System.finish i p e) in_range (here _),
      inl (update_self s.workers i ready),
      refl,
      λ k ne. update_ne s.workers i ready k ne,
      refl,
    )

same_count :
    (s : System) (i : ℕ) (q : Pool) (p : Ptr) (now_empty not_full : Bool)
    → (after_take s i (taken q p now_empty not_full)).pool.cur_queue_job_num ≡ q.cur_queue_job_num
unfolding after_take
same_count s i q p now_empty not_full = refl

after_taken :
    (s : System) (i : ℕ) (q : Pool) (p : Ptr) (not_full : Bool)
    → s.closer ≡ draining
    → (((after_take s i (taken q p (q.cur_queue_job_num == 0) not_full)).closer ≡ rechecking)
        × ((after_take s i (taken q p (q.cur_queue_job_num == 0) not_full)).pool.cur_queue_job_num
            ≡ 0))
      ⊎ ((after_take s i (taken q p (q.cur_queue_job_num == 0) not_full)).closer ≡ draining)
unfolding after_take
after_taken s i q p not_full at = elim (Bool-cases (q.cur_queue_job_num == 0)) [
  | inl e ↦ inl (rw (after_take, e, at) refl, (==_iff q.cur_queue_job_num 0).0 e)
  | inr e ↦ inr (rw (after_take, e) at)
]

-- A worker that takes a job of a pool that is being drained leaves fewer, and tells the closer of none.
pub take_one :
    (n m : ℕ) (s : System) (i : ℕ)
    → Reach n m s
    → i < n
    → TriesTake (s.workers i)
    → s.closer ≡ draining
    → (t : System) × Steps n s t
      × (t.pool.cur_queue_job_num < s.pool.cur_queue_job_num)
      × (((t.closer ≡ rechecking) × (t.pool.cur_queue_job_num ≡ 0)) ⊎ (t.closer ≡ draining))
take_one n m s i r in_range tries at =
    let v = Reach-Inv r in
    let (taken', run, outcome) = take_section_outcome s.pool v.cells v.holds in
    by_outcome v taken' run outcome
  where
    by_outcome :
        (v : Inv n m s) (taken' : Taken)
        → take_section s.pool ≡ ok taken'
        → TakeOutcome s.pool v.cells taken'
        → (t : System) × Steps n s t
          × (t.pool.cur_queue_job_num < s.pool.cur_queue_job_num)
          × (((t.closer ≡ rechecking) × (t.pool.cur_queue_job_num ≡ 0)) ⊎ (t.closer ≡ draining))
    by_outcome v _ run (waits e _) = absurd (v.closer_waits at e)
    by_outcome v _ run (exits e) = absurd (cc (sym e ∙ v.phase ∙ ap closed_by at))
    by_outcome v _ run (takes p j ds q e _ holds heap same) = (
      after_take s i
          (taken q p (q.cur_queue_job_num == 0) (q.cur_queue_job_num + 1 == q.queue_max_num)),
      then_on s _ _ (System.take i (subst (λ x. i < x) (sym v.threads) in_range) tries run) in_range
          (here _),
      rw (same_count s i q p _ _) (omega (arith, v.holds.count, holds.count, ap length e)),
      after_taken s i q p (q.cur_queue_job_num + 1 == q.queue_max_num) at,
    )

no_cells : (cs : Cells) → length cs ≡ 0 → cs ≡ []
no_cells [] e = refl
no_cells (c ∷ cs) e = absurd (ground arith)

-- The workers take all jobs of a pool that is being drained.
pub drain_queue :
    (n m k : ℕ) (s : System)
    → 0 < n
    → Reach n m s
    → s.closer ≡ draining
    → s.pool.cur_queue_job_num ≤ k
    → (t : System) × Steps n s t × (t.closer ≡ rechecking) × (t.pool.cur_queue_job_num ≡ 0)
drain_queue n m zero s pos r at l =
    let v = Reach-Inv r in
    absurd (v.closer_waits at (no_cells v.cells (omega (arith, v.holds.count, l))))
drain_queue n m (suc k) s pos r at l =
    let v = Reach-Inv r in
    let open_pool : s.pool.pool_is_close ≡ false = v.phase ∙ ap closed_by at in
    let (s1, run1, tries, same, _, count) =
      to_ready n s 0 pos (λ e. v.closer_waits at (v.worker_waits 0 e).0)
        (λ e. cc (sym (v.exits 0 e) ∙ open_pool)) in
    let r1 = Reach-Steps n m s s1 r run1 in
    let (s2, step, fewer, told) = take_one n m s1 0 r1 pos tries (same ∙ at) in
    let run2 = Steps-append n s s1 s2 run1 step in
    elim told [
      | inl (a, b) ↦ (s2, run2, a, b)
      | inr still ↦
          let (t, run3, a, b) =
            drain_queue n m k s2 pos (Reach-Steps n m s s2 r run2) still
              (omega (arith, fewer, count, l)) in
          (t, Steps-append n s s2 t run2 run3, a, b)
    ]
