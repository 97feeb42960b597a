-- ===== src/ThreadPool/Leaks.antt =====
-- What is left of the pool in memory when it has been destroyed.
use cpp_project.Base.{
  ℕ, ◌≡◌, refl, sym, ap, ◌∙◌, ◌≢◌, ◌<◌, inl, inr, true, false, Option, none, some, arith, update_ne,
  subst,
}
use cpp_project.ThreadPool.{
  Ptr, Job, Cell, Added, full, refused, accepted, Taken, nothing, exit, taken, Closing, already,
  busy, closed,
}
use cpp_project.ThreadPool.System
use cpp_project.ThreadPool.System.{
  System, Worker, exited, destroyed, Step, Reach, start, later, TriesTake, after_add, after_take,
  after_close, wake_worker,
}
use cpp_project.ThreadPool.Cells.{first}
use cpp_project.ThreadPool.Invariant.{Inv, closed_by}
use cpp_project.ThreadPool.Safety.{Reach-Inv}

-- When the pool has been destroyed, its `n` workers have exited.
abbrev Ended : ℕ → System → Type 0
Ended n s = s.closer ≡ destroyed → (i : ℕ) → i < n → s.workers i ≡ exited

wake_exited : (w : Worker) → w ≡ exited → wake_worker w ≡ exited
wake_exited w e = ground arith

after_add-exited :
    (s : System) (i k : ℕ) (j : Job) (r : Added)
    → s.workers k ≡ exited
    → (after_add s i j r).workers k ≡ exited
unfolding after_add
after_add-exited s i k j full e = e
after_add-exited s i k j refused e = e
after_add-exited s i k j (accepted p true) e = wake_exited (s.workers k) e
after_add-exited s i k j (accepted p false) e = e

after_add-closer :
    (s : System) (i : ℕ) (j : Job) (r : Added) → (after_add s i j r).closer ≡ s.closer
unfolding after_add
after_add-closer s i j full = refl
after_add-closer s i j refused = refl
after_add-closer s i j (accepted p was_empty) = refl

after_take-other :
    (s : System) (i k : ℕ) (r : Taken) → k ≢ i → (after_take s i r).workers k ≡ s.workers k
unfolding after_take
after_take-other s i k nothing ne = update_ne s.workers i _ k ne
after_take-other s i k exit ne = update_ne s.workers i _ k ne
after_take-other s i k (taken p q now_empty not_full) ne = update_ne s.workers i _ k ne

after_take-destroyed :
    (s : System) (i : ℕ) (r : Taken) → (after_take s i r).closer ≡ destroyed → s.closer ≡ destroyed
unfolding after_take
after_take-destroyed s i nothing e = e
after_take-destroyed s i exit e = e
after_take-destroyed s i (taken p q true not_full) e = ground arith
after_take-destroyed s i (taken p q false not_full) e = e

after_close-destroyed :
    (s : System) (r : Closing) → (after_close s r).closer ≡ destroyed → s.closer ≡ destroyed
unfolding after_close
after_close-destroyed s already e = e
after_close-destroyed s busy e = absurd cc
after_close-destroyed s (closed p) e = absurd cc

not_trying : (w : Worker) → TriesTake w → w ≢ exited
not_trying w (inl a) e = cc
not_trying w (inr a) e = cc

Step-Ended : {n m : ℕ} {s t : System} → Inv n m s → Ended n s → Step s t → Ended n t
Step-Ended v h (System.call i j _) e k l = h e k l
Step-Ended {s = s} v h (System.add i j memory {r} _ _ _) e k l =
    after_add-exited s i k j r (h (sym (after_add-closer s i j r) ∙ e) k l)
Step-Ended {s = s} v h (System.take i {r} _ tries _) e k l =
    let gone = h (after_take-destroyed s i r e) k l in
    after_take-other s i k r
      (λ same. not_trying (s.workers i) tries (ap s.workers (sym same) ∙ gone))
    ∙ gone
Step-Ended {s = s} v h (System.finish i p runs) e k l =
    let gone = h e k l in
    update_ne s.workers i _ k (λ same. cc (sym runs ∙ sym (ap s.workers same) ∙ gone)) ∙ gone
Step-Ended {s = s} v h (System.close at) e k l = absurd (cc (sym at ∙ after_close-destroyed s _ e))
Step-Ended {s = s} v h (System.drain at) e k l = absurd (cc (sym at ∙ after_close-destroyed s _ e))
Step-Ended v h (System.tell_workers _) e k l = absurd cc
Step-Ended v h (System.tell_clients _) e k l = absurd cc
Step-Ended v h (System.join fuel _ all _) e k l = all k (subst (λ x. k < x) (sym v.threads) l)
Step-Ended {s = s} v h (System.wake_spuriously i) e k l = let gone = h e k l in ground arith
Step-Ended v h (System.retry_spuriously i) e k l = h e k l
Step-Ended v h System.recheck_spuriously e k l = h (ground arith) k l

Reach-Ended : {n m : ℕ} {s : System} → Reach n m s → Ended n s
Reach-Ended start = λ e k l. absurd cc
Reach-Ended (later before_it step) = Step-Ended (Reach-Inv before_it) (Reach-Ended before_it) step

-- In every reachable state in which the pool has been destroyed, every worker has exited, the queue is
-- empty and no memory of a job is allocated: what `malloc` gave for the jobs has all been freed.
pub destroyed_frees_all :
    (n m : ℕ) (s : System)
    → Reach n m s
    → s.closer ≡ destroyed
    → ((i : ℕ) → i < n → s.workers i ≡ exited)
      × (s.pool.head ≡ none)
      × ((p : Ptr) → s.pool.heap p ≡ none)
destroyed_frees_all n m s run at =
    let v = Reach-Inv run in
    let ended = Reach-Ended run at in
    let none_left = v.emptied (v.phase ∙ ap closed_by at) in
    (
      ended,
      v.holds.head ∙ ap first none_left,
      λ p.
          not_some (s.pool.heap p)
            (λ held. let (k, l, e) = v.kept p held (rw none_left tt) in cc (sym (ended k l) ∙ e)),
    )
  where
    not_some : (c : Option Cell) → ¬ (c ≢ none) → c ≡ none
    not_some none h = refl
    not_some (some c) h = absurd (h (λ e. cc))
