-- ===== src/ThreadPool/Sections.antt =====
-- What a client and a worker do with the mutex, on every branch, on a pool whose queue is in order.
use cpp_project.Base.{
  ◌+◌, ◌≡◌, refl, ap, ◌≢◌, [], ◌∷◌, ◌++◌, ◌⊎◌, inl, inr, true, false, Option, none, some, ◌==◌,
  Bool-cases, ok, arith, length,
}
use cpp_project.ThreadPool.{
  Ptr, Job, Pool, Added, full, refused, accepted, Taken, nothing, exit, taken, add_section,
  take_section,
}
use cpp_project.ThreadPool.System.{IsUnused}
use cpp_project.ThreadPool.Cells.{Cells, Free, Holds, Same, is_nil, enqueue-Holds, dequeue-Holds}

-- A client waits while the queue is full and the pool open, is refused by a closed pool or for want of
-- memory, and otherwise puts its job at the end.
pub data AddOutcome (s : Pool) (cs : Cells) (j : Job) (memory : Option Ptr) : Added → Type 0 where
  waits :
      s.cur_queue_job_num ≡ s.queue_max_num
      → s.pool_is_close ≡ false
      → AddOutcome s cs j memory full
  refuses : (s.pool_is_close ≡ true) ⊎ (memory ≡ none) → AddOutcome s cs j memory refused
  accepts :
      (p : Ptr) (t : Pool)
      → memory ≡ some p
      → s.cur_queue_job_num ≢ s.queue_max_num
      → s.pool_is_close ≡ false
      → Holds t (cs ++ (p, j) ∷ [])
      → ((q : Ptr) → q ≢ p → Free q cs → t.heap q ≡ s.heap q)
      → Same s t
      → AddOutcome s cs j memory (accepted t (is_nil cs))

-- A worker waits while the queue is empty and the pool open, exits from a closed pool, and otherwise
-- takes the first job, telling the closer of an empty queue and the clients of a first free place.
pub data TakeOutcome (s : Pool) (cs : Cells) : Taken → Type 0 where
  waits : cs ≡ [] → s.pool_is_close ≡ false → TakeOutcome s cs nothing
  exits : s.pool_is_close ≡ true → TakeOutcome s cs exit
  takes :
      (p : Ptr) (j : Job) (ds : Cells) (t : Pool)
      → cs ≡ (p, j) ∷ ds
      → s.pool_is_close ≡ false
      → Holds t ds
      → t.heap ≡ s.heap
      → Same s t
      → TakeOutcome s cs
          (taken t p (t.cur_queue_job_num == 0) (t.cur_queue_job_num + 1 == t.queue_max_num))

module _ (s : Pool) (cs : Cells) (h : Holds s cs) where
  add_open :
      (j : Job) (memory : Option Ptr)
      → IsUnused s memory
      → s.pool_is_close ≡ false
      → (s.cur_queue_job_num == s.queue_max_num) ≡ false
      → (r : Added) × (add_section s memory j ≡ ok r) × AddOutcome s cs j memory r
  unfolding add_section
  add_open j none u c e = (refused, rw (e, c), refuses (inr refl))
  add_open j (some p) u c e =
      let (t, run, holds, kept, same) = enqueue-Holds s cs p j h u in
      (
        accepted t (is_nil cs),
        ground (arith, run),
        accepts p t refl (ground arith) c holds kept same,
      )

  -- `ThreadPool_AddJob` never faults, and does one of these.
  pub add_section_outcome :
      (j : Job) (memory : Option Ptr)
      → IsUnused s memory
      → (r : Added) × (add_section s memory j ≡ ok r) × AddOutcome s cs j memory r
  unfolding add_section
  add_section_outcome j memory u = elim (Bool-cases s.pool_is_close) [
    | inl c ↦ (refused, ground arith, refuses (inl c))
    | inr c ↦ elim (Bool-cases (s.cur_queue_job_num == s.queue_max_num)) [
      | inl e ↦ (full, rw (e, c), waits (ground arith) c)
      | inr e ↦ add_open j memory u c e
    ]
  ]

  take_open :
      (ds : Cells)
      → cs ≡ ds
      → s.pool_is_close ≡ false
      → (r : Taken) × (take_section s ≡ ok r) × TakeOutcome s cs r
  unfolding take_section
  take_open [] e c = (nothing, ground (arith, h.count, ap length e), waits e c)
  take_open ((p, j) ∷ ds) e c =
      let h' = rw e at h in
      let (t, run, holds, heap, same) = dequeue-Holds s p j ds h' in
      let some_job : (s.cur_queue_job_num == 0) ≡ false = ground (arith, h.count, ap length e) in
      (_, ground (arith, run), takes p j ds t e c holds heap same)

  -- A worker never faults, and does one of these.
  pub take_section_outcome : (r : Taken) × (take_section s ≡ ok r) × TakeOutcome s cs r
  unfolding take_section
  take_section_outcome = elim (Bool-cases s.pool_is_close) [
    | inl c ↦ (exit, ground arith, exits c)
    | inr c ↦ take_open cs refl c
  ]
