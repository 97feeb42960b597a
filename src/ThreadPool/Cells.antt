-- ===== src/ThreadPool/Cells.antt =====
-- The queue of jobs in memory: cells that lead from the head to the tail, and what adding and taking a
-- job makes of them.
use cpp_project.Base.{
  ◌+◌, ◌-◌, ◌≡◌, refl, sym, ◌∙◌, ◌≢◌, List, [], ◌∷◌, ◌++◌, Bool, true, false, Option, none, some,
  ◌==◌, update, update_self, update_ne, ok, arith, All, All-append, length, length-append,
}
use cpp_project.ThreadPool.{Ptr, Job, Cell, cell, Heap, Pool, enqueue, dequeue, set_next}

abbrev pub Cells : Type 0
Cells = List (Ptr × Job)

abbrev pub first : Cells → Option Ptr
first [] = none
first ((p, j) ∷ cs) = some p

abbrev pub last : Cells → Option Ptr
last [] = none
last ((p, j) ∷ []) = some p
last ((p, j) ∷ c ∷ cs) = last (c ∷ cs)

abbrev pub Linked : Heap → Cells → Type 0
Linked h [] = Unit
Linked h ((p, j) ∷ cs) = (h p ≡ some (cell j (first cs))) × Linked h cs

abbrev pub Free : Ptr → Cells → Type 0
Free p = All (λ c. c.0 ≢ p)

abbrev pub Distinct : Cells → Type 0
Distinct [] = Unit
Distinct ((p, j) ∷ cs) = Free p cs × Distinct cs

-- The queue of a pool holds these cells.
pub record Holds (s : Pool) (cs : Cells) : Type 0 where
  pub head : s.head ≡ first cs
  pub tail : s.tail ≡ last cs
  pub linked : Linked s.heap cs
  pub distinct : Distinct cs
  pub count : s.cur_queue_job_num ≡ length cs

pub Linked-frame :
    (h : Heap) (p : Ptr) (c : Option Cell) (cs : Cells)
    → Free p cs
    → Linked h cs
    → Linked (update h p c) cs
Linked-frame h p c [] f l = tt
Linked-frame h p c ((q, j) ∷ cs) f l = (update_ne h p c q f.0 ∙ l.0, Linked-frame h p c cs f.1 l.1)

pub Linked-Free : (h : Heap) (p : Ptr) (cs : Cells) → h p ≡ none → Linked h cs → Free p cs
Linked-Free h p [] e l = tt
Linked-Free h p ((q, j) ∷ cs) e l =
    (λ same. let l' = rw same at l.0 in cc, Linked-Free h p cs e l.1)

Distinct-snoc :
    (cs : Cells) (p : Ptr) (j : Job) → Distinct cs → Free p cs → Distinct (cs ++ (p, j) ∷ [])
Distinct-snoc [] p j d f = (tt, tt)
Distinct-snoc ((q, k) ∷ cs) p j d f =
    (All-append _ cs ((p, j) ∷ []) d.0 (λ e. f.0 (sym e), tt), Distinct-snoc cs p j d.1 f.1)

last-snoc : (cs : Cells) (p : Ptr) (j : Job) → last (cs ++ (p, j) ∷ []) ≡ some p
last-snoc [] p j = refl
last-snoc (c ∷ []) p j = refl
last-snoc (c ∷ d ∷ cs) p j = last-snoc (d ∷ cs) p j

-- The last cell is made to lead to the new one.
Linked-snoc :
    (h : Heap) (c : Ptr × Job) (cs : Cells) (p : Ptr) (j : Job)
    → Linked h (c ∷ cs)
    → Distinct (c ∷ cs)
    → Free p (c ∷ cs)
    → h p ≡ some (cell j none)
    → (g : Heap) × (set_next h (last (c ∷ cs)) (some p) ≡ ok g)
      × Linked g (c ∷ (cs ++ (p, j) ∷ []))
      × ((q : Ptr) → Free q (c ∷ cs) → g q ≡ h q)
unfolding set_next
Linked-snoc h (q, k) [] p j l d f e = (
  update h q (some (cell k (some p))),
  rw l.0,
  (update_self h q (some (cell k (some p))), (update_ne h q _ p (λ s. f.0 (sym s)) ∙ e, tt)),
  λ r out. update_ne h q _ r (λ s. out.0 (sym s)),
)
Linked-snoc h (q, k) (c ∷ cs) p j l d f e =
    let (g, run, linked, kept) = Linked-snoc h c cs p j l.1 d.1 f.1 e in
    (g, run, (kept q d.0 ∙ l.0, linked), λ r out. kept r out.1)

-- What adding or taking a job leaves alone.
pub record Same (s t : Pool) : Type 0 where
  pub thread_num : t.thread_num ≡ s.thread_num
  pub queue_max_num : t.queue_max_num ≡ s.queue_max_num
  pub pool_is_close : t.pool_is_close ≡ s.pool_is_close

abbrev pub is_nil : Cells → Bool
is_nil [] = true
is_nil (c ∷ cs) = false

-- Adding a job at an unused address puts it at the end of the queue, and writes to no cell outside it.
pub enqueue-Holds :
    (s : Pool) (cs : Cells) (p : Ptr) (j : Job)
    → Holds s cs
    → s.heap p ≡ none
    → (t : Pool) × (enqueue s p j ≡ ok (t, is_nil cs))
      × Holds t (cs ++ (p, j) ∷ [])
      × ((q : Ptr) → q ≢ p → Free q cs → t.heap q ≡ s.heap q)
      × Same s t
unfolding enqueue
enqueue-Holds s [] p j h unused =
    let g : Heap = update s.heap p (some (cell j none)) in
    (
      record s {
        heap = g;
        head = some p;
        tail = some p;
        cur_queue_job_num = s.cur_queue_job_num + 1;
      },
      rw h.head,
      record {
        head = refl;
        tail = refl;
        linked = (update_self s.heap p (some (cell j none)), tt);
        distinct = (tt, tt);
        count = omega (arith, h.count);
      },
      λ q ne out. update_ne s.heap p _ q ne,
      record { thread_num = refl; queue_max_num = refl; pool_is_close = refl },
    )
enqueue-Holds s (c ∷ cs) p j h unused =
    let out = Linked-Free s.heap p (c ∷ cs) unused h.linked in
    let h₁ : Heap = update s.heap p (some (cell j none)) in
    let (g, run, linked, kept) =
      Linked-snoc h₁ c cs p j (Linked-frame s.heap p (some (cell j none)) (c ∷ cs) out h.linked)
        h.distinct out (update_self s.heap p (some (cell j none))) in
    (
      record s { heap = g; tail = some p; cur_queue_job_num = s.cur_queue_job_num + 1 },
      rw (h.head, h.tail, run),
      record {
        head = h.head;
        tail = sym (last-snoc (c ∷ cs) p j);
        linked = linked;
        distinct = Distinct-snoc (c ∷ cs) p j h.distinct out;
        count = omega (arith, h.count, length-append (c ∷ cs) ((p, j) ∷ []));
      },
      λ q ne free. kept q free ∙ update_ne s.heap p _ q ne,
      record { thread_num = refl; queue_max_num = refl; pool_is_close = refl },
    )

-- Taking a job takes the first, and writes to no cell.
pub dequeue-Holds :
    (s : Pool) (p : Ptr) (j : Job) (cs : Cells)
    → Holds s ((p, j) ∷ cs)
    → (t : Pool) × (dequeue s ≡ ok (t, p)) × Holds t cs × (t.heap ≡ s.heap) × Same s t
unfolding dequeue
dequeue-Holds s p j [] h = (
  record s { head = none; tail = none; cur_queue_job_num = s.cur_queue_job_num - 1 },
  rw (h.head, h.count),
  record { head = refl; tail = refl; linked = tt; distinct = tt; count = omega (arith, h.count) },
  refl,
  record { thread_num = refl; queue_max_num = refl; pool_is_close = refl },
)
dequeue-Holds s p j (c ∷ cs) h =
    let more : (s.cur_queue_job_num - 1 == 0) ≡ false = ground (arith, h.count) in
    (
      record s { head = first (c ∷ cs); cur_queue_job_num = s.cur_queue_job_num - 1 },
      rw (h.head, more, h.linked.0),
      record {
        head = refl;
        tail = h.tail;
        linked = h.linked.1;
        distinct = h.distinct.1;
        count = omega (arith, h.count);
      },
      refl,
      record { thread_num = refl; queue_max_num = refl; pool_is_close = refl },
    )
