-- ===== src/SkipListTimer/Reach.antt =====
-- Histories of a skip list: after the constructor a client adds timers, deletes timers that are there
-- and lets time pass. Memory is cleared, and due times stay below 2^31.
use cpp_project.Base.{ℕ, ◌+◌, ◌%◌, ◌^◌, ◌≡◌, sym, ◌∙◌, ◌≢◌, ◌<◌, none, List, [], ok, arith}
use cpp_project.SkipListTimer.Node.{Ptr, Heap, Slot, garbage, get_score}
use cpp_project.SkipListTimer.SkipList.{SkipList, create, random_level, del_timer}
use cpp_project.SkipListTimer.Chain.{Entry}
use cpp_project.SkipListTimer.Clock.{TimeVal, getcurrent_time}
use cpp_project.SkipListTimer.Expire.{add_timer, expire_timer}
use cpp_project.SkipListTimer.Represents.{Represents, insert_sorted, remove_score}
use cpp_project.SkipListTimer.Insert.{entry}
use cpp_project.SkipListTimer.Contract.{
  create-Represents, insert_node-Represents, del_node-Represents,
}
use cpp_project.SkipListTimer.Due.{pending, expire_timer-Represents}

pub data Step (s : SkipList) : SkipList → Type 0 where
  add :
      {s' : SkipList} (fresh : Ptr) (raw : ℕ → Slot) (draws : List ℕ) (tv : TimeVal)
      (mesc handle n : ℕ)
      → s.heap fresh ≡ none
      → ((i : ℕ) → raw i ≢ garbage)
      → (mesc + getcurrent_time tv) % 2 ^ 32 < 2 ^ 31
      → random_level draws ≡ ok n
      → add_timer fresh raw draws tv s mesc handle ≡ ok (s', fresh)
      → Step s s'
  del :
      {s' : SkipList} (p : Ptr) (b : ℕ)
      → get_score s.heap p ≡ ok b
      → del_timer s p ≡ ok s'
      → Step s s'
  expire :
      {s' : SkipList} {calls : List (Ptr × ℕ)} (now : ℕ)
      → expire_timer (s.length + 1) s now ≡ ok (s', calls)
      → Step s s'

pub data Reach : SkipList → Type 0 where
  start : (h : Heap) (header : Ptr) (raw : ℕ → Slot) → Reach (create h header raw)
  later : {s t : SkipList} → Reach s → Step s t → Reach t

Step-Represents :
    {s t : SkipList} (xs : List Entry)
    → Step s t
    → Represents s xs
    → (ys : List Entry) × Represents t ys
unfolding add_timer del_timer
Step-Represents {s} {t} xs (add fresh raw draws tv mesc handle n unused zeroed small drawn run)
      rep =
    let score : ℕ = (mesc + getcurrent_time tv) % 2 ^ 32 in
    let (s', run', rep') =
      insert_node-Represents s xs fresh raw draws score handle n rep unused zeroed small drawn in
    let same : s' ≡ t = cc (sym run' ∙ run) in
    (insert_sorted (entry fresh score n handle) xs, rw same at rep')
Step-Represents {s} {t} xs (del p b score run) rep =
    let (s', run', rep') = del_node-Represents s xs p b rep score in
    let same : s' ≡ t = cc (sym run' ∙ run) in (remove_score b xs, rw same at rep')
Step-Represents {s} {t} xs (expire now run) rep =
    let (s', run', rep') =
      expire_timer-Represents (s.length + 1) s xs now rep (omega (arith, rep.count)) in
    let same : s' ≡ t = cc (sym run' ∙ run) in (pending now xs, rw same at rep')

-- After any history the skip list stands for a list of timers: on every level its pointers lead
-- through the nodes that reach the level, in the order of their scores.
pub Reach-Represents : {s : SkipList} → Reach s → (xs : List Entry) × Represents s xs
Reach-Represents (start h header raw) = ([], create-Represents h header raw)
Reach-Represents (later r step) = let (xs, rep) = Reach-Represents r in Step-Represents xs step rep
