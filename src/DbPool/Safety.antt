-- ===== src/DbPool/Safety.antt =====
-- What holds of every run of a pool of connections, and what becomes of a NULL that is given back.
use cpp_project.Base.{Has-Out, ℕ, ◌≡◌, ap, ◌≤◌, [], ◌∷◌, ◌++◌, false, none, some, arith}
use cpp_project.DbPool.{Ptr, DbPool, Attempt, gets, get_section, rel_section, is_listed, push_back}
use cpp_project.DbPool.System
use cpp_project.DbPool.System.{
  System, User, waiting, asking, holding, outside, Step, Reach, start, later,
}
use cpp_project.DbPool.Lists.{conns, is_listed-Out}
use cpp_project.DbPool.Invariant.{Inv, started-Inv}
use cpp_project.DbPool.Moves.{user-Inv, wake-Inv, rel-Inv, get-Inv, get_section-free}

Step-Inv : {m : ℕ} {s t : System} → Inv m s → Step s t → Inv m t
Step-Inv {m} {s} v (System.ask i e) = user-Inv m s i v asking (λ p d. cc) (λ d. cc)
Step-Inv {m} {s} v (System.get i a tries unused) = get-Inv m s i v a unused
Step-Inv {m} {s} v (System.rel i k c e wakes) = rel-Inv m _ i (wake-Inv m s k v) c (ground arith)
Step-Inv {m} {s} v (System.leave i e) = user-Inv m s i v outside (λ p d. cc) (λ d. cc)
Step-Inv {m} {s} v (System.wake_spuriously i) = wake-Inv m s i v

pub Reach-Inv : {m : ℕ} {s : System} → 1 ≤ m → Reach m s → Inv m s
Reach-Inv {m} h (start p) = started-Inv m p h
Reach-Inv h (later before_it step) = Step-Inv (Reach-Inv h before_it) step

-- In every reachable state of a pool with a limit of at least one, also where threads have given back
-- NULL, a connection that is not NULL and that a thread holds is held by no other thread and is not in
-- the free list.
pub held_alone :
    (m : ℕ) (s : System)
    → 1 ≤ m
    → Reach m s
    → (i k : ℕ) (p : Ptr) → s.users i ≡ holding (some p)
    → (s.users k ≡ holding (some p) → i ≡ k) × (is_listed (some p) s.pool.free_list ≡ false)
held_alone m s h run i k p e =
    let v = Reach-Inv h run in
    let out = Has-Out p (conns s.pool.free_list) v.leased (v.held i p e) v.good.0 in
    (v.alone i k p e, is_listed-Out p s.pool.free_list out)

-- If NULL is given back to a pool whose free list is empty, the next `GetDBConn` returns NULL, whatever
-- the limit is and whatever a new connection would do.
rel_null :
    (s : DbPool) (a : Attempt)
    → s.free_list ≡ []
    → get_section (rel_section s none) a ≡ gets (record s { free_list = [] }) none
unfolding rel_section is_listed
rel_null s a e =
    let listed : rel_section s none ≡ push_back s none = ground arith in
    rw listed (get_section-free (push_back s none) a none [] (ap (λ cs. cs ++ none ∷ []) e))
