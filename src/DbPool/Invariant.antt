-- ===== src/DbPool/Invariant.antt =====
-- What holds in every state of the pool and the threads that use it.
use cpp_project.Base.{Has, ℕ, ◌≡◌, refl, arith, ◌≤◌, List, [], ◌++◌, true, false, some, update_self}
use cpp_project.DbPool.{Ptr, init}
use cpp_project.DbPool.System.{System, waiting, holding, started}
use cpp_project.DbPool.Lists.{Good, conns, nulls}

-- The connections that exist are free or leased, each of them once, and `m_db_cur_conn_cnt` counts them
-- up to the limit; NULL is listed once at most; a connection that a thread holds is leased to it alone; a
-- thread waits at the limit only.
pub record Inv (m : ℕ) (s : System) : Type 0 where
  pub leased : List Ptr
  pub good : Good s.live s.pool.cur_conn_cnt (conns s.pool.free_list ++ leased)
  pub one_null : nulls s.pool.free_list ≤ 1
  pub limit : s.pool.cur_conn_cnt ≤ m
  pub max : s.pool.max_conn_cnt ≡ m
  pub held : (i : ℕ) (p : Ptr) → s.users i ≡ holding (some p) → Has p leased
  pub alone :
      (i k : ℕ) (p : Ptr) → s.users i ≡ holding (some p) → s.users k ≡ holding (some p) → i ≡ k
  pub waits : (i : ℕ) → s.users i ≡ waiting → s.pool.cur_conn_cnt ≡ m

pub started-Inv : (m : ℕ) (p : Ptr) → 1 ≤ m → Inv m (started m p)
unfolding init
started-Inv m p h = record {
  leased = [];
  good = ((tt, tt), (update_self (λ _. false) p true, tt), refl);
  one_null = omega arith;
  limit = h;
  max = refl;
  held = λ i c e. cc;
  alone = λ i k c e f. cc;
  waits = λ i e. cc;
}
