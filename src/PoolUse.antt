-- ===== src/PoolUse.antt =====
-- The jobs of 线程池连接池/ThreadPool.h, workUsePool and WorkNoPool: a connection of a pool is taken, a user is
-- inserted with it, and it is given back. Here the pool has its connections in memory, with the server
-- behind them, and its destructor (DBPool.cpp) deletes them.
pub mod Jobs
pub mod Tests
use cpp_project.Base.{
  ℕ, Bool, true, false, not, ◌&&◌, Option, none, some, List, [], ◌∷◌, ◌==◌, leb, if◌then◌else◌,
  update, Run, ok, ◌>>=◌, or_fault,
}
use cpp_project.DbConn
use cpp_project.DbConn.{Conn, Login, Mysql, new_conn}
use cpp_project.DbPool.{
  Ptr, DbPool, new_pool, Attempt, push_back, Got, waits, fails, gets, get_section, rel_section,
}
use cpp_project.PrepareStatement.{StmtApi}
use cpp_project.UserTable.{new_user, insert_user}

-- A pool, the connections that it points to, and the server.
pub record Store (S : Type 0) : Type 0 where
  pub pool : DbPool
  pub conns : Ptr → Option Conn
  pub server : S

abbrev pub is_empty : {A : Type 0} → List A → Bool
is_empty [] = true
is_empty (x ∷ xs) = false

module _ {S : Type 0} (api : Mysql S) (stmts : StmtApi S) (login : Login) where
  -- `new DBConn` and its `Init`, and the deletion where this fails.
  unfoldable pub new_db_conn : Store S → Ptr → ℕ × Store S
  new_db_conn st a =
      let (r, c, s') = DbConn.init api st.server login new_conn in
      if r == 0
      then (0, record st { conns = update st.conns a (some c); server = s' })
      else (r, record st { server = DbConn.destroy api s' c })

  -- `GetDBConn`, given what a connection that it makes is: none if it waits.
  unfoldable pub take_conn : Store S → Ptr → ℕ × Store S → Option (Option Ptr × Store S)
  take_conn st a (r, st') = elim (get_section st.pool (record { address = a; result = r })) [
    | waits ↦ none
    | fails ↦ some (none, st')
    | gets p c ↦ some (c, record st' { pool = p })
  ]

  -- `GetDBConn`: a connection is made where the list is empty and the limit not reached.
  unfoldable pub get_db_conn : Store S → Ptr → Option (Option Ptr × Store S)
  unfolding new_db_conn take_conn
  get_db_conn st a =
      let makes =
        is_empty st.pool.free_list && not (leb st.pool.max_conn_cnt st.pool.cur_conn_cnt) in
      take_conn st a (if makes then new_db_conn st a else (0, st))

  -- `insertUser` of a new table on the connection, unless it is NULL.
  unfoldable pub insert_with : Store S → Option Ptr → (now : ℕ) → Run (Store S)
  insert_with st none now = ok st
  insert_with st (some p) now = do
    c ← or_fault (st.conns p)
    (_, s') ← insert_user stmts st.server c.mysql new_user now
    ok (record st { server = s' })

  -- `workUsePool`: none if it waits.
  unfoldable pub work_use_pool : Store S → Ptr → (now : ℕ) → Run (Option (Store S))
  unfolding get_db_conn insert_with
  work_use_pool st a now = elim (get_db_conn st a) [
    | none ↦ ok none
    | some (c, st') ↦ do
      st2 ← insert_with st' c now
      ok (some (record st2 { pool = rel_section st2.pool c }))
  ]

  -- The loop of `~DBPool`: deleting a connection twice is undefined.
  unfoldable pub delete_conns : List (Option Ptr) → Store S → Run (Store S)
  delete_conns [] st = ok st
  delete_conns (none ∷ cs) st = delete_conns cs st
  delete_conns (some p ∷ cs) st = do
    c ← or_fault (st.conns p)
    delete_conns cs
        (record st { conns = update st.conns p none; server = DbConn.destroy api st.server c })

  unfoldable pub destroy_pool : Store S → Run (Store S)
  unfolding delete_conns
  destroy_pool st = delete_conns st.pool.free_list st >>= λ st'.
      ok (record st' { pool = record st'.pool { free_list = [] } })

  -- `WorkNoPool`, with a pool of its own.
  unfoldable pub work_no_pool : S → Ptr → (now : ℕ) → Run (Option (Store S))
  unfolding new_db_conn work_use_pool destroy_pool
  work_no_pool s a now =
      let st : Store S = record { pool = new_pool 1; conns = λ _. none; server = s } in
      let (r, st') = new_db_conn st a in
      let with_conn : Run (Option (Store S)) = do
        used ← work_use_pool (record st' { pool = push_back st'.pool (some a) }) a now
        elim used [ none ↦ ok none | some st2 ↦ destroy_pool st2 >>= λ st3. ok (some st3) ]
      in if r == 0 then with_conn else ok (some st')
