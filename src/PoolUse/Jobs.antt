-- ===== src/PoolUse/Jobs.antt =====
-- What the two jobs do with connections.
use cpp_project.Base.{
  ℕ, ◌≡◌, refl, sym, ap, subst, ◌∙◌, ◌≢◌, Bool, Bool-cases, true, false, not, ◌&&◌, Option, none,
  some, List, [], ◌∷◌, ◌++◌, ◌==◌, leb, if◌then◌else◌, arith, update, update_self, update_ne,
  fun_ext, ==_iff, ==_ne, ◌<◌, inl, inr, Run, ok, fault, timeout, ◌>>=◌,
}
use cpp_project.DbConn
use cpp_project.DbConn.{Handle, Conn, Login, Mysql, new_conn}
use cpp_project.DbConn.Answers.{connected, init_given}
use cpp_project.DbPool.{Ptr, new_pool, push_back, get_section, rel_section, is_listed}
use cpp_project.PrepareStatement.{StmtApi}
use cpp_project.UserTable.{new_user, insert_user}
use cpp_project.PoolUse.{
  Store, is_empty, new_db_conn, take_conn, get_db_conn, insert_with, work_use_pool, delete_conns,
  destroy_pool, work_no_pool,
}

module _ {S : Type 0} (api : Mysql S) (stmts : StmtApi S) (login : Login) where
  -- A connection that is not in the list is put at its end.
  release_after :
      (st : Store S) (p : Ptr) (r : Run (Bool × S))
      → is_listed (some p) st.pool.free_list ≡ false
      → ((r >>= λ (done, s'). ok (record st { server = s' })) >>= λ st2.
          ok (some (record st2 { pool = rel_section st2.pool (some p) })))
        ≡ (r >>= λ x. ok (some (record st { pool = push_back st.pool (some p); server = x.1 })))
  unfolding rel_section
  release_after st p (ok x) alone = rw (rel_section, alone) refl
  release_after st p fault alone = refl
  release_after st p timeout alone = refl

  pub get_db_conn-free :
      (st : Store S) (p : Ptr) (rest : List (Option Ptr)) (a : Ptr)
      → st.pool.free_list ≡ some p ∷ rest
      → get_db_conn api stmts login st a
        ≡ some (some p, record st { pool = record st.pool { free_list = rest } })
  unfolding get_db_conn get_section
  get_db_conn-free st p rest a e =
      let with_list : List (Option Ptr) → Store S =
        λ cs. record st { pool = record st.pool { free_list = cs } } in
      subst (λ x. get_db_conn api stmts login x a ≡ some (some p, with_list rest))
        (sym (ap with_list e)) refl

  -- `workUsePool` on a pool with a free connection inserts a user with the first of them, which is then the
  -- last one.
  pub work_use_pool-free :
      (st : Store S) (p : Ptr) (c : Conn) (rest : List (Option Ptr)) (a : Ptr) (now : ℕ)
      → st.pool.free_list ≡ some p ∷ rest
      → is_listed (some p) rest ≡ false
      → st.conns p ≡ some c
      → work_use_pool api stmts login st a now ≡ (
          insert_user stmts st.server c.mysql new_user now >>= λ x. ok (
            some (record st {
              pool = record st.pool { free_list = rest ++ some p ∷ [] };
              server = x.1;
            })))
  unfolding work_use_pool insert_with
  work_use_pool-free st p c rest a now e alone at =
      rw (work_use_pool, get_db_conn-free st p rest a e, insert_with, at)
        (release_after (record st { pool = record st.pool { free_list = rest } }) p
          (insert_user stmts st.server c.mysql new_user now) alone)

  -- What the server sees of `WorkNoPool`.
  abbrev pub on_its_own : S → Handle → (now : ℕ) → Run S
  on_its_own s h now =
      let (done, s') = connected api s login new_conn h in
      let insert = insert_user stmts s' (some h) new_user now >>= λ x. ok (api.mysql_close x.1 h) in
      if done then insert else ok (api.mysql_close s' h)

  -- A pool of at most `m` connections without its connection.
  abbrev pub emptied : (m : ℕ) → S → Store S
  emptied m s = record {
    pool = record { cur_conn_cnt = 1; max_conn_cnt = m; free_list = [] };
    conns = λ _. none;
    server = s;
  }

  -- What is left in the end.
  abbrev pub closed_store : S → Store S
  closed_store s = emptied 1 s

  abbrev pub made : (m : ℕ) → S → Ptr → Handle → ℕ × Store S
  made m s a h =
      let (done, s') = connected api s login new_conn h in
      let st : Store S = record { pool = new_pool m; conns = λ _. none; server = s' } in
      if done
      then (0, record st { conns = update st.conns a (some (record { mysql = some h })) })
      else (1, record st { server = api.mysql_close s' h })

  pub new_db_conn_lem :
      (m : ℕ) (s : S) (a : Ptr) (h : Handle)
      → (api.mysql_init s).0 ≡ some h
      → new_db_conn api stmts login (record { pool = new_pool m; conns = λ _. none; server = s }) a
        ≡ made m s a h
  unfolding new_db_conn DbConn.destroy
  new_db_conn_lem m s a h e = elim (Bool-cases (connected api s login new_conn h).0) [
    | inl y ↦ rw (new_db_conn, init_given api s login new_conn h e, y) refl
    | inr y ↦ rw (new_db_conn, init_given api s login new_conn h e, y) refl
  ]

  cleared : (a : Ptr) (c : Conn) → update (update (λ _. none) a (some c)) a none ≡ (λ _. none)
  cleared a c = fun_ext λ p. elim (Bool-cases (p == a)) [
    | inl e ↦ rw ((==_iff p a).0 e) (update_self (update (λ _. none) a (some c)) a none)
    | inr e ↦
        let ne : p ≢ a = ground (arith, e) in
        update_ne (update (λ _. none) a (some c)) a none p ne
        ∙ update_ne (λ _. none) a (some c) p ne
  ]

  -- The pool of one connection, with the connection in it.
  abbrev pub with_one : (m : ℕ) → Ptr → Handle → S → Store S
  with_one m a h s = record {
    pool = record { cur_conn_cnt = 1; max_conn_cnt = m; free_list = some a ∷ [] };
    conns = update (λ _. none) a (some (record { mysql = some h }));
    server = s;
  }

  pub destroy_one :
      (m : ℕ) (a : Ptr) (h : Handle) (s : S)
      → destroy_pool api stmts login (with_one m a h s) ≡ ok (emptied m (api.mysql_close s h))
  unfolding destroy_pool delete_conns DbConn.destroy
  destroy_one m a h s =
      let c : Conn = record { mysql = some h } in
      rw (destroy_pool, delete_conns, update_self (λ _. none) a (some c), cleared a c) refl

  insert_and_destroy :
      (a : Ptr) (h : Handle) (r : Run (Bool × S)) (used : Run (Option (Store S)))
      → used ≡ (r >>= λ x. ok (some (with_one 1 a h x.1)))
      → (used >>= λ u. elim u [
        | none ↦ ok none
        | some st2 ↦ destroy_pool api stmts login st2 >>= λ st3. ok (some st3)
      ])
        ≡ ((r >>= λ x. ok (api.mysql_close x.1 h)) >>= λ s'. ok (some (closed_store s')))
  insert_and_destroy a h (ok x) used e = rw (e, destroy_one 1 a h x.1) refl
  insert_and_destroy a h fault used e = rw e refl
  insert_and_destroy a h timeout used e = rw e refl

  -- If the client library gives a handle, `WorkNoPool` does to the server what connecting, inserting a user where
  -- this succeeds, and closing the handle on either branch do, and no connection is left.
  pub work_no_pool_lem :
      (s : S) (a : Ptr) (h : Handle) (now : ℕ)
      → (api.mysql_init s).0 ≡ some h
      → work_no_pool api stmts login s a now
        ≡ (on_its_own s h now >>= λ s'. ok (some (closed_store s')))
  unfolding work_no_pool is_listed
  work_no_pool_lem s a h now e = elim (Bool-cases (connected api s login new_conn h).0) [
    | inl y ↦
        rw (work_no_pool, new_db_conn_lem 1 s a h e, y)
          (insert_and_destroy a h
            (insert_user stmts (connected api s login new_conn h).1 (some h) new_user now) _
            (work_use_pool-free (with_one 1 a h (connected api s login new_conn h).1) a
              (record { mysql = some h }) [] a now refl refl
              (update_self (λ _. none) a (some (record { mysql = some h })))))
    | inr y ↦ rw (work_no_pool, new_db_conn_lem 1 s a h e, y) refl
  ]

  pool_kept : (st : Store S) (a : Ptr) → (new_db_conn api stmts login st a).1.pool ≡ st.pool
  unfolding new_db_conn
  pool_kept st a = elim (Bool-cases ((DbConn.init api st.server login new_conn).0 == 0)) [
    | inl y ↦ rw (new_db_conn, y) refl
    | inr y ↦ rw (new_db_conn, y) refl
  ]

  under :
      (st : Store S)
      → st.pool.cur_conn_cnt < st.pool.max_conn_cnt
      → leb st.pool.max_conn_cnt st.pool.cur_conn_cnt ≡ false
  under st below = ground (arith, below)

  take_conn-fails :
      (st : Store S) (a : Ptr) (x : ℕ × Store S)
      → st.pool.free_list ≡ []
      → st.pool.cur_conn_cnt < st.pool.max_conn_cnt
      → x.0 ≢ 0
      → take_conn api stmts login st a x ≡ some (none, x.1)
  unfolding take_conn get_section
  take_conn-fails st a x e below bad =
      rw (take_conn, get_section, e, under st below, ==_ne x.0 0 bad) refl

  get_db_conn-fails :
      (st : Store S) (a : Ptr)
      → st.pool.free_list ≡ []
      → st.pool.cur_conn_cnt < st.pool.max_conn_cnt
      → (new_db_conn api stmts login st a).0 ≢ 0
      → get_db_conn api stmts login st a ≡ some (none, (new_db_conn api stmts login st a).1)
  unfolding get_db_conn
  get_db_conn-fails st a e below bad =
      let makes : (is_empty st.pool.free_list
            && not (leb st.pool.max_conn_cnt st.pool.cur_conn_cnt))
          ≡ true =
        rw (e, under st below) refl in
      rw (get_db_conn, makes) (take_conn-fails st a (new_db_conn api stmts login st a) e below bad)

  -- On a pool with no free connection and below its limit, to which no connection can be made, `workUsePool` gives
  -- NULL back, which the pool then has as a free connection.
  pub work_use_pool-null :
      (st : Store S) (a : Ptr) (now : ℕ)
      → st.pool.free_list ≡ []
      → st.pool.cur_conn_cnt < st.pool.max_conn_cnt
      → (new_db_conn api stmts login st a).0 ≢ 0
      → work_use_pool api stmts login st a now
        ≡ ok (
            some (record (new_db_conn api stmts login st a).1 {
              pool = record st.pool { free_list = none ∷ [] };
            }))
  unfolding work_use_pool insert_with rel_section is_listed
  work_use_pool-null st a now e below bad =
      let kept = pool_kept st a in
      rw (work_use_pool, get_db_conn-fails st a e below bad, insert_with, rel_section, kept, e) refl
