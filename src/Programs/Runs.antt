-- ===== src/Programs/Runs.antt =====
-- What the programs do to the server, and what they leave behind.
use cpp_project.Base.{
  ℕ, ◌≡◌, refl, Bool, Bool-cases, true, Option, none, some, List, [], ◌∷◌, if◌then◌else◌, update,
  update_self, inl, inr, Run, ok, fault, timeout, ◌>>=◌,
}
use cpp_project.DbConn.{Handle, Conn, Mysql, new_conn}
use cpp_project.DbConn.Answers.{connected}
use cpp_project.DbPool.{Ptr, rel_section, is_listed}
use cpp_project.PrepareStatement.{StmtApi}
use cpp_project.UserTable.{Results, new_user, insert_user}
use cpp_project.PoolUse.{Store}
use cpp_project.PoolUse.Jobs.{
  emptied, with_one, new_db_conn_lem, get_db_conn-free, destroy_one, work_use_pool-free,
}
use cpp_project.Programs.{
  login, db_max_conn, open_pool, make_table, make_table_with, rel_unless_null, test_one_connect,
  use_table, use_table_with, test_curd, prepare_pool, run_jobs,
}

module _ {S : Type 0} (api : Mysql S) (stmts : StmtApi S) (results : Results S) where
  abbrev pub conn_of : Handle → Conn
  conn_of h = record { mysql = some h }

  -- The connection is leased, and the list of the pool is empty.
  abbrev pub leased : (m : ℕ) → Ptr → Handle → S → Store S
  leased m a h s = record {
    pool = record { cur_conn_cnt = 1; max_conn_cnt = m; free_list = [] };
    conns = update (λ _. none) a (some (conn_of h));
    server = s;
  }

  open_pool_lem :
      (m : ℕ) (s : S) (a : Ptr) (h : Handle)
      → (api.mysql_init s).0 ≡ some h
      → open_pool api stmts results s m a ≡ (
          if (connected api s login new_conn h).0
          then (0, with_one api stmts login m a h (connected api s login new_conn h).1)
          else (
            1,
            emptied api stmts login m (api.mysql_close (connected api s login new_conn h).1 h),
          ))
  unfolding open_pool
  open_pool_lem m s a h e = elim (Bool-cases (connected api s login new_conn h).0) [
    | inl y ↦ rw (open_pool, new_db_conn_lem api stmts login m s a h e, y) refl
    | inr y ↦ rw (open_pool, new_db_conn_lem api stmts login m s a h e, y) refl
  ]

  make_table_with_lem :
      (m : ℕ) (a : Ptr) (h : Handle) (s : S)
      → make_table_with api stmts results (leased m a h s) (some a)
        ≡ ok (leased m a h (make_table api stmts results s (conn_of h)))
  unfolding make_table_with
  make_table_with_lem m a h s =
      rw (make_table_with, update_self (λ _. none) a (some (conn_of h))) refl

  -- What the server sees of `testOneConnect`.
  abbrev pub one_connect_alone : S → Handle → S
  one_connect_alone s h =
      if (connected api s login new_conn h).0
      then (api.mysql_close
          (make_table api stmts results (connected api s login new_conn h).1 (conn_of h)) h)
      else api.mysql_close (connected api s login new_conn h).1 h

  -- If the client library gives a handle, `testOneConnect` returns, does to the server what connecting, dropping and
  -- creating the table where this succeeds, and closing the handle on either branch do, and leaves no
  -- connection behind.
  pub test_one_connect_lem :
      (s : S) (a : Ptr) (h : Handle)
      → (api.mysql_init s).0 ≡ some h
      → test_one_connect api stmts results s a
        ≡ ok (some (emptied api stmts login db_max_conn (one_connect_alone s h)))
  unfolding test_one_connect rel_unless_null rel_section is_listed
  test_one_connect_lem s a h e = elim (Bool-cases (connected api s login new_conn h).0) [
    | inl y ↦
        let s' = (connected api s login new_conn h).1 in
        rw
          (
            test_one_connect,
            one_connect_alone,
            open_pool_lem db_max_conn s a h e,
            y,
            get_db_conn-free api stmts login (with_one api stmts login db_max_conn a h s') a [] a
                refl,
            make_table_with_lem db_max_conn a h s',
            destroy_one api stmts login db_max_conn a h
                (make_table api stmts results s' (conn_of h)),
          )
          refl
    | inr y ↦ rw (test_one_connect, one_connect_alone, open_pool_lem db_max_conn s a h e, y) refl
  ]

  use_table_with_lem :
      (m : ℕ) (a : Ptr) (h : Handle) (s : S) (now later : ℕ)
      → use_table_with api stmts results (leased m a h s) (some a) now later ≡ (
          use_table api stmts results
            (make_table api stmts results s (conn_of h))
            (conn_of h)
            now
            later
          >>= λ s'. ok (leased m a h s'))
  unfolding use_table_with
  use_table_with_lem m a h s now later =
      rw (use_table_with, update_self (λ _. none) a (some (conn_of h))) refl

  some_after :
      {A B : Type 0} (r : Run A) (f : A → B)
      → ((r >>= λ x. ok (f x)) >>= λ y. ok (some y)) ≡ (r >>= λ x. ok (some (f x)))
  some_after (ok x) f = refl
  some_after fault f = refl
  some_after timeout f = refl

  -- If the client library gives a handle, `testCURD` does to the server what connecting, and making and using the
  -- table where this succeeds, do. The handle is then still open and the connection in memory, in no list
  -- of the pool; after a connection that fails the handle is closed.
  test_curd_lem :
      (s : S) (a : Ptr) (h : Handle) (now later : ℕ)
      → (api.mysql_init s).0 ≡ some h
      → test_curd api stmts results s a now later ≡ (
          if (connected api s login new_conn h).0
          then (use_table api stmts results
                (make_table api stmts results (connected api s login new_conn h).1 (conn_of h))
                (conn_of h)
                now
                later
              >>= λ s'. ok (some (leased db_max_conn a h s')))
          else (ok (
              some (
                emptied api stmts login db_max_conn
                  (api.mysql_close (connected api s login new_conn h).1 h)))))
  unfolding test_curd
  test_curd_lem s a h now later e = elim (Bool-cases (connected api s login new_conn h).0) [
    | inl y ↦
        let s' = (connected api s login new_conn h).1 in
        rw
          (
            test_curd,
            open_pool_lem db_max_conn s a h e,
            y,
            get_db_conn-free api stmts login (with_one api stmts login db_max_conn a h s') a [] a
                refl,
            use_table_with_lem db_max_conn a h s' now later,
          )
          (some_after _ (leased db_max_conn a h))
    | inr y ↦ rw (test_curd, open_pool_lem db_max_conn s a h e, y) refl
  ]

  prepare_pool_lem :
      (m : ℕ) (s : S) (a : Ptr) (h : Handle)
      → (api.mysql_init s).0 ≡ some h
      → (connected api s login new_conn h).0 ≡ true
      → prepare_pool api stmts results s m a
        ≡ ok (
            some (
              0,
              with_one api stmts login m a h
                  (make_table api stmts results (connected api s login new_conn h).1 (conn_of h)),
            ))
  unfolding prepare_pool rel_section is_listed
  prepare_pool_lem m s a h e y =
      let s' = (connected api s login new_conn h).1 in
      rw
        (
          prepare_pool,
          open_pool_lem m s a h e,
          y,
          get_db_conn-free api stmts login (with_one api stmts login m a h s') a [] a refl,
          make_table_with_lem m a h s',
        )
        refl

  -- The users that the jobs insert, one after the other, with the handle.
  abbrev pub insert_all : List ℕ → S → Handle → Run S
  insert_all [] s h = ok s
  insert_all (now ∷ times) s h =
      insert_user stmts s (some h) new_user now >>= λ (_, s'). insert_all times s' h

  run_jobs_lem :
      (m : ℕ) (times : List ℕ) (s : S) (a b : Ptr) (h : Handle)
      → run_jobs api stmts results times (with_one api stmts login m a h s) b
        ≡ (insert_all times s h >>= λ s'. ok (some (with_one api stmts login m a h s')))
  unfolding run_jobs is_listed
  run_jobs_lem m [] s a b h = refl
  run_jobs_lem m (now ∷ times) s a b h =
      rw
        (
          run_jobs,
          work_use_pool-free api stmts login (with_one api stmts login m a h s) a (conn_of h) [] b
              now refl refl (update_self (λ _. none) a (some (conn_of h))),
        )
        (after_first (λ s'. run_jobs_lem m times s' a b h)
          (insert_user stmts s (some h) new_user now))
    where
      after_first :
          ((s' : S)
            → run_jobs api stmts results times (with_one api stmts login m a h s') b
              ≡ (insert_all times s' h >>= λ t. ok (some (with_one api stmts login m a h t))))
          → (r : Run (Bool × S))
          → ((r >>= λ x. ok (some (with_one api stmts login m a h x.1))) >>= λ u. elim u [
            | none ↦ ok none
            | some st' ↦ run_jobs api stmts results times st' b
          ])
            ≡ ((r >>= λ x. insert_all times x.1 h) >>= λ s'.
                ok (some (with_one api stmts login m a h s')))
      after_first rest (ok x) = rest x.1
      after_first rest fault = refl
      after_first rest timeout = refl

  -- `main` and then the jobs, as one worker runs them.
  abbrev pub main_with_one_worker : S → (m : ℕ) → Ptr → List ℕ → Ptr → Run (Option (Store S))
  main_with_one_worker s m a times b = prepare_pool api stmts results s m a >>= λ r. elim r [
    | none ↦ ok none
    | some (status, st) ↦ run_jobs api stmts results times st b
  ]

  -- If the client library gives a handle and it connects, the preparation of `main` and any number of jobs after
  -- it, run by one worker, use this one handle: the server sees the connection, the table made, and the
  -- insertion of a user for each job, no job waits, no connection is made besides, whatever the limit, and
  -- the pool has its connection back in the end.
  pub one_conn_for_all_jobs :
      (m : ℕ) (s : S) (a : Ptr) (h : Handle) (times : List ℕ) (b : Ptr)
      → (api.mysql_init s).0 ≡ some h
      → (connected api s login new_conn h).0 ≡ true
      → main_with_one_worker s m a times b ≡ (
          insert_all times
            (make_table api stmts results (connected api s login new_conn h).1 (conn_of h))
            h
          >>= λ t. ok (some (with_one api stmts login m a h t)))
  one_conn_for_all_jobs m s a h times b e y =
      rw (main_with_one_worker, prepare_pool_lem m s a h e y)
        (run_jobs_lem m times
          (make_table api stmts results (connected api s login new_conn h).1 (conn_of h)) a b h)
