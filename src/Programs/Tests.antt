-- ===== src/Programs/Tests.antt =====
-- The programs with a server whose state is its number of open connections.
use cpp_project.Base.{ℕ, ◌≡◌, refl, true, none, some, [], ◌∷◌, ok, ◌>>=◌}
use cpp_project.DbConn.{new_conn}
use cpp_project.DbConn.Answers.{connected}
use cpp_project.UserTable.{Results}
use cpp_project.PoolUse.Tests.{connects, statements}
use cpp_project.PoolUse.Jobs.{emptied, with_one}
use cpp_project.Programs.{login, db_max_conn, make_table, test_one_connect}
use cpp_project.Programs.Runs.{
  conn_of, one_connect_alone, insert_all, main_with_one_worker, test_one_connect_lem,
  one_conn_for_all_jobs,
}

abbrev no_rows : Results ℕ
no_rows = record { mysql_fetch_fields = λ s q. []; mysql_fetch_row = λ s q. none }

test_one_connect_lem_example :
    test_one_connect (connects true) statements no_rows 0 8
    ≡ ok (
        some (
          emptied
            (connects true)
            statements
            login
            db_max_conn
            (one_connect_alone (connects true) statements no_rows 0 1)))
test_one_connect_lem_example = test_one_connect_lem (connects true) statements no_rows 0 8 1 refl

one_conn_for_all_jobs_example :
    main_with_one_worker (connects true) statements no_rows 0 4 8 (100 ∷ 101 ∷ []) 9 ≡ (
      insert_all
        (connects true)
        statements
        no_rows
        (100 ∷ 101 ∷ [])
        (make_table
          (connects true)
          statements
          no_rows
          (connected (connects true) 0 login new_conn 1).1
          (conn_of (connects true) statements no_rows 1))
        1
      >>= λ t. ok (some (with_one (connects true) statements login 4 8 1 t)))
one_conn_for_all_jobs_example =
    one_conn_for_all_jobs (connects true) statements no_rows 4 0 8 1 (100 ∷ 101 ∷ []) 9 refl refl
