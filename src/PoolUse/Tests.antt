-- ===== src/PoolUse/Tests.antt =====
-- The two jobs with a server whose state is its number of open connections.
use cpp_project.Base.{
  ℕ, ◌+◌, ◌-◌, ◌≡◌, ◌≢◌, refl, Bool, true, false, none, some, [], ◌∷◌, arith, ok, ◌>>=◌,
}
use cpp_project.DbConn
use cpp_project.DbConn.{Login, Mysql}
use cpp_project.DbPool.{new_pool}
use cpp_project.PrepareStatement.{StmtApi}
use cpp_project.PoolUse.{Store, new_db_conn, work_use_pool, work_no_pool}
use cpp_project.PoolUse.Jobs.{closed_store, on_its_own, work_no_pool_lem, work_use_pool-null}

abbrev pub connects : Bool → Mysql ℕ
connects b = record {
  mysql_init = λ s. (some 1, s + 1);
  mysql_options = λ s h. s;
  mysql_real_connect = λ s h l. (b, s);
  mysql_ping = λ s h. s;
  mysql_real_query = λ s h q n. (0, s);
  mysql_affected_rows = λ s h. 0;
  mysql_insert_id = λ s h. 7;
  mysql_store_result = λ s h. (some 3, s);
  mysql_close = λ s h. s - 1;
}

abbrev pub statements : StmtApi ℕ
statements = record {
  mysql_ping = λ s h. s;
  mysql_stmt_init = λ s h. (some 2, s);
  mysql_stmt_prepare = λ s h q. (0, s);
  mysql_stmt_param_count = λ s h. 16;
  mysql_stmt_bind_param = λ s h b. (false, s);
  mysql_stmt_execute = λ s h. (0, s);
  mysql_stmt_affected_rows = λ s h. 1;
  mysql_stmt_insert_id = λ s h. 7;
  mysql_stmt_close = λ s h. s;
}

abbrev login : Login
login = record { host = []; user = []; password = []; db_name = []; port = 3306 }

work_no_pool_lem_example : work_no_pool (connects true) statements login 0 8 100 ≡ (
    on_its_own (connects true) statements login 0 1 100 >>= λ s'.
    ok (some (closed_store (connects true) statements login s')))
work_no_pool_lem_example = work_no_pool_lem (connects true) statements login 0 8 1 100 refl

abbrev empty_store : Store ℕ
empty_store = record { pool = new_pool 4; conns = λ _. none; server = 0 }

no_server : (new_db_conn (connects false) statements login empty_store 8).0 ≢ 0
unfolding new_db_conn DbConn.init
no_server e = omega (arith, e)

work_use_pool-null_example :
    work_use_pool (connects false) statements login empty_store 8 100
    ≡ ok (
        some (record (new_db_conn (connects false) statements login empty_store 8).1 {
          pool = record empty_store.pool { free_list = none ∷ [] };
        }))
work_use_pool-null_example =
    work_use_pool-null (connects false) statements login empty_store 8 100 refl (omega arith)
      no_server
