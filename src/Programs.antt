-- ===== src/Programs.antt =====
-- The programs of 线程池连接池: testOneConnect and testCURD of main_DBPool.cpp, and what main of
-- main_ThreadPool.cpp does before it starts the threads, with the constants of config.h and Common.h.
pub mod Runs
pub mod Tests
use cpp_project.Base.{
  ℕ, Bool, true, Option, none, some, List, [], ◌∷◌, ◌++◌, ◌==◌, if◌then◌else◌, Run, ok, ◌>>=◌,
  or_fault,
}
use cpp_project.Text.{Bytes, codes, utf8}
use cpp_project.DbConn.{Conn, Login, Mysql, execute_create, execute_drop}
use cpp_project.DbPool.{Ptr, new_pool, push_back, rel_section}
use cpp_project.PrepareStatement.{StmtApi}
use cpp_project.UserTable.{Results, new_user, insert_user, update_info, query_user}
use cpp_project.PoolUse.{Store, new_db_conn, get_db_conn, destroy_pool, work_use_pool}

abbrev pub login : Login
login = record {
  host = codes "127.0.0.1";
  user = codes "root";
  password = codes "12345678";
  db_name = codes "test_pool";
  port = 3306;
}

-- `db_maxconncnt`
abbrev pub db_max_conn : ℕ
db_max_conn = 4

-- `DROP_IMUSER_TABLE`
abbrev pub drop_sql : Bytes
drop_sql = codes "DROP TABLE IF EXISTS IMUser"

-- `CREATE_IMUSER_TABLE`, in the encoding of the source.
abbrev pub create_sql : Bytes
create_sql = utf8 (
    codes "CREATE TABLE IMUser (     "
    ++ codes "  `id` int(11) unsigned NOT NULL AUTO_INCREMENT COMMENT '用户id',   "
    ++ codes "  `sex` tinyint(1) unsigned NOT NULL DEFAULT '0' COMMENT '1男2女0未知', "
    ++ codes "  `name` varchar(32) COLLATE utf8mb4_bin NOT NULL DEFAULT '' COMMENT '用户名',  "
    ++ codes "  `domain` varchar(32) COLLATE utf8mb4_bin NOT NULL DEFAULT '' COMMENT '拼音',  "
    ++ codes "  `nick` varchar(32) COLLATE utf8mb4_bin NOT NULL DEFAULT '' COMMENT '花名,绰号等', "
    ++ codes "  `password` varchar(32) COLLATE utf8mb4_bin NOT NULL DEFAULT '' COMMENT '密码',    "
    ++ codes "  `salt` varchar(4) COLLATE utf8mb4_bin NOT NULL DEFAULT '' COMMENT '混淆码',   "
    ++ codes "  `phone` varchar(11) COLLATE utf8mb4_bin NOT NULL DEFAULT '' COMMENT '手机号码',   "
    ++ codes "  `email` varchar(64) COLLATE utf8mb4_bin NOT NULL DEFAULT '' COMMENT 'email',  "
    ++ codes "  `company` varchar(64) COLLATE utf8mb4_bin NOT NULL DEFAULT '' COMMENT '公司名称', "
    ++ codes "  `address` varchar(64) COLLATE utf8mb4_bin NOT NULL DEFAULT '' COMMENT '所在地区', "
    ++ codes "  `avatar` varchar(255) COLLATE utf8mb4_bin DEFAULT '' COMMENT '自定义用户头像',    "
    ++ codes "  `validateMethod` tinyint(2) unsigned DEFAULT '1' COMMENT '好友验证方式',  "
    ++ codes "  `departId` int(11) unsigned NOT NULL DEFAULT '1' COMMENT '所属部门Id',    "
    ++ codes "  `status` tinyint(2) unsigned DEFAULT '0' COMMENT '1. 试用期 2. 正式 3. 离职 4.实习',  "
    ++ codes "  `created` int(11) unsigned NOT NULL DEFAULT '0' COMMENT '创建时间',   "
    ++ codes "  `updated` int(11) unsigned NOT NULL DEFAULT '0' COMMENT '更新时间',   "
    ++ codes
        "  `push_shield_status` tinyint(1) unsigned NOT NULL DEFAULT '0' COMMENT '0关闭勿扰 1开启勿扰',  "
    ++ codes "  `sign_info` varchar(128) COLLATE utf8mb4_bin NOT NULL DEFAULT '' COMMENT '个性签名',  "
    ++ codes "  PRIMARY KEY (`id`),   "
    ++ codes "  KEY `idx_domain` (`domain`),  "
    ++ codes "  KEY `idx_name` (`name`),  "
    ++ codes "  KEY `idx_phone` (`phone`) "
    ++ codes ") ENGINE=InnoDB DEFAULT CHARSET=utf8mb4 COLLATE=utf8mb4_bin;")

module _ {S : Type 0} (api : Mysql S) (stmts : StmtApi S) (results : Results S) where
  -- `new DBPool` and its `Init`, with a connection at `a`. The result of `Init` is first.
  unfoldable pub open_pool : S → (max_conn : ℕ) → Ptr → ℕ × Store S
  open_pool s max_conn a =
      let st : Store S = record { pool = new_pool max_conn; conns = λ _. none; server = s } in
      let (r, st') = new_db_conn api stmts login st a in
      (r, if r == 0 then record st' { pool = push_back st'.pool (some a) } else st')

  -- `ExecuteDrop` and `ExecuteCreate`, whose results are only printed.
  unfoldable pub make_table : S → Conn → S
  make_table s c = (execute_create api (execute_drop api s c drop_sql).1 c create_sql).1

  -- `if (conn)` with the two statements.
  unfoldable pub make_table_with : Store S → Option Ptr → Run (Store S)
  make_table_with st none = ok st
  make_table_with st (some p) = do
    c ← or_fault (st.conns p)
    ok (record st { server = make_table st.server c })

  -- The connection is given back unless it is NULL.
  unfoldable pub rel_unless_null : Store S → Option Ptr → Store S
  rel_unless_null st none = st
  rel_unless_null st (some p) = record st { pool = rel_section st.pool (some p) }

  -- `testOneConnect`: none if it waits. Where `Init` fails the pool is not deleted.
  unfoldable pub test_one_connect : S → Ptr → Run (Option (Store S))
  test_one_connect s a =
      let (r, st) = open_pool s db_max_conn a in
      let with_pool : Run (Option (Store S)) = elim (get_db_conn api stmts login st a) [
        | none ↦ ok none
        | some (c, st1) ↦ do
          st2 ← make_table_with st1 c
          st3 ← destroy_pool api stmts login (rel_unless_null st2 c)
          ok (some st3)
      ] in
      if r == 0 then with_pool else ok (some st)

  -- What `testCURD` does with its table of users. The time is read twice.
  unfoldable pub use_table : S → Conn → (now later : ℕ) → Run S
  use_table s c now later = do
    (_, s1) ← insert_user stmts s c.mysql new_user now
    (_, u1, s2) ← query_user api results s1 c new_user 1
    let (_, u2, s3) = update_info api s2 c u1 1 later
    (_, _, s4) ← query_user api results s3 c u2 1
    ok s4

  unfoldable pub use_table_with : Store S → Option Ptr → (now later : ℕ) → Run (Store S)
  use_table_with st none now later = ok st
  use_table_with st (some p) now later = do
    c ← or_fault (st.conns p)
    s' ← use_table (make_table st.server c) c now later
    ok (record st { server = s' })

  -- `testCURD`: neither the connection nor the pool is given back.
  unfoldable pub test_curd : S → Ptr → (now later : ℕ) → Run (Option (Store S))
  test_curd s a now later =
      let (r, st) = open_pool s db_max_conn a in
      let with_pool : Run (Option (Store S)) = elim (get_db_conn api stmts login st a) [
        | none ↦ ok none
        | some (c, st1) ↦ use_table_with st1 c now later >>= λ st2. ok (some st2)
      ] in
      if r == 0 then with_pool else ok (some st)

  -- `main` of main_ThreadPool.cpp up to `RelConn`: the exit status 1, or the pool for the jobs.
  unfoldable pub prepare_pool : S → (max_conn : ℕ) → Ptr → Run (Option (ℕ × Store S))
  prepare_pool s max_conn a =
      let (r, st) = open_pool s max_conn a in
      let with_pool : Run (Option (ℕ × Store S)) = elim (get_db_conn api stmts login st a) [
        | none ↦ ok none
        | some (c, st1) ↦ do
          st2 ← make_table_with st1 c
          ok (some (0, record st2 { pool = rel_section st2.pool c }))
      ] in
      if r == 0 then with_pool else ok (some (1, st))

  -- The jobs `workUsePool` as one worker runs them, at these times: none if one waits.
  unfoldable pub run_jobs : (times : List ℕ) → Store S → Ptr → Run (Option (Store S))
  run_jobs [] st a = ok (some st)
  run_jobs (now ∷ times) st a = work_use_pool api stmts login st a now >>= λ r. elim r [
    | none ↦ ok none
    | some st' ↦ run_jobs times st' a
  ]
