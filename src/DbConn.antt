-- ===== src/DbConn.antt =====
-- 线程池连接池/DBConn.cpp: a connection to the database server, and what it makes of the server's
-- answers. The client library of MySQL is a parameter, with a state of its own.
pub mod Answers
use cpp_project.Base.{
  ℕ, ◌%◌, ◌^◌, Bool, true, false, Option, none, some, List, if◌then◌else◌, ltb, ◌==◌, length,
}
use cpp_project.Text.{Bytes, codes}

abbrev pub Handle : Type 0
Handle = ℕ

-- `m_mysql`
pub record Conn : Type 0 where
  pub mysql : Option Handle

-- What the pool gives to connect with.
pub record Login : Type 0 where
  pub host : Bytes
  pub user : Bytes
  pub password : Bytes
  pub db_name : Bytes
  pub port : ℕ

-- The functions of the client library that the code calls.
pub record Mysql (S : Type 0) : Type 0 where
  pub mysql_init : S → Option Handle × S
  pub mysql_options : S → Handle → S
  pub mysql_real_connect : S → Handle → Login → Bool × S
  pub mysql_ping : S → Option Handle → S
  pub mysql_real_query : S → Option Handle → Bytes → (len : ℕ) → ℕ × S
  pub mysql_affected_rows : S → Option Handle → ℕ
  pub mysql_insert_id : S → Option Handle → ℕ
  pub mysql_store_result : S → Option Handle → Option ℕ × S
  pub mysql_close : S → Handle → S

-- `DBConn::DBConn`
abbrev pub new_conn : Conn
new_conn = record { mysql = none }

module _ {S : Type 0} (api : Mysql S) where
  -- `DBConn::Init`: 0, or -1, here 1.
  unfoldable pub init : S → Login → Conn → ℕ × Conn × S
  init s login c =
      let (m, s') = api.mysql_init s in
      elim m [
        | none ↦ (1, record { mysql = none }, s')
        | some h ↦
            let (connected, t) =
              api.mysql_real_connect (api.mysql_options (api.mysql_options s' h) h) h login in
            (if connected then 0 else 1, record { mysql = some h }, t)
      ]

  -- `DBConn::~DBConn`
  unfoldable pub destroy : S → Conn → S
  destroy s c = elim c.mysql [ none ↦ s | some h ↦ api.mysql_close s h ]

  -- `mysql_ping` and `mysql_real_query` with the error as `false`.
  unfoldable pub run_query : S → Conn → Bytes → (len : ℕ) → Bool × S
  run_query s c q len =
      let (e, s') = api.mysql_real_query (api.mysql_ping s c.mysql) c.mysql q len in (e == 0, s')

  unfoldable pub execute_create : S → Conn → Bytes → Bool × S
  execute_create s c q = run_query s c q (length q)

  unfoldable pub execute_drop : S → Conn → Bytes → Bool × S
  execute_drop s c q = run_query s c q (length q)

  -- `return 0` gives `false`.
  unfoldable pub execute_update : S → Conn → Bytes → (care_affected_rows : Bool) → Bool × S
  execute_update s c q care =
      let (done, s') = run_query s c q (length q) in
      if done
      then (
        if ltb 0 (api.mysql_affected_rows s' c.mysql) then false else if care then false else true,
        s',
      )
      else (false, s')

  unfoldable pub get_insert_id : S → Conn → ℕ
  get_insert_id s c = api.mysql_insert_id s c.mysql % 2 ^ 32

  unfoldable pub start_transaction : S → Conn → Bool × S
  start_transaction s c = run_query s c (codes "start transaction\n") 17

  unfoldable pub commit : S → Conn → Bool × S
  commit s c = run_query s c (codes "commit\n") 6

  unfoldable pub rollback : S → Conn → Bool × S
  rollback s c = run_query s c (codes "rollback\n") 8

  -- The result that is stored, or NULL.
  unfoldable pub execute_query : S → Conn → Bytes → Option ℕ × S
  execute_query s c q =
      let (done, s') = run_query s c q (length q) in
      if done then api.mysql_store_result s' c.mysql else (none, s')
