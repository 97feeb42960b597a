-- ===== src/DbConn/Answers.antt =====
-- What the calls of a connection return for each answer of the server.
use cpp_project.Base.{ℕ, ◌≡◌, refl, ◌↔◌, Bool, true, false, some, if◌then◌else◌, arith, length}
use cpp_project.Text.{Bytes}
use cpp_project.DbConn.{
  Handle, Conn, Login, Mysql, init, destroy, run_query, execute_update, execute_query,
}

module _ {S : Type 0} (api : Mysql S) (s : S) (c : Conn) (q : Bytes) where
  abbrev pub asked : ℕ × S
  asked = api.mysql_real_query (api.mysql_ping s c.mysql) c.mysql q (length q)

  -- `ExecuteUpdate` returns true exactly when the query succeeds, changes no row and the caller does not
  -- care for the number of rows.
  execute_update_iff :
      (care : Bool)
      → ((execute_update api s c q care).0 ≡ true)
        ↔ ((asked.0 ≡ 0) × (api.mysql_affected_rows asked.1 c.mysql ≡ 0) × (care ≡ false))
  unfolding execute_update run_query
  execute_update_iff care = (λ e. ground arith, λ (e, f, g). ground arith)

  -- `ExecuteUpdate` with its default argument returns false whatever the server answers.
  pub execute_update-false : (execute_update api s c q true).0 ≡ false
  unfolding execute_update run_query
  execute_update-false = ground arith

  -- `ExecuteQuery` returns a result exactly when the query succeeds and a result is stored.
  pub execute_query_iff :
      (r : ℕ)
      → ((execute_query api s c q).0 ≡ some r)
        ↔ ((asked.0 ≡ 0) × ((api.mysql_store_result asked.1 c.mysql).0 ≡ some r))
  unfolding execute_query run_query
  execute_query_iff r = (λ e. ground arith, λ (e, f). ground arith)

module _ {S : Type 0} (api : Mysql S) (s : S) (login : Login) (c : Conn) (h : Handle) where
  abbrev pub connected : Bool × S
  connected =
      api.mysql_real_connect (api.mysql_options (api.mysql_options (api.mysql_init s).1 h) h) h
        login

  pub init_given :
      (api.mysql_init s).0 ≡ some h
      → init api s login c ≡ (if connected.0 then 0 else 1, record { mysql = some h }, connected.1)
  unfolding init
  init_given e = rw (init, e) refl

  -- If the client library gives a handle, `Init` returns 0 exactly when the server is connected, and
  -- whether or not it is, deleting the connection then closes the handle.
  init_closes :
      (api.mysql_init s).0 ≡ some h
      → (((init api s login c).0 ≡ 0) ↔ (
          (api.mysql_real_connect
            (api.mysql_options (api.mysql_options (api.mysql_init s).1 h) h)
            h
            login).0
          ≡ true))
        × (destroy api (init api s login c).2 (init api s login c).1
            ≡ api.mysql_close (init api s login c).2 h)
  unfolding destroy
  init_closes e = rw (init_given e) ((λ d. ground arith, λ d. ground arith), refl)
