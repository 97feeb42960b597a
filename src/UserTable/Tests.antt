-- ===== src/UserTable/Tests.antt =====
-- A server that answers every call, and the theorems on connections, statements and users at it.
use cpp_project.Base.{
  ℕ, ◌+◌, ◌≡◌, refl, ◌≢◌, ◌≤◌, ◌<◌, true, false, none, some, List, [], ◌∷◌, length, get_elem?, ok,
  fault, arith,
}
use cpp_project.Text.{Bytes, codes}
use cpp_project.Text.Decimal.{digits, int2string}
use cpp_project.DbConn.{Conn, Login, Mysql}
use cpp_project.PrepareStatement.{Bind, Statement, StmtApi, replicate, set_param, as_int}
use cpp_project.PrepareStatement.Params.{IsBound, set_param_lem}
use cpp_project.ResultSet.{
  ResultSet, new_result_set, insert_fields, insert_key, find_key, same_bytes, get_index, get_int,
}
use cpp_project.ResultSet.Numbers.{get_int-int2string}
use cpp_project.UserTable.{new_user, Results, insert_user}
use cpp_project.UserTable.Insert.{insert_user_outcome}

-- Its state counts the queries.
abbrev server : Mysql ℕ
server = record {
  mysql_init = λ s. (some 1, s);
  mysql_options = λ s h. s;
  mysql_real_connect = λ s h l. (true, s);
  mysql_ping = λ s h. s;
  mysql_real_query = λ s h q n. (0, s + 1);
  mysql_affected_rows = λ s h. 0;
  mysql_insert_id = λ s h. 7;
  mysql_store_result = λ s h. (some 3, s);
  mysql_close = λ s h. s;
}

abbrev statements : StmtApi ℕ
statements = record {
  mysql_ping = λ s h. s;
  mysql_stmt_init = λ s h. (some 2, s);
  mysql_stmt_prepare = λ s h q. (0, s);
  mysql_stmt_param_count = λ s h. 15;
  mysql_stmt_bind_param = λ s h b. (false, s);
  mysql_stmt_execute = λ s h. (0, s + 1);
  mysql_stmt_affected_rows = λ s h. 1;
  mysql_stmt_insert_id = λ s h. 7;
  mysql_stmt_close = λ s h. s;
}

abbrev login : Login
login = record { host = []; user = []; password = []; db_name = []; port = 3306 }

abbrev conn : Conn
conn = record { mysql = some 1 }

abbrev two_params : Statement
two_params = record { stmt = some 2; param_bind = some (replicate 2); param_cnt = 2 }

abbrev names : List Bytes
names = codes "id" ∷ codes "sex" ∷ codes "id" ∷ []

abbrev one_row : ResultSet
one_row = record (new_result_set names) {
  row = some (some (int2string 42) ∷ some (int2string 1) ∷ some (int2string 9) ∷ []);
}

abbrev no_rows : Results ℕ
no_rows = record { mysql_fetch_fields = λ s q. names; mysql_fetch_row = λ s q. none }

int2string_42 : int2string 42 ≡ 52 ∷ 50 ∷ []
unfolding int2string digits
int2string_42 = refl

set_param_lem_example :
    (1 < 2
      → (bs' : List Bind) × (set_param two_params 1 (as_int 5)
          ≡ ok (record two_params { param_bind = some bs' }))
        × IsBound (record two_params { param_bind = some bs' }) bs'
        × ((b : Bind) → get_elem? (replicate 2) 1 ≡ some b → get_elem? bs' 1 ≡ some (as_int 5 b))
        × ((k : ℕ) → k ≢ 1 → get_elem? bs' k ≡ get_elem? (replicate 2) k))
    × (1 ≡ length (replicate 2) → set_param two_params 1 (as_int 5) ≡ fault)
    × (length (replicate 2) < 1 → set_param two_params 1 (as_int 5) ≡ ok two_params)
set_param_lem_example = set_param_lem two_params (replicate 2) 1 (as_int 5) (refl, refl)

id_index : get_index one_row (codes "id") ≡ some 0
unfolding new_result_set insert_fields insert_key find_key same_bytes get_index
id_index = refl

one_row-id :
    one_row.row ≡ some (some (int2string 42) ∷ some (int2string 1) ∷ some (int2string 9) ∷ [])
unfolding new_result_set
one_row-id = refl

get_int-int2string_example : get_int one_row (codes "id") ≡ ok 42
get_int-int2string_example =
    get_int-int2string one_row
      (some (int2string 42) ∷ some (int2string 1) ∷ some (int2string 9) ∷ []) (codes "id") 0 42
      one_row-id id_index refl (omega arith)

insert_user_outcome_example :
    (16 ≤ 15 → (t : ℕ) × (insert_user statements 0 (some 1) new_user 100 ≡ ok (true, t)))
    × (15 < 16 → insert_user statements 0 (some 1) new_user 100 ≡ fault)
insert_user_outcome_example =
    insert_user_outcome statements 0 (some 1) new_user 100 2 refl refl (omega arith)
