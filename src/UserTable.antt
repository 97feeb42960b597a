-- ===== src/UserTable.antt =====
-- 线程池连接池/TableOPerator.h: the table of users, by the statements and queries of a connection.
pub mod Insert
pub mod Query
pub mod Tests
use cpp_project.Base.{
  ℕ, zero, suc, ◌+◌, ◌%◌, ◌^◌, Bool, true, false, Option, none, some, List, [], ◌∷◌, ◌++◌,
  if◌then◌else◌, Run, ok, fault, ◌>>=◌, or_fault,
}
use cpp_project.Text.{Bytes, codes}
use cpp_project.Text.Decimal.{int2string}
use cpp_project.DbConn
use cpp_project.DbConn.{Conn, Mysql, execute_update}
use cpp_project.PrepareStatement
use cpp_project.PrepareStatement.{
  Handle, Bind, Statement, StmtApi, new_statement, set_param, as_int, as_text, as_uint8, prepare,
  execute_stmt,
}
use cpp_project.ResultSet.{ResultSet, Row, new_result_set, next, get_int, get_string}

-- `UserTable`: its fields.
pub record User : Type 0 where
  pub id : ℕ
  pub sex : ℕ
  pub status : ℕ
  pub validate_method : ℕ
  pub dept_id : ℕ
  pub nick : Bytes
  pub domain : Bytes
  pub name : Bytes
  pub tel : Bytes
  pub email : Bytes
  pub avatar : Bytes
  pub sign_info : Bytes
  pub pass : Bytes
  pub company : Bytes
  pub address : Bytes

-- `UserTable::UserTable`
abbrev pub new_user : User
new_user = record {
  id = 0;
  sex = 1;
  status = 1;
  validate_method = 0;
  dept_id = 0;
  nick = codes "test";
  domain = codes "test";
  name = codes "test";
  tel = codes "test";
  email = codes "test";
  avatar = codes "test";
  sign_info = codes "test";
  pass = codes "test";
  company = codes "test";
  address = codes "test";
}

-- `setParam(index++, …)`, one after the other.
unfoldable pub set_params : Statement → ℕ → List (Bind → Bind) → Run Statement
set_params t i [] = ok t
set_params t i (f ∷ fs) = set_param t i f >>= λ t'. set_params t' (suc i) fs

-- The parameters of `insertUser`, in their order.
abbrev pub insert_params : User → (now : ℕ) → List (Bind → Bind)
insert_params u now =
    as_text (codes "abcd")
    ∷ as_uint8 u.sex
    ∷ as_text u.nick
    ∷ as_text (codes "987654321")
    ∷ as_text u.domain
    ∷ as_text u.name
    ∷ as_text u.tel
    ∷ as_text u.email
    ∷ as_text u.company
    ∷ as_text u.address
    ∷ as_text u.avatar
    ∷ as_text u.sign_info
    ∷ as_int u.dept_id
    ∷ as_uint8 u.status
    ∷ as_int now
    ∷ as_int now
    ∷ []

abbrev pub insert_sql : Bytes
insert_sql =
    codes
      "insert into IMUser(`salt`,`sex`,`nick`,`password`,`domain`,`name`,`phone`,`email`,`company`,`address`,`avatar`,`sign_info`,`departId`,`status`,`created`,`updated`) values(?,?,?,?,?,?,?,?,?,?,?,?,?,?,?,?)"

-- `UserTable::insertUser`. `now` is the time.
unfoldable pub insert_user :
    {S : Type 0} (api : StmtApi S) → S → (mysql : Option Handle) → User → (now : ℕ) → Run (Bool × S)
insert_user api s mysql u now =
    let (prepared, t, s') = prepare api s mysql new_statement insert_sql in
    let execute : Run (Bool × _) = set_params t 0 (insert_params u now) >>= λ t'.
    let (_, s2) = execute_stmt api s' t' in ok (true, PrepareStatement.destroy api s2 t') in
    if prepared then execute else ok (true, PrepareStatement.destroy api s' t)

abbrev pub update_sql : User → (id now : ℕ) → Bytes
update_sql u id now =
    codes "update IMUser set `sex`="
    ++ int2string u.sex
    ++ codes ", `nick`='"
    ++ u.nick
    ++ codes "', `domain`='"
    ++ u.domain
    ++ codes "', `name`='"
    ++ u.name
    ++ codes "', `phone`='"
    ++ u.tel
    ++ codes "', `email`='"
    ++ u.email
    ++ codes "', `avatar`='"
    ++ u.avatar
    ++ codes "', `sign_info`='"
    ++ u.sign_info
    ++ codes "', `departId`='"
    ++ int2string u.dept_id
    ++ codes "', `status`="
    ++ int2string u.status
    ++ codes ", `updated`="
    ++ int2string now
    ++ codes ", `company`='"
    ++ u.company
    ++ codes "', `address`='"
    ++ u.address
    ++ codes "' where id="
    ++ int2string id

-- `UserTable::updateInfo`
unfoldable pub update_info :
    {S : Type 0} (api : Mysql S) → S → Conn → User → (id now : ℕ) → Bool × User × S
update_info api s c u id now =
    let u' = record u { domain = codes "naihan" } in
    let (r, s') = execute_update api s c (update_sql u' id now) true in (r, u', s')

-- A text field is assigned from a `char*`, which must not be NULL.
abbrev pub text_field : ResultSet → Bytes → Run Bytes
text_field r key = get_string r key >>= or_fault

-- The fields that `queryUser` reads from a row, in its order.
unfoldable pub read_user : User → ResultSet → Run User
read_user u r = do
  id ← get_int r (codes "id")
  sex ← get_int r (codes "sex")
  nick ← text_field r (codes "nick")
  domain ← text_field r (codes "domain")
  name ← text_field r (codes "name")
  tel ← text_field r (codes "phone")
  email ← text_field r (codes "email")
  avatar ← text_field r (codes "avatar")
  sign_info ← text_field r (codes "sign_info")
  dept_id ← get_int r (codes "departId")
  validate_method ← get_int r (codes "validateMethod")
  status ← get_int r (codes "status")
  ok (record u {
    id = id;
    sex = sex % 2 ^ 8;
    nick = nick;
    domain = domain;
    name = name;
    tel = tel;
    email = email;
    avatar = avatar;
    sign_info = sign_info;
    dept_id = dept_id;
    validate_method = validate_method;
    status = status % 2 ^ 8;
  })

abbrev pub query_sql : ℕ → Bytes
query_sql id = codes "select * from IMUser where id=" ++ int2string id

-- The names of the columns and the first row of a stored result.
pub record Results (S : Type 0) : Type 0 where
  pub mysql_fetch_fields : S → ℕ → List Bytes
  pub mysql_fetch_row : S → ℕ → Option Row

-- `UserTable::queryUser`
unfoldable pub query_user :
    {S : Type 0} (api : Mysql S) (results : Results S)
    → S
    → Conn
    → User
    → (id : ℕ) → Run (Bool × User × S)
query_user api results s c u id =
    let (res, s') = DbConn.execute_query api s c (query_sql id) in
    elim res [
      | none ↦ ok (false, u, s')
      | some q ↦
          let (found, r) =
            next (new_result_set (results.mysql_fetch_fields s' q))
              (results.mysql_fetch_row s' q) in
          let user = read_user u r >>= λ u'. ok (true, u', s') in
          if found then user else ok (false, u, s')
    ]
