-- ===== src/PrepareStatement.antt =====
-- 线程池连接池/PrepareStatement.cpp: a statement with the array of its parameters. The client library
-- of MySQL is a parameter.
pub mod Params
use cpp_project.Base.{
  ℕ, zero, suc, ◌%◌, ◌^◌, Bool, true, false, Option, none, some, List, [], ◌∷◌, if◌then◌else◌, ltb,
  ◌==◌, length, Run, ok, fault, ◌>>=◌, or_fault,
}
use cpp_project.Text.{Bytes}

abbrev pub Handle : Type 0
Handle = ℕ

-- What a parameter points to: a number, a text, or the address that a number is cast to.
pub data Buffer : Type 0 where
  null : Buffer
  number : ℕ → Buffer
  text : Bytes → Buffer
  address : ℕ → Buffer

pub data FieldType : Type 0 where
  unset : FieldType
  long : FieldType
  string : FieldType

-- `MYSQL_BIND`
pub record Bind : Type 0 where
  pub buffer_type : FieldType
  pub buffer : Buffer
  pub buffer_length : ℕ

abbrev pub zeroed : Bind
zeroed = record { buffer_type = unset; buffer = null; buffer_length = 0 }

-- `m_param_bind` is `none` if it is NULL.
pub record Statement : Type 0 where
  pub stmt : Option Handle
  pub param_bind : Option (List Bind)
  pub param_cnt : ℕ

abbrev pub new_statement : Statement
new_statement = record { stmt = none; param_bind = none; param_cnt = 0 }

-- The functions of the client library that the code calls.
pub record StmtApi (S : Type 0) : Type 0 where
  pub mysql_ping : S → Option Handle → S
  pub mysql_stmt_init : S → Option Handle → Option Handle × S
  pub mysql_stmt_prepare : S → Handle → Bytes → ℕ × S
  pub mysql_stmt_param_count : S → Handle → ℕ
  pub mysql_stmt_bind_param : S → Handle → Option (List Bind) → Bool × S
  pub mysql_stmt_execute : S → Handle → ℕ × S
  pub mysql_stmt_affected_rows : S → Handle → ℕ
  pub mysql_stmt_insert_id : S → Handle → ℕ
  pub mysql_stmt_close : S → Handle → S

abbrev pub replicate : ℕ → List Bind
replicate zero = []
replicate (suc n) = zeroed ∷ replicate n

-- `m_param_bind[index] = …`, undefined outside the array.
unfoldable pub set_elem : List Bind → ℕ → (Bind → Bind) → Run (List Bind)
set_elem [] i f = fault
set_elem (b ∷ bs) zero f = ok (f b ∷ bs)
set_elem (b ∷ bs) (suc i) f = set_elem bs i f >>= λ rest. ok (b ∷ rest)

-- `PrepareStatement::setParam`, with what each overload writes.
unfoldable pub set_param : Statement → ℕ → (Bind → Bind) → Run Statement
set_param t i f =
    let write = or_fault t.param_bind >>= λ bs.
    set_elem bs i f >>= λ bs'. ok (record t { param_bind = some bs' }) in
    if ltb t.param_cnt i then ok t else write

abbrev pub as_int : ℕ → Bind → Bind
as_int v b = record b { buffer_type = long; buffer = number v }

abbrev pub as_text : Bytes → Bind → Bind
as_text v b = record b { buffer_type = string; buffer = text v; buffer_length = length v }

-- The overload for `uint8_t`: `(char*)value`.
abbrev pub as_uint8 : ℕ → Bind → Bind
as_uint8 v b = record b { buffer_type = string; buffer = address v }

module _ {S : Type 0} (api : StmtApi S) where
  -- `PrepareStatement::Init`
  unfoldable pub prepare : S → (mysql : Option Handle) → Statement → Bytes → Bool × Statement × S
  prepare s mysql t sql =
      let (m, s') = api.mysql_stmt_init (api.mysql_ping s mysql) mysql in
      elim m [
        | none ↦ (false, record t { stmt = none }, s')
        | some h ↦
            let (e, s2) = api.mysql_stmt_prepare s' h sql in
            let n = api.mysql_stmt_param_count s2 h in
            if e == 0
            then (
              true,
              record {
                stmt = some h;
                param_bind = if ltb 0 n then some (replicate n) else t.param_bind;
                param_cnt = n;
              },
              s2,
            )
            else (false, record t { stmt = some h }, s2)
      ]

  -- `PrepareStatement::ExecuteUpdate`
  unfoldable pub execute_stmt : S → Statement → Bool × S
  execute_stmt s t = elim t.stmt [
    | none ↦ (false, s)
    | some h ↦
        let (bad, s') = api.mysql_stmt_bind_param s h t.param_bind in
        let (e, s2) = api.mysql_stmt_execute s' h in
        if bad
        then (false, s')
        else if e == 0
        then (if api.mysql_stmt_affected_rows s2 h == 0 then false else true, s2)
        else (false, s2)
  ]

  -- `PrepareStatement::~PrepareStatement`
  unfoldable pub destroy : S → Statement → S
  destroy s t = elim t.stmt [ none ↦ s | some h ↦ api.mysql_stmt_close s h ]
