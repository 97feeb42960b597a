-- ===== src/PrepareStatement/Params.antt =====
-- Setting the parameters of a statement: what is written, and that one index past the end is let through.
use cpp_project.Base.{
  ℕ, zero, suc, ◌≡◌, refl, ◌≢◌, ap, ◌∙◌, sym, ◌<◌, ◌≤◌, ◌↔◌, inl, inr, Option-cases, true, false,
  Option, some, List, [], ◌∷◌, ltb, length, get_elem?, ok, fault, arith,
}
use cpp_project.Text.{Bytes}
use cpp_project.PrepareStatement.{
  Handle, Bind, Statement, StmtApi, replicate, set_elem, set_param, prepare, execute_stmt,
  new_statement,
}

-- The array has an element for each parameter.
abbrev pub IsBound : Statement → List Bind → Type 0
IsBound t bs = (t.param_bind ≡ some bs) × (t.param_cnt ≡ length bs)

set_elem_lem :
    (bs : List Bind) (i : ℕ) (f : Bind → Bind)
    → i < length bs
    → (bs' : List Bind) × (set_elem bs i f ≡ ok bs')
      × (length bs' ≡ length bs)
      × ((b : Bind) → get_elem? bs i ≡ some b → get_elem? bs' i ≡ some (f b))
      × ((k : ℕ) → k ≢ i → get_elem? bs' k ≡ get_elem? bs k)
unfolding set_elem
set_elem_lem [] i f h = absurd (omega arith)
set_elem_lem (b ∷ bs) zero f h = (f b ∷ bs, refl, refl, λ c e. ground arith, λ k ne. others k ne)
  where
    others : (k : ℕ) → k ≢ 0 → get_elem? (f b ∷ bs) k ≡ get_elem? (b ∷ bs) k
    others zero ne = absurd (ne refl)
    others (suc k) ne = refl
set_elem_lem (b ∷ bs) (suc i) f h =
    let (bs', run, len, at, out) = set_elem_lem bs i f (omega arith) in
    (b ∷ bs', rw run refl, ap suc len, at, others bs' out)
  where
    others :
        (bs' : List Bind)
        → ((k : ℕ) → k ≢ i → get_elem? bs' k ≡ get_elem? bs k)
        → (k : ℕ) → k ≢ suc i
        → get_elem? (b ∷ bs') k ≡ get_elem? (b ∷ bs) k
    others bs' out zero ne = refl
    others bs' out (suc k) ne = out k (λ e. ne (ap suc e))

set_elem_end : (bs : List Bind) (i : ℕ) (f : Bind → Bind) → length bs ≤ i → set_elem bs i f ≡ fault
unfolding set_elem
set_elem_end [] i f h = refl
set_elem_end (b ∷ bs) zero f h = absurd (omega arith)
set_elem_end (b ∷ bs) (suc i) f h = rw (set_elem_end bs i f (omega arith)) refl

-- `setParam` of a statement with an array of its parameters: within the array it writes this element
-- and no other; one past the end it is undefined; beyond that it does nothing.
pub set_param_lem :
    (t : Statement) (bs : List Bind) (i : ℕ) (f : Bind → Bind)
    → IsBound t bs
    → (i < length bs
        → (bs' : List Bind) × (set_param t i f ≡ ok (record t { param_bind = some bs' }))
          × IsBound (record t { param_bind = some bs' }) bs'
          × ((b : Bind) → get_elem? bs i ≡ some b → get_elem? bs' i ≡ some (f b))
          × ((k : ℕ) → k ≢ i → get_elem? bs' k ≡ get_elem? bs k))
      × (i ≡ length bs → set_param t i f ≡ fault)
      × (length bs < i → set_param t i f ≡ ok t)
unfolding set_param
set_param_lem t bs i f (e, n) = (
  λ h.
      let (bs', run, len, at, out) = set_elem_lem bs i f h in
      (
        bs',
        (let within : ltb t.param_cnt i ≡ false = ground (arith, n) in rw (within, e, run) refl),
        (refl, n ∙ sym len),
        at,
        out,
      ),
  λ h.
      let within : ltb t.param_cnt i ≡ false = ground (arith, n) in
      rw (within, e, set_elem_end bs i f (omega arith)) refl,
  λ h. let beyond : ltb t.param_cnt i ≡ true = ground (arith, n) in rw beyond refl,
)

pub length-replicate : (n : ℕ) → length (replicate n) ≡ n
length-replicate zero = refl
length-replicate (suc n) = ap suc (length-replicate n)

module _ {S : Type 0} (api : StmtApi S) (s : S) (mysql : Option Handle) (sql : Bytes)
    (h : Handle) where
  abbrev pub stmt_made : Option Handle × S
  stmt_made = api.mysql_stmt_init (api.mysql_ping s mysql) mysql

  abbrev pub stmt_prepared : ℕ × S
  stmt_prepared = api.mysql_stmt_prepare stmt_made.1 h sql

  -- A new statement that `Init` prepares with at least one parameter has an array of as many zeroed
  -- elements.
  pub prepare-IsBound :
      stmt_made.0 ≡ some h
      → stmt_prepared.0 ≡ 0
      → 0 < api.mysql_stmt_param_count stmt_prepared.1 h
      → ((prepare api s mysql new_statement sql).0 ≡ true)
        × IsBound
            (prepare api s mysql new_statement sql).1
            (replicate (api.mysql_stmt_param_count stmt_prepared.1 h))
  unfolding prepare
  prepare-IsBound e f n =
      let some_params : ltb 0 (api.mysql_stmt_param_count stmt_prepared.1 h) ≡ true =
        ground (arith, n) in
      rw (prepare, e, f, some_params)
        (refl, (refl, sym (length-replicate (api.mysql_stmt_param_count stmt_prepared.1 h))))

-- `ExecuteUpdate` of a statement returns true exactly when there is a statement, its parameters can be
-- bound, it is executed and rows are affected.
execute_stmt_iff :
    {S : Type 0} (api : StmtApi S) (s : S) (t : Statement)
    → ((execute_stmt api s t).0 ≡ true) ↔ (
        (h : Handle) × (t.stmt ≡ some h)
        × ((api.mysql_stmt_bind_param s h t.param_bind).0 ≡ false)
        × ((api.mysql_stmt_execute (api.mysql_stmt_bind_param s h t.param_bind).1 h).0 ≡ 0)
        × (api.mysql_stmt_affected_rows
              (api.mysql_stmt_execute (api.mysql_stmt_bind_param s h t.param_bind).1 h).1
              h
            ≢ 0))
unfolding execute_stmt
execute_stmt_iff api s t = (
  λ r. elim (Option-cases t.stmt) [
    | inl e ↦ absurd (ground (arith, e, r))
    | inr (h, e) ↦ (h, e, ground (arith, e, r), ground (arith, e, r), ground (arith, e, r))
  ],
  λ (h, e, b, x, n). ground (arith, e, b, x, n),
)
