-- ===== src/UserTable/Insert.antt =====
-- `insertUser`: its parameters land in the array in their order, if the statement has as many.
use cpp_project.Base.{
  ℕ, zero, suc, ◌+◌, ◌≡◌, refl, sym, ap, ◌∙◌, ◌≢◌, ◌<◌, ◌≤◌, Bool, true, Option, some, List, [],
  ◌∷◌, length, get_elem?, Bool-cases, ltb, ltb→lt, ltb→le, inl, inr, ok, fault, arith,
}
use cpp_project.PrepareStatement
use cpp_project.PrepareStatement.{
  Handle, Bind, Statement, StmtApi, new_statement, zeroed, replicate, set_param, prepare,
  execute_stmt,
}
use cpp_project.PrepareStatement.Params.{
  IsBound, set_param_lem, prepare-IsBound, length-replicate, stmt_made, stmt_prepared,
}
use cpp_project.UserTable.{User, set_params, insert_params, insert_sql, insert_user}

-- Each of the elements from `i` on is what the parameter with its offset makes of the old element; those
-- before `i` are kept.
pub record AreSet (bs bs' : List Bind) (i : ℕ) (fs : List (Bind → Bind)) : Type 0 where
  pub set :
      (k : ℕ) (f : Bind → Bind) (b : Bind)
      → get_elem? fs k ≡ some f
      → get_elem? bs (i + k) ≡ some b
      → get_elem? bs' (i + k) ≡ some (f b)
  pub kept : (k : ℕ) → k < i → get_elem? bs' k ≡ get_elem? bs k

AreSet-cons :
    (bs cs bs' : List Bind) (i : ℕ) (f : Bind → Bind) (fs : List (Bind → Bind))
    → ((b : Bind) → get_elem? bs i ≡ some b → get_elem? cs i ≡ some (f b))
    → ((k : ℕ) → k ≢ i → get_elem? cs k ≡ get_elem? bs k)
    → AreSet cs bs' (suc i) fs
    → AreSet bs bs' i (f ∷ fs)
AreSet-cons bs cs bs' i f fs at out h = record {
  set = set;
  kept = λ k l. h.kept k (omega arith) ∙ out k (omega arith);
}
  where
    set :
        (k : ℕ) (g : Bind → Bind) (b : Bind)
        → get_elem? (f ∷ fs) k ≡ some g
        → get_elem? bs (i + k) ≡ some b
        → get_elem? bs' (i + k) ≡ some (g b)
    set zero g b e d =
        let here : i + 0 ≡ i = omega arith in
        let d' = rw here at d in
        let same : f ≡ g = cc in rw (here, ← same) (h.kept i (omega arith) ∙ at b d')
    set (suc k) g b e d =
        let next : i + suc k ≡ suc i + k = omega arith in
        let d' = rw next at d in rw next (h.set k g b e (out (suc i + k) (omega arith) ∙ d'))

-- Parameters set one after the other from index `i`, on a statement with an array of its parameters: if
-- they fit, each lands in its place and the array keeps its length; if not, it is undefined.
set_params_lem :
    (t : Statement) (bs : List Bind) (i : ℕ) (fs : List (Bind → Bind))
    → IsBound t bs
    → (i + length fs ≤ length bs
        → (bs' : List Bind) × (set_params t i fs ≡ ok (record t { param_bind = some bs' }))
          × (length bs' ≡ length bs)
          × AreSet bs bs' i fs)
      × (i ≤ length bs → length bs < i + length fs → set_params t i fs ≡ fault)
unfolding set_params
set_params_lem t bs i [] b = (
  λ h. (
    bs,
    ap (λ p. ok (record t { param_bind = p })) b.0,
    refl,
    record { set = λ k f x e d. cc; kept = λ k l. refl },
  ),
  λ h l. absurd (omega arith),
)
set_params_lem t bs i (f ∷ fs) b =
    let (inside, at_end, _) = set_param_lem t bs i f b in
    (
      λ h.
          let (cs, run, bound, at, out) = inside (omega arith) in
          let len : length cs ≡ length bs = sym bound.1 ∙ b.1 in
          let (bs', run', len', set) =
            (set_params_lem (record t { param_bind = some cs }) cs (suc i) fs bound).0
              (omega (arith, len)) in
          (bs', rw (run, run') refl, len' ∙ len, AreSet-cons bs cs bs' i f fs at out set),
      λ h l. elim (Bool-cases (ltb i (length bs))) [
        | inl e ↦
            let (cs, run, bound, at, out) = inside (ltb→lt _ _ e) in
            let len : length cs ≡ length bs = sym bound.1 ∙ b.1 in
            let ih = (set_params_lem (record t { param_bind = some cs }) cs (suc i) fs bound).1 in
            rw run (ih (omega (arith, len, ltb→lt _ _ e)) (omega (arith, len)))
        | inr e ↦ let run = at_end (omega (arith, ltb→le _ _ e)) in rw run refl
      ],
    )

module _ {S : Type 0} (api : StmtApi S) (s : S) (mysql : Option Handle) (u : User) (now : ℕ)
    (h : Handle) where
  abbrev pub inserted : ℕ
  inserted = api.mysql_stmt_param_count (stmt_prepared api s mysql insert_sql h).1 h

  abbrev made_ready : Bool × Statement × S
  made_ready = prepare api s mysql new_statement insert_sql

  returns :
      made_ready.0 ≡ true
      → (t : Statement) → set_params made_ready.1 0 (insert_params u now) ≡ ok t
      → (x : S) × (insert_user api s mysql u now ≡ ok (true, x))
  unfolding insert_user
  returns e t run =
      (PrepareStatement.destroy api (execute_stmt api made_ready.2 t).1 t, rw (e, run) refl)

  -- If the statement of `insertUser` is prepared and has parameters, then with 16 of them or more it
  -- returns true, whether or not the execution succeeds; with fewer it writes outside of the array.
  pub insert_user_outcome :
      (stmt_made api s mysql insert_sql h).0 ≡ some h
      → (stmt_prepared api s mysql insert_sql h).0 ≡ 0
      → 0 < inserted
      → (16 ≤ inserted → (t : S) × (insert_user api s mysql u now ≡ ok (true, t)))
        × (inserted < 16 → insert_user api s mysql u now ≡ fault)
  unfolding insert_user
  insert_user_outcome made prepared some_params =
      let (is_ok, bound) = prepare-IsBound api s mysql insert_sql h made prepared some_params in
      let (fits, too_few) =
        set_params_lem made_ready.1 (replicate inserted) 0 (insert_params u now) bound in
      let count = length-replicate inserted in
      (
        λ l. let (bs', run, _, _) = fits (omega (arith, count)) in returns is_ok _ run,
        λ l. rw (is_ok, too_few (omega arith) (omega (arith, count))) refl,
      )
