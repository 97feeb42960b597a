-- ===== src/DbPool/Awake.antt =====
-- Which threads of a pool of connections have been woken: no signal of `RelConn` is lost.
use cpp_project.Base.{
  Distinct, Out, Has-split, is_member, Distinct-drop, ℕ, suc, ◌≡◌, refl, sym, ap, ◌∙◌, subst, ◌≢◌,
  ◌≤◌, List, [], ◌∷◌, ◌++◌, inl, inr, Bool-cases, Option, arith, length, length-append, update,
  update_self, update_ne, update_cases, All, All-mono, All-drop, ◌==◌, ==_iff,
}
use cpp_project.DbPool.{DbPool, Attempt, get_section, rel_section, is_listed}
use cpp_project.DbPool.System
use cpp_project.DbPool.System.{
  System, User, waiting, woken, asking, outside, holding, Step, Reach, start, later, after_get,
  TriesGet, woken_at, wake, Signals,
}
use cpp_project.DbPool.Moves.{get_section-free, get_section-none}
use cpp_project.DbPool.Safety.{Reach-Inv}

-- So many threads as there are free connections have been woken and have not looked yet.
abbrev pub Awake : System → Type 0
Awake s =
    (ws : List ℕ) × Distinct ws
    × All (λ k. s.users k ≡ woken) ws
    × (length s.pool.free_list ≤ length ws)

-- The invariant: this holds while a thread waits.
abbrev Served : System → Type 0
Served s = (i : ℕ) → s.users i ≡ waiting → Awake s

-- A list of numbers without one of them, if it was there.
without :
    (k : ℕ) (ws : List ℕ)
    → Distinct ws
    → (vs : List ℕ) × Distinct vs
      × Out k vs
      × (length ws ≤ suc (length vs))
      × ((P : ℕ → Type 0) → All P ws → All P vs)
without k ws d = elim (is_member k ws) [
  | inr o ↦ (ws, d, o, omega arith, λ P a. a)
  | inl h ↦
      let (xs, ys, e) = Has-split k ws h in
      let (o, d') = Distinct-drop k xs ys (subst Distinct e d) in
      (
        xs ++ ys,
        d',
        o,
        omega (arith, ap length e, length-append xs (k ∷ ys), length-append xs ys),
        λ P a. All-drop P xs k ys (subst (All P) e a),
      )
]

-- A thread that is not in the list may change.
others_woken :
    (f : ℕ → User) (i : ℕ) (u : User) (ws : List ℕ)
    → Out i ws
    → All (λ k. f k ≡ woken) ws
    → All (λ k. update f i u k ≡ woken) ws
others_woken f i u [] o a = tt
others_woken f i u (w ∷ ws) o a = (update_ne f i u w o.0 ∙ a.0, others_woken f i u ws o.1 a.1)

not_among :
    (f : ℕ → User) (i : ℕ) (ws : List ℕ) → f i ≢ woken → All (λ k. f k ≡ woken) ws → Out i ws
not_among f i [] ne a = tt
not_among f i (w ∷ ws) ne a = (λ same. ne (sym (ap f same) ∙ a.0), not_among f i ws ne a.1)

rel_section-length :
    (t : DbPool) (c : Option ℕ) → length (rel_section t c).free_list ≤ suc (length t.free_list)
unfolding rel_section
rel_section-length t c = elim (Bool-cases (is_listed c t.free_list)) [
  | inl e ↦ rw e (omega arith)
  | inr e ↦ rw e (omega (arith, length-append t.free_list (c ∷ [])))
]

-- A thread that looks into the pool: it takes a connection, or leaves an empty list.
get-Awake :
    (s : System) (i : ℕ) (a : Attempt)
    → (s.pool.free_list ≢ [] → Awake s)
    → Awake (after_get s i (get_section s.pool a))
unfolding after_get
get-Awake s i a served = by_list s.pool.free_list refl
  where
    some_left :
        (c : Option ℕ) (cs : List (Option ℕ)) (u : User)
        → s.pool.free_list ≡ c ∷ cs
        → (vs : List ℕ) × Distinct vs
          × All (λ k. update s.users i u k ≡ woken) vs
          × (length cs ≤ length vs)
    some_left c cs u e =
        let (ws, d, all, l) = served (λ none_left. cc (sym none_left ∙ e)) in
        let (vs, d', o, l', keep) = without i ws d in
        (
          vs,
          d',
          others_woken s.users i u vs o (keep (λ k. s.users k ≡ woken) all),
          omega (arith, l, l', ap length e),
        )

    by_list :
        (cs : List (Option ℕ))
        → s.pool.free_list ≡ cs
        → Awake (after_get s i (get_section s.pool a))
    by_list (c ∷ cs) e = rw (get_section-free s.pool a c cs e) (some_left c cs (holding c) e)
    by_list [] e = elim (get_section-none s.pool a e) [
      | inl (_, is) ↦ rw is ([], tt, tt, omega (arith, ap length e))
      | inr (inl is) ↦ rw is ([], tt, tt, omega (arith, ap length e))
      | inr (inr (_, is)) ↦ rw is ([], tt, tt, omega arith)
    ]

-- A thread that gives its connection back wakes one that waits.
rel-Awake :
    (s : System) (i k : ℕ) (c : Option ℕ)
    → s.users i ≡ holding c
    → s.users k ≡ waiting
    → Awake s
    → Awake (record s { pool = rel_section s.pool c; users = update (woken_at s k) i outside })
rel-Awake s i k c mine waits_at (ws, d, all, l) =
    let k_out = not_among s.users k ws (λ e. cc (sym waits_at ∙ e)) all in
    let i_out = not_among s.users i ws (λ e. cc (sym mine ∙ e)) all in
    let apart : k ≢ i = λ (e : k ≡ i). cc (sym waits_at ∙ ap s.users e ∙ mine) in
    (
      k ∷ ws,
      (k_out, d),
      others_woken (woken_at s k) i outside (k ∷ ws) (apart, i_out)
          (update_self s.users k _ ∙ ap wake waits_at, others_woken s.users k _ ws k_out all),
      omega (arith, l, rel_section-length s.pool c),
    )

wake-woken : (u : User) → u ≡ woken → wake u ≡ woken
wake-woken u e = ground arith

woken_at-woken : (s : System) (i k : ℕ) → s.users k ≡ woken → woken_at s i k ≡ woken
woken_at-woken s i k e = elim (Bool-cases (k == i)) [
  | inl same ↦
      let d = (==_iff k i).0 same in
      subst (λ x. woken_at s i x ≡ woken) (sym d)
        (update_self s.users i _ ∙ wake-woken (s.users i) (ap s.users (sym d) ∙ e))
  | inr other ↦ update_ne s.users i _ k (λ d. cc (sym ((==_iff k i).1 d) ∙ other)) ∙ e
]

woken_at-waiting : (s : System) (i k : ℕ) → woken_at s i k ≡ waiting → s.users k ≡ waiting
woken_at-waiting s i k e = ground arith

-- Who waits after a connection was taken from the list has waited before.
get-waiting :
    (s : System) (i : ℕ) (a : Attempt) (k : ℕ)
    → s.pool.free_list ≢ []
    → (after_get s i (get_section s.pool a)).users k ≡ waiting
    → s.users k ≡ waiting
unfolding after_get
get-waiting s i a k more e = by_list s.pool.free_list refl
  where
    by_list : (cs : List (Option ℕ)) → s.pool.free_list ≡ cs → s.users k ≡ waiting
    by_list [] none_left = absurd (more none_left)
    by_list (c ∷ cs) d =
        let e' = rw (get_section-free s.pool a c cs d) at e in
        elim (update_cases s.users i (holding c) k e') [ inl (_, x) ↦ cc | inr (_, x) ↦ x ]

Step-Served : {s t : System} → Served s → Step s t → Served t
Step-Served {s} h (System.ask i e) k waits_now =
    let (ws, d, all, l) = h k (ground arith) in
    (
      ws,
      d,
      others_woken s.users i asking ws (not_among s.users i ws (λ x. cc (sym e ∙ x)) all) all,
      l,
    )
Step-Served {s} h (System.get i a tries unused) k waits_now =
    get-Awake s i a (λ more. h k (get-waiting s i a k more waits_now))
Step-Served {s} h (System.rel i k c mine signals) l waits_now =
    let still : s.users l ≡ waiting = woken_at-waiting s k l (ground arith) in
    elim signals [
      | inl at ↦ rel-Awake s i k c mine at (h l still)
      | inr nobody ↦ absurd (nobody l still)
    ]
Step-Served {s} h (System.leave i e) k waits_now =
    let (ws, d, all, l) = h k (ground arith) in
    (
      ws,
      d,
      others_woken s.users i outside ws (not_among s.users i ws (λ x. cc (sym e ∙ x)) all) all,
      l,
    )
Step-Served {s} h (System.wake_spuriously i) k waits_now =
    let (ws, d, all, l) = h k (woken_at-waiting s i k waits_now) in
    (
      ws,
      d,
      All-mono (λ j. s.users j ≡ woken) (λ j. woken_at s i j ≡ woken) (woken_at-woken s i) ws all,
      l,
    )

Reach-Served : {m : ℕ} {s : System} → Reach m s → Served s
Reach-Served (start p) = λ k e. absurd cc
Reach-Served (later before_it step) = Step-Served (Reach-Served before_it) step

-- No signal of `RelConn` is lost. In every reachable state of a pool with a limit of at least one in
-- which a thread waits, the pool has all its connections, and at least as many threads as there are
-- entries in the free list have been woken and have still to look.
pub signals_kept :
    (m : ℕ) (s : System)
    → 1 ≤ m
    → Reach m s
    → (i : ℕ) → s.users i ≡ waiting
    → (s.pool.cur_conn_cnt ≡ m) × Awake s
signals_kept m s h run i e = ((Reach-Inv h run).waits i e, Reach-Served run i e)
