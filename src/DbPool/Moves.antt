-- ===== src/DbPool/Moves.antt =====
-- Each step of a thread that uses the pool keeps the invariant.
use mathlib.Core.List.{append_assoc, append-nil}
use cpp_project.Base.{
  Has, Out, Out-Has, Has-split, Has-drop, Distinct-drop, ℕ, ◌+◌, ◌≡◌, refl, sym, ap, ◌∙◌, subst,
  ◌≢◌, ◌≤◌, ◌<◌, All-left, List, [], ◌∷◌, ◌++◌, ◌⊎◌, inl, inr, Bool, Bool-cases, true, false,
  Option, none, some, arith, update, update_self, update_cases, leb, ◌==◌, All-mono, All-right,
}
use cpp_project.DbPool.{
  Ptr, DbPool, Attempt, push_back, is_listed, get_section, rel_section, waits, fails, gets,
}
use cpp_project.DbPool.System.{System, User, outside, waiting, holding, woken_at, after_get}
use cpp_project.DbPool.Lists.{
  Good, Out-live, Good-move, conns, nulls, conns-append, nulls-append, is_listed-Out,
  is_listed-nulls,
}
use cpp_project.DbPool.Invariant.{Inv}

Good-live :
    (f : Ptr → Bool) (p : Ptr) (n : ℕ) (ps : List Ptr) → Good f n ps → Good (update f p true) n ps
Good-live f p n ps (d, a, c) =
    (d, All-mono (λ q. f q ≡ true) (λ q. update f p true q ≡ true) (λ q e. ground arith) ps a, c)

-- A connection that is not in the list is put at its end.
rel_section_adds :
    (t : DbPool) (p : Ptr)
    → Out p (conns t.free_list)
    → rel_section t (some p) ≡ push_back t (some p)
unfolding rel_section
rel_section_adds t p o = rw (rel_section, is_listed-Out p t.free_list o) refl

-- What `GetDBConn` does when a connection is free, and when none is.
pub get_section-free :
    (t : DbPool) (a : Attempt) (c : Option Ptr) (cs : List (Option Ptr))
    → t.free_list ≡ c ∷ cs
    → get_section t a ≡ gets (record t { free_list = cs }) c
unfolding get_section
get_section-free t a c cs e = ground arith

pub get_section-none :
    (t : DbPool) (a : Attempt)
    → t.free_list ≡ []
    → ((t.max_conn_cnt ≤ t.cur_conn_cnt) × (get_section t a ≡ waits))
      ⊎ (get_section t a ≡ fails)
      ⊎ ((t.cur_conn_cnt < t.max_conn_cnt)
          × (get_section t a
              ≡ gets
                  (record t { free_list = []; cur_conn_cnt = t.cur_conn_cnt + 1 })
                  (some a.address)))
unfolding get_section
get_section-none t a e = elim (Bool-cases (leb t.max_conn_cnt t.cur_conn_cnt)) [
  | inl full ↦ inl (ground (arith, full), ground arith)
  | inr room ↦ elim (Bool-cases (a.result == 0)) [
    | inl done ↦ inr (inr (ground (arith, room), ground arith))
    | inr failed ↦ inr (inl (ground arith))
  ]
]

module _ (m : ℕ) (s : System) (i : ℕ) (v : Inv m s) where
  -- A thread that ends up without a connection, and waits at the limit only, while NULL may enter or
  -- leave the list.
  pub empty-Inv :
      (cs : List (Option Ptr)) (u : User)
      → conns cs ≡ conns s.pool.free_list
      → nulls cs ≤ 1
      → ((p : Ptr) → u ≢ holding (some p))
      → (u ≡ waiting → s.pool.cur_conn_cnt ≡ m)
      → Inv m (record s { pool = record s.pool { free_list = cs }; users = update s.users i u })
  empty-Inv cs u same once empty_handed at_limit = record {
    leased = v.leased;
    good = rw same v.good;
    one_null = once;
    limit = v.limit;
    max = v.max;
    held = λ k c e. v.held k c (ground (arith, empty_handed c));
    alone = λ k l c e f.
        v.alone k l c (ground (arith, empty_handed c)) (ground (arith, empty_handed c));
    waits = λ k e. ground (arith, v.waits k);
  }

  pub user-Inv :
      (u : User)
      → ((p : Ptr) → u ≢ holding (some p))
      → (u ≡ waiting → s.pool.cur_conn_cnt ≡ m)
      → Inv m (record s { users = update s.users i u })
  user-Inv u empty_handed at_limit =
      empty-Inv s.pool.free_list u refl v.one_null empty_handed at_limit

  pub wake-Inv : Inv m (record s { users = woken_at s i })
  wake-Inv = record {
    leased = v.leased;
    good = v.good;
    one_null = v.one_null;
    limit = v.limit;
    max = v.max;
    held = λ k c e. v.held k c (ground arith);
    alone = λ k l c e f. v.alone k l c (ground arith) (ground arith);
    waits = λ k e. v.waits k (ground arith);
  }

  -- A connection `p`, free or new, is leased to the thread.
  gets-Inv :
      (p : Ptr) (t : DbPool)
      → Good (update s.live p true) t.cur_conn_cnt (conns t.free_list ++ p ∷ v.leased)
      → nulls t.free_list ≤ 1
      → Out p v.leased
      → t.cur_conn_cnt ≤ m
      → t.max_conn_cnt ≡ m
      → ((k : ℕ) → s.users k ≡ waiting → t.cur_conn_cnt ≡ m)
      → Inv m (record s {
        pool = t;
        live = update s.live p true;
        users = update s.users i (holding (some p));
      })
  gets-Inv p t good once out limit max at_limit = record {
    leased = p ∷ v.leased;
    good = good;
    one_null = once;
    limit = limit;
    max = max;
    held = λ k q e. elim (update_cases s.users i (holding (some p)) k e) [
      | inl (_, d) ↦ inl cc
      | inr (_, d) ↦ inr (v.held k q d)
    ];
    alone = λ k l q e f. elim (update_cases s.users i (holding (some p)) k e) [
      | inl (a, d) ↦ elim (update_cases s.users i (holding (some p)) l f) [
        | inl (b, _) ↦ a ∙ sym b
        | inr (_, g) ↦ absurd (fresh l q g d)
      ]
      | inr (_, g) ↦ elim (update_cases s.users i (holding (some p)) l f) [
        | inl (b, d) ↦ absurd (fresh k q g d)
        | inr (_, h) ↦ v.alone k l q g h
      ]
    ];
    waits = λ k e. at_limit k (ground arith);
  }
    where
      fresh :
          (l : ℕ) (q : Ptr) → s.users l ≡ holding (some q) → holding (some p) ≡ holding (some q) → ⊥
      fresh l q g d =
          let same : p ≡ q = cc in
          Out-Has p v.leased out (subst (λ r. Has r v.leased) (sym same) (v.held l q g))

  -- A thread gives back the connection that it holds.
  given_back :
      (p : Ptr) (xs ys : List Ptr)
      → v.leased ≡ xs ++ p ∷ ys
      → s.users i ≡ holding (some p)
      → Inv m (record s { pool = rel_section s.pool (some p); users = update s.users i outside })
  given_back p xs ys split mine = rw (rel_section_adds s.pool p out) (record {
    leased = xs ++ ys;
    good =
        rw (conns-append s.pool.free_list (some p ∷ []), append_assoc frees (p ∷ []) (xs ++ ys))
          (Good-move s.live _ p (frees ++ xs) ys frees (xs ++ ys) (append_assoc frees xs ys) good);
    one_null = omega (arith, v.one_null, nulls-append s.pool.free_list (some p ∷ []));
    limit = v.limit;
    max = v.max;
    held = λ k q e. elim (update_cases s.users i outside k e) [
      | inl (_, d) ↦ cc
      | inr (ne, f) ↦
          let other : q ≢ p =
            λ (d : q ≡ p). ne (v.alone k i q f (mine ∙ ap holding (ap some (sym d)))) in
          Has-drop q p xs ys other (subst (Has q) split (v.held k q f))
    ];
    alone = λ k l c e f. v.alone k l c (ground arith) (ground arith);
    waits = λ k e. v.waits k (ground arith);
  })
    where
      frees : List Ptr
      frees = conns s.pool.free_list

      good : Good s.live s.pool.cur_conn_cnt ((frees ++ xs) ++ p ∷ ys)
      good =
          subst (Good s.live s.pool.cur_conn_cnt)
            (ap (λ ps. frees ++ ps) split ∙ sym (append_assoc frees xs (p ∷ ys))) v.good

      out : Out p frees
      out =
          All-left (λ q. q ≢ p) frees xs
            (All-left (λ q. q ≢ p) (frees ++ xs) ys (Distinct-drop p (frees ++ xs) ys good.0).0)

  -- A thread gives NULL back.
  null_back : Inv m (record s { pool = rel_section s.pool none; users = update s.users i outside })
  unfolding rel_section
  null_back = elim (Bool-cases (is_listed none s.pool.free_list)) [
    | inl e ↦ rw (rel_section, e) (user-Inv outside (λ p d. cc) (λ d. cc))
    | inr e ↦
        rw (rel_section, e)
          (empty-Inv (s.pool.free_list ++ none ∷ []) outside
            (conns-append s.pool.free_list (none ∷ []) ∙ append-nil (conns s.pool.free_list))
            (omega (
              arith,
              nulls-append s.pool.free_list (none ∷ []),
              is_listed-nulls s.pool.free_list e,
            ))
            (λ p d. cc) (λ d. cc))
  ]

  pub rel-Inv :
      (c : Option Ptr)
      → s.users i ≡ holding c
      → Inv m (record s { pool = rel_section s.pool c; users = update s.users i outside })
  rel-Inv none holds = null_back
  rel-Inv (some p) holds =
      let (xs, ys, split) = Has-split p v.leased (v.held i p holds) in
      given_back p xs ys split holds

  -- `GetDBConn`, on each of its branches.
  pub get-Inv :
      (a : Attempt) → s.live a.address ≡ false → Inv m (after_get s i (get_section s.pool a))
  unfolding after_get
  get-Inv a unused = by_list s.pool.free_list refl
    where
      good_with :
          (cs : List (Option Ptr))
          → s.pool.free_list ≡ cs
          → Good s.live s.pool.cur_conn_cnt (conns cs ++ v.leased)
      good_with cs e = subst (λ ds. Good s.live s.pool.cur_conn_cnt (conns ds ++ v.leased)) e v.good

      once : (cs : List (Option Ptr)) → s.pool.free_list ≡ cs → nulls cs ≤ 1
      once cs e = subst (λ ds. nulls ds ≤ 1) e v.one_null

      by_list :
          (cs : List (Option Ptr))
          → s.pool.free_list ≡ cs
          → Inv m (after_get s i (get_section s.pool a))
      by_list (none ∷ cs) e = rw (get_section-free s.pool a none cs e) (
          empty-Inv cs (holding none) (ap conns (sym e)) (omega (arith, once (none ∷ cs) e))
            (λ p d. cc) (λ d. cc))
      by_list (some p ∷ cs) e =
          let good = good_with (some p ∷ cs) e in
          rw (get_section-free s.pool a (some p) cs e) (
            gets-Inv p (record s.pool { free_list = cs })
              (Good-live s.live p _ _
                (Good-move s.live _ p [] (conns cs ++ v.leased) (conns cs) v.leased refl good))
              (once (some p ∷ cs) e) (All-right (λ q. q ≢ p) (conns cs) v.leased good.0.0) v.limit
              v.max v.waits)
      by_list [] e = elim (get_section-none s.pool a e) [
        | inl (at_limit, is) ↦
            rw is (user-Inv waiting (λ c d. cc) (λ d. omega (arith, at_limit, v.limit, v.max)))
        | inr (inl is) ↦ rw is (user-Inv (holding none) (λ c d. cc) (λ d. cc))
        | inr (inr (below, is)) ↦
            let (d, l, c) = good_with [] e in
            let out = Out-live s.live a.address v.leased unused l in
            let good = Good-live s.live a.address _ _ (d, l, c) in
            rw is (
              gets-Inv a.address
                (record s.pool { free_list = []; cur_conn_cnt = s.pool.cur_conn_cnt + 1 })
                ((out, d), (update_self s.live a.address true, good.1), omega (arith, c))
                (omega arith) out (omega (arith, below, v.max)) v.max
                (λ k w. omega (arith, below, v.max, v.waits k w)))
      ]
