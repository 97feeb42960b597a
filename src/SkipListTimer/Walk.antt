-- ===== src/SkipListTimer/Walk.antt =====
-- The walk along one level and the descent over the levels: they end at the last node whose score is
-- below the bound, on every level.
use cpp_project.Base.{
  ℕ, zero, suc, ◌+◌, ◌-◌, ◌≡◌, refl, ◌∙◌, ap, ◌<◌, ◌≤◌, none, some, List, [], ◌∷◌, ◌++◌, true, ltb,
  ltb→lt, lt→ltb, le→ltb, ltb→le, update, update_self, update_ne, ok, arith, inl, inr, ◌⊎◌,
  Bool-cases, All, length,
}
use cpp_project.SkipListTimer.Node.{Ptr, Heap, get_score, get_next}
use cpp_project.SkipListTimer.SkipList.{walk, descend, Temp}
use cpp_project.SkipListTimer.Stored.{Stored, Stored-score}
use cpp_project.SkipListTimer.Chain.{Entry, pick, last_at, first, Chain, Chain-next}

-- From `p` the pointers of level `i` lead in `n` steps to `q`, over scores below `b`.
data Steps (h : Heap) (i b : ℕ) (p : Ptr) : Ptr → ℕ → Type 0 where
  here : Steps h i b p p 0
  step :
      {q r : Ptr} {n a : ℕ}
      → Steps h i b p q n
      → get_next h q i ≡ ok (some r)
      → get_score h r ≡ ok a
      → a < b
      → Steps h i b p r (suc n)

module _ (h : Heap) (i b : ℕ) where
  walk-on :
      (q : Ptr) {r : Ptr} {a : ℕ} (f : ℕ)
      → get_next h q i ≡ ok (some r)
      → get_score h r ≡ ok a
      → a < b
      → walk (suc f) h i (ok b) q ≡ walk f h i (ok b) r
  unfolding walk
  walk-on q {a} f next score low = rw (next, score) (rw (lt→ltb a b low))

  walk-Steps :
      {p q : Ptr} {n : ℕ} (f g : ℕ)
      → Steps h i b p q n
      → g ≡ n + f
      → walk g h i (ok b) p ≡ walk f h i (ok b) q
  walk-Steps {p} f g here e = ap (λ k. walk k h i (ok b) p) (omega arith)
  walk-Steps f g (step {q = x} s next score low) e =
      walk-Steps (suc f) g s (omega arith) ∙ walk-on x f next score low

  -- Behind `q` the level ends or goes on to a score that is not below the bound.
  abbrev Stops : Ptr → Type 0
  Stops q =
      (get_next h q i ≡ ok none)
      ⊎ ((r : Ptr) × (a : ℕ) × (get_next h q i ≡ ok (some r)) × (get_score h r ≡ ok a) × (b ≤ a))

  walk-Stops : (f : ℕ) (q : Ptr) → Stops q → walk (suc f) h i (ok b) q ≡ ok q
  unfolding walk
  walk-Stops f q (inl e) = rw e
  walk-Stops f q (inr (r, a, e, s, low)) = rw (e, s) (rw (le→ltb a b low))

  next-Stops :
      (q : Ptr) (xs : List Entry)
      → get_next h q i ≡ ok (first (pick i xs))
      → All (Stored h) xs
      → All (λ e. b ≤ e.score) xs
      → Stops q
  next-Stops q [] n st high = inl n
  next-Stops q (e ∷ xs) n st high = elim (Bool-cases (ltb i e.level)) [
    | inl t ↦ let n' = rw t at n in inr (e.ptr, e.score, n', Stored-score h e st.0, high.0)
    | inr t ↦ let n' = rw t at n in next-Stops q xs n' st.1 high.1
  ]

  -- The last node above level `k` leads on level `i` to the last node of level `i`.
  climb :
      (k : ℕ) {p q : Ptr} {n : ℕ} (xs : List Entry) (zs : List Ptr)
      → i ≤ k
      → Steps h i b p q n
      → Chain h i q (pick i xs ++ zs)
      → All (Stored h) xs
      → All (λ e. e.score < b) xs
      → (m : ℕ) × Steps h i b (last_at k p xs) (last_at i q xs) m × (m ≤ n + length xs)
  climb k {n} [] zs le s c st low = (n, s, omega arith)
  climb k {p} {q} {n} (e ∷ xs) zs le s c st low = elim (Bool-cases (ltb k e.level)) [
    | inl t ↦
        let u : ltb i e.level ≡ true = ground arith in
        let c' = rw u at c in
        let (m, s', bound) =
          climb k {p = e.ptr} {q = e.ptr} {n = 0} xs zs le here c'.1 st.1 low.1 in
        rw (t, u) (m, s', omega arith)
    | inr t ↦ elim (Bool-cases (ltb i e.level)) [
      | inl u ↦
          let c' = rw u at c in
          let s₁ = step s c'.0 (Stored-score h e st.0) low.0 in
          let (m, s', bound) =
            climb k {p = p} {q = e.ptr} {n = suc n} xs zs le s₁ c'.1 st.1 low.1 in
          rw (t, u) (m, s', omega arith)
      | inr u ↦
          let c' = rw u at c in
          let (m, s', bound) = climb k {p = p} {q = q} {n = n} xs zs le s c' st.1 low.1 in
          rw (t, u) (m, s', omega arith)
    ]
  ]

  -- The walk on level `i` from the last node above level `k`.
  pub walk-last_at :
      (k f : ℕ) (p : Ptr) (xs ys : List Entry)
      → i ≤ k
      → Chain h i p (pick i xs ++ pick i ys)
      → All (Stored h) xs
      → All (Stored h) ys
      → All (λ e. e.score < b) xs
      → All (λ e. b ≤ e.score) ys
      → length xs < f
      → walk f h i (ok b) (last_at k p xs) ≡ ok (last_at i p xs)
  walk-last_at k f p xs ys le c st su low high fuel =
      let (m, s, bound) = climb k {p = p} {q = p} {n = 0} xs (pick i ys) le here c st low in
      walk-Steps (suc (f - m - 1)) f s (omega arith)
      ∙ walk-Stops (f - m - 1) (last_at i p xs)
          (next-Stops (last_at i p xs) ys (Chain-next h i p xs (pick i ys) c) su high)

abbrev pub Bounded : Heap → ℕ → Ptr → ℕ → List Entry → List Entry → Type 0
Bounded h n p b xs ys =
    ((i : ℕ) → i < n → Chain h i p (pick i xs ++ pick i ys))
    × All (Stored h) xs
    × All (Stored h) ys
    × All (λ e. e.score < b) xs
    × All (λ e. b ≤ e.score) ys

-- From the last node above the levels that are left the descent ends at the last node of level 0,
-- and on each of those levels it notes the last node.
pub descend-last_at :
    (f : ℕ) (h : Heap) (b n : ℕ) (p : Ptr) (xs ys : List Entry) (temp : Temp)
    → Bounded h n p b xs ys
    → length xs < f
    → (temp' : Temp) × (descend f h (ok b) n (last_at n p xs) temp ≡ ok (last_at 0 p xs, temp'))
      × ((i : ℕ) → i < n → temp' i ≡ some (last_at i p xs))
      × ((i : ℕ) → n ≤ i → temp' i ≡ temp i)
unfolding descend
descend-last_at f h b zero p xs ys temp w fuel = (temp, refl, λ i lt. elim lt [ ], λ i le. refl)
descend-last_at f h b (suc n) p xs ys temp (c, st, su, low, high) fuel =
    let at : Ptr = last_at n p xs in
    let w : Bounded h n p b xs ys = (λ i lt. c i (omega arith), st, su, low, high) in
    let (temp', e, inside, outside) =
      descend-last_at f h b n p xs ys (update temp n (some at)) w fuel in
    (
      temp',
      rw
          (walk-last_at h n b (suc n) f p xs ys (omega arith) (c n (omega arith)) st su low high
            fuel)
          e,
      λ i lt. elim (Bool-cases (ltb i n)) [
        | inl t ↦ inside i (ltb→lt i n t)
        | inr t ↦
            let same : i ≡ n = omega (arith, ltb→le i n t) in
            rw same (outside n (omega arith) ∙ update_self temp n (some at))
      ],
      λ i le. outside i (omega arith) ∙ update_ne temp n (some at) i (omega arith),
    )
