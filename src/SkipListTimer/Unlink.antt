-- ===== src/SkipListTimer/Unlink.antt =====
-- The loop of `Del_node` that takes a node out of its levels, and the loop that lowers the level.
use cpp_project.Base.{
  ℕ, zero, suc, ◌+◌, ◌-◌, ◌≡◌, refl, ◌∙◌, ◌≢◌, ◌<◌, ◌≤◌, ◌⊎◌, inl, inr, some, List, [], ◌∷◌, ◌++◌,
  false, ltb, ltb→lt, ltb→le, Bool-cases, List-cases, if◌then◌else◌, ok, ◌>>=◌, arith, All, All-of,
  All-left, ==_ne, ==_refl,
}
use cpp_project.SkipListTimer.Node.{Ptr, Heap, get_next, set_next, skiplist_maxlevel}
use cpp_project.SkipListTimer.SkipList.{Temp, unlink, is_ptr, shrink}
use cpp_project.SkipListTimer.Access.{put, set_next-put, get_next-put_level}
use cpp_project.SkipListTimer.Chain.{
  Entry, pick, pick-Fresh, last_at, last_at-Fresh, first, Chain, Fresh, Distinct, Distinct-left,
  Distinct-right, Tail, Chain-frame, Chain-next, Chain-Tail, relink,
}
use cpp_project.SkipListTimer.Alloc.{Chain-head}
use cpp_project.SkipListTimer.Stored.{Stored, Stored-put}

is_ptr-first : (p : Ptr) (qs : List Ptr) → All (λ q. q ≢ p) qs → is_ptr (first qs) p ≡ false
is_ptr-first p [] f = refl
is_ptr-first p (q ∷ qs) f = ==_ne q p f.0

Tail-head :
    (h : Heap) (i : ℕ) (q : Ptr) (qs : List Ptr)
    → Tail h i (q ∷ qs)
    → get_next h q i ≡ ok (first qs)
Tail-head h i q qs t = Chain-head h i q qs t

Tail-rest : (h : Heap) (i : ℕ) (q : Ptr) (qs : List Ptr) → Tail h i (q ∷ qs) → Tail h i qs
Tail-rest h i q [] t = tt
Tail-rest h i q (r ∷ qs) t = t.1

-- The heap `g` after the node has left the levels from `lo` below `hi` of `h`.
pub record Unlinked (h g : Heap) (p : Ptr) (xs ys : List Entry) (lo hi : ℕ) : Type 0 where
  pub inside : (j : ℕ) → lo ≤ j → j < hi → Chain g j p (pick j xs ++ pick j ys)
  pub outside : (j : ℕ) → (j < lo) ⊎ (hi ≤ j) → (a : Ptr) → get_next g a j ≡ get_next h a j
  pub kept : (e : Entry) → Stored h e → Stored g e

module _ (p : Ptr) (xs : List Entry) (d : Entry) (ys : List Entry) (header : Fresh p (xs ++ d ∷ ys))
    (distinct : Distinct (xs ++ d ∷ ys)) where
  pub record Due (h : Heap) (temp : Temp) (lo hi : ℕ) : Type 0 where
    pub noted : (j : ℕ) → lo ≤ j → j < hi → temp j ≡ some (last_at j p xs)
    pub chains : (j : ℕ) → lo ≤ j → j < hi → Chain h j p (pick j xs ++ pick j (d ∷ ys))

  abbrev pred : ℕ → Ptr
  pred i = last_at i p xs

  later : (i : ℕ) → Fresh (pred i) (d ∷ ys)
  later i = last_at-Fresh i p xs (d ∷ ys) header distinct

  module _ (h : Heap) (i : ℕ) (c : Chain h i p (pick i xs ++ pick i (d ∷ ys))) where
    abbrev unlinked : Heap
    unlinked = if ltb i d.level then put h (pred i) i (first (pick i ys)) else h

    next_eq : get_next h (pred i) i ≡ ok (first (pick i (d ∷ ys)))
    next_eq = Chain-next h i p xs (pick i (d ∷ ys)) c

    unlink_one :
        (if is_ptr (first (pick i (d ∷ ys))) d.ptr
          then (get_next h d.ptr i >>= set_next h (pred i) i)
          else ok h)
        ≡ ok unlinked
    unlink_one = elim (Bool-cases (ltb i d.level)) [
      | inl t ↦
          let c' = rw t at c in
          let n' = rw t at next_eq in
          let tail : Tail h i (d.ptr ∷ pick i ys) =
            Chain-Tail h i p (pick i xs) (d.ptr ∷ pick i ys) c' in
          rw t (
            rw (==_refl d.ptr, Tail-head h i d.ptr (pick i ys) tail)
              (set_next-put h (pred i) i (first (pick i ys)) n'))
      | inr t ↦ rw t (
          rw (
            is_ptr-first d.ptr (pick i ys)
              (pick-Fresh i d.ptr ys (Distinct-right xs (d ∷ ys) distinct).0)))
    ]

    Chain-unlinked : Chain unlinked i p (pick i xs ++ pick i ys)
    Chain-unlinked = elim (Bool-cases (ltb i d.level)) [
      | inl t ↦
          let c' = rw t at c in
          rw t (
            relink h i p xs (d.ptr ∷ pick i ys) (pick i ys) c'
              (Tail-rest h i d.ptr (pick i ys)
                (Chain-Tail h i p (pick i xs) (d.ptr ∷ pick i ys) c'))
              (All-left _ xs (d ∷ ys) header) (Distinct-left xs (d ∷ ys) distinct)
              (pick-Fresh i (pred i) ys (later i).1))
      | inr t ↦ rw t (rw t at c)
    ]

    level_kept : (j : ℕ) → j ≢ i → (a : Ptr) → get_next unlinked a j ≡ get_next h a j
    level_kept j ne a = elim (Bool-cases (ltb i d.level)) [
      | inl t ↦ rw t (get_next-put_level h (pred i) i (first (pick i ys)) a j ne)
      | inr t ↦ rw t
    ]

    Stored-kept : (e : Entry) → Stored h e → Stored unlinked e
    Stored-kept e s = elim (Bool-cases (ltb i d.level)) [
      | inl t ↦ rw t (Stored-put h (pred i) i (first (pick i ys)) e s)
      | inr t ↦ rw t s
    ]

  Due-next :
      (h : Heap) (temp : Temp) (i hi : ℕ) (lt : i < hi) (r : Due h temp i hi)
      → Due (unlinked h i (r.chains i (omega arith) lt)) temp (suc i) hi
  Due-next h temp i hi lt r = record {
    noted = λ j lo up. r.noted j (omega arith) up;
    chains = λ j lo up.
        Chain-frame h j (unlinked h i c) p (pick j xs ++ pick j (d ∷ ys))
          (level_kept h i c j (omega arith) p)
          (All-of _ (λ q. level_kept h i c j (omega arith) q) (pick j xs ++ pick j (d ∷ ys)))
          (r.chains j (omega arith) up);
  }
    where
      c : Chain h i p (pick i xs ++ pick i (d ∷ ys))
      c = r.chains i (omega arith) lt

  Unlinked-step :
      (h g : Heap) (temp : Temp) (i hi : ℕ) (lt : i < hi) (r : Due h temp i hi)
      → Unlinked (unlinked h i (r.chains i (omega arith) lt)) g p xs ys (suc i) hi
      → Unlinked h g p xs ys i hi
  Unlinked-step h g temp i hi lt r l = record {
    inside = λ j lo up. elim (Bool-cases (ltb i j)) [
      | inl t ↦ l.inside j (ltb→lt i j t) up
      | inr t ↦
          let same : j ≡ i = omega (arith, ltb→le i j t) in
          rw same (
            Chain-frame (unlinked h i c) i g p (pick i xs ++ pick i ys)
              (l.outside i (inl (omega arith)) p)
              (All-of _ (λ q. l.outside i (inl (omega arith)) q) (pick i xs ++ pick i ys))
              (Chain-unlinked h i c))
    ];
    outside = λ j o a.
        l.outside j (elim o [ inl u ↦ inl (omega arith) | inr u ↦ inr u ]) a
        ∙ level_kept h i c j (elim o [ inl u ↦ omega arith | inr u ↦ omega arith ]) a;
    kept = λ s st. l.kept s (Stored-kept h i c s st);
  }
    where
      c : Chain h i p (pick i xs ++ pick i (d ∷ ys))
      c = r.chains i (omega arith) lt

  -- The loop runs to its end without a fault, and takes the node out of each of its levels.
  pub unlink-Unlinked :
      (k i hi : ℕ) (h : Heap) (temp : Temp)
      → hi ≡ i + k
      → Due h temp i hi
      → (g : Heap) × (unlink k i d.ptr temp h ≡ ok g) × Unlinked h g p xs ys i hi
  unfolding unlink
  unlink-Unlinked zero i hi h temp top r = (
    h,
    refl,
    record { inside = λ j lo up. absurd (omega arith); outside = λ j o a. refl; kept = λ e s. s },
  )
  unlink-Unlinked (suc k) i hi h temp top r =
      let lt : i < hi = omega arith in
      let le : i ≤ i = omega arith in
      let c = r.chains i le lt in
      let (g, run, l) =
        unlink-Unlinked k (suc i) hi (unlinked h i c) temp (omega arith)
          (Due-next h temp i hi lt r) in
      (
        g,
        rw (r.noted i le lt, next_eq h i c, unlink_one h i c) run,
        Unlinked-step h g temp i hi lt r l,
      )

pick-nil : (i : ℕ) (xs : List Entry) → pick i xs ≡ [] → All (λ e. e.level ≤ i) xs
pick-nil i [] e = tt
pick-nil i (x ∷ xs) e = elim (Bool-cases (ltb i x.level)) [
  | inl t ↦ let e' = rw t at e in cc
  | inr t ↦ let e' = rw t at e in (ltb→le i x.level t, pick-nil i xs e')
]

abbrev pub Shrunk : Heap → Ptr → List Entry → ℕ → Type 0
Shrunk h p xs n =
    (m : ℕ) × (shrink h p n ≡ ok m)
    × (1 ≤ m)
    × (m ≤ n)
    × All (λ e. e.level ≤ m) xs
    × (1 < m → pick (m - 1) xs ≢ [])

-- The level ends at the height of the tallest node that is left, and at least at 1.
pub shrink-Shrunk :
    (h : Heap) (p : Ptr) (xs : List Entry) (n : ℕ)
    → ((i : ℕ) → i < skiplist_maxlevel → Chain h i p (pick i xs))
    → n ≤ skiplist_maxlevel
    → 1 ≤ n
    → All (λ e. e.level ≤ n) xs
    → Shrunk h p xs n
unfolding shrink
shrink-Shrunk h p xs zero c le pos low = absurd (omega arith)
shrink-Shrunk h p xs (suc zero) c le pos low =
    (1, refl, omega arith, omega arith, low, λ more. absurd (omega arith))
shrink-Shrunk h p xs (suc (suc n)) c le pos low =
    let next = Chain-head h (suc n) p (pick (suc n) xs) (c (suc n) (omega arith)) in
    elim (List-cases (pick (suc n) xs)) [
      | inl e ↦
          let (m, run, lo, hi, low', used) =
            shrink-Shrunk h p xs (suc n) c (omega arith) (omega arith) (pick-nil (suc n) xs e) in
          (m, rw (next, e, shrink) run, lo, omega arith, low', used)
      | inr (q, qs, e) ↦ (
        suc (suc n),
        rw (next, e, shrink),
        omega arith,
        omega arith,
        low,
        λ more f. let same : suc (suc n) - 1 ≡ suc n = omega arith in let f' = rw same at f in cc,
      )
    ]
