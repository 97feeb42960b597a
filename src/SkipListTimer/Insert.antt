-- ===== src/SkipListTimer/Insert.antt =====
-- `Insert_node` neither faults nor runs out of fuel, and inserts into the list of timers.
use cpp_project.Base.{
  ℕ, ◌+◌, ◌-◌, ◌^◌, ◌≡◌, refl, sym, ◌∙◌, ap, ◌≢◌, ◌<◌, ◌≤◌, inl, inr, none, some, List, [], ◌∷◌,
  ◌++◌, ltb, ltb→lt, ltb→le, lt→ltb, if◌then◌else◌, Bool-cases, append-ne-nil, update, update_self,
  update_ne, ok, arith, All, All-of, All-append, All-left, All-right, All-mono, length-append,
}
use cpp_project.SkipListTimer.Node.{
  Ptr, Heap, Slot, garbage, new_node, extend_sign, skiplist_maxlevel,
}
use cpp_project.SkipListTimer.SkipList.{SkipList, Temp, fill, random_level, insert_node}
use cpp_project.SkipListTimer.Chain.{
  Entry, pick, pick-append, pick-Fresh, last_at, last_at-top, Chain, Chain-frame, Fresh,
}
use cpp_project.SkipListTimer.Stored.{Stored, Stored-frame}
use cpp_project.SkipListTimer.Alloc.{
  fill_below, fill_in, Chain-head, ne_of_next, Stored-ne, Chain-alloc, get_next-new,
  Distinct-insert, pick-insert, pick-insert_used,
}
use cpp_project.SkipListTimer.Walk.{Bounded, descend-last_at}
use cpp_project.SkipListTimer.Link.{Room, Ready, Linked, link-Linked}
use cpp_project.SkipListTimer.Represents.{Represents, IsSorted-insert}

abbrev pub entry : Ptr → ℕ → ℕ → ℕ → Entry
entry p score level handle = record { ptr = p; score = score; level = level; handle = handle }

module _ (s : SkipList) (xs ys : List Entry) (rep : Represents s (xs ++ ys)) (fresh : Ptr)
    (unused : s.heap fresh ≡ none) (raw : ℕ → Slot) (zeroed : (i : ℕ) → raw i ≢ garbage)
    (score handle n : ℕ) (small : score < 2 ^ 31) (lower : All (λ e. e.score < score) xs)
    (upper : All (λ e. score ≤ e.score) ys) (positive : 1 ≤ n)
    (bounded : n ≤ skiplist_maxlevel) where
  abbrev new : Entry
  new = entry fresh score n handle

  abbrev heap₁ : Heap
  heap₁ = update s.heap fresh (some (new_node raw score n handle))

  header_used : s.header ≢ fresh
  header_used =
      ne_of_next s.heap s.header fresh 0
        (Chain-head s.heap 0 s.header (pick 0 (xs ++ ys)) (rep.chains 0 (omega arith))) unused

  all_used : Fresh fresh (xs ++ ys)
  all_used = All-mono _ _ (λ e. Stored-ne s.heap fresh e unused) (xs ++ ys) rep.stored

  room : Room s.header fresh xs ys
  room = record {
    apart = header_used;
    left = All-left _ xs ys all_used;
    right = All-right _ xs ys all_used;
    header = rep.apart;
    distinct = rep.distinct;
  }

  chain₀ : (i : ℕ) → i < skiplist_maxlevel → Chain s.heap i s.header (pick i xs ++ pick i ys)
  chain₀ i lt = rw (pick-append i xs ys) at (rep.chains i lt)

  chain₁ : (i : ℕ) → i < skiplist_maxlevel → Chain heap₁ i s.header (pick i xs ++ pick i ys)
  chain₁ i lt =
      Chain-alloc s.heap fresh (new_node raw score n handle) i s.header (pick i xs ++ pick i ys)
        header_used
        (All-append _ (pick i xs) (pick i ys) (pick-Fresh i fresh xs room.left)
          (pick-Fresh i fresh ys room.right))
        (chain₀ i lt)

  Stored₁ : (e : Entry) → Stored s.heap e → Stored heap₁ e
  Stored₁ e st =
      Stored-frame s.heap heap₁ e
        (update_ne s.heap fresh (some (new_node raw score n handle)) e.ptr
          (Stored-ne s.heap fresh e unused st))
        st

  Stored-new : Stored heap₁ new
  unfolding extend_sign
  Stored-new = record {
    node = new_node raw score n handle;
    held = update_self s.heap fresh (some (new_node raw score n handle));
    score = rw (lt→ltb score (2 ^ 31) small);
    handle = refl;
    set = λ i. ground (arith, zeroed i);
  }

  levels_low : (j : ℕ) → s.level ≤ j → All (λ e. e.level ≤ j) xs
  levels_low j le = All-mono _ _ (λ e q. omega arith) xs (All-left _ xs ys rep.heights)

  abbrev level' : ℕ
  level' = if ltb s.level n then n else s.level

  ready :
      (temp : Temp)
      → ((i : ℕ) → i < s.level → temp i ≡ some (last_at i s.header xs))
      → Ready s.header fresh xs ys room heap₁ (fill (n - s.level) s.level s.header temp) 0 n
  ready temp inside = record {
    noted = λ j _ up. elim (Bool-cases (ltb j s.level)) [
      | inl t ↦
          fill_below (n - s.level) s.level j s.header temp (ltb→lt j s.level t)
          ∙ inside j (ltb→lt j s.level t)
      | inr t ↦
          let le = ltb→le j s.level t in
          fill_in (n - s.level) s.level j s.header temp le (omega arith)
          ∙ ap some (sym (last_at-top j s.header xs (levels_low j le)))
    ];
    chains = λ j _ up. chain₁ j (omega arith);
    empty = λ j _ up. get_next-new s.heap fresh raw score n handle j up bounded;
  }

  Chain-inserted :
      (g : Heap)
      → Linked heap₁ g s.header fresh xs ys 0 n
      → (i : ℕ) → i < skiplist_maxlevel
      → Chain g i s.header (pick i (xs ++ new ∷ ys))
  Chain-inserted g l i lt = elim (Bool-cases (ltb i n)) [
    | inl t ↦ rw (pick-insert i new xs ys, t) (l.inside i (omega arith) (ltb→lt i n t))
    | inr t ↦
        rw (pick-insert i new xs ys, t)
          (Chain-frame heap₁ i g s.header (pick i xs ++ pick i ys)
            (l.outside i (inr (ltb→le i n t)) s.header)
            (All-of _ (λ q. l.outside i (inr (ltb→le i n t)) q) (pick i xs ++ pick i ys))
            (chain₁ i lt))
  ]

  heights_kept : All (λ e. (0 < e.level) × (e.level ≤ level')) (xs ++ new ∷ ys)
  heights_kept =
      All-append _ xs (new ∷ ys) (All-mono _ _ higher xs (All-left _ xs ys rep.heights))
        ((positive, ground arith), All-mono _ _ higher ys (All-right _ xs ys rep.heights))
    where
      higher :
          (e : Entry) → (0 < e.level) × (e.level ≤ s.level) → (0 < e.level) × (e.level ≤ level')
      higher e q = (q.0, ground arith)

  top_used : 1 < level' → pick (level' - 1) (xs ++ new ∷ ys) ≢ []
  top_used = elim (Bool-cases (ltb s.level n)) [
    | inl t ↦ rw t λ more.
        rw (pick-insert (n - 1) new xs ys, lt→ltb (n - 1) n (omega arith))
          (append-ne-nil (pick (n - 1) xs) fresh (pick (n - 1) ys))
    | inr t ↦ rw t λ more. pick-insert_used (s.level - 1) new xs ys (rep.used more)
  ]

  Represents-inserted :
      (g : Heap)
      → Linked heap₁ g s.header fresh xs ys 0 n
      → Represents (record s { length = s.length + 1; level = level'; heap = g }) (xs ++ new ∷ ys)
  Represents-inserted g l = record {
    apart =
        All-append _ xs (new ∷ ys) (All-left _ xs ys rep.apart)
          (λ q. header_used (sym q), All-right _ xs ys rep.apart);
    distinct = Distinct-insert new xs ys rep.distinct room.left room.right;
    chains = Chain-inserted g l;
    stored =
        All-append _ xs (new ∷ ys)
          (All-mono _ _ (λ e st. l.kept e (Stored₁ e st)) xs (All-left _ xs ys rep.stored))
          (
            l.kept new Stored-new,
            All-mono _ _ (λ e st. l.kept e (Stored₁ e st)) ys (All-right _ xs ys rep.stored),
          );
    sorted = IsSorted-insert new xs ys rep.sorted lower upper;
    count = omega (arith, rep.count, length-append xs ys, length-append xs (new ∷ ys));
    heights = heights_kept;
    low = ground (arith, rep.low);
    high = ground (arith, rep.high);
    used = top_used;
  }

  pub insert_split :
      (draws : List ℕ)
      → random_level draws ≡ ok n
      → (s' : SkipList) × (insert_node fresh raw draws s score handle ≡ ok (s', fresh))
        × Represents s' (xs ++ new ∷ ys)
  unfolding insert_node
  insert_split draws drawn =
      let b : Bounded s.heap s.level s.header score xs ys = (
        λ i lt. chain₀ i (omega (arith, rep.high)),
        All-left _ xs ys rep.stored,
        All-right _ xs ys rep.stored,
        lower,
        upper,
      ) in
      let (temp, run, inside, _) =
        descend-last_at (s.length + 1) s.heap score s.level s.header xs ys (λ _. none) b
          (omega (arith, rep.count, length-append xs ys)) in
      let run' = rw (last_at-top s.level s.header xs (levels_low s.level (omega arith))) at run in
      let (g, linked, l) =
        link-Linked s.header fresh xs ys room n 0 n heap₁ (fill (n - s.level) s.level s.header temp)
          (omega arith) (ready temp inside) in
      (
        record s { length = s.length + 1; level = level'; heap = g },
        rw (run', drawn, linked),
        Represents-inserted g l,
      )
