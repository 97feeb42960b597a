-- ===== src/SkipListTimer/Remove.antt =====
-- `Del_node` neither faults nor runs out of fuel, and takes the first timer with the score out.
use cpp_project.Base.{
  ℕ, zero, suc, ◌+◌, ◌-◌, ◌≡◌, refl, sym, ◌≢◌, ◌<◌, ◌≤◌, inl, inr, none, some, List, [], ◌∷◌, ◌++◌,
  true, false, ltb, ltb→lt, ltb→le, lt→ltb, le→ltb, Bool-cases, ok, arith, All, All-of, All-left,
  All-right, All-mono, All-drop, All-zip, ◌==◌, update, update_self, update_ne, length-append, ◌∙◌,
}
use cpp_project.SkipListTimer.Node.{
  Ptr, Heap, Slot, garbage, null, level, Node, get_score, get_next, skiplist_maxlevel,
  delete_levels, delete,
}
use cpp_project.SkipListTimer.SkipList.{SkipList, Temp, descend, remove_found, del_node}
use cpp_project.SkipListTimer.Chain.{
  Entry, pick, pick-append, pick-Fresh, last_at, last_at-top, first, Chain, Fresh, Distinct-remove,
  Distinct-around, Chain-frame, Chain-next,
}
use cpp_project.SkipListTimer.Stored.{Stored, Stored-frame, Stored-score}
use cpp_project.SkipListTimer.Walk.{Bounded, descend-last_at}
use cpp_project.SkipListTimer.Unlink.{Due, Unlinked, unlink-Unlinked, shrink-Shrunk}
use cpp_project.SkipListTimer.Represents.{IsSorted-remove, Represents}

-- A node with no unset pointer from `i` on is deleted from there without a fault.
pub delete_levels_total :
    (k i : ℕ) (n : Node) (s : Slot)
    → n.slot i ≡ s
    → ((j : ℕ) → i ≤ j → j < i + k → n.slot j ≢ garbage)
    → (m : Node) × (delete_levels k i n ≡ ok m)
unfolding delete_levels
delete_levels_total zero i n s e set = (n, refl)
delete_levels_total (suc k) i n garbage e set = absurd (set i (omega arith) (omega arith) e)
delete_levels_total (suc k) i n null e set =
    let (m, run) =
      delete_levels_total k (suc i) n (n.slot (suc i)) refl
        (λ j le lt. set j (omega (arith, le)) (omega (arith, lt))) in
    (m, rw (e, delete_levels) run)
delete_levels_total (suc k) i n (level q) e set =
    let n' : Node = record n { slot = update n.slot i null } in
    let (m, run) = delete_levels_total k (suc i) n' (n'.slot (suc i)) refl (λ j le lt same.
      set j (omega (arith, le)) (omega (arith, lt))
        (sym (update_ne n.slot i null j (omega (arith, le))) ∙ same)) in
    (m, rw (e, delete_levels) run)

delete_total : (h : Heap) (e : Entry) → Stored h e → delete h e.ptr ≡ ok (update h e.ptr none)
unfolding delete
delete_total h e s =
    let (m, run) = delete_levels_total 32 0 s.node (s.node.slot 0) refl (λ j _ _. s.set j) in
    rw (s.held, run)

get_next-freed :
    (h : Heap) (a p : Ptr) (i : ℕ) → p ≢ a → get_next (update h a none) p i ≡ get_next h p i
unfolding get_next
get_next-freed h a p i ne = rw (update_ne h a none p ne)

module _ (s : SkipList) (xs : List Entry) (d : Entry) (ys : List Entry)
    (rep : Represents s (xs ++ d ∷ ys)) where
  abbrev Removed : (g : Heap) → Type 0
  Removed g = Unlinked s.heap g s.header xs ys 0 s.level

  d_height : d.level ≤ s.level
  d_height = (All-right _ xs (d ∷ ys) rep.heights).0.1

  chain₀ : (i : ℕ) → i < skiplist_maxlevel → Chain s.heap i s.header (pick i xs ++ pick i (d ∷ ys))
  chain₀ i lt = rw (pick-append i xs (d ∷ ys)) at (rep.chains i lt)

  chain₁ :
      (g : Heap)
      → Removed g
      → (i : ℕ) → i < skiplist_maxlevel
      → Chain g i s.header (pick i (xs ++ ys))
  chain₁ g u i lt = elim (Bool-cases (ltb i s.level)) [
    | inl t ↦ rw (pick-append i xs ys) (u.inside i (omega arith) (ltb→lt i s.level t))
    | inr t ↦
        let c = chain₀ i lt in
        let top : ltb i d.level ≡ false =
          le→ltb i d.level (omega (arith, d_height, ltb→le i s.level t)) in
        let c' = rw top at c in
        rw (pick-append i xs ys) (
          Chain-frame s.heap i g s.header (pick i xs ++ pick i ys)
            (u.outside i (inr (ltb→le i s.level t)) s.header)
            (All-of _ (λ q. u.outside i (inr (ltb→le i s.level t)) q) (pick i xs ++ pick i ys)) c')
  ]

  stored₁ : (g : Heap) → Removed g → All (Stored g) (xs ++ d ∷ ys)
  stored₁ g u = All-mono _ _ u.kept (xs ++ d ∷ ys) rep.stored

  around : Fresh d.ptr (xs ++ ys)
  around = Distinct-around d xs ys rep.distinct

  header_ne : s.header ≢ d.ptr
  header_ne e = (All-right _ xs (d ∷ ys) rep.apart).0 (sym e)

  Represents-without :
      (g : Heap) (m : ℕ)
      → Removed g
      → 1 ≤ m
      → m ≤ s.level
      → All (λ e. e.level ≤ m) (xs ++ ys)
      → (1 < m → pick (m - 1) (xs ++ ys) ≢ [])
      → Represents
          (record s { length = s.length - 1; level = m; heap = update g d.ptr none })
          (xs ++ ys)
  Represents-without g m u lo hi low used = record {
    apart = All-drop _ xs d ys rep.apart;
    distinct = Distinct-remove d xs ys rep.distinct;
    chains = λ i lt.
        Chain-frame g i (update g d.ptr none) s.header (pick i (xs ++ ys))
          (get_next-freed g d.ptr s.header i header_ne)
          (All-mono _ _ (λ q ne. get_next-freed g d.ptr q i ne) (pick i (xs ++ ys))
            (pick-Fresh i d.ptr (xs ++ ys) around))
          (chain₁ g u i lt);
    stored =
        All-zip _ _ _
          (λ e ne st. Stored-frame g (update g d.ptr none) e (update_ne g d.ptr none e.ptr ne) st)
          (xs ++ ys) around (All-drop _ xs d ys (stored₁ g u));
    sorted = IsSorted-remove d xs ys rep.sorted;
    count = omega (arith, rep.count, length-append xs ys, length-append xs (d ∷ ys));
    heights = All-zip _ _ _ (λ e q le. (q.0, le)) (xs ++ ys) (All-drop _ xs d ys rep.heights) low;
    low = lo;
    high = omega (arith, rep.high);
    used = used;
  }

  -- What `Del_node` does once the levels have been searched.
  remove_found_total :
      (temp : Temp)
      → ((i : ℕ) → i < s.level → temp i ≡ some (last_at i s.header xs))
      → (s' : SkipList) × (remove_found s temp d.ptr ≡ ok s')
        × Represents s' (xs ++ ys)
        × (s'.heap d.ptr ≡ none)
  unfolding remove_found
  remove_found_total temp noted =
      let due : Due s.header xs d ys rep.apart rep.distinct s.heap temp 0 s.level = record {
        noted = λ j _ up. noted j up;
        chains = λ j _ up. chain₀ j (omega (arith, rep.high));
      } in
      let (g, run, u) =
        unlink-Unlinked s.header xs d ys rep.apart rep.distinct s.level 0 s.level s.heap temp
          (omega arith) due in
      let (m, run', lo, hi, low, used) =
        shrink-Shrunk g s.header (xs ++ ys) s.level (chain₁ g u) rep.high rep.low
          (All-mono _ _ (λ e q. q.1) (xs ++ ys) (All-drop _ xs d ys rep.heights)) in
      (
        record s { length = s.length - 1; level = m; heap = update g d.ptr none },
        rw (run, run', delete_total g d (All-right _ xs (d ∷ ys) (stored₁ g u)).0),
        Represents-without g m u lo hi low used,
        update_self g d.ptr none,
      )

module _ (s : SkipList) (p : Ptr) (b : ℕ) (score : get_score s.heap p ≡ ok b) where
  levels_low : (xs ys : List Entry) → Represents s (xs ++ ys) → All (λ e. e.level ≤ s.level) xs
  levels_low xs ys rep = All-mono _ _ (λ e q. q.1) xs (All-left _ xs ys rep.heights)

  searched :
      (xs ys : List Entry)
      → Represents s (xs ++ ys)
      → All (λ e. e.score < b) xs
      → All (λ e. b ≤ e.score) ys
      → (temp : Temp) × (descend (s.length + 1) s.heap (ok b) s.level s.header (λ _. none)
          ≡ ok (last_at 0 s.header xs, temp))
        × ((i : ℕ) → i < s.level → temp i ≡ some (last_at i s.header xs))
        × (get_next s.heap (last_at 0 s.header xs) 0 ≡ ok (first (pick 0 ys)))
  searched xs ys rep lower upper =
      let chains : (i : ℕ)
          → i < skiplist_maxlevel
          → Chain s.heap i s.header (pick i xs ++ pick i ys) =
        λ i lt. rw (pick-append i xs ys) at (rep.chains i lt) in
      let bounded : Bounded s.heap s.level s.header b xs ys = (
        λ i lt. chains i (omega (arith, rep.high)),
        All-left _ xs ys rep.stored,
        All-right _ xs ys rep.stored,
        lower,
        upper,
      ) in
      let (temp, run, inside, _) =
        descend-last_at (s.length + 1) s.heap b s.level s.header xs ys (λ _. none) bounded
          (omega (arith, rep.count, length-append xs ys)) in
      (
        temp,
        rw (last_at-top s.level s.header xs (levels_low xs ys rep)) at run,
        inside,
        Chain-next s.heap 0 s.header xs (pick 0 ys) (chains 0 (omega arith)),
      )

  pub del_node_hit :
      (xs : List Entry) (d : Entry) (ys : List Entry)
      → Represents s (xs ++ d ∷ ys)
      → All (λ e. e.score < b) xs
      → All (λ e. b ≤ e.score) (d ∷ ys)
      → d.score ≡ b
      → (s' : SkipList) × (del_node s p ≡ ok s') × Represents s' (xs ++ ys) × (s'.heap d.ptr ≡ none)
  unfolding del_node
  del_node_hit xs d ys rep lower upper same =
      let (temp, run, noted, next) = searched xs (d ∷ ys) rep lower upper in
      let tall : ltb 0 d.level ≡ true =
        lt→ltb 0 d.level (All-right _ xs (d ∷ ys) rep.heights).0.0 in
      let next' = rw tall at next in
      let (s', found, rep', freed) = remove_found_total s xs d ys rep temp noted in
      let hit : (d.score == b) ≡ true = ground arith in
      let held = Stored-score s.heap d (All-right _ xs (d ∷ ys) rep.stored).0 in
      (s', rw (score, run, next', held, score, hit) found, rep', freed)

  pub del_node_miss :
      (xs ys : List Entry)
      → Represents s (xs ++ ys)
      → All (λ e. e.score < b) xs
      → All (λ e. b < e.score) ys
      → del_node s p ≡ ok s
  unfolding del_node
  del_node_miss xs [] rep lower upper =
      let (temp, run, noted, next) = searched xs [] rep lower tt in rw (score, run, next)
  del_node_miss xs (d ∷ ys) rep lower upper =
      let (temp, run, noted, next) =
        searched xs (d ∷ ys) rep lower (All-mono _ _ (λ e lt. omega arith) (d ∷ ys) upper) in
      let tall : ltb 0 d.level ≡ true =
        lt→ltb 0 d.level (All-right _ xs (d ∷ ys) rep.heights).0.0 in
      let next' = rw tall at next in
      let miss : (d.score == b) ≡ false = ground (arith, upper.0) in
      let held = Stored-score s.heap d (All-right _ xs (d ∷ ys) rep.stored).0 in
      rw (score, run, next', held, score, miss)
