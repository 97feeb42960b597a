-- ===== src/SkipListTimer/Contract.antt =====
-- What the operations of the skip list do to the list of timers that it stands for.
use cpp_project.Base.{
  ℕ, ◌^◌, ◌≡◌, refl, sym, ◌∙◌, ap, subst, ◌≢◌, ◌<◌, ◌≤◌, none, List, [], ◌∷◌, ◌++◌, Bool-cases, inl,
  inr, ◌==◌, ok, arith, All, All-mono,
}
use cpp_project.SkipListTimer.Node.{Ptr, Heap, Slot, garbage, get_next, get_score}
use cpp_project.SkipListTimer.SkipList.{SkipList, create, random_level, insert_node, del_node}
use cpp_project.SkipListTimer.Chain.{Entry}
use cpp_project.SkipListTimer.Levels.{random_level_bounds}
use cpp_project.SkipListTimer.Represents.{
  insert_sorted, insert_sorted-append, remove_score, remove_score-append, remove_score-absent,
  IsSorted-right, Represents, split,
}
use cpp_project.SkipListTimer.Insert.{entry, insert_split}
use cpp_project.SkipListTimer.Remove.{del_node_hit, del_node_miss}

-- The constructor makes a skip list that stands for no timer.
pub create-Represents :
    (h : Heap) (fresh : Ptr) (raw : ℕ → Slot) → Represents (create h fresh raw) []
unfolding create get_next
create-Represents h fresh raw = record {
  apart = tt;
  distinct = tt;
  chains = λ i lt. ground arith;
  stored = tt;
  sorted = tt;
  count = refl;
  heights = tt;
  low = omega arith;
  high = omega arith;
  used = λ more. absurd (omega arith);
}

-- `Insert_node` of a score below 2^31, at an unused address in memory that was cleared, returns: the
-- list of timers gets the new one, before the first that is not due earlier.
pub insert_node-Represents :
    (s : SkipList) (xs : List Entry) (fresh : Ptr) (raw : ℕ → Slot) (draws : List ℕ)
    (score handle n : ℕ)
    → Represents s xs
    → s.heap fresh ≡ none
    → ((i : ℕ) → raw i ≢ garbage)
    → score < 2 ^ 31
    → random_level draws ≡ ok n
    → (s' : SkipList) × (insert_node fresh raw draws s score handle ≡ ok (s', fresh))
      × Represents s' (insert_sorted (entry fresh score n handle) xs)
insert_node-Represents s xs fresh raw draws score handle n rep unused zeroed small drawn =
    let sp = split score xs rep.sorted in
    let (lo, hi) = random_level_bounds draws n drawn in
    let rep' = rw sp.joined at rep in
    let (s', run, done) =
      insert_split s sp.before sp.after rep' fresh unused raw zeroed score handle n small sp.lower
        sp.upper lo hi draws drawn in
    let e = entry fresh score n handle in
    (
      s',
      run,
      subst (Represents s')
          (sym (
            ap (insert_sorted e) sp.joined
            ∙ insert_sorted-append e sp.before sp.after sp.lower sp.upper))
          done,
    )

del_node_after :
    (s : SkipList) (p : Ptr) (b : ℕ) (xs ys : List Entry)
    → get_score s.heap p ≡ ok b
    → Represents s (xs ++ ys)
    → All (λ e. e.score < b) xs
    → All (λ e. b ≤ e.score) ys
    → (s' : SkipList) × (del_node s p ≡ ok s') × Represents s' (xs ++ remove_score b ys)
unfolding remove_score
del_node_after s p b xs [] score rep lower upper =
    (s, del_node_miss s p b score xs [] rep lower tt, rep)
del_node_after s p b xs (d ∷ ys) score rep lower upper = elim (Bool-cases (d.score == b)) [
  | inl t ↦
      let (s', run, rep', _) = del_node_hit s p b score xs d ys rep lower upper (ground arith) in
      (s', run, rw t rep')
  | inr t ↦
      let more : All (λ e. b < e.score) (d ∷ ys) = (
        ground (arith, upper.0),
        All-mono _ _ (λ e le. ground (arith, upper.0)) ys (IsSorted-right xs (d ∷ ys) rep.sorted).0,
      ) in
      (
        s,
        del_node_miss s p b score xs (d ∷ ys) rep lower more,
        rw (t, remove_score-absent b ys more.1) rep,
      )
]

-- `Del_node` with a node that is there returns, and takes the first timer with the node's score out of
-- the list of timers; if none has it, nothing changes.
pub del_node-Represents :
    (s : SkipList) (xs : List Entry) (p : Ptr) (b : ℕ)
    → Represents s xs
    → get_score s.heap p ≡ ok b
    → (s' : SkipList) × (del_node s p ≡ ok s') × Represents s' (remove_score b xs)
del_node-Represents s xs p b rep score =
    let sp = split b xs rep.sorted in
    let rep' = rw sp.joined at rep in
    let (s', run, done) = del_node_after s p b sp.before sp.after score rep' sp.lower sp.upper in
    (
      s',
      run,
      subst (Represents s')
          (sym (ap (remove_score b) sp.joined ∙ remove_score-append b sp.before sp.after sp.lower))
          done,
    )
