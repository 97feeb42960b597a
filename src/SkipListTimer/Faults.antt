-- ===== src/SkipListTimer/Faults.antt =====
-- Where the timer goes wrong: due times from 2^31 on, nodes in memory that was not cleared, and two
-- timers with one due time.
use cpp_project.Base.{
  ℕ, zero, suc, ◌+◌, ◌-◌, ◌^◌, ◌≡◌, refl, sym, ◌∙◌, ap, ◌≢◌, ◌<◌, ◌≤◌, none, some, List, [], ◌∷◌,
  ◌++◌, true, false, ltb, lt→ltb, le→ltb, update, ok, fault, arith, All, All-right,
}
use cpp_project.SkipListTimer.Node.{
  Ptr, Heap, Slot, garbage, null, level, Node, new_node, extend_sign, get_score, delete_levels,
  delete, skiplist_maxlevel,
}
use cpp_project.SkipListTimer.SkipList.{SkipList, get_min_node, del_timer}
use cpp_project.SkipListTimer.Chain.{Entry}
use cpp_project.SkipListTimer.Stored.{Stored-score}
use cpp_project.SkipListTimer.Represents.{Represents, IsSorted-right}
use cpp_project.SkipListTimer.Remove.{del_node_hit}
use cpp_project.SkipListTimer.Expire.{expire_timer}

-- A timer whose 32-bit due time is 2^31 or more has a score above every 32-bit time: once it is the
-- first, `expire_timer` calls no handler and takes nothing out, at any time.
pub expire_timer_never :
    (s : SkipList) (p : Ptr) (f score now : ℕ)
    → get_min_node s ≡ ok (some p)
    → get_score s.heap p ≡ ok (extend_sign score)
    → 2 ^ 31 ≤ score
    → now < 2 ^ 32
    → expire_timer (suc f) s now ≡ ok (s, [])
unfolding expire_timer extend_sign
expire_timer_never s p f score now first held late time =
    let t : ltb score (2 ^ 31) ≡ false = le→ltb score (2 ^ 31) late in
    let held' = rw t at held in
    let u : ltb now (score + (2 ^ 64 - 2 ^ 32)) ≡ true = lt→ltb now _ (omega arith) in
    rw (first, held', u)

delete_levels_garbage :
    (k i j : ℕ) (n : Node) (s : Slot)
    → n.slot i ≡ s
    → n.slot j ≡ garbage
    → i ≤ j
    → j < i + k
    → delete_levels k i n ≡ fault
unfolding delete_levels
delete_levels_garbage zero i j n s e bad le lt = absurd (omega arith)
delete_levels_garbage (suc k) i j n garbage e bad le lt = rw (e, delete_levels)
delete_levels_garbage (suc k) i j n null e bad le lt =
    let ne : i ≢ j = λ same. let b = rw (← same) at bad in cc (sym e ∙ b) in
    rw (e, delete_levels)
      (delete_levels_garbage k (suc i) j n (n.slot (suc i)) refl bad (omega arith) (omega arith))
delete_levels_garbage (suc k) i j n (level q) e bad le lt =
    let ne : i ≢ j = λ same. let b = rw (← same) at bad in cc (sym e ∙ b) in
    let n' : Node = record n { slot = update n.slot i null } in
    rw (e, delete_levels)
      (delete_levels_garbage k (suc i) j n' (n'.slot (suc i)) refl (ground arith) (omega arith)
        (omega arith))

-- The constructor leaves the pointers from the node's height on unset, and the destructor deletes all
-- 32: where the memory held something else than zeros, deleting the node is undefined.
pub delete-new_node :
    (h : Heap) (p : Ptr) (raw : ℕ → Slot) (score n handle j : ℕ)
    → h p ≡ some (new_node raw score n handle)
    → n ≤ j
    → j < skiplist_maxlevel
    → raw j ≡ garbage
    → delete h p ≡ fault
unfolding delete
delete-new_node h p raw score n handle j held le lt bad =
    let node : Node = new_node raw score n handle in
    let bad' : node.slot j ≡ garbage = rw (le→ltb j n le) bad in
    rw (held, delete_levels_garbage 32 0 j node (node.slot 0) refl bad' (omega arith) (omega arith))

-- `Del_timer` looks for the score only: of two timers with one due time it frees the first, also when
-- it is called with the second, which stays in the list.
pub del_timer_twin :
    (s : SkipList) (xs : List Entry) (d : Entry) (us : List Entry) (e : Entry) (vs : List Entry)
    → Represents s (xs ++ d ∷ (us ++ e ∷ vs))
    → All (λ f. f.score < d.score) xs
    → e.score ≡ d.score
    → (s' : SkipList) × (del_timer s e.ptr ≡ ok s')
      × Represents s' (xs ++ (us ++ e ∷ vs))
      × (s'.heap d.ptr ≡ none)
unfolding del_timer
del_timer_twin s xs d us e vs rep lower twin =
    let stored = (All-right _ xs (d ∷ (us ++ e ∷ vs)) rep.stored).1 in
    let held = Stored-score s.heap e (All-right _ us (e ∷ vs) stored).0 in
    let sorted = IsSorted-right xs (d ∷ (us ++ e ∷ vs)) rep.sorted in
    del_node_hit s e.ptr d.score (held ∙ ap ok twin) xs d (us ++ e ∷ vs) rep lower
      (omega arith, sorted.0) refl
