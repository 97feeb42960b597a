-- ===== src/SkipListTimer/Undo.antt =====
-- Del_timer with the timer that Add_timer has just returned.
use cpp_project.Base.{
  ℕ, ◌+◌, ◌%◌, ◌^◌, ◌≡◌, sym, ap, subst, ◌∙◌, ◌≢◌, ◌<◌, List, ◌∷◌, ◌++◌, none, ok, arith, All,
  All-right,
}
use cpp_project.SkipListTimer.Node.{Ptr, Slot, garbage}
use cpp_project.SkipListTimer.SkipList.{SkipList, random_level, del_timer}
use cpp_project.SkipListTimer.Chain.{Entry}
use cpp_project.SkipListTimer.Stored.{Stored, Stored-score}
use cpp_project.SkipListTimer.Clock.{TimeVal, getcurrent_time}
use cpp_project.SkipListTimer.Expire.{add_timer}
use cpp_project.SkipListTimer.Represents.{
  Represents, IsSorted, insert_sorted, insert_sorted-append, remove_score, remove_score-append,
  split,
}
use cpp_project.SkipListTimer.Insert.{entry}
use cpp_project.SkipListTimer.Contract.{insert_node-Represents, del_node-Represents}

remove_score_first : (e : Entry) (xs : List Entry) → remove_score e.score (e ∷ xs) ≡ xs
unfolding remove_score
remove_score_first e xs = ground arith

-- The new timer stands before those of its score, and so it is the one that is taken out.
remove_score-insert_sorted :
    (e : Entry) (xs : List Entry)
    → IsSorted xs
    → (ys zs : List Entry) × (insert_sorted e xs ≡ ys ++ e ∷ zs)
      × (remove_score e.score (insert_sorted e xs) ≡ xs)
remove_score-insert_sorted e xs sorted =
    let sp = split e.score xs sorted in
    let put =
      ap (insert_sorted e) sp.joined
      ∙ insert_sorted-append e sp.before sp.after sp.lower sp.upper in
    (
      sp.before,
      sp.after,
      put,
      ap (remove_score e.score) put
          ∙ remove_score-append e.score sp.before (e ∷ sp.after) sp.lower
          ∙ ap (λ zs. sp.before ++ zs) (remove_score_first e sp.after)
          ∙ sym sp.joined,
    )

-- Del_timer undoes Add_timer. If a skip list stands for a list of timers, Add_timer with a due time below
-- 2^31, at an unused address in memory with no garbage and with the height that RandomLevel draws, returns
-- a timer, and Del_timer with it returns a skip list that stands for the same list as before, also if
-- other timers have the same due time.
pub del_timer-add_timer :
    (s : SkipList) (xs : List Entry) (fresh : Ptr) (raw : ℕ → Slot) (draws : List ℕ) (tv : TimeVal)
    (mesc handle n : ℕ)
    → Represents s xs
    → s.heap fresh ≡ none
    → ((i : ℕ) → raw i ≢ garbage)
    → (mesc + getcurrent_time tv) % 2 ^ 32 < 2 ^ 31
    → random_level draws ≡ ok n
    → (t u : SkipList) × (add_timer fresh raw draws tv s mesc handle ≡ ok (t, fresh))
      × (del_timer t fresh ≡ ok u)
      × Represents u xs
unfolding add_timer del_timer
del_timer-add_timer s xs fresh raw draws tv mesc handle n rep unused zeroed small drawn =
    let score : ℕ = (mesc + getcurrent_time tv) % 2 ^ 32 in
    let e = entry fresh score n handle in
    let (t, added, rep') =
      insert_node-Represents s xs fresh raw draws score handle n rep unused zeroed small drawn in
    let (ys, zs, split_at, back) = remove_score-insert_sorted e xs rep.sorted in
    let stored = subst (All (Stored t.heap)) split_at rep'.stored in
    let held = Stored-score t.heap e (All-right _ ys (e ∷ zs) stored).0 in
    let (u, deleted, rep'') = del_node-Represents t (insert_sorted e xs) fresh score rep' held in
    (t, u, added, deleted, subst (Represents u) back rep'')
