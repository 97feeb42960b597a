-- ===== src/SkipListTimer/Tests.antt =====
-- Runs of the skip list on small inputs, and the theorems at them.
use cpp_project.Base.{
  ℕ, ◌+◌, ◌^◌, ◌≡◌, refl, sym, ◌∙◌, none, some, List, [], ◌∷◌, Run, ok, fault, timeout, arith,
  update,
}
use cpp_project.SkipListTimer.Node.{
  Ptr, Heap, Slot, garbage, null, new_node, get_score, get_next, set_next, delete, extend_sign,
}
use cpp_project.SkipListTimer.SkipList.{
  SkipList, create, random_level, insert_node, del_node, del_timer, get_min_node, descend, walk,
  fill, link,
}
use cpp_project.SkipListTimer.Chain.{Entry}
use cpp_project.SkipListTimer.Clock.{TimeVal, getcurrent_time}
use cpp_project.SkipListTimer.Expire.{add_timer, expire_timer}
use cpp_project.SkipListTimer.Represents.{Represents, insert_sorted, remove_score}
use cpp_project.SkipListTimer.Insert.{entry}
use cpp_project.SkipListTimer.Contract.{
  create-Represents, insert_node-Represents, del_node-Represents,
}
use cpp_project.SkipListTimer.Due.{due, pending, calls, expire_timer-Represents}
use cpp_project.SkipListTimer.Faults.{expire_timer_never, delete-new_node, del_timer_twin}
use cpp_project.SkipListTimer.Undo.{del_timer-add_timer}
use cpp_project.SkipListTimer.Reach.{start, later, add, Reach-Represents}

abbrev cleared : ℕ → Slot
cleared _ = null

abbrev no_nodes : Heap
no_nodes _ = none

abbrev empty : SkipList
empty = create no_nodes 1 cleared

abbrev list_of : Run (SkipList × Ptr) → SkipList
list_of (ok (s, p)) = s
list_of fault = empty
list_of timeout = empty

-- One timer, of height 2; with it another that is due earlier; or a twin of it.
abbrev one_timer : SkipList
one_timer = list_of (insert_node 2 cleared (0 ∷ 20000 ∷ []) empty 100 7)

abbrev two_timers : SkipList
two_timers = list_of (insert_node 3 cleared (20000 ∷ []) one_timer 50 8)

abbrev twins : SkipList
twins = list_of (insert_node 4 cleared (20000 ∷ []) one_timer 100 9)

-- Its `unfolding` line is that of every run below.
insert_run : Run (SkipList × Ptr)
unfolding insert_node create descend walk random_level fill link get_next get_score set_next
    extend_sign
insert_run = insert_node 3 cleared (20000 ∷ []) one_timer 50 8

one_timer-run : insert_node 2 cleared (0 ∷ 20000 ∷ []) empty 100 7 ≡ ok (one_timer, 2)
unfolding insert_run
one_timer-run = refl

two_timers-run : insert_node 3 cleared (20000 ∷ []) one_timer 50 8 ≡ ok (two_timers, 3)
unfolding insert_run
two_timers-run = refl

twins-run : insert_node 4 cleared (20000 ∷ []) one_timer 100 9 ≡ ok (twins, 4)
unfolding insert_run
twins-run = refl

abbrev first_entry : Entry
first_entry = entry 2 100 2 7

empty-Represents : Represents empty []
empty-Represents = create-Represents no_nodes 1 cleared

insert_node-Represents_example :
    (s' : SkipList) × (insert_node 2 cleared (0 ∷ 20000 ∷ []) empty 100 7 ≡ ok (s', 2))
    × Represents s' (insert_sorted first_entry [])
unfolding insert_run
insert_node-Represents_example =
    insert_node-Represents empty [] 2 cleared (0 ∷ 20000 ∷ []) 100 7 2 empty-Represents refl
      (λ i e. cc) (omega arith) refl

one_timer-Represents : Represents one_timer (first_entry ∷ [])
unfolding insert_run insert_sorted
one_timer-Represents =
    let (s, run, rep) =
      insert_node-Represents empty [] 2 cleared (0 ∷ 20000 ∷ []) 100 7 2 empty-Represents refl
        (λ i e. cc) (omega arith) refl in
    let same : s ≡ one_timer = cc (sym run ∙ one_timer-run) in rw same at rep

twins-Represents : Represents twins (entry 4 100 1 9 ∷ first_entry ∷ [])
unfolding insert_run insert_sorted
twins-Represents =
    let (s, run, rep) =
      insert_node-Represents one_timer (first_entry ∷ []) 4 cleared (20000 ∷ []) 100 9 1
        one_timer-Represents refl (λ i e. cc) (omega arith) refl in
    let same : s ≡ twins = cc (sym run ∙ twins-run) in rw same at rep

two_timers-Represents : Represents two_timers (entry 3 50 1 8 ∷ first_entry ∷ [])
unfolding insert_run insert_sorted
two_timers-Represents =
    let (s, run, rep) =
      insert_node-Represents one_timer (first_entry ∷ []) 3 cleared (20000 ∷ []) 50 8 1
        one_timer-Represents refl (λ i e. cc) (omega arith) refl in
    let same : s ≡ two_timers = cc (sym run ∙ two_timers-run) in rw same at rep

del_node-Represents_example :
    (s' : SkipList) × (del_node two_timers 3 ≡ ok s')
    × Represents s' (remove_score 50 (entry 3 50 1 8 ∷ first_entry ∷ []))
unfolding insert_run
del_node-Represents_example =
    del_node-Represents two_timers (entry 3 50 1 8 ∷ first_entry ∷ []) 3 50 two_timers-Represents
      refl

expire_timer-Represents_example :
    (s' : SkipList) × (expire_timer 3 two_timers 60
      ≡ ok (s', calls (due 60 (entry 3 50 1 8 ∷ first_entry ∷ []))))
    × Represents s' (pending 60 (entry 3 50 1 8 ∷ first_entry ∷ []))
expire_timer-Represents_example =
    expire_timer-Represents 3 two_timers (entry 3 50 1 8 ∷ first_entry ∷ []) 60
      two_timers-Represents (omega arith)

fired : calls (due 60 (entry 3 50 1 8 ∷ first_entry ∷ [])) ≡ (3, 8) ∷ []
unfolding due
fired = refl

del_timer_twin_example :
    (s' : SkipList) × (del_timer twins 2 ≡ ok s')
    × Represents s' (first_entry ∷ [])
    × (s'.heap 4 ≡ none)
del_timer_twin_example =
    del_timer_twin twins [] (entry 4 100 1 9) [] first_entry [] twins-Represents tt refl

delete-new_node_example :
    delete (update no_nodes 2 (some (new_node (λ _. garbage) 100 1 7))) 2 ≡ fault
delete-new_node_example =
    delete-new_node (update no_nodes 2 (some (new_node (λ _. garbage) 100 1 7))) 2 (λ _. garbage)
      100 1 7 5 refl (omega arith) (omega arith) refl

-- A timer due at 2^31, the first and only one.
abbrev late_timer : SkipList
late_timer = list_of (insert_node 2 cleared (20000 ∷ []) empty (2 ^ 31) 7)

expire_timer_never_example : expire_timer 2 late_timer (2 ^ 31 + 5) ≡ ok (late_timer, [])
unfolding insert_run get_min_node
expire_timer_never_example =
    expire_timer_never late_timer 2 1 (2 ^ 31) (2 ^ 31 + 5) refl refl (omega arith) (omega arith)

abbrev noon : TimeVal
noon = record { sec = 0; usec = 0 }

Reach-Represents_example : (xs : List Entry) × Represents one_timer xs
unfolding insert_run add_timer getcurrent_time
Reach-Represents_example = Reach-Represents (
    later (start no_nodes 1 cleared)
      (add 2 cleared (0 ∷ 20000 ∷ []) noon 100 7 2 refl (λ i e. cc) (omega arith) refl refl))

abbrev at_zero : TimeVal
at_zero = record { sec = 0; usec = 0 }

del_timer-add_timer_example :
    (t u : SkipList) × (add_timer 4 cleared (20000 ∷ []) at_zero one_timer 100 9 ≡ ok (t, 4))
    × (del_timer t 4 ≡ ok u)
    × Represents u (first_entry ∷ [])
unfolding insert_run getcurrent_time
del_timer-add_timer_example =
    del_timer-add_timer one_timer (first_entry ∷ []) 4 cleared (20000 ∷ []) at_zero 100 9 1
      one_timer-Represents refl (λ i e. cc) (omega arith) refl
