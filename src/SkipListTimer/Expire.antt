-- ===== src/SkipListTimer/Expire.antt =====
-- `Add_timer` of SkipListTimer/skiplist.cpp and `expire_timer` of SkipListTimer/main.cpp. A handler is
-- called with the list as it is; the model notes the call. Handlers do not change the list.
use cpp_project.Base.{
  ℕ, zero, suc, ◌+◌, ◌%◌, ◌^◌, List, [], ◌∷◌, ◌++◌, none, some, ltb, if◌then◌else◌, Run, ok,
  timeout, ◌>>=◌,
}
use cpp_project.SkipListTimer.Node.{Ptr, Slot, get_score, get_handle}
use cpp_project.SkipListTimer.SkipList.{
  SkipList, printf_hello, insert_node, del_timer, get_min_node, del_head_node,
}
use cpp_project.SkipListTimer.Clock.{TimeVal, getcurrent_time}

unfoldable pub add_timer :
    (fresh : Ptr) (raw : ℕ → Slot) (draws : List ℕ) (tv : TimeVal)
    → SkipList
    → (mesc handle : ℕ) → Run (SkipList × Ptr)
add_timer fresh raw draws tv s mesc handle =
    insert_node fresh raw draws s ((mesc + getcurrent_time tv) % 2 ^ 32) handle

-- The loop of `expire_timer`, with the calls that it makes: node and handler.
unfoldable pub expire_timer : ℕ → SkipList → (now : ℕ) → Run (SkipList × List (Ptr × ℕ))
expire_timer zero s now = timeout
expire_timer (suc f) s now = get_min_node s >>= λ first. elim first [
  | none ↦ ok (s, [])
  | some p ↦ do
    score ← get_score s.heap p
    let fire = (do
      handle ← get_handle s.heap p
      s' ← del_head_node s
      (s'', calls) ← expire_timer f s' now
      ok (s'', (p, handle) ∷ calls))
    if ltb now score then ok (s, []) else fire
]

-- What a call of `Add_timer` gets: memory, the numbers that `random` gives, and the time.
pub record Call : Type 0 where
  pub fresh : Ptr
  pub raw : ℕ → Slot
  pub draws : List ℕ
  pub time : TimeVal

unfoldable pub add_with : Call → SkipList → (mesc : ℕ) → Run (SkipList × Ptr)
unfolding add_timer
add_with c s mesc = add_timer c.fresh c.raw c.draws c.time s mesc printf_hello

-- The calls of `main` up to its loop.
unfoldable pub main_start : SkipList → (a b c d e : Call) → Run SkipList
unfolding add_with
main_start s a b c d e = do
  (s1, _) ← add_with a s 10100
  (s2, _) ← add_with b s1 21040
  (s3, _) ← add_with c s2 32050
  (s4, node) ← add_with d s3 22050
  s5 ← del_timer s4 node
  (s6, _) ← add_with e s5 32850
  ok s6

-- So many rounds of the loop of `main`, at these times, with the handler calls that they make.
unfoldable pub expire_rounds : (times : List ℕ) → SkipList → Run (SkipList × List (Ptr × ℕ))
unfolding expire_timer
expire_rounds [] s = ok (s, [])
expire_rounds (now ∷ times) s = do
  (s', calls) ← expire_timer (s.length + 1) s now
  (s'', more) ← expire_rounds times s'
  ok (s'', calls ++ more)
