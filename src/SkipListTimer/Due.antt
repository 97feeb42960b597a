-- ===== src/SkipListTimer/Due.antt =====
-- `Del_HeadNode` and `expire_timer`: which timers fire, and which stay.
use cpp_project.Base.{
  ℕ, zero, suc, ◌≡◌, refl, ◌<◌, List, [], ◌∷◌, true, Bool-cases, inl, inr, ltb, ltb→lt, lt→ltb,
  if◌then◌else◌, map, ok, arith, All, All-mono, length,
}
use cpp_project.SkipListTimer.Node.{Ptr, Heap, get_next, get_handle}
use cpp_project.SkipListTimer.SkipList.{SkipList, get_min_node, del_head_node}
use cpp_project.SkipListTimer.Chain.{Entry, first}
use cpp_project.SkipListTimer.Stored.{Stored, Stored-score}
use cpp_project.SkipListTimer.Represents.{Represents}
use cpp_project.SkipListTimer.Remove.{del_node_hit}
use cpp_project.SkipListTimer.Expire.{expire_timer}

-- The timers that are due at `now`, and those that are not.
unfoldable pub due : ℕ → List Entry → List Entry
due now [] = []
due now (e ∷ xs) = if ltb now e.score then due now xs else e ∷ due now xs

unfoldable pub pending : ℕ → List Entry → List Entry
pending now [] = []
pending now (e ∷ xs) = if ltb now e.score then e ∷ pending now xs else pending now xs

abbrev pub calls : List Entry → List (Ptr × ℕ)
calls = map (λ e. (e.ptr, e.handle))

none_due :
    (now : ℕ) (xs : List Entry)
    → All (λ e. now < e.score) xs
    → (due now xs ≡ []) × (pending now xs ≡ xs)
unfolding due pending
none_due now [] a = (refl, refl)
none_due now (e ∷ xs) a = let ih = none_due now xs a.1 in (ground arith, ground arith)

min_node :
    (s : SkipList) (xs : List Entry)
    → Represents s xs
    → get_next s.heap s.header 0 ≡ ok (first (map (λ e. e.ptr) xs))
min_node s [] rep = rep.chains 0 (omega arith)
min_node s (e ∷ xs) rep =
    let tall : ltb 0 e.level ≡ true = lt→ltb 0 e.level rep.heights.0.0 in
    (rw tall at (rep.chains 0 (omega arith))).0

del_head_node_first :
    (s : SkipList) (e : Entry) (xs : List Entry)
    → Represents s (e ∷ xs)
    → (s' : SkipList) × (del_head_node s ≡ ok s') × Represents s' xs
unfolding del_head_node get_min_node
del_head_node_first s e xs rep =
    let first = min_node s (e ∷ xs) rep in
    let (s', run, rep', _) =
      del_node_hit s e.ptr e.score (Stored-score s.heap e rep.stored.0) [] e xs rep tt
        (omega arith, rep.sorted.0) refl in
    (s', rw first run, rep')

Stored-handle : (h : Heap) (e : Entry) → Stored h e → get_handle h e.ptr ≡ ok e.handle
unfolding get_handle
Stored-handle h e s = rw (s.held, s.handle)

-- `expire_timer` runs to its end, calls the handlers of the timers that are due, the earliest first,
-- and leaves the others.
pub expire_timer-Represents :
    (f : ℕ) (s : SkipList) (xs : List Entry) (now : ℕ)
    → Represents s xs
    → length xs < f
    → (s' : SkipList) × (expire_timer f s now ≡ ok (s', calls (due now xs)))
      × Represents s' (pending now xs)
unfolding expire_timer get_min_node due pending
expire_timer-Represents zero s xs now rep fuel = absurd (omega arith)
expire_timer-Represents (suc f) s [] now rep fuel = (s, rw (min_node s [] rep), rep)
expire_timer-Represents (suc f) s (e ∷ xs) now rep fuel =
    let score = Stored-score s.heap e rep.stored.0 in
    let handle = Stored-handle s.heap e rep.stored.0 in
    elim (Bool-cases (ltb now e.score)) [
      | inl t ↦
          let (d, p) =
            none_due now xs
              (All-mono _ _ (λ g le. omega (arith, ltb→lt now e.score t)) xs rep.sorted.0) in
          (s, rw (min_node s (e ∷ xs) rep, score, t, d), rw (t, p) rep)
      | inr t ↦
          let (s₁, run₁, rep₁) = del_head_node_first s e xs rep in
          let (s', run, rep') = expire_timer-Represents f s₁ xs now rep₁ (omega arith) in
          (s', rw (min_node s (e ∷ xs) rep, score, t, handle, run₁, run), rw t rep')
    ]
