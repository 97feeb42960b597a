-- ===== src/SkipListTimer/SkipList.antt =====
-- SkipListTimer/skiplist.h and skiplist.cpp. What `new` returns, what the memory held and what
-- `random` draws are arguments.
use cpp_project.Base.{
  ℕ, zero, suc, ◌+◌, ◌-◌, ◌%◌, ◌^◌, List, [], ◌∷◌, Bool, false, Option, none, some, ltb, ◌==◌,
  if◌then◌else◌, update, Run, ok, timeout, ◌>>=◌, or_fault,
}
use cpp_project.SkipListTimer.Node.{
  Ptr, Slot, Heap, skiplist_maxlevel, new_node, get_score, get_next, set_next, delete,
}

pub record SkipList : Type 0 where
  pub header : Ptr
  pub length : ℕ
  pub level : ℕ
  pub heap : Heap

-- The handler of the header, `Printf_hello`.
abbrev pub printf_hello : ℕ
printf_hello = 0

-- The constructor: `fresh` is the address of the header.
unfoldable pub create : Heap → (fresh : Ptr) → (raw : ℕ → Slot) → SkipList
create h fresh raw = record {
  header = fresh;
  length = 0;
  level = 1;
  heap = update h fresh (some (new_node raw 0 skiplist_maxlevel printf_hello));
}

-- `(random() & 0xFFFF) < 0.25 * 0xFFFF`: the bound is 16383.75.
abbrev pub goes_up : ℕ → Bool
goes_up draw = ltb (draw % 2 ^ 16) 16384

-- The loop of `RandomLevel` over the numbers that `random` gives.
unfoldable pub count_levels : List ℕ → ℕ → Run ℕ
count_levels [] n = timeout
count_levels (d ∷ ds) n = let rest = count_levels ds (n + 1) in if goes_up d then rest else ok n

unfoldable pub random_level : List ℕ → Run ℕ
unfolding count_levels
random_level draws = do
  n ← count_levels draws 1
  ok (if ltb n skiplist_maxlevel then n else skiplist_maxlevel)

-- The walk along one level, while the next node's score is below the bound. `bound` is evaluated at
-- each comparison.
unfoldable pub walk : ℕ → Heap → (i : ℕ) → (bound : Run ℕ) → Ptr → Run Ptr
walk zero h i bound x = timeout
walk (suc f) h i bound x = get_next h x i >>= λ next. elim next [
  | none ↦ ok x
  | some q ↦ do
    a ← get_score h q
    b ← bound
    let rest = walk f h i bound q
    if ltb a b then rest else ok x
]

-- The array `temp` of a call, unset at first.
abbrev pub Temp : Type 0
Temp = ℕ → Option Ptr

-- The loop over the levels, from the top.
unfoldable pub descend : ℕ → Heap → Run ℕ → (levels : ℕ) → Ptr → Temp → Run (Ptr × Temp)
descend f h bound zero x temp = ok (x, temp)
descend f h bound (suc i) x temp = do
  y ← walk f h i bound x
  descend f h bound i y (update temp i (some y))

-- `temp[i] = m_header` for the levels that are new
unfoldable pub fill : (rounds i : ℕ) → Ptr → Temp → Temp
fill zero i header temp = temp
fill (suc k) i header temp = fill k (suc i) header (update temp i (some header))

-- The new node `x` is put behind `temp[i]` on each of its levels.
unfoldable pub link : (rounds i : ℕ) → Ptr → Temp → Heap → Run Heap
link zero i x temp h = ok h
link (suc k) i x temp h = do
  t ← or_fault (temp i)
  next ← get_next h t i
  h₁ ← set_next h x i next
  h₂ ← set_next h₁ t i (some x)
  link k (suc i) x temp h₂

unfoldable pub insert_node :
    (fresh : Ptr) (raw : ℕ → Slot) (draws : List ℕ)
    → SkipList
    → (score handle : ℕ) → Run (SkipList × Ptr)
insert_node fresh raw draws s score handle = do
  (x, temp) ← descend (s.length + 1) s.heap (ok score) s.level s.header (λ _. none)
  new_level ← random_level draws
  let temp' = fill (new_level - s.level) s.level s.header temp
  let level' = if ltb s.level new_level then new_level else s.level
  let h = update s.heap fresh (some (new_node raw score new_level handle))
  h' ← link new_level 0 fresh temp' h
  ok (record s { length = s.length + 1; level = level'; heap = h' }, fresh)

abbrev pub is_ptr : Option Ptr → Ptr → Bool
is_ptr none p = false
is_ptr (some q) p = q == p

-- `d` is taken out of each level on which it follows `temp[i]`.
unfoldable pub unlink : (rounds i : ℕ) → Ptr → Temp → Heap → Run Heap
unlink zero i d temp h = ok h
unlink (suc k) i d temp h = do
  t ← or_fault (temp i)
  next ← get_next h t i
  h' ← (if is_ptr next d then (get_next h d i >>= set_next h t i) else ok h)
  unlink k (suc i) d temp h'

-- `while (m_level > 1 && m_header->GetNextNodeOfLevel(m_level - 1) == NULL) m_level--`
unfoldable pub shrink : Heap → Ptr → ℕ → Run ℕ
shrink h header zero = ok zero
shrink h header (suc zero) = ok 1
shrink h header (suc (suc n)) = get_next h header (suc n) >>= λ next. elim next [
  | none ↦ shrink h header (suc n)
  | some q ↦ ok (suc (suc n))
]

-- What `Del_node` does once it has found the node `d`.
unfoldable pub remove_found : SkipList → Temp → Ptr → Run SkipList
remove_found s temp d = do
  h ← unlink s.level 0 d temp s.heap
  level' ← shrink h s.header s.level
  h' ← delete h d
  ok (record s { length = s.length - 1; level = level'; heap = h' })

unfoldable pub del_node : SkipList → Ptr → Run SkipList
del_node s node = do
  let bound = get_score s.heap node
  (x, temp) ← descend (s.length + 1) s.heap bound s.level s.header (λ _. none)
  next ← get_next s.heap x 0
  elim next [
    | none ↦ ok s
    | some d ↦ do
      a ← get_score s.heap d
      b ← bound
      let found = remove_found s temp d
      if a == b then found else ok s
  ]

-- `Del_timer`
unfoldable pub del_timer : SkipList → Ptr → Run SkipList
unfolding del_node
del_timer = del_node

-- `GetMinNode`
unfoldable pub get_min_node : SkipList → Run (Option Ptr)
get_min_node s = get_next s.heap s.header 0

-- `Del_HeadNode`
unfoldable pub del_head_node : SkipList → Run SkipList
unfolding get_min_node
del_head_node s = get_min_node s >>= λ first. elim first [ none ↦ ok s | some p ↦ del_node s p ]

-- `~SkipList`: the header is deleted, and no other node.
unfoldable pub destroy : SkipList → Run Heap
destroy s = delete s.heap s.header
