-- ===== src/SkipListTimer/Node.antt =====
-- SkipListTimer/skiplistnode.h and skiplistnode.cpp: nodes on an explicit heap. A node holds a score,
-- a handler and an array of 32 pointers to levels, of which the constructor sets the first `level`;
-- the others keep what the memory held before.
use cpp_project.Base.{
  ℕ, zero, suc, Option, none, some, ltb, if◌then◌else◌, update, Run, ok, fault, ◌>>=◌, ◌>>◌,
  or_fault, ◌+◌, ◌-◌, ◌^◌,
}

abbrev pub Ptr : Type 0
Ptr = ℕ

abbrev pub skiplist_maxlevel : ℕ
skiplist_maxlevel = 32

-- An element of `m_level`: an unset pointer, `NULL`, or a `SkipListLevel` with its `m_next`.
pub data Slot : Type 0 where
  garbage : Slot
  null : Slot
  level : Option Ptr → Slot

pub record Node : Type 0 where
  pub score : ℕ  -- unsigned long
  pub handle : ℕ  -- the handler, by its number
  pub slot : ℕ → Slot

abbrev pub Heap : Type 0
Heap = Ptr → Option Node

-- The constructor takes an `int`: a `uint32_t` from 2^31 on turns negative, and `m_score`, an
-- unsigned 64-bit number, gets its sign extended.
unfoldable pub extend_sign : ℕ → ℕ
extend_sign score = if ltb score (2 ^ 31) then score else score + (2 ^ 64 - 2 ^ 32)

-- `raw` is what the memory of `m_level` held.
abbrev pub new_node : (raw : ℕ → Slot) → (score level handle : ℕ) → Node
new_node raw score n handle = record {
  score = extend_sign score;
  handle = handle;
  slot = λ i. if ltb i n then Slot.level none else raw i;
}

-- `*p`
unfoldable pub deref : Heap → Ptr → Run Node
deref h p = or_fault (h p)

-- `m_level[i]`, within the array
abbrev pub slot_at : Node → ℕ → Slot
slot_at n i = if ltb i skiplist_maxlevel then n.slot i else garbage

unfoldable pub get_score : Heap → Ptr → Run ℕ
unfolding deref
get_score h p = do n ← deref h p; ok n.score

-- `m_handle`
unfoldable pub get_handle : Heap → Ptr → Run ℕ
unfolding deref
get_handle h p = do n ← deref h p; ok n.handle

abbrev pub next_of : Slot → Run (Option Ptr)
next_of garbage = fault
next_of null = fault
next_of (level q) = ok q

-- `GetNextNodeOfLevel`
unfoldable pub get_next : Heap → Ptr → ℕ → Run (Option Ptr)
unfolding deref
get_next h p i = do n ← deref h p; next_of (slot_at n i)

abbrev pub with_next : Node → ℕ → Option Ptr → Node
with_next n i q = record n { slot = update n.slot i (level q) }

-- `SetNextNodeOfLevel`
unfoldable pub set_next : Heap → Ptr → ℕ → Option Ptr → Run Heap
unfolding deref
set_next h p i q = do n ← deref h p; next_of (slot_at n i); ok (update h p (some (with_next n i q)))

-- The loop of the destructor: an unset pointer is deleted as if it were one to a level.
unfoldable pub delete_levels : ℕ → ℕ → Node → Run Node
delete_levels zero i n = ok n
delete_levels (suc k) i n = elim (n.slot i) [
  | garbage ↦ fault
  | null ↦ delete_levels k (suc i) n
  | level q ↦ delete_levels k (suc i) (record n { slot = update n.slot i null })
]

-- `delete p`
unfoldable pub delete : Heap → Ptr → Run Heap
unfolding deref delete_levels
delete h p = do n ← deref h p; delete_levels skiplist_maxlevel 0 n; ok (update h p none)
