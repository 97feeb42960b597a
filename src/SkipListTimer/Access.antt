-- ===== src/SkipListTimer/Access.antt =====
-- Reads of the node heap after a write of one pointer.
use cpp_project.Base.{ℕ, ◌≡◌, ◌≢◌, Option, none, some, update, ok, arith}
use cpp_project.SkipListTimer.Node.{Ptr, Heap, with_next, get_score, get_next, set_next}

-- The heap after a write to a node that is there.
unfoldable pub put : Heap → Ptr → ℕ → Option Ptr → Heap
put h p i q = elim (h p) [ none ↦ h | some n ↦ update h p (some (with_next n i q)) ]

module _ (h : Heap) (p : Ptr) (i : ℕ) (q : Option Ptr) where
  pub set_next-put : {r : Option Ptr} → get_next h p i ≡ ok r → set_next h p i q ≡ ok (put h p i q)
  unfolding set_next get_next put
  set_next-put e = ground arith

  pub get_next-put_self :
      {r : Option Ptr} → get_next h p i ≡ ok r → get_next (put h p i q) p i ≡ ok q
  unfolding get_next put
  get_next-put_self e = ground arith

  pub get_next-put_ne : (a j : ℕ) → a ≢ p → get_next (put h p i q) a j ≡ get_next h a j
  unfolding get_next put
  get_next-put_ne a j ne = ground arith

  pub get_next-put_level : (a j : ℕ) → j ≢ i → get_next (put h p i q) a j ≡ get_next h a j
  unfolding get_next put
  get_next-put_level a j ne = ground arith

  pub get_score-put : (a : Ptr) → get_score (put h p i q) a ≡ get_score h a
  unfolding get_score put
  get_score-put a = ground arith
