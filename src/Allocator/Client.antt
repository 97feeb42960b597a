-- ===== src/Allocator/Client.antt =====
-- A program that allocates, writes over its blocks and gives them back.
use cpp_project.Base.{
  ℕ, ◌+◌, ◌*◌, ◌≤◌, ◌≡◌, ◌≢◌, ◌-◌, true, Option, List, [], ◌∷◌, ◌++◌, update, All, ok,
}
use cpp_project.Allocator.{
  Ptr, Alloc, new_alloc, max_bytes, round_up, alloc_bytes, in_arenas, allocate, deallocate,
}
use cpp_project.Allocator.Layout.{size_of, Apart}
use cpp_project.Allocator.Chains.{Chain}
use cpp_project.Allocator.Growth.{Gives}

-- The blocks in use, with the sizes that were asked for.
abbrev pub Ledger : Type 0
Ledger = List (Ptr × ℕ)

-- `wrote` is a write of eight bytes of any value within a block.
pub data Step : Alloc → Ledger → Alloc → Ledger → Type 0 where
  allocated :
      (s t : Alloc) (held : Ledger) (n : ℕ) (ms ms' : List Ptr) (p : Ptr)
      → 1 ≤ n
      → n ≤ max_bytes
      → Gives s (alloc_bytes s (round_up n * 20)) ms
      → allocate ms s n ≡ ok (p, ms', t)
      → Step s held t ((p, n) ∷ held)
  freed :
      (s t : Alloc) (xs ys : Ledger) (p : Ptr) (n : ℕ)
      → deallocate s p n ≡ ok t
      → Step s (xs ++ (p, n) ∷ ys) t (xs ++ ys)
  wrote :
      (s : Alloc) (xs ys : Ledger) (p n q : Ptr) (v : Option Ptr)
      → p ≤ q
      → q + 8 ≤ p + round_up n
      → Step s (xs ++ (p, n) ∷ ys) (record s { links = update s.links q v }) (xs ++ (p, n) ∷ ys)

pub data Reach : Alloc → Ledger → Type 0 where
  start : Reach new_alloc []
  next : (s t : Alloc) (held held' : Ledger) → Reach s held → Step s held t held' → Reach t held'

-- Blocks in use are where `malloc` gave memory, and no two of them overlap.
abbrev pub Sound : Alloc → Ledger → Type 0
Sound s [] = Unit
Sound s ((p, n) ∷ held) =
    (p ≢ 0) × (in_arenas p n s.arenas ≡ true) × All (λ b. Apart p n b.0 b.1) held × Sound s held

-- A free list ends with NULL, and its blocks are clear of those in use and of the pool.
pub record FreeList (s : Alloc) (held : Ledger) (i : ℕ) : Type 0 where
  pub blocks : List Ptr
  pub chain : Chain s.links (s.free_list i) blocks
  pub inside : All (λ q. in_arenas q (size_of i) s.arenas ≡ true) blocks
  pub unused : All (λ q. All (λ b. Apart b.0 b.1 q (size_of i)) held) blocks
  pub clear : All (λ q. Apart q (size_of i) s.start_free (s.end_free - s.start_free)) blocks
