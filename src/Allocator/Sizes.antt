-- ===== src/Allocator/Sizes.antt =====
-- Which sizes have a free list, and which blocks the list holds.
use cpp_project.Base.{ℕ, ◌+◌, ◌*◌, ◌^◌, ◌≡◌, ◌≤◌, ◌<◌, ◌↔◌, arith}
use cpp_project.Allocator.{align, max_bytes, nfreelists, round_up, freelist_index}

-- A size of 64 bits has a free list of the 16 exactly when it is from 1 to 128; the blocks of this list
-- have the size rounded up to the next multiple of 8.
pub freelist_index_lem :
    (n : ℕ)
    → n < 2 ^ 64
    → ((freelist_index n < nfreelists) ↔ ((1 ≤ n) × (n ≤ max_bytes)))
      × (1 ≤ n
          → n ≤ max_bytes
          → (n ≤ round_up n)
            × (round_up n < n + align)
            × (round_up n ≡ align * (freelist_index n + 1)))
unfolding freelist_index round_up
freelist_index_lem n h = (
  (λ i. (omega arith, omega arith), λ (a, b). omega arith),
  λ a b. (omega arith, omega arith, omega arith),
)
