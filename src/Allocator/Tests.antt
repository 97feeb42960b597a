-- ===== src/Allocator/Tests.antt =====
-- The free list of blocks for 17 bytes, as in the program's `main`.
use cpp_project.Base.{
  ℕ, ◌-◌, ◌*◌, ◌≡◌, refl, ◌<◌, arith, false, List, [], ◌∷◌, Run, ok, fault, timeout,
}
use cpp_project.Allocator.{
  Ptr, Alloc, new_alloc, nfreelists, round_up, freelist_index, in_arenas, alloc_bytes, new_pool,
  allocate, deallocate,
}
use cpp_project.Allocator.Growth.{Gives, at_once}
use cpp_project.Allocator.Client.{Sound, FreeList, allocated, Reach, start, next}
use cpp_project.Allocator.Safety.{Reach-Sound, allocate-Sound, deallocate-allocate}
use cpp_project.Allocator.Exhaustion.{allocate-exhausted}

sizes_17 : (freelist_index 17 ≡ 2) × (round_up 17 ≡ 24)
unfolding freelist_index round_up
sizes_17 = (refl, refl)

abbrev state_after : Run (Ptr × List Ptr × Alloc) → Alloc
state_after (ok (p, ms, s)) = s
state_after fault = new_alloc
state_after timeout = new_alloc

-- `malloc` gives 960 bytes at 4096, of which 20 blocks of 24 bytes are cut off.
abbrev first : Alloc
first = state_after (allocate (4096 ∷ []) new_alloc 17)

first_run : allocate (4096 ∷ []) new_alloc 17 ≡ ok (4096, [], first)
unfolding allocate new_pool in_arenas
first_run = refl

first_values :
    (first.free_list 2 ≡ 4120)
    × (first.start_free ≡ 4576)
    × (first.end_free ≡ 5056)
    × (first.heap_size ≡ 960)
unfolding allocate new_pool in_arenas
first_values = (refl, refl, refl, refl)

new_region : Gives new_alloc (alloc_bytes new_alloc (round_up 17 * 20)) (4096 ∷ [])
unfolding alloc_bytes round_up
new_region = at_once 4096 [] (omega arith, tt, omega arith)

reach_first : Reach first ((4096, 17) ∷ [])
reach_first = next new_alloc first [] ((4096, 17) ∷ []) start (
    allocated new_alloc first [] 17 (4096 ∷ []) [] 4096 (omega arith) (omega arith) new_region
      first_run)

Reach-Sound_example :
    Sound first ((4096, 17) ∷ []) × ((i : ℕ) → i < nfreelists → FreeList first ((4096, 17) ∷ []) i)
Reach-Sound_example = Reach-Sound first ((4096, 17) ∷ []) reach_first

allocate-Sound_example :
    (p : Ptr) × (ms' : List Ptr) × (t : Alloc) × (allocate (4096 ∷ []) new_alloc 17
      ≡ ok (p, ms', t))
    × Sound t ((p, 17) ∷ [])
    × Reach t ((p, 17) ∷ [])
allocate-Sound_example =
    allocate-Sound new_alloc [] 17 (4096 ∷ []) start (omega arith) (omega arith) new_region

same_list : freelist_index 20 ≡ freelist_index 17
unfolding freelist_index
same_list = refl

deallocate-allocate_example :
    (t : Alloc) × (t' : Alloc) × (deallocate first 4096 17 ≡ ok t)
    × (allocate [] t 20 ≡ ok (4096, [], t'))
    × ((i : ℕ) → t'.free_list i ≡ first.free_list i)
deallocate-allocate_example = deallocate-allocate first [] [] 4096 17 20 [] reach_first same_list

no_room : new_alloc.end_free - new_alloc.start_free < round_up 128
unfolding round_up
no_room = omega arith

nothing_given : in_arenas (round_up 128) 8 new_alloc.arenas ≡ false
unfolding in_arenas
nothing_given = refl

allocate-exhausted_example : allocate (0 ∷ 0 ∷ []) new_alloc 128 ≡ fault
allocate-exhausted_example =
    allocate-exhausted new_alloc [] 128 [] start (omega arith) (omega arith) refl no_room
      nothing_given
