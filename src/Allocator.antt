-- ===== src/Allocator.antt =====
-- STL/stl_alloc.cpp: a pool of memory from which small blocks are cut, and sixteen lists of free blocks.
-- Numbers are of the 64 bits of `size_t`. Addresses are numbers, with 0 for NULL.
pub mod Sizes
pub mod Layout
pub mod Chains
pub mod Moves
pub mod Search
pub mod Linking
pub mod Growth
pub mod Chunks
pub mod Refilling
pub mod Requests
pub mod Client
pub mod Ledgers
pub mod Usage
pub mod Reached
pub mod Safety
pub mod Exhaustion
pub mod Tests
use cpp_project.Base.{
  ℕ, zero, suc, ◌+◌, ◌-◌, ◌*◌, ◌/◌, ◌%◌, ◌^◌, Bool, true, false, ◌&&◌, ◌||◌, Option, none, some,
  List, [], ◌∷◌, ltb, leb, ◌==◌, if◌then◌else◌, update, Run, ok, fault, timeout, ◌>>=◌, or_fault,
}

-- `_ALIGN`, `_MAX_BYTES` and `_NFREELISTS`
abbrev pub align : ℕ
align = 8

abbrev pub max_bytes : ℕ
max_bytes = 128

abbrev pub nfreelists : ℕ
nfreelists = 16

-- `_S_round_up`: the mask clears the three lowest bits.
unfoldable pub round_up : ℕ → ℕ
round_up bytes = (bytes + align - 1) % 2 ^ 64 / align * align

-- `_S_freelist_index`: the subtraction wraps around at 0.
unfoldable pub freelist_index : ℕ → ℕ
freelist_index bytes = ((bytes + align - 1) % 2 ^ 64 / align + (2 ^ 64 - 1)) % 2 ^ 64

abbrev pub Ptr : Type 0
Ptr = ℕ

-- The regions that `malloc` gave: address and length.
abbrev pub Arenas : Type 0
Arenas = List (Ptr × ℕ)

-- The static variables, and the memory: `links p` is the pointer that was written at `p`, if one was.
pub record Alloc : Type 0 where
  pub start_free : Ptr
  pub end_free : Ptr
  pub heap_size : ℕ
  pub free_list : ℕ → Ptr
  pub links : Ptr → Option Ptr
  pub arenas : Arenas

-- The state before the first call: statics are zero.
abbrev pub new_alloc : Alloc
new_alloc = record {
  start_free = 0;
  end_free = 0;
  heap_size = 0;
  free_list = λ _. 0;
  links = λ _. none;
  arenas = [];
}

-- The `n` bytes at `p` are within a region that `malloc` gave.
unfoldable pub in_arenas : Ptr → ℕ → Arenas → Bool
in_arenas p n [] = false
in_arenas p n ((a, l) ∷ rest) = (leb a p && leb (p + n) (a + l)) || in_arenas p n rest

-- `p->_M_free_list_link`, undefined where no pointer was written.
unfoldable pub get_link : Alloc → Ptr → Run Ptr
get_link s p = or_fault (s.links p)

-- `p->_M_free_list_link = q`, undefined outside of the regions.
unfoldable pub set_link : Alloc → Ptr → Ptr → Run Alloc
set_link s p q =
    if in_arenas p 8 s.arenas then ok (record s { links = update s.links p (some q) }) else fault

-- `*__my_free_list`, undefined outside of the array.
unfoldable pub get_list : Alloc → ℕ → Run Ptr
get_list s i = if ltb i nfreelists then ok (s.free_list i) else fault

unfoldable pub set_list : Alloc → ℕ → Ptr → Run Alloc
set_list s i p =
    if ltb i nfreelists then ok (record s { free_list = update s.free_list i p }) else fault

-- A block is put at the head of a list, as in `_S_chunk_alloc` and `deallocate`.
unfoldable pub push : Alloc → ℕ → Ptr → Run Alloc
unfolding get_list set_link set_list
push s i p = do head ← get_list s i; s' ← set_link s p head; set_list s' i p

-- The first block of a list is taken, if there is one.
unfoldable pub pop : Alloc → ℕ → Run (Ptr × Alloc)
unfolding get_list get_link set_list
pop s i = do
  head ← get_list s i
  let taken = (do next ← get_link s head; s' ← set_list s i next; ok (head, s'))
  if head == 0 then ok (0, s) else taken

-- `malloc`, with what its calls return. A length of 0 stands for a call that is not foreseen.
unfoldable pub malloc : List Ptr → Run (Ptr × List Ptr)
malloc [] = timeout
malloc (p ∷ ps) = ok (p, ps)

-- The loop of `_S_chunk_alloc` after `malloc` has failed, over the sizes `i`, `i + 8`, … up to 128: a block
-- of each size is taken out of its list and set as the pool, which the code after the loop overwrites.
unfoldable pub search_lists : (rounds : ℕ) → (i : ℕ) → Alloc → Run Alloc
unfolding pop
search_lists zero i s = ok s
search_lists (suc n) i s = do
  (p, s') ← pop s (freelist_index i)
  search_lists n (i + align) (if p == 0 then s' else record s' { start_free = p; end_free = p + i })

-- `alloc_bytes`
unfoldable pub alloc_bytes : Alloc → (total : ℕ) → ℕ
unfolding round_up
alloc_bytes s total = (2 * total + round_up (s.heap_size / 16)) % 2 ^ 64

-- The pool is what `malloc` returned, also if that is NULL.
unfoldable pub new_pool : Alloc → Ptr → ℕ → Alloc
new_pool s q bytes = record s {
  start_free = q;
  end_free = q + bytes;
  heap_size = (s.heap_size + bytes) % 2 ^ 64;
  arenas = if q == 0 then s.arenas else (q, bytes) ∷ s.arenas;
}

-- The last branch of `_S_chunk_alloc`, up to its recursive call.
unfoldable pub grow : List Ptr → Alloc → (size total left : ℕ) → Run (List Ptr × Alloc)
unfolding push malloc search_lists freelist_index alloc_bytes
grow ms s size total left = do
  let bytes = alloc_bytes s total
  s' ← (if ltb 0 left then push s (freelist_index left) s.start_free else ok s)
  (p, ms') ← malloc ms
  let retry = (do
    s2 ← search_lists ((max_bytes + align - size) / align) size (record s' { start_free = 0 })
    (q, ms2) ← malloc ms'
    ok (q, ms2, s2))
  (q, ms2, s2) ← (if p == 0 then retry else ok (p, ms', s'))
  ok (ms2, new_pool s2 q bytes)

-- `_S_chunk_alloc`: the blocks' address and number, on fuel for its recursion.
unfoldable pub chunk_alloc :
    ℕ → List Ptr → Alloc → (size nobjs : ℕ) → Run (Ptr × ℕ × List Ptr × Alloc)
unfolding grow
chunk_alloc zero ms s size nobjs = timeout
chunk_alloc (suc f) ms s size nobjs =
    let total = size * nobjs % 2 ^ 64 in
    let left = (s.end_free + 2 ^ 64 - s.start_free) % 2 ^ 64 in
    let n = left / size in
    let again = grow ms s size total left >>= λ (ms', s'). chunk_alloc f ms' s' size nobjs in
    if leb total left
    then ok (s.start_free, nobjs, ms, record s { start_free = s.start_free + total })
    else if leb size left
    then ok (s.start_free, n, ms, record s { start_free = s.start_free + size * n % 2 ^ 64 })
    else again

-- The loop of `_S_refill`, with the number of blocks that are left to be linked: it has no end for none.
unfoldable pub link_blocks : ℕ → Alloc → (current n : ℕ) → Run Alloc
unfolding set_link
link_blocks zero s current n = timeout
link_blocks (suc zero) s current n = set_link s current 0
link_blocks (suc (suc k)) s current n = do
  s' ← set_link s current (current + n)
  link_blocks (suc k) s' (current + n) n

-- `_S_refill`
unfoldable pub refill : List Ptr → Alloc → ℕ → Run (Ptr × List Ptr × Alloc)
unfolding chunk_alloc link_blocks set_list freelist_index
refill ms s n = do
  (chunk, nobjs, ms', s') ← chunk_alloc 3 ms s n 20
  let linked = (do
    s2 ← set_list s' (freelist_index n) (chunk + n)
    s3 ← link_blocks (nobjs - 1) s2 (chunk + n) n
    ok (chunk, ms', s3))
  if nobjs == 1 then ok (chunk, ms', s') else linked

unfoldable pub allocate : List Ptr → Alloc → ℕ → Run (Ptr × List Ptr × Alloc)
unfolding pop refill round_up freelist_index
allocate ms s n = do
  (p, s') ← pop s (freelist_index n)
  let refilled = refill ms s' (round_up n)
  if p == 0 then refilled else ok (p, ms, s')

unfoldable pub deallocate : Alloc → Ptr → ℕ → Run Alloc
unfolding push freelist_index
deallocate s p n = push s (freelist_index n) p
