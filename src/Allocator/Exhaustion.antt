-- ===== src/Allocator/Exhaustion.antt =====
-- What the allocator does when `malloc` fails twice.
use cpp_project.Base.{
  ℕ, suc, ◌+◌, ◌-◌, ◌*◌, ◌%◌, ◌^◌, ◌≤◌, ◌<◌, ◌≡◌, refl, sym, subst, ◌∙◌, inl, inr, true, false,
  List, List-cases, [], ◌∷◌, leb, lt→ltb, arith, Has, ok, fault,
}
use cpp_project.Allocator.{
  Ptr, Alloc, max_bytes, nfreelists, round_up, alloc_bytes, freelist_index, in_arenas, set_link,
  set_list, link_blocks, new_pool, chunk_alloc, refill, allocate,
}
use cpp_project.Allocator.Layout.{Blocks, size_of, size_of-freelist_index}
use cpp_project.Allocator.Chains.{Inv, Chain}
use cpp_project.Allocator.Growth.{alloc_bytes_lem, retry_lem}
use cpp_project.Allocator.Chunks.{chunk_alloc_again}
use cpp_project.Allocator.Refilling.{freelist_index-size_of}
use cpp_project.Allocator.Requests.{allocate-refill}
use cpp_project.Allocator.Client.{Ledger, Reach}
use cpp_project.Allocator.Reached.{Reach-Good}

-- From a pool at NULL, 20 blocks at NULL are cut off.
null_chunk :
    (f : ℕ) (ms : List Ptr) (t : Alloc) (size bytes : ℕ)
    → size * 20 ≤ bytes
    → bytes < 2 ^ 64
    → chunk_alloc (suc f) ms (new_pool t 0 bytes) size 20
      ≡ ok (0, 20, ms, record (new_pool t 0 bytes) { start_free = 0 + size * 20 })
unfolding chunk_alloc new_pool
null_chunk f ms t size bytes h l =
    let left_lem : (0 + bytes + 2 ^ 64 - 0) % 2 ^ 64 ≡ bytes = omega arith in
    let total : size * 20 % 2 ^ 64 ≡ size * 20 = omega arith in
    let all : leb (size * 20) bytes ≡ true = ground arith in
    rw (chunk_alloc, new_pool, left_lem, total, all) refl

-- The second of them is written to.
null_refill :
    (ms ms' : List Ptr) (s t : Alloc) (c bytes : ℕ)
    → c < nfreelists
    → in_arenas (0 + size_of c) 8 t.arenas ≡ false
    → chunk_alloc 3 ms s (size_of c) 20
      ≡ ok (0, 20, ms', record (new_pool t 0 bytes) { start_free = 0 + size_of c * 20 })
    → refill ms s (size_of c) ≡ fault
unfolding refill set_list set_link link_blocks new_pool
null_refill ms ms' s t c bytes h outside run =
    let index = freelist_index-size_of c h in
    rw
      (
        refill,
        run,
        set_list,
        index,
        lt→ltb c nfreelists h,
        link_blocks,
        set_link,
        new_pool,
        outside,
      )
      refl

zero_add : (n : ℕ) → 0 + n ≡ n
zero_add n = omega arith

alloc_bytes-bounded : (s : Alloc) (total : ℕ) → alloc_bytes s total < 2 ^ 64
unfolding alloc_bytes
alloc_bytes-bounded s total = omega arith

exhausted_refill :
    (s : Alloc) (bs : Blocks) (c : ℕ) (ms : List Ptr)
    → Inv s bs
    → c < nfreelists
    → bs c ≡ []
    → s.end_free - s.start_free < size_of c
    → in_arenas (size_of c) 8 s.arenas ≡ false
    → refill (0 ∷ 0 ∷ ms) s (size_of c) ≡ fault
exhausted_refill s bs c ms v h none_there small outside =
    let (t, bs', run, listed, _, _, same) =
      retry_lem s bs v c none_there (size_of c * 20) 0 ms small h in
    null_refill (0 ∷ 0 ∷ ms) ms s t c (alloc_bytes s (size_of c * 20)) h
      (rw (same, zero_add (size_of c)) outside)
      (chunk_alloc_again 2 (0 ∷ 0 ∷ ms) ms s (new_pool t 0 (alloc_bytes s (size_of c * 20)))
        (size_of c) _ (omega arith) (omega arith) v.layout.ordered v.bounded small run
        (null_chunk 1 ms t (size_of c) (alloc_bytes s (size_of c * 20))
          (alloc_bytes_lem s (size_of c * 20) v.sized (omega arith) (omega arith)).0
          (alloc_bytes-bounded s (size_of c * 20))))

-- A list that is NULL is empty.
null_list :
    (s : Alloc) (bs : Blocks) (c : ℕ) → Inv s bs → c < nfreelists → s.free_list c ≡ 0 → bs c ≡ []
null_list s bs c v h null = elim (List-cases (bs c)) [
  | inl e ↦ e
  | inr (p, ps, e) ↦
      let at = (subst (Chain s.links (s.free_list c)) e (v.chained c h)).0 in
      absurd (v.layout.real c p (subst (Has p) (sym e) (inl refl)) (sym at ∙ null))
]

-- In a state that a program reaches, with the free list of the size empty and less than a block left in the
-- pool: where `malloc` returns NULL twice, a call does not return NULL. It takes NULL for the pool and writes a
-- link at the address that is the block size, which faults unless `malloc` gave memory there.
pub allocate-exhausted :
    (s : Alloc) (held : Ledger) (n : ℕ) (ms : List Ptr)
    → Reach s held
    → 1 ≤ n
    → n ≤ max_bytes
    → s.free_list (freelist_index n) ≡ 0
    → s.end_free - s.start_free < round_up n
    → in_arenas (round_up n) 8 s.arenas ≡ false
    → allocate (0 ∷ 0 ∷ ms) s n ≡ fault
allocate-exhausted s held n ms r h l empty small outside =
    let (bs, v) = Reach-Good s held r in
    let c = freelist_index n in
    let (in_range, rounded, _, _, _) = size_of-freelist_index n h l in
    let none_there : bs c ≡ [] = null_list s bs c v.inv in_range empty in
    allocate-refill s bs n v.inv h l (0 ∷ 0 ∷ ms) fault none_there
      (exhausted_refill s bs c ms v.inv in_range none_there (rw rounded small) (rw rounded outside))
