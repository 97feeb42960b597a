-- ===== src/Allocator/Safety.antt =====
-- What holds of the allocator in every state that a client reaches.
use cpp_project.Base.{
  ℕ, ◌+◌, ◌*◌, ◌≤◌, ◌<◌, ◌≡◌, refl, sym, subst, ◌∙◌, ◌≢◌, inl, inr, Bool-cases, some, List, ◌∷◌,
  ◌++◌, ◌==◌, ==_iff, ==_ne, arith, update, update_self, update_ne, All-right, Has, Has-middle,
  Distinct, lt→ltb, ok,
}
use cpp_project.Allocator.{
  Ptr, Alloc, max_bytes, nfreelists, round_up, alloc_bytes, freelist_index, allocate, deallocate,
  pop, get_list, get_link, set_list,
}
use cpp_project.Allocator.Layout.{size_of-freelist_index}
use cpp_project.Allocator.Chains.{after_push}
use cpp_project.Allocator.Growth.{Gives}
use cpp_project.Allocator.Requests.{allocate-pop, allocate_lem}
use cpp_project.Allocator.Client.{Ledger, Sound, FreeList, allocated, Reach, next}
use cpp_project.Allocator.Ledgers.{blocks_of, HasClass, blocks_of-middle}
use cpp_project.Allocator.Usage.{listed-Sound, free-FreeList}
use cpp_project.Allocator.Reached.{freed-Good, Reach-Good}

-- In every state that a program reaches which asks for blocks of 1 to 128 bytes where `malloc`
-- gives memory at the first or the second try, gives back only blocks it holds, and writes only
-- within them, the blocks that it holds are in memory that `malloc` gave and do not overlap, and
-- each of the 16 free lists ends with NULL, its blocks in such memory too, and clear of the blocks
-- held and of the pool.
pub Reach-Sound :
    (s : Alloc) (held : Ledger)
    → Reach s held
    → Sound s held × ((i : ℕ) → i < nfreelists → FreeList s held i)
Reach-Sound s held r =
    let (bs, v) = Reach-Good s held r in
    (
      listed-Sound s bs v.inv held v.sizes
          (λ c l. subst Distinct (v.used c l) (v.inv.layout.distinct (16 + c)))
          (λ c q l g. subst (Has q) (sym (v.used c l)) g),
      λ i l. free-FreeList s bs held i v l,
    )

-- In every state that a program reaches which asks for blocks of 1 to 128 bytes where `malloc`
-- gives memory at the first or the second try, gives back only blocks it holds, and writes only
-- within them, a call for 1 to 128 bytes returns, with the fuel chosen and no undefined access, a
-- block that is not NULL, in memory that `malloc` gave, clear of all blocks held, where `malloc`
-- gives what it is asked for at the first or the second time.
pub allocate-Sound :
    (s : Alloc) (held : Ledger) (n : ℕ) (ms : List Ptr)
    → Reach s held
    → 1 ≤ n
    → n ≤ max_bytes
    → Gives s (alloc_bytes s (round_up n * 20)) ms
    → (p : Ptr) × (ms' : List Ptr) × (t : Alloc) × (allocate ms s n ≡ ok (p, ms', t))
      × Sound t ((p, n) ∷ held)
      × Reach t ((p, n) ∷ held)
allocate-Sound s held n ms r h l gives =
    let (bs, v) = Reach-Good s held r in
    let (p, ms', t, _, run, _, _) = allocate_lem s bs n v.inv h l ms gives in
    let reached = next s t held ((p, n) ∷ held) r (allocated s t held n ms ms' p h l gives run) in
    (p, ms', t, run, (Reach-Sound t ((p, n) ∷ held) reached).0, reached)

pop_pushed :
    (s : Alloc) (c p : ℕ)
    → c < nfreelists
    → p ≢ 0
    → pop (after_push s c p) c
      ≡ ok (
        p,
        record (after_push s c p) {
          free_list = update (after_push s c p).free_list c (s.free_list c);
        },
      )
unfolding pop get_list get_link set_list
pop_pushed s c p h real =
    let linked = update_self s.links p (some (s.free_list c)) in
    rw
      (
        pop,
        get_list,
        lt→ltb c nfreelists h,
        update_self s.free_list c p,
        ==_ne p 0 real,
        get_link,
        linked,
        set_list,
      )
      refl

-- In every state that a program reaches which asks for blocks of 1 to 128 bytes where `malloc`
-- gives memory at the first or the second try, gives back only blocks it holds, and writes only
-- within them: a block held that is given back is what the next call for a size of the same free
-- list returns, with no call of `malloc`; the free lists are then as they were before.
pub deallocate-allocate :
    (s : Alloc) (xs ys : Ledger) (p n m : ℕ) (ms : List Ptr)
    → Reach s (xs ++ (p, n) ∷ ys)
    → freelist_index m ≡ freelist_index n
    → (t : Alloc) × (t' : Alloc) × (deallocate s p n ≡ ok t)
      × (allocate ms t m ≡ ok (p, ms, t'))
      × ((i : ℕ) → t'.free_list i ≡ s.free_list i)
deallocate-allocate s xs ys p n m ms r same =
    let (bs, v) = Reach-Good s (xs ++ (p, n) ∷ ys) r in
    let (h, l) = (All-right HasClass xs ((p, n) ∷ ys) v.sizes).0 in
    let c = freelist_index n in
    let (in_range, _, _, _, _) = size_of-freelist_index n h l in
    let at = v.used c in_range ∙ blocks_of-middle c p n xs ys refl in
    let real =
      v.inv.layout.real (16 + c) p
        (subst (Has p) (sym at) (Has-middle p (blocks_of c xs) (blocks_of c ys))) in
    let t = after_push s c p in
    (
      t,
      record t { free_list = update t.free_list c (s.free_list c) },
      (freed-Good s bs xs ys p n v).0,
      allocate-pop t _ m ms p real (
          subst
            (λ i. pop t i ≡ ok (p, record t { free_list = update t.free_list c (s.free_list c) }))
            (sym same) (pop_pushed s c p in_range real)),
      λ i. elim (Bool-cases (i == c)) [
        | inl e ↦ rw ((==_iff i c).0 e, update_self t.free_list c (s.free_list c)) refl
        | inr e ↦
            let ne : i ≢ c = ground (arith, e) in
            update_ne t.free_list c (s.free_list c) i ne ∙ update_ne s.free_list c p i ne
      ],
    )
