-- ===== src/Allocator/Refilling.antt =====
-- `_S_refill`: the first of the blocks that were cut off is taken into use, the others become the free list.
use cpp_project.Base.{
  ℕ, zero, suc, ◌+◌, ◌-◌, ◌*◌, ◌≤◌, ◌<◌, ◌≡◌, refl, ap, subst, ◌∙◌, ◌≢◌, inl, inr, Bool-cases,
  false, Option, List, [], ◌∷◌, ◌++◌, lt→ltb, ◌==◌, ==_iff, ==_ne, arith, update, update_self,
  update_ne, All-mono, Has, Out, ok,
}
use cpp_project.Allocator.{
  Ptr, Alloc, nfreelists, alloc_bytes, freelist_index, set_list, link_blocks, chunk_alloc, refill,
}
use cpp_project.Allocator.Layout.{Layout, Blocks, size_of}
use cpp_project.Allocator.Chains.{Inv, Chain-agree}
use cpp_project.Allocator.Linking.{
  span, blocks_from, blocks_from-within, take-Layout, link_blocks_lem,
}
use cpp_project.Allocator.Growth.{Gives}
use cpp_project.Allocator.Chunks.{Chunk, cut_off, chunk_alloc_lem}

-- The block `p` of class `c` is in use, and the others that were in use still are.
pub record Granted (bs bs' : Blocks) (c p : ℕ) : Type 0 where
  pub granted : bs' (16 + c) ≡ p ∷ bs (16 + c)
  pub others : (j : ℕ) → 16 ≤ j → j ≢ 16 + c → bs' j ≡ bs j

pub freelist_index-size_of : (c : ℕ) → c < nfreelists → freelist_index (size_of c) ≡ c
unfolding freelist_index
freelist_index-size_of c h = omega arith

-- One block: it is the result.
refill_one :
    (s t : Alloc) (bs bs' : Blocks) (c : ℕ) (ms ms' : List Ptr)
    → c < nfreelists
    → chunk_alloc 3 ms s (size_of c) 20 ≡ ok (t.start_free, 1, ms', cut_off t c 1)
    → Chunk bs c 1 t bs'
    → (refill ms s (size_of c) ≡ ok (t.start_free, ms', cut_off t c 1))
      × Inv (cut_off t c 1) (update bs' (16 + c) (t.start_free ∷ bs' (16 + c)))
unfolding refill
refill_one s t bs bs' c ms ms' h run chunk = (
  rw (refill, run) refl,
  record {
    layout =
        subst
          (λ x. Layout (update bs' (16 + c) (t.start_free ∷ bs' (16 + c))) t.arenas x t.end_free)
          (omega arith)
          (take-Layout bs' t.arenas t.start_free t.end_free chunk.inv.layout (16 + c)
            (omega (arith, chunk.fits)));
    chained = λ k l.
        rw (update_ne bs' (16 + c) (t.start_free ∷ bs' (16 + c)) k (omega arith))
          (chunk.inv.chained k l);
    bounded = chunk.inv.bounded;
    sized = chunk.inv.sized;
  },
)

-- Blocks that are clear of the pool are not among those that are cut off it.
clear-Out :
    (bs : Blocks) (as' : List (Ptr × ℕ)) (p e n k j q : ℕ)
    → Layout bs as' p e
    → span n k ≤ e - p
    → 0 < n
    → Has q (bs j)
    → Out q (blocks_from p n k)
clear-Out bs as' p e n k j q v fits pos h =
    All-mono (λ r. (p ≤ r) × (r < p + span n k)) (λ r. r ≢ q)
      (λ r (lo, hi) d. absurd (ground (arith, v.clear j q h, lo, hi, d, fits))) (blocks_from p n k)
      (blocks_from-within p n k pos)

differs : (i j : ℕ) → (i == j) ≡ false → i ≢ j
differs i j e = ground (arith, e)

abbrev refilled : Alloc → ℕ → ℕ → (Ptr → Option Ptr) → Alloc
refilled t c k m = record t {
  start_free = t.start_free + span (size_of c) k;
  free_list = update t.free_list c (t.start_free + size_of c);
  links = m;
}

-- More blocks: those after the first are linked.
refill_more :
    (s t : Alloc) (bs bs' : Blocks) (c k : ℕ) (ms ms' : List Ptr)
    → c < nfreelists
    → chunk_alloc 3 ms s (size_of c) 20
      ≡ ok (t.start_free, suc (suc k), ms', cut_off t c (suc (suc k)))
    → Chunk bs c (suc (suc k)) t bs'
    → (m : Ptr → Option Ptr) × (bs2 : Blocks) × (refill ms s (size_of c)
        ≡ ok (t.start_free, ms', refilled t c (suc (suc k)) m))
      × Inv (refilled t c (suc (suc k)) m) bs2
      × Granted bs' bs2 c t.start_free
unfolding refill set_list
refill_more s t bs bs' c k ms ms' h run chunk =
    let bs1 : Blocks = update bs' (16 + c) (t.start_free ∷ bs' (16 + c)) in
    let taken =
      take-Layout bs' t.arenas t.start_free t.end_free chunk.inv.layout (16 + c)
        (omega (arith, chunk.fits)) in
    let first : Layout bs1 t.arenas (t.start_free + size_of c) t.end_free =
      subst (λ x. Layout bs1 t.arenas (t.start_free + x) t.end_free) (omega arith) taken in
    let s2 : Alloc = record (cut_off t c (suc (suc k))) {
      free_list = update t.free_list c (t.start_free + size_of c);
    } in
    let fits : span (size_of c) (suc k) ≤ t.end_free - (t.start_free + size_of c) =
      omega (arith, chunk.fits) in
    let (m, bs2, linked, layout, at, others, chain, kept) =
      link_blocks_lem k s2 bs1 (t.start_free + size_of c) t.end_free c first fits in
    let class_list : bs2 c ≡ blocks_from (t.start_free + size_of c) (size_of c) (suc k) =
      at
      ∙ ap (λ xs. xs ++ blocks_from (t.start_free + size_of c) (size_of c) (suc k))
          (update_ne bs' (16 + c) _ c (omega arith) ∙ chunk.none_there) in
    let same : (j : ℕ) → j < nfreelists → j ≢ c → bs2 j ≡ bs' j =
      λ j l ne. others j ne ∙ update_ne bs' (16 + c) _ j (omega arith) in
    (
      m,
      bs2,
      refill_run m linked,
      record {
        layout = subst (λ x. Layout bs2 t.arenas x t.end_free) (omega arith) layout;
        chained = λ j l. elim (Bool-cases (j == c)) [
          | inl e ↦
              rw
                ((==_iff j c).0 e, update_self t.free_list c (t.start_free + size_of c), class_list)
                chain
          | inr e ↦
              let ne = differs j c e in
              rw (update_ne t.free_list c (t.start_free + size_of c) j ne, same j l ne)
                (Chain-agree t.links m (t.free_list j) (bs' j)
                  (λ q g. kept q (
                    clear-Out bs1 t.arenas (t.start_free + size_of c) t.end_free (size_of c) (suc k)
                      j q first fits (omega arith)
                      (rw (update_ne bs' (16 + c) (t.start_free ∷ bs' (16 + c)) j (omega arith))
                        g)))
                  (chunk.inv.chained j l))
        ];
        bounded = chunk.inv.bounded;
        sized = chunk.inv.sized;
      },
      record {
        granted = others (16 + c) (omega arith) ∙ update_self bs' (16 + c) _;
        others = λ j l ne. others j (omega arith) ∙ update_ne bs' (16 + c) _ j ne;
      },
    )
  where
    refill_run :
        (m : Ptr → Option Ptr)
        → link_blocks
            (suc k)
            (record (cut_off t c (suc (suc k))) {
              free_list = update t.free_list c (t.start_free + size_of c);
            })
            (t.start_free + size_of c)
            (size_of c)
          ≡ ok (refilled t c (suc (suc k)) m)
        → refill ms s (size_of c) ≡ ok (t.start_free, ms', refilled t c (suc (suc k)) m)
    refill_run m linked =
        let index = freelist_index-size_of c h in
        let two : (suc (suc k) == 1) ≡ false = ==_ne (suc (suc k)) 1 (λ d. omega (arith, d)) in
        let one_less : suc (suc k) - 1 ≡ suc k = omega arith in
        rw (refill, run, two, set_list, index, lt→ltb c nfreelists h, one_less, linked) refl

-- `_S_refill` for an empty free list, with enough fuel, where `malloc` gives what it is asked for.
pub refill_lem :
    (s : Alloc) (bs : Blocks) (c : ℕ) (ms : List Ptr)
    → Inv s bs
    → c < nfreelists
    → bs c ≡ []
    → Gives s (alloc_bytes s (size_of c * 20)) ms
    → (p : Ptr) × (ms' : List Ptr) × (t : Alloc) × (bs' : Blocks) × (refill ms s (size_of c)
        ≡ ok (p, ms', t))
      × Inv t bs'
      × Granted bs bs' c p
refill_lem s bs c ms v h none_there gives =
    let (k, ms', t, bs', run, chunk) = chunk_alloc_lem s bs c ms v h none_there gives in
    by_count k ms' t bs' run chunk
  where
    by_count :
        (k : ℕ) (ms' : List Ptr) (t : Alloc) (bs' : Blocks)
        → chunk_alloc 3 ms s (size_of c) 20 ≡ ok (t.start_free, k, ms', cut_off t c k)
        → Chunk bs c k t bs'
        → (p : Ptr) × (ms'' : List Ptr) × (t' : Alloc) × (bs'' : Blocks) × (refill ms s (size_of c)
            ≡ ok (p, ms'', t'))
          × Inv t' bs''
          × Granted bs bs'' c p
    by_count zero ms' t bs' run chunk = absurd (omega (arith, chunk.some_block))
    by_count (suc zero) ms' t bs' run chunk =
        let (done, inv) = refill_one s t bs bs' c ms ms' h run chunk in
        (
          t.start_free,
          ms',
          cut_off t c 1,
          update bs' (16 + c) (t.start_free ∷ bs' (16 + c)),
          done,
          inv,
          record {
            granted =
                update_self bs' (16 + c) _
                ∙ ap (λ xs. t.start_free ∷ xs) (chunk.used (16 + c) (omega arith));
            others = λ j l ne. update_ne bs' (16 + c) _ j ne ∙ chunk.used j l;
          },
        )
    by_count (suc (suc k)) ms' t bs' run chunk =
        let (m, bs2, done, inv, g) = refill_more s t bs bs' c k ms ms' h run chunk in
        (
          t.start_free,
          ms',
          refilled t c (suc (suc k)) m,
          bs2,
          done,
          inv,
          record {
            granted = g.granted ∙ ap (λ xs. t.start_free ∷ xs) (chunk.used (16 + c) (omega arith));
            others = λ j l ne. g.others j l ne ∙ chunk.used j l;
          },
        )
