-- ===== src/Allocator/Growth.antt =====
-- The last branch of `_S_chunk_alloc`: what is left of the pool goes into a free list, and the pool is a
-- new region.
use cpp_project.Base.{
  ℕ, ◌+◌, ◌-◌, ◌/◌, ◌%◌, ◌^◌, ◌≤◌, ◌<◌, ◌≡◌, refl, sym, ap, subst, ◌∙◌, ◌≢◌, inl, inr, Bool-cases,
  true, List, [], ◌∷◌, ltb, ltb→lt, ltb→le, ==_ne, if◌then◌else◌, arith, update, update_ne, All-Has,
  Out, ok,
}
use cpp_project.Allocator.{
  Ptr, Alloc, align, max_bytes, nfreelists, freelist_index, round_up, in_arenas, push, malloc,
  alloc_bytes, new_pool, grow,
}
use cpp_project.Allocator.Layout.{
  Layout, Blocks, size_of, size_of-freelist_index, IsNew, put-Layout, cut-Layout, arena-Layout,
  in_arenas_part,
}
use cpp_project.Allocator.Chains.{Inv, after_push, push_run, push-Chained}
use cpp_project.Allocator.Linking.{pool_real}
use cpp_project.Allocator.Search.{Listed, search_lists_lem}

-- `q` is a region of `n` bytes that is not NULL, apart from the regions before, and ends below 2^64.
abbrev pub IsRegion : Alloc → ℕ → Ptr → Type 0
IsRegion s n q = (q ≢ 0) × IsNew q n s.arenas × (q + n < 2 ^ 64)

-- `malloc` gives a region when it is first asked for `n` bytes, or when it is asked again.
pub data Gives (s : Alloc) (n : ℕ) : List Ptr → Type 0 where
  at_once : (q : Ptr) (ms : List Ptr) → IsRegion s n q → Gives s n (q ∷ ms)
  again : (q : Ptr) (ms : List Ptr) → IsRegion s n q → Gives s n (0 ∷ q ∷ ms)

pub alloc_bytes_lem :
    (s : Alloc) (total : ℕ)
    → s.heap_size < 2 ^ 64
    → total ≤ 2560
    → total % 8 ≡ 0
    → (total ≤ alloc_bytes s total) × (alloc_bytes s total % 8 ≡ 0)
unfolding alloc_bytes round_up
alloc_bytes_lem s total h l m = (omega arith, omega arith)

new_pool-Inv :
    (t : Alloc) (bs : Blocks) (z q n : ℕ)
    → Listed t bs z
    → IsRegion t n q
    → n % 8 ≡ 0
    → Inv (new_pool t q n) bs
unfolding new_pool
new_pool-Inv t bs z q n listed (real, new, bound) m = record {
  layout = rw (==_ne q 0 real) (arena-Layout bs t.arenas z z listed.layout q n real m new);
  chained = listed.chained;
  bounded = bound;
  sized = omega arith;
}

ends : (t : Alloc) (q n : ℕ) → (new_pool t q n).end_free ≡ (new_pool t q n).start_free + n
unfolding new_pool
ends t q n = refl

module _ (s : Alloc) (bs : Blocks) (v : Inv s bs) (c : ℕ) (e : bs c ≡ []) where
  abbrev left : ℕ
  left = s.end_free - s.start_free

  -- What is left, less than a block of class `c`, goes into the list of its size.
  spare_outcome :
      left < size_of c
      → (t : Alloc) × (bs' : Blocks) × ((if ltb 0 left
            then push s (freelist_index left) s.start_free
            else ok s)
          ≡ ok t)
        × Listed t bs' s.end_free
        × (bs' c ≡ [])
        × ((j : ℕ) → 16 ≤ j → bs' j ≡ bs j)
        × (t.arenas ≡ s.arenas)
        × (t.heap_size ≡ s.heap_size)
  spare_outcome small = elim (Bool-cases (ltb 0 left)) [
    | inr none_left ↦
        let same : s.start_free ≡ s.end_free =
          omega (arith, ltb→le 0 left none_left, v.layout.ordered) in
        (
          s,
          bs,
          rw none_left refl,
          record {
            layout = subst (λ z. Layout bs s.arenas z s.end_free) same v.layout;
            chained = v.chained;
          },
          e,
          λ j l. refl,
          refl,
          refl,
        )
    | inl some_left ↦
        let positive : 0 < left = ltb→lt 0 left some_left in
        let d = freelist_index left in
        let (in_range, rounded, _, _, same) =
          size_of-freelist_index left positive (omega (arith, small)) in
        let size : size_of d ≡ left = rounded ∙ same v.layout.whole in
        let (within, real) =
          pool_real bs s.arenas s.start_free s.end_free v.layout d (omega (arith, size)) in
        let fits : in_arenas s.start_free 8 s.arenas ≡ true =
          in_arenas_part s.arenas s.start_free left s.start_free 8 within (omega arith)
            (omega (arith, v.layout.whole)) in
        let out : (k : ℕ) → Out s.start_free (bs k) = λ k.
          All-Has (λ q. q ≢ s.start_free) (bs k)
            λ q g same. absurd (ground (arith, v.layout.clear k q g, same)) in
        let cut =
          cut-Layout bs s.arenas s.start_free s.end_free v.layout left (omega arith)
            v.layout.whole in
        let emptied : s.start_free + left ≡ s.end_free = omega (arith, v.layout.ordered) in
        (
          after_push s d s.start_free,
          update bs d (s.start_free ∷ bs d),
          rw some_left (push_run s d s.start_free in_range fits),
          record {
            layout =
                put-Layout bs s.arenas s.end_free s.end_free
                  (subst (λ z. Layout bs s.arenas z s.end_free) emptied cut) d s.start_free
                  (s.start_free ∷ bs d)
                  (λ q h. elim h [ inl same ↦ inr (sym same) | inr g ↦ inl g ])
                  (out d, v.layout.distinct d) (rw size within) real (inl (omega (arith, size)))
                  (λ i q g. rw size (v.layout.clear i q g));
            chained = push-Chained s bs d s.start_free v.chained in_range (λ k l. out k);
          },
          update_ne bs d _ c (λ same. absurd (omega (arith, size, ap size_of same))) ∙ e,
          λ j l. update_ne bs d _ j (omega arith),
          refl,
          refl,
        )
  ]

  -- Where `malloc` fails at first, the pool is what it returns then.
  pub retry_lem :
      (total : ℕ) (q : Ptr) (rest : List Ptr)
      → left < size_of c
      → c < nfreelists
      → (t : Alloc) × (bs' : Blocks) × (grow (0 ∷ q ∷ rest) s (size_of c) total left
          ≡ ok (rest, new_pool t q (alloc_bytes s total)))
        × Listed t bs' s.end_free
        × (bs' c ≡ [])
        × ((j : ℕ) → 16 ≤ j → bs' j ≡ bs j)
        × (t.arenas ≡ s.arenas)
  unfolding grow malloc
  retry_lem total q rest small in_range =
      let (t, bs', run, listed, none_there, used, same, heap) = spare_outcome small in
      let t0 : Alloc = record t { start_free = 0 } in
      let (t2, bs2, run', listed', fewer, same', heap') =
        search_lists_lem ((max_bytes + align - size_of c) / align) (size_of c) t0 bs' s.end_free
          (record { layout = listed.layout; chained = listed.chained }) (omega arith)
          (omega arith) in
      (
        t2,
        bs2,
        rw (grow, run, malloc, run') refl,
        listed',
        fewer.empty c none_there,
        λ j l'. fewer.used j l' ∙ used j l',
        same' ∙ same,
      )

  -- `grow` makes the pool the region that `malloc` gives.
  pub grow_lem :
      (total : ℕ) (ms : List Ptr)
      → left < size_of c
      → c < nfreelists
      → total ≤ 2560
      → total % 8 ≡ 0
      → Gives s (alloc_bytes s total) ms
      → (ms' : List Ptr) × (t : Alloc) × (bs' : Blocks) × (grow ms s (size_of c) total left
          ≡ ok (ms', t))
        × Inv t bs'
        × (bs' c ≡ [])
        × ((j : ℕ) → 16 ≤ j → bs' j ≡ bs j)
        × (t.end_free ≡ t.start_free + alloc_bytes s total)
        × (t.heap_size < 2 ^ 64)
  unfolding grow malloc
  grow_lem total ms small in_range l m (at_once q rest (real, new, bound)) =
      let (t, bs', run, listed, none_there, used, same, heap) = spare_outcome small in
      let pool =
        new_pool-Inv t bs' s.end_free q (alloc_bytes s total) listed (real, rw same new, bound)
          (alloc_bytes_lem s total v.sized l m).1 in
      (
        rest,
        new_pool t q (alloc_bytes s total),
        bs',
        rw (grow, run, malloc, ==_ne q 0 real) refl,
        pool,
        none_there,
        used,
        ends t q (alloc_bytes s total),
        pool.sized,
      )
  grow_lem total ms small in_range l m (again q rest (real, new, bound)) =
      let (t, bs', run, listed, none_there, used, same) = retry_lem total q rest small in_range in
      let pool =
        new_pool-Inv t bs' s.end_free q (alloc_bytes s total) listed (real, rw same new, bound)
          (alloc_bytes_lem s total v.sized l m).1 in
      (
        rest,
        new_pool t q (alloc_bytes s total),
        bs',
        run,
        pool,
        none_there,
        used,
        ends t q (alloc_bytes s total),
        pool.sized,
      )
