-- ===== src/Allocator/Search.antt =====
-- The loop of `_S_chunk_alloc` after `malloc` has failed: free blocks are taken out of their lists.
use cpp_project.Base.{
  ℕ, zero, suc, ◌+◌, ◌*◌, ◌≤◌, ◌<◌, ◌≡◌, refl, sym, ap, subst, ◌∙◌, inl, inr, Bool-cases,
  List-cases, [], ◌==◌, if◌then◌else◌, arith, update, update_ne, Has, Distinct, ok,
}
use cpp_project.Allocator.{
  Ptr, Alloc, align, max_bytes, nfreelists, freelist_index, pop, search_lists,
}
use cpp_project.Allocator.Sizes.{freelist_index_lem}
use cpp_project.Allocator.Layout.{Layout, Blocks, keep-Layout}
use cpp_project.Allocator.Chains.{Chained, pop_empty, pop_cons}

-- The blocks in use are the same, and lists that were empty are.
pub record Fewer (bs bs' : Blocks) : Type 0 where
  pub used : (j : ℕ) → 16 ≤ j → bs' j ≡ bs j
  pub empty : (j : ℕ) → bs j ≡ [] → bs' j ≡ []

-- A state whose pool does not matter.
pub record Listed (s : Alloc) (bs : Blocks) (z : Ptr) : Type 0 where
  pub layout : Layout bs s.arenas z z
  pub chained : Chained s bs

module _ (s : Alloc) (bs : Blocks) (z : Ptr) (v : Listed s bs z) (c : ℕ) (h : c < nfreelists) where
  pop_outcome :
      (p : Ptr) × (t : Alloc) × (bs' : Blocks) × (pop s c ≡ ok (p, t))
      × Listed t bs' z
      × Fewer bs bs'
      × (t.arenas ≡ s.arenas)
      × (t.heap_size ≡ s.heap_size)
  pop_outcome = elim (List-cases (bs c)) [
    | inl e ↦ (
      0,
      s,
      bs,
      pop_empty s bs c v.chained h e,
      v,
      record { used = λ j l. refl; empty = λ j d. d },
      refl,
      refl,
    )
    | inr (p, ps, e) ↦
        let member = subst (Has p) (sym e) (inl refl) in
        let (r, run, chained) = pop_cons s bs c p ps v.chained h e (v.layout.real c p member) in
        (
          p,
          record s { free_list = update s.free_list c r },
          update bs c ps,
          run,
          record {
            layout =
                keep-Layout bs s.arenas z z v.layout c ps (λ q g. subst (Has q) (sym e) (inr g))
                  (subst Distinct e (v.layout.distinct c)).1;
            chained = chained;
          },
          record {
            used = λ j l. update_ne bs c ps j (omega arith);
            empty = λ j d. update_ne bs c ps j (λ same. cc (sym d ∙ ap bs same ∙ e)) ∙ d;
          },
          refl,
          refl,
        )
  ]

-- It takes blocks out of lists, which are lost, and returns.
pub search_lists_lem :
    (n i : ℕ) (s : Alloc) (bs : Blocks) (z : Ptr)
    → Listed s bs z
    → 8 ≤ i
    → i + 8 * n ≤ max_bytes + align
    → (t : Alloc) × (bs' : Blocks) × (search_lists n i s ≡ ok t)
      × Listed t bs' z
      × Fewer bs bs'
      × (t.arenas ≡ s.arenas)
      × (t.heap_size ≡ s.heap_size)
unfolding search_lists
search_lists_lem zero i s bs z v l h =
    (s, bs, refl, v, record { used = λ j l. refl; empty = λ j d. d }, refl, refl)
search_lists_lem (suc n) i s bs z v l h =
    let in_range = ((freelist_index_lem i (omega arith)).0.1) (omega arith, omega arith) in
    let (p, t, bs1, run, v1, fewer, same, heap) =
      pop_outcome s bs z v (freelist_index i) in_range in
    let t' : Alloc = if p == 0 then t else record t { start_free = p; end_free = p + i } in
    let (v2, same2, heap2) = after p t bs1 v1 in
    let (x, bs2, run', v', fewer', same', heap') =
      search_lists_lem n (i + align) t' bs1 z v2 (omega arith) (omega arith) in
    (
      x,
      bs2,
      rw (search_lists, run) run',
      v',
      record {
        used = λ j l'. fewer'.used j l' ∙ fewer.used j l';
        empty = λ j d. fewer'.empty j (fewer.empty j d);
      },
      same' ∙ same2 ∙ same,
      heap' ∙ heap2 ∙ heap,
    )
  where
    after :
        (p : Ptr) (t : Alloc) (bs1 : Blocks)
        → Listed t bs1 z
        → Listed (if p == 0 then t else record t { start_free = p; end_free = p + i }) bs1 z
          × ((if p == 0 then t else record t { start_free = p; end_free = p + i }).arenas
              ≡ t.arenas)
          × ((if p == 0 then t else record t { start_free = p; end_free = p + i }).heap_size
              ≡ t.heap_size)
    after p t bs1 v1 = elim (Bool-cases (p == 0)) [
      | inl e ↦ rw e (v1, refl, refl)
      | inr e ↦ rw e (record { layout = v1.layout; chained = v1.chained }, refl, refl)
    ]
