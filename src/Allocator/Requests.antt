-- ===== src/Allocator/Requests.antt =====
-- `allocate` and `deallocate`, for a state with its blocks.
use cpp_project.Base.{
  ℕ, ◌+◌, ◌*◌, ◌≤◌, ◌≡◌, refl, sym, subst, ◌∙◌, ◌≢◌, inl, inr, List, List-cases, [], ◌∷◌, ◌++◌,
  ==_ne, arith, update, update_self, update_ne, Has, Run, ok,
}
use cpp_project.Allocator.{
  Ptr, Alloc, max_bytes, round_up, alloc_bytes, freelist_index, pop, refill, allocate, deallocate,
}
use cpp_project.Allocator.Layout.{Blocks, size_of, size_of-freelist_index}
use cpp_project.Allocator.Chains.{Inv, after_push, pop_empty}
use cpp_project.Allocator.Moves.{moved, push-Inv, pop-Inv}
use cpp_project.Allocator.Growth.{Gives}
use cpp_project.Allocator.Refilling.{Granted, refill_lem}

pub allocate-pop :
    (s t : Alloc) (n : ℕ) (ms : List Ptr) (p : Ptr)
    → p ≢ 0
    → pop s (freelist_index n) ≡ ok (p, t)
    → allocate ms s n ≡ ok (p, ms, t)
unfolding allocate
allocate-pop s t n ms p ne run = rw (allocate, run, ==_ne p 0 ne) refl

module _ (s : Alloc) (bs : Blocks) (n : ℕ) (v : Inv s bs) (h : 1 ≤ n) (l : n ≤ max_bytes) where
  abbrev class : ℕ
  class = freelist_index n

  pub allocate-refill :
      (ms : List Ptr) (r : Run (Ptr × List Ptr × Alloc))
      → bs class ≡ []
      → refill ms s (size_of class) ≡ r
      → allocate ms s n ≡ r
  unfolding allocate
  allocate-refill ms r e run =
      let (in_range, rounded, _, _, _) = size_of-freelist_index n h l in
      let refills : refill ms s (round_up n) ≡ r = subst (λ x. refill ms s x ≡ r) rounded run in
      rw (allocate, pop_empty s bs class v.chained in_range e, refills) refl

  -- It returns a block.
  pub allocate_lem :
      (ms : List Ptr)
      → Gives s (alloc_bytes s (round_up n * 20)) ms
      → (p : Ptr) × (ms' : List Ptr) × (t : Alloc) × (bs' : Blocks) × (allocate ms s n
          ≡ ok (p, ms', t))
        × Inv t bs'
        × Granted bs bs' class p
  allocate_lem ms gives =
      let (in_range, rounded, _, _, _) = size_of-freelist_index n h l in
      elim (List-cases (bs class)) [
        | inl e ↦
            let (p, ms', t, bs', run, v', g) =
              refill_lem s bs class ms v in_range e
                (subst (λ x. Gives s (alloc_bytes s (x * 20)) ms) (sym rounded) gives) in
            (p, ms', t, bs', allocate-refill ms _ e run, v', g)
        | inr (p, ps, e) ↦
            let (t, run, v') = pop-Inv s bs v class p ps in_range e in
            (
              p,
              ms,
              t,
              moved bs class [] ps (16 + class) p,
              allocate-pop s t n ms p (v.layout.real class p (subst (Has p) (sym e) (inl refl)))
                  run,
              v',
              record {
                granted = update_self (update bs class ps) (16 + class) (p ∷ bs (16 + class));
                others = λ j l' ne.
                    update_ne (update bs class ps) (16 + class) _ j ne
                    ∙ update_ne bs class ps j (omega arith);
              },
            )
      ]

  -- It takes a block in use back.
  pub deallocate_lem :
      (p : Ptr) (xs ys : List Ptr)
      → bs (16 + class) ≡ xs ++ p ∷ ys
      → (deallocate s p n ≡ ok (after_push s class p))
        × Inv (after_push s class p) (moved bs (16 + class) xs ys class p)
  unfolding deallocate
  deallocate_lem p xs ys e =
      let (in_range, _, _, _, _) = size_of-freelist_index n h l in
      let (run, v') = push-Inv s bs v (16 + class) class p xs ys e in_range refl in (run, v')
