-- ===== src/Allocator/Moves.antt =====
-- A block moves between a free list and the blocks in use.
use cpp_project.Base.{
  ℕ, ◌+◌, ◌<◌, ◌≡◌, sym, subst, ◌≢◌, inl, inr, List, [], ◌∷◌, ◌++◌, arith, update, update_ne,
  All-Has, Has, Has-middle, Has-weaken, Out, Out-Has, Distinct, Distinct-drop, ok,
}
use cpp_project.Allocator.{Ptr, Alloc, nfreelists, push, pop}
use cpp_project.Allocator.Layout.{
  Layout, Blocks, Has-update, size_of, Apart, keep-Layout, put-Layout, in_arenas_part,
}
use cpp_project.Allocator.Chains.{Inv, after_push, push_run, push-Chained, pop_cons}

-- The classes with the block `p` moved from the place in class `i` where it is to the front of class `j`.
abbrev pub moved : Blocks → (i : ℕ) → (xs ys : List Ptr) → (j p : ℕ) → Blocks
moved bs i xs ys j p = update (update bs i (xs ++ ys)) j (p ∷ bs j)

module _ (s : Alloc) (bs : Blocks) (v : Inv s bs) (i j p : ℕ) (xs ys : List Ptr)
    (e : bs i ≡ xs ++ p ∷ ys) where
  pub Has-block : Has p (bs i)
  Has-block = subst (Has p) (sym e) (Has-middle p xs ys)

  pub others-Apart :
      (k q : ℕ) → Has q (update bs i (xs ++ ys) k) → Apart q (size_of k) p (size_of i)
  others-Apart k q h = elim (Has-update bs i (xs ++ ys) k q h) [
    | inl (same, g) ↦
        let in_i = subst (Has q) (sym e) (Has-weaken q p xs ys g) in
        let out = (Distinct-drop p xs ys (subst Distinct e (v.layout.distinct i))).0 in
        elim (v.layout.apart i i q p in_i Has-block) [
          | inl (_, d) ↦ absurd (Out-Has p (xs ++ ys) out (subst (λ r. Has r (xs ++ ys)) d g))
          | inr a ↦ rw same a
        ]
    | inr (ne, g) ↦ elim (v.layout.apart k i q p g Has-block) [
      | inl (d, _) ↦ absurd (ne d)
      | inr a ↦ a
    ]
  ]

  pub Out-others : (k : ℕ) → k ≢ i → Out p (bs k)
  Out-others k ne =
      All-Has (λ q. q ≢ p) (bs k)
        λ q h d. elim (v.layout.apart k i q p h Has-block) [
          | inl (a, _) ↦ ne a
          | inr a ↦ absurd (ground (arith, a, d))
        ]

  pub moved-Layout :
      i ≢ j → size_of i ≡ size_of j → Layout (moved bs i xs ys j p) s.arenas s.start_free s.end_free
  moved-Layout ne size =
      let kept =
        keep-Layout bs s.arenas s.start_free s.end_free v.layout i (xs ++ ys)
          (λ q h. subst (Has q) (sym e) (Has-weaken q p xs ys h))
          (Distinct-drop p xs ys (subst Distinct e (v.layout.distinct i))).1 in
      put-Layout (update bs i (xs ++ ys)) s.arenas s.start_free s.end_free kept j p (p ∷ bs j)
        (λ q h. elim h [
          | inl d ↦ inr (sym d)
          | inr g ↦ inl (subst (Has q) (sym (update_ne bs i (xs ++ ys) j (λ d. ne (sym d)))) g)
        ])
        (Out-others j (λ d. ne (sym d)), v.layout.distinct j)
        (rw (← size) (v.layout.inside i p Has-block)) (v.layout.real i p Has-block)
        (rw (← size) (v.layout.clear i p Has-block)) (λ k q h. rw (← size) (others-Apart k q h))

  -- `deallocate` puts a block in use at the front of its free list.
  pub push-Inv :
      j < nfreelists
      → i ≡ 16 + j
      → (push s j p ≡ ok (after_push s j p)) × Inv (after_push s j p) (moved bs i xs ys j p)
  push-Inv h live =
      let within =
        in_arenas_part s.arenas p (size_of i) p 8 (v.layout.inside i p Has-block) (omega arith)
          (omega arith) in
      (
        push_run s j p h within,
        record {
          layout = moved-Layout (omega arith) (omega arith);
          chained = λ k l.
              let same : moved bs i xs ys j p k ≡ update bs j (p ∷ bs j) k = ground arith in
              rw same (push-Chained s bs j p v.chained h (λ m l'. Out-others m (omega arith)) k l);
          bounded = v.bounded;
          sized = v.sized;
        },
      )

-- The first block of a free list is taken into use.
pub pop-Inv :
    (s : Alloc) (bs : Blocks) (v : Inv s bs) (c p : ℕ) (ps : List Ptr)
    → c < nfreelists
    → bs c ≡ p ∷ ps
    → (t : Alloc) × (pop s c ≡ ok (p, t)) × Inv t (moved bs c [] ps (16 + c) p)
pop-Inv s bs v c p ps h e =
    let real = v.layout.real c p (subst (Has p) (sym e) (Has-middle p [] ps)) in
    let (r, run, chained) = pop_cons s bs c p ps v.chained h e real in
    (
      record s { free_list = update s.free_list c r },
      run,
      record {
        layout = moved-Layout s bs v c (16 + c) p [] ps e (omega arith) (omega arith);
        chained = λ k l.
            let same : moved bs c [] ps (16 + c) p k ≡ update bs c ps k = ground arith in
            rw same (chained k l);
        bounded = v.bounded;
        sized = v.sized;
      },
    )
