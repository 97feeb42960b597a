-- ===== src/Allocator/Reached.antt =====
-- Every state that a client reaches is laid out, with the blocks in use of its ledger.
use cpp_project.Base.{
  ℕ, ◌+◌, ◌≡◌, refl, sym, ap, subst, ◌∙◌, ◌≢◌, inl, inr, Bool-cases, [], ◌∷◌, ◌++◌, ◌==◌, ==_iff,
  arith, update, update_self, update_ne, All-right, Has, Has-middle, ok, ok_injective, All-drop,
}
use cpp_project.Allocator.{Alloc, new_alloc, freelist_index, deallocate}
use cpp_project.Allocator.Layout.{Blocks, size_of-freelist_index}
use cpp_project.Allocator.Chains.{Inv, after_push}
use cpp_project.Allocator.Moves.{moved}
use cpp_project.Allocator.Refilling.{Granted}
use cpp_project.Allocator.Requests.{allocate_lem, deallocate_lem}
use cpp_project.Allocator.Client.{Ledger, Step, allocated, freed, wrote, Reach, start, next}
use cpp_project.Allocator.Ledgers.{
  blocks_of, blocks_of_same, blocks_of_other, blocks_of-append, HasClass, Good, blocks_of_nil,
  blocks_of-middle, blocks_of-elsewhere,
}
use cpp_project.Allocator.Usage.{write-Inv}

new-Good : Good new_alloc (λ _. []) []
new-Good = record {
  inv = record {
    layout = record {
      inside = λ i p h. absurd h;
      real = λ i p h. absurd h;
      clear = λ i p h. absurd h;
      apart = λ i j p q h g. absurd h;
      distinct = λ i. tt;
      ordered = omega arith;
      whole = omega arith;
      pool_inside = inl refl;
    };
    chained = λ i l. refl;
    bounded = omega arith;
    sized = omega arith;
  };
  sizes = tt;
  used = λ c l. sym (blocks_of_nil c);
}

Granted-Good :
    (s t : Alloc) (bs bs' : Blocks) (held : Ledger) (n p : ℕ)
    → Good s bs held
    → HasClass (p, n)
    → Inv t bs'
    → Granted bs bs' (freelist_index n) p
    → Good t bs' ((p, n) ∷ held)
Granted-Good s t bs bs' held n p v size v' g = record {
  inv = v';
  sizes = (size, v.sizes);
  used = λ c l. elim (Bool-cases (freelist_index n == c)) [
    | inl e ↦
        let same = (==_iff (freelist_index n) c).0 e in
        subst (λ k. bs' (16 + k) ≡ blocks_of k ((p, n) ∷ held)) same
          (g.granted
            ∙ ap (λ xs. p ∷ xs) (v.used (freelist_index n) (rw same l))
            ∙ sym (blocks_of_same (freelist_index n) p n held refl))
    | inr e ↦
        let ne : freelist_index n ≢ c = ground (arith, e) in
        g.others (16 + c) (omega arith) (λ d. ne (omega (arith, d)))
        ∙ v.used c l
        ∙ sym (blocks_of_other c p n held ne)
  ];
}

pub freed-Good :
    (s : Alloc) (bs : Blocks) (xs ys : Ledger) (p n : ℕ)
    → Good s bs (xs ++ (p, n) ∷ ys)
    → (deallocate s p n ≡ ok (after_push s (freelist_index n) p))
      × ((bs' : Blocks) × Good (after_push s (freelist_index n) p) bs' (xs ++ ys))
freed-Good s bs xs ys p n v =
    let (h, l) = (All-right HasClass xs ((p, n) ∷ ys) v.sizes).0 in
    let c = freelist_index n in
    let (in_range, _, _, _, _) = size_of-freelist_index n h l in
    let at = v.used c in_range ∙ blocks_of-middle c p n xs ys refl in
    let (run, v') = deallocate_lem s bs n v.inv h l p (blocks_of c xs) (blocks_of c ys) at in
    let kept = blocks_of c xs ++ blocks_of c ys in
    (
      run,
      (
        moved bs (16 + c) (blocks_of c xs) (blocks_of c ys) c p,
        record {
          inv = v';
          sizes = All-drop HasClass xs (p, n) ys v.sizes;
          used = λ e l'.
              update_ne (update bs (16 + c) kept) c (p ∷ bs c) (16 + e) (omega (arith, in_range))
              ∙ elim (Bool-cases (e == c)) [
                | inl d ↦
                    let same = (==_iff e c).0 d in
                    rw (same, update_self bs (16 + c) kept) (sym (blocks_of-append c xs ys))
                | inr d ↦
                    let ne : e ≢ c = ground (arith, d) in
                    update_ne bs (16 + c) kept (16 + e) (λ g. ne (omega (arith, g)))
                    ∙ v.used e l'
                    ∙ blocks_of-elsewhere e p n xs ys (λ g. ne (sym g))
              ];
        },
      ),
    )

Step-Good :
    (s t : Alloc) (held held' : Ledger) (bs : Blocks)
    → Good s bs held
    → Step s held t held'
    → (bs' : Blocks) × Good t bs' held'
Step-Good _ _ _ _ bs v (allocated s t held n ms ms' p h l gives run) =
    let (p', ms2, t', bs', run', v', g) = allocate_lem s bs n v.inv h l ms gives in
    let same = ok_injective _ _ (sym run' ∙ run) in
    (
      bs',
      subst (λ x. Good x.2 bs' ((x.0, n) ∷ held)) same
          (Granted-Good s t' bs bs' held n p' v (h, l) v' g),
    )
Step-Good _ _ _ _ bs v (freed s t xs ys p n run) =
    let (run', (bs', v')) = freed-Good s bs xs ys p n v in
    (bs', subst (λ x. Good x bs' (xs ++ ys)) (ok_injective _ _ (sym run' ∙ run)) v')
Step-Good _ _ _ _ bs v (wrote s xs ys p n q x lo hi) =
    let (h, l) = (All-right HasClass xs ((p, n) ∷ ys) v.sizes).0 in
    let c = freelist_index n in
    let (in_range, rounded, _, _, _) = size_of-freelist_index n h l in
    let at = v.used c in_range ∙ blocks_of-middle c p n xs ys refl in
    let member = subst (Has p) (sym at) (Has-middle p (blocks_of c xs) (blocks_of c ys)) in
    (
      bs,
      record {
        inv =
            write-Inv s bs v.inv (16 + c) p n q x (omega arith) member lo
              (omega (arith, hi, rounded));
        sizes = v.sizes;
        used = v.used;
      },
    )

pub Reach-Good : (s : Alloc) (held : Ledger) → Reach s held → (bs : Blocks) × Good s bs held
Reach-Good _ _ start = (λ _. [], new-Good)
Reach-Good _ _ (next s0 s held0 held r step) =
    let (bs, v) = Reach-Good s0 held0 r in Step-Good s0 s held0 held bs v step
