-- ===== src/Allocator/Chains.antt =====
-- The free lists in memory, and what putting a block into a list and taking one out of it make of them.
use cpp_project.Base.{
  ℕ, ◌^◌, ◌<◌, ◌≡◌, refl, subst, ◌∙◌, ◌≢◌, inl, inr, Bool-cases, true, Option, some, List, [], ◌∷◌,
  ◌==◌, ==_iff, ==_ne, lt→ltb, arith, update, update_self, update_ne, Has, Out, ok,
}
use cpp_project.Allocator.{
  Ptr, Alloc, in_arenas, nfreelists, get_link, set_link, get_list, set_list, push, pop,
}
use cpp_project.Allocator.Layout.{Layout, Blocks}

-- From `p` the links lead through these blocks to NULL.
abbrev pub Chain : (Ptr → Option Ptr) → Ptr → List Ptr → Type 0
Chain m p [] = p ≡ 0
Chain m p (q ∷ qs) = (p ≡ q) × ((r : Ptr) × (m q ≡ some r) × Chain m r qs)

pub Chain-frame :
    (m : Ptr → Option Ptr) (q : Ptr) (v : Option Ptr) (p : Ptr) (ps : List Ptr)
    → Out q ps
    → Chain m p ps
    → Chain (update m q v) p ps
Chain-frame m q v p [] o c = c
Chain-frame m q v p (r ∷ rs) o (e, (x, at, c)) =
    (e, (x, update_ne m q v r o.0 ∙ at, Chain-frame m q v x rs o.1 c))

-- Other links at the blocks would change it, at other addresses they do not.
pub Chain-agree :
    (m m' : Ptr → Option Ptr) (p : Ptr) (ps : List Ptr)
    → ((q : Ptr) → Has q ps → m' q ≡ m q)
    → Chain m p ps
    → Chain m' p ps
Chain-agree m m' p [] same c = c
Chain-agree m m' p (q ∷ qs) same (e, (r, at, c)) =
    (e, (r, same q (inl refl) ∙ at, Chain-agree m m' r qs (λ x h. same x (inr h)) c))

abbrev pub Chained : Alloc → Blocks → Type 0
Chained s bs = (i : ℕ) → i < nfreelists → Chain s.links (s.free_list i) (bs i)

-- The state and its blocks.
pub record Inv (s : Alloc) (bs : Blocks) : Type 0 where
  pub layout : Layout bs s.arenas s.start_free s.end_free
  pub chained : Chained s bs
  pub bounded : s.end_free < 2 ^ 64
  pub sized : s.heap_size < 2 ^ 64

abbrev pub after_push : Alloc → ℕ → Ptr → Alloc
after_push s i p = record s {
  links = update s.links p (some (s.free_list i));
  free_list = update s.free_list i p;
}

pub push_run :
    (s : Alloc) (i : ℕ) (p : Ptr)
    → i < nfreelists
    → in_arenas p 8 s.arenas ≡ true
    → push s i p ≡ ok (after_push s i p)
unfolding push get_list set_link set_list
push_run s i p h within =
    rw (push, get_list, lt→ltb i nfreelists h, set_link, within, set_list) refl

pub push-Chained :
    (s : Alloc) (bs : Blocks) (i : ℕ) (p : Ptr)
    → Chained s bs
    → i < nfreelists
    → ((k : ℕ) → k < nfreelists → Out p (bs k))
    → Chained (after_push s i p) (update bs i (p ∷ bs i))
push-Chained s bs i p c h out k l = elim (Bool-cases (k == i)) [
  | inl e ↦
      let same = (==_iff k i).0 e in
      rw (same, update_self s.free_list i p, update_self bs i (p ∷ bs i))
        (
          refl,
          (
            s.free_list i,
            update_self s.links p (some (s.free_list i)),
            Chain-frame s.links p _ _ (bs i) (out i h) (c i h),
          ),
        )
  | inr e ↦
      let ne : k ≢ i = ground (arith, e) in
      rw (update_ne s.free_list i p k ne, update_ne bs i (p ∷ bs i) k ne)
        (Chain-frame s.links p _ _ (bs k) (out k l) (c k l))
]

pub pop_empty :
    (s : Alloc) (bs : Blocks) (i : ℕ)
    → Chained s bs
    → i < nfreelists
    → bs i ≡ []
    → pop s i ≡ ok (0, s)
unfolding pop get_list
pop_empty s bs i c h e =
    let null : s.free_list i ≡ 0 = subst (Chain s.links (s.free_list i)) e (c i h) in
    rw (pop, get_list, lt→ltb i nfreelists h, null) refl

-- The first block of a list is taken out of it.
pub pop_cons :
    (s : Alloc) (bs : Blocks) (i : ℕ) (p : Ptr) (ps : List Ptr)
    → Chained s bs
    → i < nfreelists
    → bs i ≡ p ∷ ps
    → p ≢ 0
    → (r : Ptr) × (pop s i ≡ ok (p, record s { free_list = update s.free_list i r }))
      × Chained (record s { free_list = update s.free_list i r }) (update bs i ps)
unfolding pop get_list get_link set_list
pop_cons s bs i p ps c h e ne =
    let (at_head, (r, at, rest)) = subst (Chain s.links (s.free_list i)) e (c i h) in
    (
      r,
      rw (pop, get_list, lt→ltb i nfreelists h, at_head, ==_ne p 0 ne, get_link, at, set_list) refl,
      λ k l. elim (Bool-cases (k == i)) [
        | inl d ↦ rw ((==_iff k i).0 d, update_self s.free_list i r, update_self bs i ps) rest
        | inr d ↦
            let ne' : k ≢ i = ground (arith, d) in
            rw (update_ne s.free_list i r k ne', update_ne bs i ps k ne') (c k l)
      ],
    )
