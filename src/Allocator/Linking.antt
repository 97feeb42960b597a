-- ===== src/Allocator/Linking.antt =====
-- The loop of `_S_refill`: blocks cut off the pool are linked into a chain.
use mathlib.Core.List.{append-nil, append_assoc}
use cpp_project.Base.{
  ℕ, zero, suc, ◌+◌, ◌-◌, ◌≤◌, ◌<◌, ◌≡◌, refl, sym, ap, subst, ◌∙◌, ◌≢◌, ◌⊎◌, inl, inr, true,
  Option, some, List, [], ◌∷◌, ◌++◌, arith, update, update_self, update_ne, All, All-mono, All-Has,
  Has, Has-append, Out, Distinct, Distinct-put, ok,
}
use cpp_project.Allocator.{Ptr, Alloc, Arenas, in_arenas, set_link, link_blocks}
use cpp_project.Allocator.Layout.{Layout, Blocks, size_of, put-Layout, cut-Layout, in_arenas_part}
use cpp_project.Allocator.Chains.{Chain}

-- `k` blocks of `n` bytes from `p` on, and the bytes that they take.
abbrev pub span : ℕ → ℕ → ℕ
span n zero = 0
span n (suc k) = n + span n k

abbrev pub blocks_from : Ptr → ℕ → ℕ → List Ptr
blocks_from p n zero = []
blocks_from p n (suc k) = p ∷ blocks_from (p + n) n k

pub blocks_from_above : (lo p n k : ℕ) → lo < p → All (λ q. lo < q) (blocks_from p n k)
blocks_from_above lo p n zero h = tt
blocks_from_above lo p n (suc k) h = (h, blocks_from_above lo (p + n) n k (omega arith))

pub blocks_from-Out : (p n k : ℕ) → 0 < n → Out p (blocks_from (p + n) n k)
blocks_from-Out p n k h =
    All-mono (λ q. p < q) (λ q. q ≢ p) (λ q l d. absurd (omega (arith, l, d)))
      (blocks_from (p + n) n k) (blocks_from_above p (p + n) n k (omega arith))

pub blocks_from-within :
    (p n k : ℕ) → 0 < n → All (λ q. (p ≤ q) × (q < p + span n k)) (blocks_from p n k)
blocks_from-within p n zero h = tt
blocks_from-within p n (suc k) h = (
  (omega arith, omega arith),
  All-mono (λ q. (p + n ≤ q) × (q < p + n + span n k)) (λ q. (p ≤ q) × (q < p + span n (suc k)))
      (λ q (l, m). (omega arith, omega arith)) (blocks_from (p + n) n k)
      (blocks_from-within (p + n) n k h),
)

-- A block of class `c` is cut off the pool and put behind or before the blocks of its class.
module _ (bs : Blocks) (as' : Arenas) (p e : Ptr) (v : Layout bs as' p e) (c : ℕ)
    (h : size_of c ≤ e - p) where
  pub pool_real : (in_arenas p (e - p) as' ≡ true) × (p ≢ 0)
  pool_real = elim v.pool_inside [ inl d ↦ absurd (omega arith) | inr a ↦ a ]

  pub pool-Out : (i : ℕ) → Out p (bs i)
  pool-Out i = All-Has (λ q. q ≢ p) (bs i) λ q g d. absurd (ground (arith, v.clear i q g, d))

  carved-Layout :
      (zs : List Ptr)
      → ((q : Ptr) → Has q zs → Has q (bs c) ⊎ (q ≡ p))
      → Distinct zs
      → Layout (update bs c zs) as' (p + size_of c) e
  carved-Layout zs old d =
      put-Layout bs as' (p + size_of c) e (cut-Layout bs as' p e v (size_of c) h (omega arith)) c p
        zs old d
        (in_arenas_part as' p (e - p) p (size_of c) pool_real.0 (omega arith) (omega arith))
        pool_real.1 (inl (omega arith)) (λ i q g. ground (arith, v.clear i q g))

  pub carve-Layout : Layout (update bs c (bs c ++ p ∷ [])) as' (p + size_of c) e
  carve-Layout =
      carved-Layout (bs c ++ p ∷ [])
        (λ q g. elim (Has-append q (bs c) (p ∷ []) g) [
          | inl a ↦ inl a
          | inr b ↦ elim b [ inl d ↦ inr (sym d) | inr nowhere ↦ absurd nowhere ]
        ])
        (Distinct-put p (bs c) [] (rw (append-nil (bs c)) (pool-Out c))
          (rw (append-nil (bs c)) (v.distinct c)))

  pub take-Layout : Layout (update bs c (p ∷ bs c)) as' (p + size_of c) e
  take-Layout =
      carved-Layout (p ∷ bs c) (λ q g. elim g [ inl d ↦ inr (sym d) | inr a ↦ inl a ])
        (pool-Out c, v.distinct c)

-- The pool from `cur` on becomes `suc k` linked blocks of class `c`.
pub link_blocks_lem :
    (k : ℕ) (s : Alloc) (bs : Blocks) (cur e c : ℕ)
    → Layout bs s.arenas cur e
    → span (size_of c) (suc k) ≤ e - cur
    → (m : Ptr → Option Ptr) × (bs' : Blocks) × (link_blocks (suc k) s cur (size_of c)
        ≡ ok (record s { links = m }))
      × Layout bs' s.arenas (cur + span (size_of c) (suc k)) e
      × (bs' c ≡ bs c ++ blocks_from cur (size_of c) (suc k))
      × ((j : ℕ) → j ≢ c → bs' j ≡ bs j)
      × Chain m cur (blocks_from cur (size_of c) (suc k))
      × ((q : Ptr) → Out q (blocks_from cur (size_of c) (suc k)) → m q ≡ s.links q)
unfolding link_blocks set_link
link_blocks_lem zero s bs cur e c v h =
    let (within, ne) = pool_real bs s.arenas cur e v c (omega arith) in
    let writable = in_arenas_part s.arenas cur (e - cur) cur 8 within (omega arith) (omega arith) in
    (
      update s.links cur (some 0),
      update bs c (bs c ++ cur ∷ []),
      rw (link_blocks, set_link, writable) refl,
      subst (λ x. Layout (update bs c (bs c ++ cur ∷ [])) s.arenas x e) (omega arith)
          (carve-Layout bs s.arenas cur e v c (omega arith)),
      update_self bs c _,
      λ j ne'. update_ne bs c _ j ne',
      (refl, (0, update_self s.links cur _, refl)),
      λ q o. update_ne s.links cur _ q (λ d. o.0 (sym d)),
    )
link_blocks_lem (suc k) s bs cur e c v h =
    let (within, ne) = pool_real bs s.arenas cur e v c (omega arith) in
    let writable = in_arenas_part s.arenas cur (e - cur) cur 8 within (omega arith) (omega arith) in
    let s1 : Alloc = record s { links = update s.links cur (some (cur + size_of c)) } in
    let bs1 : Blocks = update bs c (bs c ++ cur ∷ []) in
    let (m, bs', run, v', at, others, chain, kept) =
      link_blocks_lem k s1 bs1 (cur + size_of c) e c
        (carve-Layout bs s.arenas cur e v c (omega arith)) (omega arith) in
    let out = blocks_from-Out cur (size_of c) (suc k) (omega arith) in
    (
      m,
      bs',
      rw (link_blocks, set_link, writable) run,
      subst (λ x. Layout bs' s.arenas x e) (omega arith) v',
      at
          ∙ ap (λ xs. xs ++ blocks_from (cur + size_of c) (size_of c) (suc k)) (update_self bs c _)
          ∙ append_assoc (bs c) (cur ∷ []) (blocks_from (cur + size_of c) (size_of c) (suc k)),
      λ j ne'. others j ne' ∙ update_ne bs c _ j ne',
      (refl, (cur + size_of c, kept cur out ∙ update_self s.links cur _, chain)),
      λ q o. kept q o.1 ∙ update_ne s.links cur _ q (λ d. o.0 (sym d)),
    )
