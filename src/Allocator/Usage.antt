-- ===== src/Allocator/Usage.antt =====
-- The blocks in use: clear of each other, and free to be written.
use cpp_project.Base.{
  ℕ, ◌+◌, ◌-◌, ◌≤◌, ◌<◌, ◌≡◌, refl, sym, subst, inl, inr, true, Option, [], ◌∷◌, arith, update,
  update_ne, All, All-zip, All-Has, Has, Out-Has, Distinct,
}
use cpp_project.Allocator.{Ptr, Alloc, nfreelists, freelist_index, in_arenas}
use cpp_project.Allocator.Layout.{Blocks, size_of, size_of-freelist_index, Apart, in_arenas_part}
use cpp_project.Allocator.Chains.{Inv, Chain-agree}
use cpp_project.Allocator.Client.{Ledger, Sound, FreeList}
use cpp_project.Allocator.Ledgers.{
  blocks_of, blocks_of_same, blocks_of-weaken, blocks_of-Distinct, IsListed, All-IsListed, HasClass,
  Good,
}

-- A ledger whose blocks are blocks in use.
module _ (s : Alloc) (bs : Blocks) (v : Inv s bs) where
  pub listed-Sound :
      (held : Ledger)
      → All HasClass held
      → ((c : ℕ) → c < nfreelists → Distinct (blocks_of c held))
      → ((c q : ℕ) → c < nfreelists → Has q (blocks_of c held) → Has q (bs (16 + c)))
      → Sound s held
  listed-Sound [] sizes d used = tt
  listed-Sound ((p, n) ∷ held) ((h, l), sizes) d used =
      let (in_range, rounded, large, _, _) = size_of-freelist_index n h l in
      let c = freelist_index n in
      let here = blocks_of_same c p n held refl in
      let member = used c p in_range (subst (Has p) (sym here) (inl refl)) in
      (
        v.layout.real (16 + c) p member,
        in_arenas_part s.arenas p (size_of (16 + c)) p n (v.layout.inside (16 + c) p member)
            (omega arith) (omega (arith, rounded, large)),
        All-zip HasClass (IsListed held) (λ b. Apart p n b.0 b.1)
            (λ (q, m) (h', l') g.
              let (in_range', rounded', large', _, _) = size_of-freelist_index m h' l' in
              elim (v.layout.apart (16 + c) (16 + freelist_index m) p q member (
                used (freelist_index m) q in_range'
                  (blocks_of-weaken (freelist_index m) q p n held g))) [
                    | inl (same, same_block) ↦
                        let out = (subst Distinct here (d c in_range)).0 in
                        absurd (
                          Out-Has p (blocks_of c held) out (
                            subst (λ r. Has r (blocks_of c held)) (sym same_block)
                              (subst (λ e. Has q (blocks_of e held)) (omega (arith, same)) g)))
                    | inr a ↦ ground (arith, a, rounded, large, rounded', large')
                  ])
            held sizes (All-IsListed held),
        listed-Sound held sizes (λ e r. blocks_of-Distinct e p n held (d e r))
            (λ e q r g. used e q r (blocks_of-weaken e q p n held g)),
      )

  -- A write within a block in use leaves the free lists as they are.
  pub write-Inv :
      (c p n q : ℕ) (x : Option Ptr)
      → 16 ≤ c
      → Has p (bs c)
      → p ≤ q
      → q + 8 ≤ p + size_of c
      → Inv (record s { links = update s.links q x }) bs
  write-Inv c p n q x live member lo hi = record {
    layout = v.layout;
    chained = λ i l.
        Chain-agree s.links (update s.links q x) (s.free_list i) (bs i)
          (λ r g. update_ne s.links q x r λ d. elim (v.layout.apart c i p r member g) [
            | inl (same, _) ↦ absurd (omega (arith, same))
            | inr a ↦ absurd (ground (arith, a, d))
          ])
          (v.chained i l);
    bounded = v.bounded;
    sized = v.sized;
  }

-- A free list of a state whose blocks in use are those of the ledger.
pub free-FreeList :
    (s : Alloc) (bs : Blocks) (held : Ledger) (i : ℕ)
    → Good s bs held
    → i < nfreelists
    → FreeList s held i
free-FreeList s bs held i v h = record {
  blocks = bs i;
  chain = v.inv.chained i h;
  inside = All-Has (λ q. in_arenas q (size_of i) s.arenas ≡ true) (bs i) (v.inv.layout.inside i);
  unused =
      All-Has (λ q. All (λ b. Apart b.0 b.1 q (size_of i)) held) (bs i)
        λ q g.
          All-zip HasClass (IsListed held) (λ b. Apart b.0 b.1 q (size_of i))
            (λ (p, n) (h', l') listed.
              let (in_range, rounded, large, _, _) = size_of-freelist_index n h' l' in
              let c = freelist_index n in
              elim (v.inv.layout.apart (16 + c) i p q
                (subst (Has p) (sym (v.used c in_range)) listed) g) [
                  | inl (same, _) ↦ absurd (omega (arith, same))
                  | inr a ↦ ground (arith, a, rounded, large)
                ])
            held v.sizes (All-IsListed held);
  clear =
      All-Has (λ q. Apart q (size_of i) s.start_free (s.end_free - s.start_free)) (bs i)
        (v.inv.layout.clear i);
}
