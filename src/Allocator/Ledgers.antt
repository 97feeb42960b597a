-- ===== src/Allocator/Ledgers.antt =====
-- The blocks in use by class, and what the layout of the blocks says of them.
use cpp_project.Base.{
  ℕ, ◌+◌, ◌≤◌, ◌<◌, ◌≡◌, refl, sym, ap, subst, ◌∙◌, ◌≢◌, inl, inr, Bool-cases, List, [], ◌∷◌, ◌++◌,
  ◌==◌, ==_iff, ==_refl, ==_ne, if◌then◌else◌, arith, All, All-mono, Has, Distinct,
}
use cpp_project.Allocator.{Ptr, Alloc, max_bytes, nfreelists, freelist_index}
use cpp_project.Allocator.Layout.{Blocks}
use cpp_project.Allocator.Chains.{Inv}
use cpp_project.Allocator.Client.{Ledger}

pub blocks_of : ℕ → Ledger → List Ptr
blocks_of c [] = []
blocks_of c ((p, n) ∷ held) =
    let rest = blocks_of c held in if freelist_index n == c then p ∷ rest else rest

pub blocks_of_nil : (c : ℕ) → blocks_of c [] ≡ []
unfolding blocks_of
blocks_of_nil c = refl

pub blocks_of_same :
    (c p n : ℕ) (held : Ledger)
    → freelist_index n ≡ c
    → blocks_of c ((p, n) ∷ held) ≡ p ∷ blocks_of c held
unfolding blocks_of
blocks_of_same c p n held e = rw (e, ==_refl c) refl

pub blocks_of_other :
    (c p n : ℕ) (held : Ledger)
    → freelist_index n ≢ c
    → blocks_of c ((p, n) ∷ held) ≡ blocks_of c held
unfolding blocks_of
blocks_of_other c p n held ne = rw (==_ne (freelist_index n) c ne) refl

pub blocks_of-append :
    (c : ℕ) (xs ys : Ledger) → blocks_of c (xs ++ ys) ≡ blocks_of c xs ++ blocks_of c ys
unfolding blocks_of
blocks_of-append c [] ys = refl
blocks_of-append c ((p, n) ∷ xs) ys = elim (Bool-cases (freelist_index n == c)) [
  | inl e ↦ rw e (ap (λ r. p ∷ r) (blocks_of-append c xs ys))
  | inr e ↦ rw e (blocks_of-append c xs ys)
]

-- The blocks of a ledger with a block in its midst.
pub blocks_of-middle :
    (c p n : ℕ) (xs ys : Ledger)
    → freelist_index n ≡ c
    → blocks_of c (xs ++ (p, n) ∷ ys) ≡ blocks_of c xs ++ p ∷ blocks_of c ys
blocks_of-middle c p n xs ys e =
    blocks_of-append c xs ((p, n) ∷ ys) ∙ ap (λ r. blocks_of c xs ++ r) (blocks_of_same c p n ys e)

pub blocks_of-elsewhere :
    (c p n : ℕ) (xs ys : Ledger)
    → freelist_index n ≢ c
    → blocks_of c (xs ++ (p, n) ∷ ys) ≡ blocks_of c (xs ++ ys)
blocks_of-elsewhere c p n xs ys ne =
    blocks_of-append c xs ((p, n) ∷ ys)
    ∙ ap (λ r. blocks_of c xs ++ r) (blocks_of_other c p n ys ne)
    ∙ sym (blocks_of-append c xs ys)

pub blocks_of-weaken :
    (c q p n : ℕ) (held : Ledger) → Has q (blocks_of c held) → Has q (blocks_of c ((p, n) ∷ held))
unfolding blocks_of
blocks_of-weaken c q p n held h = elim (Bool-cases (freelist_index n == c)) [
  | inl e ↦ rw e (inr h)
  | inr e ↦ rw e h
]

pub blocks_of-Distinct :
    (c p n : ℕ) (held : Ledger)
    → Distinct (blocks_of c ((p, n) ∷ held))
    → Distinct (blocks_of c held)
unfolding blocks_of
blocks_of-Distinct c p n held d = elim (Bool-cases (freelist_index n == c)) [
  | inl e ↦ (subst Distinct (blocks_of_same c p n held ((==_iff (freelist_index n) c).0 e)) d).1
  | inr e ↦ subst Distinct (blocks_of_other c p n held (ground (arith, e))) d
]

abbrev pub IsListed : Ledger → Ptr × ℕ → Type 0
IsListed held b = Has b.0 (blocks_of (freelist_index b.1) held)

pub All-IsListed : (held : Ledger) → All (IsListed held) held
All-IsListed [] = tt
All-IsListed ((p, n) ∷ held) = (
  subst (Has p) (sym (blocks_of_same (freelist_index n) p n held refl)) (inl refl),
  All-mono (IsListed held) (IsListed ((p, n) ∷ held))
      (λ (q, m) h. blocks_of-weaken (freelist_index m) q p n held h) held (All-IsListed held),
)

abbrev pub HasClass : Ptr × ℕ → Type 0
HasClass b = (1 ≤ b.1) × (b.1 ≤ max_bytes)

-- The state is laid out, and its blocks in use are those of the ledger.
pub record Good (s : Alloc) (bs : Blocks) (held : Ledger) : Type 0 where
  pub inv : Inv s bs
  pub sizes : All HasClass held
  pub used : (c : ℕ) → c < nfreelists → bs (16 + c) ≡ blocks_of c held
