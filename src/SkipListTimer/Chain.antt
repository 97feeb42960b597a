-- ===== src/SkipListTimer/Chain.antt =====
-- What the heap holds for a list of timers: on each level the pointers lead through the entries that
-- reach that level.
use cpp_project.Base.{
  ℕ, ◌≡◌, refl, sym, ◌∙◌, ◌≢◌, ◌≤◌, Option, none, some, List, [], ◌∷◌, ◌++◌, ltb, if◌then◌else◌, ok,
  arith, inl, inr, Bool-cases, All, All-left, All-right, All-append,
}
use cpp_project.SkipListTimer.Node.{Ptr, Heap, get_next}
use cpp_project.SkipListTimer.Access.{put, get_next-put_self, get_next-put_ne, get_next-put_level}

-- A timer as the client sees it, with the address and the height of its node.
pub record Entry : Type 0 where
  pub ptr : Ptr
  pub score : ℕ
  pub level : ℕ
  pub handle : ℕ

-- The nodes on level `i`.
abbrev pub pick : ℕ → List Entry → List Ptr
pick i [] = []
pick i (e ∷ xs) = if ltb i e.level then e.ptr ∷ pick i xs else pick i xs

-- The last node on level `i`, after `p`.
abbrev pub last_at : ℕ → Ptr → List Entry → Ptr
last_at i p [] = p
last_at i p (e ∷ xs) = last_at i (if ltb i e.level then e.ptr else p) xs

abbrev pub first : List Ptr → Option Ptr
first [] = none
first (p ∷ ps) = some p

-- On level `i` the pointers lead from `p` through `qs` to `NULL`.
abbrev pub Chain : Heap → ℕ → Ptr → List Ptr → Type 0
Chain h i p [] = get_next h p i ≡ ok none
Chain h i p (q ∷ qs) = (get_next h p i ≡ ok (some q)) × Chain h i q qs

abbrev pub Tail : Heap → ℕ → List Ptr → Type 0
Tail h i [] = Unit
Tail h i (q ∷ qs) = Chain h i q qs

abbrev pub Fresh : Ptr → List Entry → Type 0
Fresh p = All (λ e. e.ptr ≢ p)

abbrev pub Distinct : List Entry → Type 0
Distinct [] = Unit
Distinct (e ∷ xs) = Fresh e.ptr xs × Distinct xs

pub pick-append : (i : ℕ) (xs ys : List Entry) → pick i (xs ++ ys) ≡ pick i xs ++ pick i ys
pick-append i [] ys = refl
pick-append i (e ∷ xs) ys = ground (arith, pick-append i xs ys)

pub pick-Fresh : (i : ℕ) (p : Ptr) (xs : List Entry) → Fresh p xs → All (λ q. q ≢ p) (pick i xs)
pick-Fresh i p [] f = tt
pick-Fresh i p (e ∷ xs) f = elim (Bool-cases (ltb i e.level)) [
  | inl t ↦ rw t (f.0, pick-Fresh i p xs f.1)
  | inr t ↦ rw t (pick-Fresh i p xs f.1)
]

-- The last node is neither a node after it nor one that is fresh.
pub last_at-Fresh :
    (i : ℕ) (p : Ptr) (xs ys : List Entry)
    → Fresh p (xs ++ ys)
    → Distinct (xs ++ ys)
    → Fresh (last_at i p xs) ys
last_at-Fresh i p [] ys f d = f
last_at-Fresh i p (e ∷ xs) ys f d = elim (Bool-cases (ltb i e.level)) [
  | inl t ↦ rw t (last_at-Fresh i e.ptr xs ys d.0 d.1)
  | inr t ↦ rw t (last_at-Fresh i p xs ys f.1 d.1)
]

pub last_at-ne :
    (i : ℕ) (p : Ptr) (xs : List Entry) (a : Ptr) → p ≢ a → Fresh a xs → last_at i p xs ≢ a
last_at-ne i p [] a ne f = ne
last_at-ne i p (e ∷ xs) a ne f = elim (Bool-cases (ltb i e.level)) [
  | inl t ↦ rw t (last_at-ne i e.ptr xs a f.0 f.1)
  | inr t ↦ rw t (last_at-ne i p xs a ne f.1)
]

pub last_at-top :
    (i : ℕ) (p : Ptr) (xs : List Entry) → All (λ e. e.level ≤ i) xs → last_at i p xs ≡ p
last_at-top i p [] low = refl
last_at-top i p (e ∷ xs) low = ground (arith, last_at-top i p xs low.1)

module _ (h : Heap) (i : ℕ) where
  -- Two heaps that agree on the nodes of a chain have it both.
  pub Chain-frame :
      (g : Heap) (p : Ptr) (qs : List Ptr)
      → get_next g p i ≡ get_next h p i
      → All (λ q. get_next g q i ≡ get_next h q i) qs
      → Chain h i p qs
      → Chain g i p qs
  Chain-frame g p [] e es c = e ∙ c
  Chain-frame g p (q ∷ qs) e es c = (e ∙ c.0, Chain-frame g q qs es.0 es.1 c.1)

  pub Tail-frame :
      (g : Heap) (qs : List Ptr)
      → All (λ q. get_next g q i ≡ get_next h q i) qs
      → Tail h i qs
      → Tail g i qs
  Tail-frame g [] es c = tt
  Tail-frame g (q ∷ qs) es c = Chain-frame g q qs es.0 es.1 c

  -- What follows the last of the first nodes.
  pub Chain-next :
      (p : Ptr) (xs : List Entry) (zs : List Ptr)
      → Chain h i p (pick i xs ++ zs)
      → get_next h (last_at i p xs) i ≡ ok (first zs)
  Chain-next p [] [] c = c
  Chain-next p [] (z ∷ zs) c = c.0
  Chain-next p (e ∷ xs) zs c = elim (Bool-cases (ltb i e.level)) [
    | inl t ↦ let c' = rw t at c in rw t (Chain-next e.ptr xs zs c'.1)
    | inr t ↦ let c' = rw t at c in rw t (Chain-next p xs zs c')
  ]

  pub Chain-Tail : (p : Ptr) (qs zs : List Ptr) → Chain h i p (qs ++ zs) → Tail h i zs
  Chain-Tail p [] [] c = tt
  Chain-Tail p [] (z ∷ zs) c = c.1
  Chain-Tail p (q ∷ qs) zs c = Chain-Tail q qs zs c.1

  others :
      (a : Ptr) (r : Option Ptr) (qs : List Ptr)
      → All (λ q. q ≢ a) qs
      → All (λ q. get_next (put h a i r) q i ≡ get_next h q i) qs
  others a r [] f = tt
  others a r (q ∷ qs) f = (get_next-put_ne h a i r q i f.0, others a r qs f.1)

  pub Chain-put :
      (a : Ptr) (r : Option Ptr) (p : Ptr) (qs : List Ptr)
      → p ≢ a
      → All (λ q. q ≢ a) qs
      → Chain h i p qs
      → Chain (put h a i r) i p qs
  Chain-put a r p qs ne f c =
      Chain-frame (put h a i r) p qs (get_next-put_ne h a i r p i ne) (others a r qs f) c

  pub Tail-put :
      (a : Ptr) (r : Option Ptr) (qs : List Ptr)
      → All (λ q. q ≢ a) qs
      → Tail h i qs
      → Tail (put h a i r) i qs
  Tail-put a r qs f c = Tail-frame (put h a i r) qs (others a r qs f) c

  pub relink_here :
      (p : Ptr) {r : Option Ptr} (zs : List Ptr)
      → get_next h p i ≡ ok r
      → Tail h i zs
      → All (λ q. q ≢ p) zs
      → Chain (put h p i (first zs)) i p zs
  relink_here p [] e t f = get_next-put_self h p i none e
  relink_here p (z ∷ zs) e t f =
      (get_next-put_self h p i (some z) e, Chain-put p (some z) z zs f.0 f.1 t)

  -- The last of the nodes `xs` is made to point at the first of `zs`.
  pub relink :
      (p : Ptr) (xs : List Entry) (rs zs : List Ptr)
      → Chain h i p (pick i xs ++ rs)
      → Tail h i zs
      → Fresh p xs
      → Distinct xs
      → All (λ q. q ≢ last_at i p xs) zs
      → Chain (put h (last_at i p xs) i (first zs)) i p (pick i xs ++ zs)
  relink p [] rs zs c t f d out = relink_here p zs (Chain-next p [] rs c) t out
  relink p (e ∷ xs) rs zs c t f d out = elim (Bool-cases (ltb i e.level)) [
    | inl b ↦
        let c' = rw b at c in
        let out' = rw b at out in
        rw b (
          get_next-put_ne h (last_at i e.ptr xs) i (first zs) p i
                (λ s. last_at-ne i e.ptr xs p f.0 f.1 (sym s))
              ∙ c'.0,
          relink e.ptr xs rs zs c'.1 t d.0 d.1 out',
        )
    | inr b ↦
        let c' = rw b at c in let out' = rw b at out in rw b (relink p xs rs zs c' t f.1 d.1 out')
  ]

-- A write on another level is not seen.
pub Chain-put_level :
    (h : Heap) (i a j : ℕ) (r : Option Ptr) (p : Ptr) (qs : List Ptr)
    → i ≢ j
    → Chain h i p qs
    → Chain (put h a j r) i p qs
Chain-put_level h i a j r p [] ne c = get_next-put_level h a j r p i ne ∙ c
Chain-put_level h i a j r p (q ∷ qs) ne c =
    (get_next-put_level h a j r p i ne ∙ c.0, Chain-put_level h i a j r q qs ne c.1)

pub Distinct-left : (xs ys : List Entry) → Distinct (xs ++ ys) → Distinct xs
Distinct-left [] ys d = tt
Distinct-left (e ∷ xs) ys d = (All-left _ xs ys d.0, Distinct-left xs ys d.1)

pub Distinct-right : (xs ys : List Entry) → Distinct (xs ++ ys) → Distinct ys
Distinct-right [] ys d = d
Distinct-right (e ∷ xs) ys d = Distinct-right xs ys d.1

pub Distinct-remove :
    (e : Entry) (xs ys : List Entry) → Distinct (xs ++ e ∷ ys) → Distinct (xs ++ ys)
Distinct-remove e [] ys d = d.1
Distinct-remove e (x ∷ xs) ys d = (
  All-append _ xs ys (All-left _ xs (e ∷ ys) d.0) (All-right _ xs (e ∷ ys) d.0).1,
  Distinct-remove e xs ys d.1,
)

-- The entries around `e` are other nodes.
pub Distinct-around :
    (e : Entry) (xs ys : List Entry) → Distinct (xs ++ e ∷ ys) → Fresh e.ptr (xs ++ ys)
Distinct-around e [] ys d = d.0
Distinct-around e (x ∷ xs) ys d =
    (λ s. (All-right _ xs (e ∷ ys) d.0).0 (sym s), Distinct-around e xs ys d.1)
