-- ===== src/Allocator/Layout.antt =====
-- How blocks and the pool lie in the regions that `malloc` gave: each within a region, no two overlapping.
use cpp_project.Base.{
  ℕ, ◌+◌, ◌-◌, ◌*◌, ◌%◌, ◌≤◌, ◌<◌, ◌≡◌, sym, ap, subst, ◌∙◌, ◌≢◌, ◌⊎◌, inl, inr, Bool-cases, true,
  List, [], ◌∷◌, ◌==◌, ==_iff, arith, update, update_self, update_ne, All, Has, Distinct,
}
use cpp_project.Allocator.{Ptr, Arenas, in_arenas, freelist_index, round_up, max_bytes, nfreelists}

-- Class `i` below 16 is that of the free list `i`; class 16 + `i` is that of the blocks in use that belong
-- to it.
abbrev pub size_of : ℕ → ℕ
size_of i = 8 * (i % 16 + 1)

-- The class of a size that has one: its blocks are as large as the size rounded up.
pub size_of-freelist_index :
    (n : ℕ)
    → 1 ≤ n
    → n ≤ max_bytes
    → (freelist_index n < nfreelists)
      × (size_of (freelist_index n) ≡ round_up n)
      × (n ≤ round_up n)
      × (round_up n ≤ max_bytes)
      × (n % 8 ≡ 0 → round_up n ≡ n)
unfolding freelist_index round_up
size_of-freelist_index n h l =
    (omega arith, omega arith, omega arith, omega arith, λ m. omega arith)

abbrev pub Apart : Ptr → ℕ → Ptr → ℕ → Type 0
Apart p n q m = (p + n ≤ q) ⊎ (q + m ≤ p)

abbrev pub Blocks : Type 0
Blocks = ℕ → List Ptr

pub in_arenas_part :
    (as' : Arenas) (p n q m : ℕ)
    → in_arenas p n as' ≡ true
    → p ≤ q
    → q + m ≤ p + n
    → in_arenas q m as' ≡ true
unfolding in_arenas
in_arenas_part [] p n q m h a b = cc
in_arenas_part ((x, l) ∷ as') p n q m h a b = ground (arith, in_arenas_part as' p n q m)

-- The region is apart from those that were given before.
abbrev pub IsNew : Ptr → ℕ → Arenas → Type 0
IsNew q l = All (λ r. Apart r.0 r.1 q l)

pub in_arenas-IsNew :
    (as' : Arenas) (p n q l : ℕ) → in_arenas p n as' ≡ true → IsNew q l as' → Apart p n q l
unfolding in_arenas
in_arenas-IsNew [] p n q l h a = cc
in_arenas-IsNew ((x, k) ∷ as') p n q l h a = ground (arith, a.0, in_arenas-IsNew as' p n q l)

-- The pool is from `s` up to `e`.
pub record Layout (bs : Blocks) (as' : Arenas) (s e : Ptr) : Type 0 where
  pub inside : (i : ℕ) (p : Ptr) → Has p (bs i) → in_arenas p (size_of i) as' ≡ true
  pub real : (i : ℕ) (p : Ptr) → Has p (bs i) → p ≢ 0
  pub clear : (i : ℕ) (p : Ptr) → Has p (bs i) → Apart p (size_of i) s (e - s)
  pub apart :
      (i j : ℕ) (p q : Ptr)
      → Has p (bs i)
      → Has q (bs j)
      → ((i ≡ j) × (p ≡ q)) ⊎ Apart p (size_of i) q (size_of j)
  pub distinct : (i : ℕ) → Distinct (bs i)
  pub ordered : s ≤ e
  pub whole : (e - s) % 8 ≡ 0
  pub pool_inside : (e ≡ s) ⊎ ((in_arenas s (e - s) as' ≡ true) × (s ≢ 0))

pub Has-update :
    (bs : Blocks) (j : ℕ) (zs : List Ptr) (i q : ℕ)
    → Has q (update bs j zs i)
    → ((i ≡ j) × Has q zs) ⊎ ((i ≢ j) × Has q (bs i))
Has-update bs j zs i q h = elim (Bool-cases (i == j)) [
  | inl e ↦
      let same = (==_iff i j).0 e in
      inl (same, subst (λ xs. Has q xs) (ap (update bs j zs) same ∙ update_self bs j zs) h)
  | inr e ↦
      let ne : i ≢ j = ground (arith, e) in
      inr (ne, subst (λ xs. Has q xs) (update_ne bs j zs i ne) h)
]

Distinct-update :
    (bs : Blocks) (j : ℕ) (zs : List Ptr) (i : ℕ)
    → ((k : ℕ) → Distinct (bs k))
    → Distinct zs
    → Distinct (update bs j zs i)
Distinct-update bs j zs i d dz = elim (Bool-cases (i == j)) [
  | inl e ↦ subst Distinct (sym (ap (update bs j zs) ((==_iff i j).0 e) ∙ update_self bs j zs)) dz
  | inr e ↦ subst Distinct (sym (update_ne bs j zs i (ground (arith, e)))) (d i)
]

module _ (bs : Blocks) (as' : Arenas) (s e : Ptr) (v : Layout bs as' s e) where
  -- A class keeps some of its blocks.
  pub keep-Layout :
      (j : ℕ) (zs : List Ptr)
      → ((q : Ptr) → Has q zs → Has q (bs j))
      → Distinct zs
      → Layout (update bs j zs) as' s e
  keep-Layout j zs sub d = record {
    inside = λ i p h. v.inside i p (was i p h);
    real = λ i p h. v.real i p (was i p h);
    clear = λ i p h. v.clear i p (was i p h);
    apart = λ i k p q h g. v.apart i k p q (was i p h) (was k q g);
    distinct = λ i. Distinct-update bs j zs i v.distinct d;
    ordered = v.ordered;
    whole = v.whole;
    pool_inside = v.pool_inside;
  }
    where
      was : (i p : ℕ) → Has p (update bs j zs i) → Has p (bs i)
      was i p h = elim (Has-update bs j zs i p h) [
        | inl (same, g) ↦ subst (λ k. Has p (bs k)) (sym same) (sub p g)
        | inr (_, g) ↦ g
      ]

  -- A class gets a block that is apart from the others and from the pool.
  pub put-Layout :
      (j p : ℕ) (zs : List Ptr)
      → ((q : Ptr) → Has q zs → Has q (bs j) ⊎ (q ≡ p))
      → Distinct zs
      → in_arenas p (size_of j) as' ≡ true
      → p ≢ 0
      → Apart p (size_of j) s (e - s)
      → ((i q : ℕ) → Has q (bs i) → Apart q (size_of i) p (size_of j))
      → Layout (update bs j zs) as' s e
  put-Layout j p zs old d within ne free others = record {
    inside = λ i q h. elim (was i q h) [ inl g ↦ v.inside i q g | inr (a, b) ↦ rw (a, b) within ];
    real = λ i q h. elim (was i q h) [ inl g ↦ v.real i q g | inr (a, b) ↦ rw b ne ];
    clear = λ i q h. elim (was i q h) [ inl g ↦ v.clear i q g | inr (a, b) ↦ rw (a, b) free ];
    apart = λ i k q r h g. elim (was i q h) [
      | inl h' ↦ elim (was k r g) [
        | inl g' ↦ v.apart i k q r h' g'
        | inr (a, b) ↦ inr (rw (a, b) (others i q h'))
      ]
      | inr (a, b) ↦ elim (was k r g) [
        | inl g' ↦ let f = others k r g' in inr (rw (a, b) (ground (arith, f)))
        | inr (a', b') ↦ inl (a ∙ sym a', b ∙ sym b')
      ]
    ];
    distinct = λ i. Distinct-update bs j zs i v.distinct d;
    ordered = v.ordered;
    whole = v.whole;
    pool_inside = v.pool_inside;
  }
    where
      was : (i q : ℕ) → Has q (update bs j zs i) → Has q (bs i) ⊎ ((i ≡ j) × (q ≡ p))
      was i q h = elim (Has-update bs j zs i q h) [
        | inl (same, g) ↦ elim (old q g) [
          | inl g' ↦ inl (subst (λ k. Has q (bs k)) (sym same) g')
          | inr b ↦ inr (same, b)
        ]
        | inr (_, g) ↦ inl g
      ]

  -- The first `n` bytes are cut off the pool.
  pub cut-Layout : (n : ℕ) → n ≤ e - s → n % 8 ≡ 0 → Layout bs as' (s + n) e
  cut-Layout n h m = record {
    inside = v.inside;
    real = v.real;
    clear = λ i p g. ground (arith, v.clear i p g, v.ordered);
    apart = v.apart;
    distinct = v.distinct;
    ordered = omega (arith, v.ordered);
    whole = omega (arith, v.whole, v.ordered);
    pool_inside = elim v.pool_inside [
      | inl d ↦ inl (omega (arith, v.ordered))
      | inr (a, b) ↦ inr (
        in_arenas_part as' s (e - s) (s + n) (e - (s + n)) a (omega arith)
            (omega (arith, v.ordered)),
        omega arith,
      )
    ];
  }

  -- The pool is given up for a new region.
  pub arena-Layout :
      (q l : ℕ) → q ≢ 0 → l % 8 ≡ 0 → IsNew q l as' → Layout bs ((q, l) ∷ as') q (q + l)
  unfolding in_arenas
  arena-Layout q l ne m new = record {
    inside = λ i p h. ground (arith, v.inside i p h);
    real = v.real;
    clear = λ i p h. ground (arith, in_arenas-IsNew as' p (size_of i) q l (v.inside i p h) new);
    apart = v.apart;
    distinct = v.distinct;
    ordered = omega arith;
    whole = omega arith;
    pool_inside = inr (ground arith, ne);
  }
