-- ===== src/SkipListTimer/Link.antt =====
-- The loop of `Insert_node` that puts the new node behind the last nodes of its levels.
use cpp_project.Base.{
  ℕ, zero, suc, ◌+◌, ◌≡◌, refl, sym, ◌∙◌, ◌≢◌, ◌<◌, ◌≤◌, ◌⊎◌, inl, inr, none, some, List, ◌∷◌, ◌++◌,
  ltb, ltb→lt, ltb→le, Bool-cases, ok, arith, All-of, All-append, All-left,
}
use cpp_project.SkipListTimer.Node.{Ptr, Heap, get_next, set_next}
use cpp_project.SkipListTimer.SkipList.{Temp, link}
use cpp_project.SkipListTimer.Access.{put, set_next-put, get_next-put_ne, get_next-put_level}
use cpp_project.SkipListTimer.Chain.{
  Entry, pick, pick-Fresh, last_at, last_at-ne, last_at-Fresh, first, Chain, Fresh, Distinct,
  Distinct-left, Chain-frame, Chain-next, Chain-Tail, Chain-put, Chain-put_level, relink,
  relink_here,
}
use cpp_project.SkipListTimer.Stored.{Stored, Stored-put}

-- The new node `x` is none of the nodes that are there.
pub record Room (p x : Ptr) (xs ys : List Entry) : Type 0 where
  pub apart : p ≢ x
  pub left : Fresh x xs
  pub right : Fresh x ys
  pub header : Fresh p (xs ++ ys)
  pub distinct : Distinct (xs ++ ys)

-- The heap `g` after the levels from `lo` below `hi` of `h` have been linked.
pub record Linked (h g : Heap) (p x : Ptr) (xs ys : List Entry) (lo hi : ℕ) : Type 0 where
  pub inside : (j : ℕ) → lo ≤ j → j < hi → Chain g j p (pick j xs ++ x ∷ pick j ys)
  pub outside : (j : ℕ) → (j < lo) ⊎ (hi ≤ j) → (a : Ptr) → get_next g a j ≡ get_next h a j
  pub kept : (e : Entry) → Stored h e → Stored g e

module _ (p x : Ptr) (xs ys : List Entry) (room : Room p x xs ys) where
  open room use {apart, left, right, header, distinct}

  -- What the loop still needs of the levels from `lo` below `hi`.
  pub record Ready (h : Heap) (temp : Temp) (lo hi : ℕ) : Type 0 where
    pub noted : (j : ℕ) → lo ≤ j → j < hi → temp j ≡ some (last_at j p xs)
    pub chains : (j : ℕ) → lo ≤ j → j < hi → Chain h j p (pick j xs ++ pick j ys)
    pub empty : (j : ℕ) → lo ≤ j → j < hi → get_next h x j ≡ ok none

  module _ (h : Heap) (i : ℕ) (c : Chain h i p (pick i xs ++ pick i ys))
      (e : get_next h x i ≡ ok none) where
    abbrev pred : Ptr
    pred = last_at i p xs

    pred-ne : pred ≢ x
    pred-ne = last_at-ne i p xs x apart left

    abbrev linked₁ : Heap
    linked₁ = put h x i (first (pick i ys))

    abbrev linked₂ : Heap
    linked₂ = put linked₁ pred i (some x)

    next_eq : get_next h pred i ≡ ok (first (pick i ys))
    next_eq = Chain-next h i p xs (pick i ys) c

    set_new : set_next h x i (first (pick i ys)) ≡ ok linked₁
    set_new = set_next-put h x i (first (pick i ys)) e

    set_pred : set_next linked₁ pred i (some x) ≡ ok linked₂
    set_pred =
        set_next-put linked₁ pred i (some x)
          (get_next-put_ne h x i (first (pick i ys)) pred i pred-ne ∙ next_eq)

    level_kept : (j : ℕ) → j ≢ i → (a : Ptr) → get_next linked₂ a j ≡ get_next h a j
    level_kept j ne a =
        get_next-put_level linked₁ pred i (some x) a j ne
        ∙ get_next-put_level h x i (first (pick i ys)) a j ne

    Chain-kept : (j : ℕ) → j ≢ i → (qs : List Ptr) → Chain h j p qs → Chain linked₂ j p qs
    Chain-kept j ne qs d =
        Chain-put_level linked₁ j pred i (some x) p qs ne
          (Chain-put_level h j x i (first (pick i ys)) p qs ne d)

    Stored-kept : (e : Entry) → Stored h e → Stored linked₂ e
    Stored-kept e s =
        Stored-put linked₁ pred i (some x) e (Stored-put h x i (first (pick i ys)) e s)

    Chain-linked₂ : Chain linked₂ i p (pick i xs ++ x ∷ pick i ys)
    Chain-linked₂ =
        relink linked₁ i p xs (pick i ys) (x ∷ pick i ys)
          (Chain-put h i x (first (pick i ys)) p (pick i xs ++ pick i ys) apart
            (All-append _ (pick i xs) (pick i ys) (pick-Fresh i x xs left)
              (pick-Fresh i x ys right))
            c)
          (relink_here h i x (pick i ys) e (Chain-Tail h i p (pick i xs) (pick i ys) c)
            (pick-Fresh i x ys right))
          (All-left _ xs ys header) (Distinct-left xs ys distinct)
          (λ s. pred-ne (sym s), pick-Fresh i pred ys (last_at-Fresh i p xs ys header distinct))

  Ready-next :
      (h : Heap) (temp : Temp) (i hi : ℕ) (lt : i < hi) (r : Ready h temp i hi)
      → Ready
          (linked₂ h i (r.chains i (omega arith) lt) (r.empty i (omega arith) lt))
          temp
          (suc i)
          hi
  Ready-next h temp i hi lt r = record {
    noted = λ j lo up. r.noted j (omega arith) up;
    chains = λ j lo up.
        Chain-kept h i c e j (omega arith) (pick j xs ++ pick j ys) (r.chains j (omega arith) up);
    empty = λ j lo up. level_kept h i c e j (omega arith) x ∙ r.empty j (omega arith) up;
  }
    where
      c : Chain h i p (pick i xs ++ pick i ys)
      c = r.chains i (omega arith) lt

      e : get_next h x i ≡ ok none
      e = r.empty i (omega arith) lt

  Linked-step :
      (h g : Heap) (temp : Temp) (i hi : ℕ) (lt : i < hi) (r : Ready h temp i hi)
      → Linked
          (linked₂ h i (r.chains i (omega arith) lt) (r.empty i (omega arith) lt))
          g
          p
          x
          xs
          ys
          (suc i)
          hi
      → Linked h g p x xs ys i hi
  Linked-step h g temp i hi lt r l = record {
    inside = λ j lo up. elim (Bool-cases (ltb i j)) [
      | inl t ↦ l.inside j (ltb→lt i j t) up
      | inr t ↦
          let same : j ≡ i = omega (arith, ltb→le i j t) in
          rw same (
            Chain-frame (linked₂ h i c e) i g p (pick i xs ++ x ∷ pick i ys)
              (l.outside i (inl (omega arith)) p)
              (All-of _ (λ q. l.outside i (inl (omega arith)) q) (pick i xs ++ x ∷ pick i ys))
              (Chain-linked₂ h i c e))
    ];
    outside = λ j o a.
        l.outside j (elim o [ inl u ↦ inl (omega arith) | inr u ↦ inr u ]) a
        ∙ level_kept h i c e j (elim o [ inl u ↦ omega arith | inr u ↦ omega arith ]) a;
    kept = λ s st. l.kept s (Stored-kept h i c e s st);
  }
    where
      c : Chain h i p (pick i xs ++ pick i ys)
      c = r.chains i (omega arith) lt

      e : get_next h x i ≡ ok none
      e = r.empty i (omega arith) lt

  -- The loop runs to its end without a fault, and links the new node on each of its levels.
  pub link-Linked :
      (k i hi : ℕ) (h : Heap) (temp : Temp)
      → hi ≡ i + k
      → Ready h temp i hi
      → (g : Heap) × (link k i x temp h ≡ ok g) × Linked h g p x xs ys i hi
  unfolding link
  link-Linked zero i hi h temp top r = (
    h,
    refl,
    record { inside = λ j lo up. absurd (omega arith); outside = λ j o a. refl; kept = λ e s. s },
  )
  link-Linked (suc k) i hi h temp top r =
      let lt : i < hi = omega arith in
      let le : i ≤ i = omega arith in
      let c = r.chains i le lt in
      let e = r.empty i le lt in
      let (g, run, l) =
        link-Linked k (suc i) hi (linked₂ h i c e) temp (omega arith)
          (Ready-next h temp i hi lt r) in
      (
        g,
        rw (r.noted i le lt, next_eq h i c e, set_new h i c e, set_pred h i c e) run,
        Linked-step h g temp i hi lt r l,
      )
