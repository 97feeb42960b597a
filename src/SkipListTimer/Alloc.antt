-- ===== src/SkipListTimer/Alloc.antt =====
-- A new node on the heap, and a new entry among the entries: what stays as it was.
use cpp_project.Base.{
  ℕ, zero, suc, ◌+◌, ◌≡◌, refl, sym, ◌∙◌, ap, ◌≢◌, ◌<◌, ◌≤◌, inl, inr, Option, none, some, List, [],
  ◌∷◌, ◌++◌, ltb, ltb→lt, ltb→le, if◌then◌else◌, Bool-cases, append-ne-nil, update, update_self,
  update_ne, ok, arith, All, All-append, All-left, All-right, All-mono,
}
use cpp_project.SkipListTimer.Node.{Ptr, Heap, Slot, Node, new_node, get_next, skiplist_maxlevel}
use cpp_project.SkipListTimer.SkipList.{Temp, fill}
use cpp_project.SkipListTimer.Chain.{
  Entry, pick, pick-append, first, Chain, Chain-frame, Fresh, Distinct,
}
use cpp_project.SkipListTimer.Stored.{Stored}

pub fill_below : (k i j : ℕ) (p : Ptr) (temp : Temp) → j < i → fill k i p temp j ≡ temp j
unfolding fill
fill_below zero i j p temp lt = refl
fill_below (suc k) i j p temp lt =
    fill_below k (suc i) j p (update temp i (some p)) (omega arith)
    ∙ update_ne temp i (some p) j (omega arith)

pub fill_in : (k i j : ℕ) (p : Ptr) (temp : Temp) → i ≤ j → j < i + k → fill k i p temp j ≡ some p
unfolding fill
fill_in zero i j p temp le lt = absurd (omega arith)
fill_in (suc k) i j p temp le lt = elim (Bool-cases (ltb i j)) [
  | inl t ↦ fill_in k (suc i) j p (update temp i (some p)) (ltb→lt i j t) (omega arith)
  | inr t ↦
      let same : j ≡ i = omega (arith, ltb→le i j t) in
      fill_below k (suc i) j p (update temp i (some p)) (omega arith)
      ∙ ap (update temp i (some p)) same
      ∙ update_self temp i (some p)
]

pub Chain-head :
    (h : Heap) (i : ℕ) (p : Ptr) (qs : List Ptr) → Chain h i p qs → get_next h p i ≡ ok (first qs)
Chain-head h i p [] c = c
Chain-head h i p (q ∷ qs) c = c.0

pub ne_of_next :
    (h : Heap) (p a : Ptr) (i : ℕ) {r : Option Ptr} → get_next h p i ≡ ok r → h a ≡ none → p ≢ a
unfolding get_next
ne_of_next h p a i e f same = let held = rw same at e in ground arith

pub Stored-ne : (h : Heap) (a : Ptr) (e : Entry) → h a ≡ none → Stored h e → e.ptr ≢ a
Stored-ne h a e f s same = let held = rw same at s.held in cc

pub get_next-alloc :
    (h : Heap) (a : Ptr) (n : Node) (p : Ptr) (i : ℕ)
    → p ≢ a
    → get_next (update h a (some n)) p i ≡ get_next h p i
unfolding get_next
get_next-alloc h a n p i ne = rw (update_ne h a (some n) p ne)

pub Chain-alloc :
    (h : Heap) (a : Ptr) (n : Node) (i : ℕ) (p : Ptr) (qs : List Ptr)
    → p ≢ a
    → All (λ q. q ≢ a) qs
    → Chain h i p qs
    → Chain (update h a (some n)) i p qs
Chain-alloc h a n i p qs ne f c =
    Chain-frame h i (update h a (some n)) p qs (get_next-alloc h a n p i ne)
      (All-mono _ _ (λ q. get_next-alloc h a n q i) qs f) c

pub get_next-new :
    (h : Heap) (a : Ptr) (raw : ℕ → Slot) (score n handle i : ℕ)
    → i < n
    → n ≤ skiplist_maxlevel
    → get_next (update h a (some (new_node raw score n handle))) a i ≡ ok none
unfolding get_next
get_next-new h a raw score n handle i lt le = ground arith

pub Distinct-insert :
    (e : Entry) (xs ys : List Entry)
    → Distinct (xs ++ ys)
    → Fresh e.ptr xs
    → Fresh e.ptr ys
    → Distinct (xs ++ e ∷ ys)
Distinct-insert e [] ys d f g = (g, d)
Distinct-insert e (x ∷ xs) ys d f g = (
  All-append _ xs (e ∷ ys) (All-left _ xs ys d.0) (λ s. f.0 (sym s), All-right _ xs ys d.0),
  Distinct-insert e xs ys d.1 f.1 g,
)

pub pick-insert :
    (i : ℕ) (e : Entry) (xs ys : List Entry)
    → pick i (xs ++ e ∷ ys)
      ≡ (if ltb i e.level then pick i xs ++ e.ptr ∷ pick i ys else pick i xs ++ pick i ys)
pick-insert i e [] ys = ground arith
pick-insert i e (x ∷ xs) ys = ground (arith, pick-insert i e xs ys)

pub pick-insert_used :
    (i : ℕ) (e : Entry) (xs ys : List Entry) → pick i (xs ++ ys) ≢ [] → pick i (xs ++ e ∷ ys) ≢ []
pick-insert_used i e xs ys used = elim (Bool-cases (ltb i e.level)) [
  | inl t ↦ rw (pick-insert i e xs ys, t) (append-ne-nil (pick i xs) e.ptr (pick i ys))
  | inr t ↦ rw (pick-insert i e xs ys, t) (rw (pick-append i xs ys) at used)
]
