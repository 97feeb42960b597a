-- ===== src/SkipListTimer/Frame.antt =====
-- What the operations of the skip list leave unused: memory that is not allocated stays so, but for the
-- new node.
use cpp_project.Base.{
  ℕ, zero, suc, ◌+◌, ◌-◌, ◌≡◌, sym, ap, ◌∙◌, ◌≢◌, Bool-cases, inl, inr, Option, none, some, List,
  ◌==◌, if◌then◌else◌, update, update_ne, ok, ◌>>=◌, or_fault, >>=_ok, or_fault_ok, ok_injective,
}
use cpp_project.SkipListTimer.Node.{
  Ptr, Heap, Slot, new_node, deref, get_next, get_score, next_of, slot_at, set_next, with_next,
  delete, delete_levels, skiplist_maxlevel,
}
use cpp_project.SkipListTimer.SkipList.{
  SkipList, Temp, descend, fill, link, insert_node, random_level, is_ptr, unlink, shrink,
  remove_found, del_node, del_timer,
}

-- What is unused in one heap is unused in the other.
abbrev pub Within : Heap → Heap → Type 0
Within h g = (r : Ptr) → h r ≡ none → g r ≡ none

set_next-Within :
    (h g : Heap) (p : Ptr) (i : ℕ) (q : Option Ptr) → set_next h p i q ≡ ok g → Within h g
unfolding set_next deref
set_next-Within h g p i q run r unused =
    let (n, e, after) = >>=_ok (or_fault (h p)) _ g run in
    let (_, _, done) = >>=_ok (next_of (slot_at n i)) _ g after in
    let live = or_fault_ok (h p) n e in
    let apart : r ≢ p = λ same. cc (sym unused ∙ ap h same ∙ live) in
    ap (λ (x : Heap). x r) (sym (ok_injective _ g done))
    ∙ update_ne h p (some (with_next n i q)) r apart
    ∙ unused

link-Within : (k i : ℕ) (x : Ptr) (temp : Temp) (h g : Heap) → link k i x temp h ≡ ok g → Within h g
unfolding link
link-Within zero i x temp h g run r unused =
    ap (λ (y : Heap). y r) (sym (ok_injective h g run)) ∙ unused
link-Within (suc k) i x temp h g run r unused =
    let (t, _, a) = >>=_ok (or_fault (temp i)) _ g run in
    let (next, _, b) = >>=_ok (get_next h t i) _ g a in
    let (h1, set1, c) = >>=_ok (set_next h x i next) _ g b in
    let (h2, set2, rest) = >>=_ok (set_next h1 t i (some x)) _ g c in
    link-Within k (suc i) x temp h2 g rest r
      (set_next-Within h1 h2 t i (some x) set2 r (set_next-Within h h1 x i next set1 r unused))

pub insert_node-Within :
    (fresh : Ptr) (raw : ℕ → Slot) (draws : List ℕ) (s t : SkipList) (p : Ptr) (score handle : ℕ)
    → insert_node fresh raw draws s score handle ≡ ok (t, p)
    → (r : Ptr) → r ≢ fresh
    → s.heap r ≡ none
    → t.heap r ≡ none
unfolding insert_node
insert_node-Within fresh raw draws s t p score handle run r other unused =
    let ((x, temp), _, a) =
      >>=_ok (descend (s.length + 1) s.heap (ok score) s.level s.header (λ _. none)) _ (t, p) run in
    let (n, _, b) = >>=_ok (random_level draws) _ (t, p) a in
    let h : Heap = update s.heap fresh (some (new_node raw score n handle)) in
    let temp' = fill (n - s.level) s.level s.header temp in
    let (g, linked, done) = >>=_ok (link n 0 fresh temp' h) _ (t, p) b in
    ap (λ (y : SkipList × Ptr). y.0.heap r) (sym (ok_injective _ (t, p) done))
    ∙ link-Within n 0 fresh temp' h g linked r (update_ne s.heap fresh _ r other ∙ unused)

delete-Within : (h g : Heap) (p : Ptr) → delete h p ≡ ok g → Within h g
unfolding delete deref
delete-Within h g p run r unused =
    let (n, e, a) = >>=_ok (or_fault (h p)) _ g run in
    let (_, _, done) = >>=_ok (delete_levels skiplist_maxlevel 0 n) _ g a in
    let live = or_fault_ok (h p) n e in
    let apart : r ≢ p = λ same. cc (sym unused ∙ ap h same ∙ live) in
    ap (λ (x : Heap). x r) (sym (ok_injective _ g done)) ∙ update_ne h p none r apart ∙ unused

unlink-Within :
    (k i : ℕ) (d : Ptr) (temp : Temp) (h g : Heap) → unlink k i d temp h ≡ ok g → Within h g
unfolding unlink
unlink-Within zero i d temp h g run r unused =
    ap (λ (y : Heap). y r) (sym (ok_injective h g run)) ∙ unused
unlink-Within (suc k) i d temp h g run r unused =
    let (t, _, a) = >>=_ok (or_fault (temp i)) _ g run in
    let (next, _, b) = >>=_ok (get_next h t i) _ g a in
    let (h1, cut, rest) =
      >>=_ok (if is_ptr next d then (get_next h d i >>= set_next h t i) else ok h) _ g b in
    unlink-Within k (suc i) d temp h1 g rest r (by_case t next h1 cut)
  where
    by_case :
        (t : Ptr) (next : Option Ptr) (h1 : Heap)
        → (if is_ptr next d then (get_next h d i >>= set_next h t i) else ok h) ≡ ok h1
        → h1 r ≡ none
    by_case t next h1 cut = elim (Bool-cases (is_ptr next d)) [
      | inl e ↦
          let (after, _, set) = >>=_ok (get_next h d i) (set_next h t i) h1 (rw e at cut) in
          set_next-Within h h1 t i after set r unused
      | inr e ↦ ap (λ (y : Heap). y r) (sym (ok_injective h h1 (rw e at cut))) ∙ unused
    ]

remove_found-Within :
    (s t : SkipList) (temp : Temp) (d : Ptr) → remove_found s temp d ≡ ok t → Within s.heap t.heap
unfolding remove_found
remove_found-Within s t temp d run r unused =
    let (h, cut, a) = >>=_ok (unlink s.level 0 d temp s.heap) _ t run in
    let (level', _, b) = >>=_ok (shrink h s.header s.level) _ t a in
    let (g, deleted, done) = >>=_ok (delete h d) _ t b in
    ap (λ (x : SkipList). x.heap r) (sym (ok_injective _ t done))
    ∙ delete-Within h g d deleted r (unlink-Within s.level 0 d temp s.heap h cut r unused)

pub del_timer-Within : (s t : SkipList) (p : Ptr) → del_timer s p ≡ ok t → Within s.heap t.heap
unfolding del_timer del_node
del_timer-Within s t p run r unused =
    let ((x, temp), _, a) =
      >>=_ok (descend (s.length + 1) s.heap (get_score s.heap p) s.level s.header (λ _. none)) _ t
        run in
    let (next, _, b) = >>=_ok (get_next s.heap x 0) _ t a in by_next temp next b
  where
    unchanged : ok s ≡ ok t → t.heap r ≡ none
    unchanged e = ap (λ (y : SkipList). y.heap r) (sym (ok_injective s t e)) ∙ unused

    by_next :
        (temp : Temp) (next : Option Ptr)
        → (elim next [
          | none ↦ ok s
          | some d ↦ get_score s.heap d >>= λ a. get_score s.heap p >>= λ b.
              let found = remove_found s temp d in if a == b then found else ok s
        ])
          ≡ ok t
        → t.heap r ≡ none
    by_next temp none e = unchanged e
    by_next temp (some d) e =
        let (a, _, e1) = >>=_ok (get_score s.heap d) _ t e in
        let (b, _, e2) = >>=_ok (get_score s.heap p) _ t e1 in
        elim (Bool-cases (a == b)) [
          | inl same ↦ remove_found-Within s t temp d (rw same at e2) r unused
          | inr other ↦ unchanged (rw other at e2)
        ]
