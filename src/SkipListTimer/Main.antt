-- ===== src/SkipListTimer/Main.antt =====
-- main of SkipListTimer/main.cpp: the timers that it adds and takes out, and the rounds of its loop.
use cpp_project.Base.{
  Distinct, ℕ, ◌+◌, ◌%◌, ◌^◌, ◌≡◌, refl, ◌≢◌, ◌<◌, List, [], ◌∷◌, ◌++◌, none, ok, arith, update_ne,
}
use cpp_project.SkipListTimer.Node.{Ptr, Slot, garbage}
use cpp_project.SkipListTimer.SkipList.{SkipList, create, random_level, printf_hello, del_timer}
use cpp_project.SkipListTimer.Chain.{Entry}
use cpp_project.SkipListTimer.Clock.{getcurrent_time}
use cpp_project.SkipListTimer.Expire.{Call, add_timer, add_with, main_start, expire_rounds}
use cpp_project.SkipListTimer.Represents.{Represents, insert_sorted}
use cpp_project.SkipListTimer.Insert.{entry}
use cpp_project.SkipListTimer.Contract.{create-Represents, insert_node-Represents}
use cpp_project.SkipListTimer.Due.{due, pending, calls, expire_timer-Represents}
use cpp_project.SkipListTimer.Frame.{insert_node-Within, del_timer-Within}
use cpp_project.SkipListTimer.Undo.{del_timer-add_timer}

-- The handler calls of some rounds, and the timers that they leave.
unfoldable pub all_calls : (times : List ℕ) → List Entry → List (Ptr × ℕ)
all_calls [] xs = []
all_calls (now ∷ times) xs = calls (due now xs) ++ all_calls times (pending now xs)

unfoldable pub left_over : (times : List ℕ) → List Entry → List Entry
left_over [] xs = xs
left_over (now ∷ times) xs = left_over times (pending now xs)

expire_rounds-Represents :
    (times : List ℕ) (s : SkipList) (xs : List Entry)
    → Represents s xs
    → (t : SkipList) × (expire_rounds times s ≡ ok (t, all_calls times xs))
      × Represents t (left_over times xs)
unfolding expire_rounds all_calls left_over
expire_rounds-Represents [] s xs rep = (s, refl, rep)
expire_rounds-Represents (now ∷ times) s xs rep =
    let (s', run, rep') =
      expire_timer-Represents (s.length + 1) s xs now rep (omega (arith, rep.count)) in
    let (t, rest, rep'') = expire_rounds-Represents times s' (pending now xs) rep' in
    (t, rw (run, rest) refl, rep'')

abbrev pub due_time : Call → ℕ → ℕ
due_time c mesc = (mesc + getcurrent_time c.time) % 2 ^ 32

-- A call gets memory with no garbage, numbers that end the draw of the height, and a time that makes the
-- due time less than 2^31.
abbrev pub Fits : Call → (mesc height : ℕ) → Type 0
Fits c mesc height =
    ((i : ℕ) → c.raw i ≢ garbage) × (due_time c mesc < 2 ^ 31) × (random_level c.draws ≡ ok height)

abbrev pub timer : Call → (mesc height : ℕ) → Entry
timer c mesc height = entry c.fresh (due_time c mesc) height printf_hello

-- A timer is added, and what is unused stays so, but for its node.
add_step :
    (s : SkipList) (xs : List Entry) (c : Call) (mesc height : ℕ)
    → Represents s xs
    → s.heap c.fresh ≡ none
    → Fits c mesc height
    → (t : SkipList) × (add_with c s mesc ≡ ok (t, c.fresh))
      × Represents t (insert_sorted (timer c mesc height) xs)
      × ((r : Ptr) → r ≢ c.fresh → s.heap r ≡ none → t.heap r ≡ none)
unfolding add_with add_timer
add_step s xs c mesc height rep unused (zeroed, small, drawn) =
    let (t, run, rep') =
      insert_node-Represents s xs c.fresh c.raw c.draws (due_time c mesc) printf_hello height rep
        unused zeroed small drawn in
    (
      t,
      run,
      rep',
      insert_node-Within c.fresh c.raw c.draws s t c.fresh (due_time c mesc) printf_hello run,
    )

-- A timer is added and taken out again.
add_del_step :
    (s : SkipList) (xs : List Entry) (c : Call) (mesc height : ℕ)
    → Represents s xs
    → s.heap c.fresh ≡ none
    → Fits c mesc height
    → (t u : SkipList) × (add_with c s mesc ≡ ok (t, c.fresh))
      × (del_timer t c.fresh ≡ ok u)
      × Represents u xs
      × ((r : Ptr) → r ≢ c.fresh → s.heap r ≡ none → u.heap r ≡ none)
unfolding add_with add_timer
add_del_step s xs c mesc height rep unused (zeroed, small, drawn) =
    let (t, u, run, deleted, rep') =
      del_timer-add_timer s xs c.fresh c.raw c.draws c.time mesc printf_hello height rep unused
        zeroed small drawn in
    (
      t,
      u,
      run,
      deleted,
      rep',
      λ r ne free. del_timer-Within t u c.fresh deleted r (
          insert_node-Within c.fresh c.raw c.draws s t c.fresh (due_time c mesc) printf_hello run r
            ne free),
    )

only_header :
    (header : Ptr) (raw : ℕ → Slot) (r : Ptr)
    → r ≢ header
    → (create (λ _. none) header raw).heap r ≡ none
unfolding create
only_header header raw r ne = update_ne (λ _. none) header _ r ne

-- The timers of `main`: the one that was added and taken out is not among them.
abbrev pub main_timers : (a b c e : Call) (ha hb hc he : ℕ) → List Entry
main_timers a b c e ha hb hc he = insert_sorted (timer e 32850 he) (
    insert_sorted (timer c 32050 hc)
      (insert_sorted (timer b 21040 hb) (insert_sorted (timer a 10100 ha) [])))

-- If each call of `Add_timer` in `main` gets an address of its own, memory with no garbage, numbers that end
-- the draw of the height, and a time that makes the due time less than 2^31, then `main` comes to its loop,
-- and any number of rounds, at any times, return: they call the handlers of the timers that are due, of
-- each once and the earliest first in a round, and of the timer that was taken out never.
pub main_rounds_lem :
    (header : Ptr) (raw : ℕ → Slot) (a b c d e : Call) (ha hb hc hd he : ℕ) (times : List ℕ)
    → Distinct (header ∷ a.fresh ∷ b.fresh ∷ c.fresh ∷ d.fresh ∷ e.fresh ∷ [])
    → Fits a 10100 ha
    → Fits b 21040 hb
    → Fits c 32050 hc
    → Fits d 22050 hd
    → Fits e 32850 he
    → (s t : SkipList) × (main_start (create (λ _. none) header raw) a b c d e ≡ ok s)
      × (expire_rounds times s ≡ ok (t, all_calls times (main_timers a b c e ha hb hc he)))
      × Represents t (left_over times (main_timers a b c e ha hb hc he))
unfolding main_start
main_rounds_lem header raw a b c d e ha hb hc hd he times apart fa fb fc fd fe =
    let (ah, (bh, (ch, (dh, (eh, _))))) = apart.0 in
    let (ba, (ca, (da, (ea, _)))) = apart.1.0 in
    let (cb, (db, (eb, _))) = apart.1.1.0 in
    let (dc, (ec, _)) = apart.1.1.1.0 in
    let ed = apart.1.1.1.1.0.0 in
    let s0 = create (λ _. none) header raw in
    let free = only_header header raw in
    let (s1, run1, rep1, w1) =
      add_step s0 [] a 10100 ha (create-Represents (λ _. none) header raw) (free a.fresh ah) fa in
    let (s2, run2, rep2, w2) = add_step s1 _ b 21040 hb rep1 (w1 b.fresh ba (free b.fresh bh)) fb in
    let (s3, run3, rep3, w3) =
      add_step s2 _ c 32050 hc rep2 (w2 c.fresh cb (w1 c.fresh ca (free c.fresh ch))) fc in
    let (s4, s5, run4, run5, rep5, w5) =
      add_del_step s3 _ d 22050 hd rep3
        (w3 d.fresh dc (w2 d.fresh db (w1 d.fresh da (free d.fresh dh)))) fd in
    let (s6, run6, rep6, _) =
      add_step s5 _ e 32850 he rep5
        (w5 e.fresh ed (w3 e.fresh ec (w2 e.fresh eb (w1 e.fresh ea (free e.fresh eh))))) fe in
    let (t, rounds, rep) = expire_rounds-Represents times s6 _ rep6 in
    (s6, t, rw (main_start, run1, run2, run3, run4, run5, run6) refl, rounds, rep)
