-- ===== src/Reactor/Ending.antt =====
-- The loop of `Reactor::Run`, and the destructor of a reactor: what it deletes and what it leaves.
use cpp_project.Base.{
  Distinct, Out, Has, is_member, ℕ, ◌≡◌, refl, sym, ap, ◌∙◌, ◌≢◌, inl, inr, true, false, Bool-cases,
  Option, none, some, List, [], ◌∷◌, ◌++◌, ◌==◌, All, All-mono, update, update_self, update_ne, Run,
  ok, ◌>>=◌, fault, timeout, arith,
}
use cpp_project.Reactor.{
  Ptr, EventHandle, EventMap, Calls, Ready, Reactor, Mask, new_handle, new_reactor, main_rounds,
  find_event, delete_handles, destroy_reactor, run, wait_event, dispatch,
}
use cpp_project.Reactor.Invariant.{after_register, register_event_handle-run}
use cpp_project.Reactor.Loop.{with_handle}
use cpp_project.Reactor.History
use cpp_project.Reactor.History.{
  Step, Reach, start, later, AreFresh, AreFresh-kept, Reach-Consistent, wait_event_returns,
}
use cpp_project.Reactor.Keys.{keys, Keyed, register-Keyed, dispatch-Keyed, remove-Keyed}

pointers : EventMap → List Ptr
pointers [] = []
pointers ((k, p) ∷ m) = p ∷ pointers m

-- Each entry leads to a live handle of its descriptor.
abbrev Held : (Ptr → Option EventHandle) → EventMap → Type 0
Held h = All (λ e. (x : EventHandle) × (h e.1 ≡ some x) × (x.fd ≡ e.0))

abbrev Found : EventMap → EventMap → Type 0
Found m = All (λ e. find_event e.0 m ≡ some e.1)

Found-later : (k : ℕ) (p : Ptr) (m n : EventMap) → Out k (keys n) → Found m n → Found ((k, p) ∷ m) n
unfolding find_event
Found-later k p m [] o a = tt
Found-later k p m ((l, q) ∷ n) o a = (ground (arith, o.0, a.0), Found-later k p m n o.1 a.1)

-- In a map without repeated keys each entry is the one that is found.
self-Found : (m : EventMap) → Distinct (keys m) → Found m m
unfolding find_event
self-Found [] d = tt
self-Found ((k, p) ∷ m) d = (ground arith, Found-later k p m m d.0 (self-Found m d.1))

find_event-Has : (f : ℕ) (p : Ptr) (m : EventMap) → find_event f m ≡ some p → Has p (pointers m)
unfolding find_event pointers
find_event-Has f p [] e = absurd cc
find_event-Has f p ((k, q) ∷ m) e = elim (Bool-cases (k == f)) [
  | inl same ↦ inl (ground (arith, same, e))
  | inr other ↦ inr (find_event-Has f p m (ground (arith, other, e)))
]

absent-Out :
    (p : Ptr) (m n : EventMap)
    → ((f : ℕ) → find_event f m ≢ some p)
    → Found m n
    → Out p (pointers n)
unfolding pointers
absent-Out p m [] out a = tt
absent-Out p m ((k, q) ∷ n) out a = (λ same. out k (a.0 ∙ ap some same), absent-Out p m n out a.1)

Held-update :
    (h : Ptr → Option EventHandle) (p : Ptr) (x : EventHandle) (m : EventMap)
    → h p ≡ some x
    → Out x.fd (keys m)
    → Held h m
    → Held (update h p none) m
Held-update h p x [] live o a = tt
Held-update h p x ((k, q) ∷ m) live o a =
    let (y, at, same_fd) = a.0 in
    let apart : q ≢ p = λ (same : q ≡ p). o.0 (
      sym same_fd
      ∙ ap (λ (z : EventHandle). z.fd) (some-injective y x (sym at ∙ ap h same ∙ live))) in
    ((y, update_ne h p none q apart ∙ at, same_fd), Held-update h p x m live o.1 a.1)
  where
    some-injective : (a b : EventHandle) → some a ≡ some b → a ≡ b
    some-injective a b e = cc

-- The loop deletes the handles of the entries, and no other.
delete_handles_lem :
    (m : EventMap) (h : Ptr → Option EventHandle)
    → Distinct (keys m)
    → Held h m
    → (g : Ptr → Option EventHandle) × (delete_handles m h ≡ ok g)
      × ((q : Ptr) → Has q (pointers m) → g q ≡ none)
      × ((q : Ptr) → Out q (pointers m) → g q ≡ h q)
unfolding delete_handles pointers
delete_handles_lem [] h d a = (h, refl, λ q found. elim found [ ], λ q out. refl)
delete_handles_lem ((k, p) ∷ m) h d a =
    let (x, live, same_fd) = a.0 in
    let (g, run, gone, kept) =
      delete_handles_lem m (update h p none) d.1 (Held-update h p x m live (rw same_fd d.0) a.1) in
    (
      g,
      rw live run,
      λ q found. elim found [
        | inl same ↦ elim (is_member q (pointers m)) [
          | inl more ↦ gone q more
          | inr out ↦ kept q out ∙ ap (update h p none) (sym same) ∙ update_self h p none
        ]
        | inr more ↦ gone q more
      ],
      λ q out. kept q out.1 ∙ update_ne h p none q (λ same. out.0 (sym same)),
    )

module _ {S : Type 0} (calls : Calls S) where
  Step-Keyed : {s t : Reactor S} → Step calls s t → Keyed s → Keyed t
  Step-Keyed {s} {t} (History.register p f e {done} unused run) d =
      register-Keyed calls (with_handle calls s p f s.kernel) p e (done, t) run d
  Step-Keyed {s} {t} (History.serve r unused run) d = dispatch-Keyed calls s r t run d
  Step-Keyed {s} {t} (History.remove p h live run) d = remove-Keyed calls s p t run d

  Reach-Keyed : {s : Reactor S} → Reach calls s → Keyed s
  Reach-Keyed (start k) = tt
  Reach-Keyed (later before_it step) = Step-Keyed step (Reach-Keyed before_it)

  -- In every state that a reactor reaches, `~Reactor` returns: no handle is deleted twice. Afterwards the map
  -- is empty, the handle of each entry is deleted, and a handle to which no entry led is still allocated.
  pub destroy_reactor_lem :
      (s : Reactor S)
      → Reach calls s
      → (t : Reactor S) × (destroy_reactor calls s ≡ ok t)
        × (t.ep_events ≡ [])
        × ((f : ℕ) (p : Ptr) → find_event f s.ep_events ≡ some p → t.handles p ≡ none)
        × ((p : Ptr) → ((f : ℕ) → find_event f s.ep_events ≢ some p) → t.handles p ≡ s.handles p)
  unfolding destroy_reactor
  destroy_reactor_lem s reached =
      let found = self-Found s.ep_events (Reach-Keyed reached) in
      let held : Held s.handles s.ep_events =
        All-mono (λ (e : ℕ × Ptr). find_event e.0 s.ep_events ≡ some e.1)
          (λ (e : ℕ × Ptr). (x : EventHandle) × (s.handles e.1 ≡ some x) × (x.fd ≡ e.0))
          (λ e at.
            let (x, live, same_fd, _) = Reach-Consistent calls s reached e.0 e.1 at in
            (x, live, same_fd))
          s.ep_events found in
      let (g, run, gone, kept) =
        delete_handles_lem s.ep_events s.handles (Reach-Keyed reached) held in
      (
        record {
          handles = g;
          ep_events = [];
          socketfd = s.socketfd;
          kernel = calls.close_epoll s.kernel;
        },
        rw run refl,
        refl,
        λ f p at. gone p (find_event-Has f p s.ep_events at),
        λ p out. kept p (absent-Out p s.ep_events s.ep_events out found),
      )

  -- All ready descriptors of some rounds.
  abbrev pub all_ready : List (List Ready) → List Ready
  all_ready [] = []
  all_ready (rs ∷ rounds) = rs ++ all_ready rounds

  wait_event-append :
      (s : Reactor S) (rs qs : List Ready)
      → wait_event calls s (rs ++ qs) ≡ (wait_event calls s rs >>= λ t. wait_event calls t qs)
  unfolding wait_event
  wait_event-append s [] qs = refl
  wait_event-append s (r ∷ rs) qs = go (dispatch calls s r) (λ t. wait_event-append t rs qs)
    where
      go :
          (m : Run (Reactor S))
          → ((t : Reactor S)
              → wait_event calls t (rs ++ qs)
                ≡ (wait_event calls t rs >>= λ u. wait_event calls u qs))
          → (m >>= λ t. wait_event calls t (rs ++ qs))
            ≡ ((m >>= λ t. wait_event calls t rs) >>= λ u. wait_event calls u qs)
      go (ok t) h = h t
      go fault h = refl
      go timeout h = refl

  -- The rounds of `Run` handle the descriptors as one long round would.
  run-wait_event :
      (s : Reactor S) (rounds : List (List Ready))
      → run calls s rounds ≡ wait_event calls s (all_ready rounds)
  unfolding run wait_event
  run-wait_event s [] = refl
  run-wait_event s (rs ∷ rounds) =
      go (wait_event calls s rs) (λ t. run-wait_event t rounds)
      ∙ sym (wait_event-append s rs (all_ready rounds))
    where
      go :
          (m : Run (Reactor S))
          → ((t : Reactor S) → run calls t rounds ≡ wait_event calls t (all_ready rounds))
          → (m >>= λ t. run calls t rounds) ≡ (m >>= λ t. wait_event calls t (all_ready rounds))
      go (ok t) h = h t
      go fault h = refl
      go timeout h = refl

  -- In every state that a reactor reaches, any number of rounds of `Run` handle their ready descriptors, in any
  -- order and also those without an entry, without a fault, if the addresses of new handles are unused and
  -- differ; and the reactor that they lead to can be destroyed.
  pub run_returns :
      (s : Reactor S) (rounds : List (List Ready))
      → Reach calls s
      → AreFresh s.handles (all_ready rounds)
      → (t u : Reactor S) × (run calls s rounds ≡ ok t)
        × Reach calls t
        × (destroy_reactor calls t ≡ ok u)
  run_returns s rounds reached fresh =
      let (t, done, reached') = wait_event_returns calls s (all_ready rounds) reached fresh in
      let (u, destroyed, _, _, _) = destroy_reactor_lem t reached' in
      (t, u, run-wait_event s rounds ∙ done, reached', destroyed)

  -- `main` with any number of rounds handles their ready descriptors without a fault, if the addresses of new
  -- handles are unused and differ.
  main_returns :
      (k : S) (lisfd : ℕ) (p : Ptr) (rounds : List (List Ready))
      → All (λ r. r.fresh ≢ p) (all_ready rounds)
      → AreFresh {A = EventHandle} (λ _. none) (all_ready rounds)
      → (t : Reactor S) × (main_rounds calls k lisfd p rounds ≡ ok t) × Reach calls t
  unfolding main_rounds
  main_returns k lisfd p rounds others fresh =
      let s' = with_handle calls (new_reactor k) p lisfd k in
      let live = update_self (λ _. none) p (some (new_handle lisfd)) in
      let mask : Mask = record { accept = true; recv = false } in
      let registered = register_event_handle-run calls s' p (new_handle lisfd) mask live in
      let (done, s) = after_register calls s' p (new_handle lisfd) mask in
      let (t, _, ran, reached, _) =
        run_returns s rounds (later (start k) (History.register p lisfd mask refl registered)) (
          AreFresh-kept (λ _. none) s.handles p (all_ready rounds)
            (λ q ne. update_ne s'.handles p _ q ne ∙ update_ne (λ _. none) p _ q ne) others
            fresh) in
      (t, rw registered ran, reached)
