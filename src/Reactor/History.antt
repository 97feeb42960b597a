-- ===== src/Reactor/History.antt =====
-- Histories of a reactor: handles are made and registered, descriptors become ready, handles are removed.
use cpp_project.Base.{
  ok_injective, ℕ, ◌≡◌, refl, sym, ap, subst, ◌∙◌, ◌≢◌, Bool, true, Option, none, some, List, [],
  ◌∷◌, update_self, All, ok,
}
use cpp_project.Reactor.{
  Ptr, EventHandle, EventMap, Mask, Calls, Ready, Reactor, new_handle, new_reactor, find_event,
  insert_event, register_event_handle, remove_event_handle, get_event_handle, hand_accept, dispatch,
  wait_event,
}
use cpp_project.Reactor.Invariant.{
  Consistent, after_register, register_event_handle-run, after_register-Consistent,
  remove_event_handle-Consistent,
}
use cpp_project.Reactor.Loop.{with_handle, with_handle-Consistent, dispatch-Consistent, recv_mask}

pub data Step {S : Type 0} (calls : Calls S) (s : Reactor S) : Reactor S → Type 0 where
  register :
      (p : Ptr) (f : ℕ) (e : Mask) {done : Bool} {t : Reactor S}
      → s.handles p ≡ none
      → register_event_handle calls (with_handle calls s p f s.kernel) (some p) e ≡ ok (done, t)
      → Step calls s t
  serve :
      (r : Ready) {t : Reactor S}
      → s.handles r.fresh ≡ none
      → dispatch calls s r ≡ ok t
      → Step calls s t
  remove :
      (p : Ptr) (h : EventHandle) {t : Reactor S}
      → s.handles p ≡ some h
      → remove_event_handle calls s (some p) ≡ ok t
      → Step calls s t

pub data Reach {S : Type 0} (calls : Calls S) : Reactor S → Type 0 where
  start : (k : S) → Reach calls (new_reactor k)
  later : {s t : Reactor S} → Reach calls s → Step calls s t → Reach calls t

nothing_found : (f : ℕ) (p : Ptr) → find_event f [] ≢ some p
unfolding find_event
nothing_found f p e = cc

insert_event_kept :
    (f : ℕ) (p q : Ptr) (m : EventMap) → find_event f m ≡ some q → insert_event f p m ≡ m
insert_event_kept f p q m e = rw (insert_event, e) refl

-- The addresses of the new handles are unused, and no two are the same.
abbrev pub AreFresh : {A : Type 0} → (Ptr → Option A) → List Ready → Type 0
AreFresh h [] = Unit
AreFresh h (r ∷ rs) = (h r.fresh ≡ none) × All (λ q. q.fresh ≢ r.fresh) rs × AreFresh h rs

pub AreFresh-same :
    {A B : Type 0} (h : Ptr → Option A) (g : Ptr → Option B) (rs : List Ready)
    → ((q : Ptr) → h q ≡ none → g q ≡ none)
    → AreFresh h rs
    → AreFresh g rs
AreFresh-same h g [] same a = tt
AreFresh-same h g (r ∷ rs) same a = (same r.fresh a.0, a.1, AreFresh-same h g rs same a.2)

pub AreFresh-kept :
    (h g : Ptr → Option EventHandle) (p : Ptr) (rs : List Ready)
    → ((q : Ptr) → q ≢ p → g q ≡ h q)
    → All (λ r. r.fresh ≢ p) rs
    → AreFresh h rs
    → AreFresh g rs
AreFresh-kept h g p [] kept out a = tt
AreFresh-kept h g p (r ∷ rs) kept out a =
    (kept r.fresh out.0 ∙ a.0, a.1, AreFresh-kept h g p rs kept out.1 a.2)

module _ {S : Type 0} (calls : Calls S) where
  Step-Consistent : {s t : Reactor S} → Step calls s t → Consistent s → Consistent t
  Step-Consistent {s} {t} (register p f e {done} unused run) c =
      let s' = with_handle calls s p f s.kernel in
      let live = update_self s.handles p (some (new_handle f)) in
      let same =
        ok_injective _ (done, t)
          (sym (register_event_handle-run calls s' p (new_handle f) e live) ∙ run) in
      subst Consistent (ap (λ r. r.1) same) (
        after_register-Consistent calls s' p (new_handle f) e live
          (with_handle-Consistent calls s p f s.kernel unused c))
  Step-Consistent {s} {t} (serve r unused run) c =
      let (t', run', c', _, _) = dispatch-Consistent calls s r unused c in
      subst Consistent (ok_injective t' t (sym run' ∙ run)) c'
  Step-Consistent {s} {t} (remove p h live run) c =
      let (t', run', c', _, _) = remove_event_handle-Consistent calls s p h live c in
      subst Consistent (ok_injective t' t (sym run' ∙ run)) c'

  -- In every state that a reactor reaches, every entry of the map leads to a live handle of its descriptor
  -- whose status is 1.
  pub Reach-Consistent : (s : Reactor S) → Reach calls s → Consistent s
  Reach-Consistent _ (start k) = λ f p found. absurd (nothing_found f p found)
  Reach-Consistent t (later {s} before_it step) =
      Step-Consistent step (Reach-Consistent s before_it)

  serves :
      (s : Reactor S)
      → Reach calls s
      → (r : Ready) → s.handles r.fresh ≡ none
      → (t : Reactor S) × (dispatch calls s r ≡ ok t)
        × Reach calls t
        × ((q : Ptr) → q ≢ r.fresh → t.handles q ≡ s.handles q)
  serves s run r unused =
      let (t, done, _, _, kept) = dispatch-Consistent calls s r unused (Reach-Consistent s run) in
      (t, done, later run (serve r unused done), kept)

  -- In every state that a reactor reaches, `wait_event` handles the ready descriptors, in any order and
  -- also those without an entry, without a fault, if the addresses of new handles are unused and differ.
  pub wait_event_returns :
      (s : Reactor S) (rs : List Ready)
      → Reach calls s
      → AreFresh s.handles rs
      → (t : Reactor S) × (wait_event calls s rs ≡ ok t) × Reach calls t
  unfolding wait_event
  wait_event_returns s [] run a = (s, refl, run)
  wait_event_returns s (r ∷ rs) run a =
      let (t, done, run', kept) = serves s run r a.0 in
      let (x, rest, run'') =
        wait_event_returns t rs run' (AreFresh-kept s.handles t.handles r.fresh rs kept a.1 a.2) in
      (x, rw (wait_event, done) rest, run'')

  -- If a connection is accepted whose descriptor still has an entry in the map, as one has that was
  -- closed by `HandRecv`, and is set non-blocking, then the map stays as it is, and no entry leads to the
  -- new handle.
  pub reused_fd :
      (s : Reactor S)
      → Reach calls s
      → (f c : ℕ) (fresh p : Ptr) → s.handles fresh ≡ none
      → find_event c s.ep_events ≡ some p
      → (calls.accept s.kernel f).0 ≡ some c
      → (calls.set_nonblocking (calls.accept s.kernel f).1 c).0 ≡ true
      → (t : Reactor S) × (hand_accept calls s f fresh ≡ ok t)
        × (t.ep_events ≡ s.ep_events)
        × (t.handles fresh ≡ some (record { fd = c; status = 1 }))
        × ((g : ℕ) → get_event_handle calls t g ≢ some fresh)
  unfolding get_event_handle hand_accept
  reused_fd s run f c fresh p unused entry accepted set =
      let k = (calls.set_nonblocking (calls.accept s.kernel f).1 c).1 in
      let s' = with_handle calls s fresh c k in
      let live = update_self s.handles fresh (some (new_handle c)) in
      let registered = register_event_handle-run calls s' fresh (new_handle c) recv_mask live in
      let same = insert_event_kept c fresh p s.ep_events entry in
      (
        (after_register calls s' fresh (new_handle c) recv_mask).1,
        rw (hand_accept, accepted, set, registered) refl,
        same,
        update_self s'.handles fresh (some (record { fd = c; status = 1 })),
        λ g found.
            let (h, at, _, _) =
              Reach-Consistent s run g fresh (sym (ap (find_event g) same) ∙ found) in
            cc (sym unused ∙ at),
      )
