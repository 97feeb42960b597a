-- ===== src/Reactor/Keys.antt =====
-- No descriptor has two entries in the map of a reactor.
use cpp_project.Base.{
  Distinct, Out, ℕ, ◌≡◌, refl, sym, ap, subst, inl, inr, Bool-cases, Option-cases, none, some, List,
  [], ◌∷◌, ◌==◌, arith, ok, ok_injective, >>=_ok, or_fault, Bool,
}
use cpp_project.Reactor.{
  Ptr, EventMap, Mask, Calls, Ready, Reactor, find_event, erase_event, insert_event, erase_handle,
  register_event_handle, remove, remove_event_handle, dispatch,
}
use cpp_project.Reactor.Kept.{Quiet, register-Holds, dispatch-Holds}

abbrev pub keys : EventMap → List ℕ
keys [] = []
keys ((k, p) ∷ m) = k ∷ keys m

abbrev pub Keyed : {S : Type 0} → Reactor S → Type 0
Keyed s = Distinct (keys s.ep_events)

find_event-Out : (f : ℕ) (m : EventMap) → find_event f m ≡ none → Out f (keys m)
unfolding find_event
find_event-Out f [] e = tt
find_event-Out f ((k, p) ∷ m) e = elim (Bool-cases (k == f)) [
  | inl same ↦ absurd (ground arith)
  | inr other ↦ (ground (arith, other), find_event-Out f m (ground (arith, other)))
]

insert_event-Distinct :
    (f : ℕ) (p : Ptr) (m : EventMap) → Distinct (keys m) → Distinct (keys (insert_event f p m))
insert_event-Distinct f p m d = elim (Option-cases (find_event f m)) [
  | inl e ↦ rw (insert_event, e) (find_event-Out f m e, d)
  | inr (q, e) ↦ rw (insert_event, e) d
]

erase_event-Out : (g f : ℕ) (m : EventMap) → Out g (keys m) → Out g (keys (erase_event f m))
unfolding erase_event
erase_event-Out g f [] o = tt
erase_event-Out g f ((k, p) ∷ m) o = elim (Bool-cases (k == f)) [
  | inl e ↦ rw e (erase_event-Out g f m o.1)
  | inr e ↦ rw e (o.0, erase_event-Out g f m o.1)
]

erase_event-Distinct :
    (f : ℕ) (m : EventMap) → Distinct (keys m) → Distinct (keys (erase_event f m))
unfolding erase_event
erase_event-Distinct f [] d = tt
erase_event-Distinct f ((k, p) ∷ m) d = elim (Bool-cases (k == f)) [
  | inl e ↦ rw e (erase_event-Distinct f m d.1)
  | inr e ↦ rw e (erase_event-Out k f m d.0, erase_event-Distinct f m d.1)
]

module _ {S : Type 0} (calls : Calls S) where
  no_view : Quiet calls (λ _. tt)
  no_view = record {
    accept = λ k f. refl;
    set_nonblocking = λ k f. refl;
    recv = λ k f. refl;
    close = λ k f. refl;
  }

  pub register-Keyed :
      (s : Reactor S) (p : Ptr) (e : Mask) (r : Bool × Reactor S)
      → register_event_handle calls s (some p) e ≡ ok r
      → Keyed s
      → Keyed r.1
  register-Keyed =
      register-Holds calls (λ _. tt) (λ m _. Distinct (keys m)) no_view
        (λ m k f p again input d. insert_event-Distinct f p m d)

  pub dispatch-Keyed :
      (s : Reactor S) (r : Ready) (t : Reactor S) → dispatch calls s r ≡ ok t → Keyed s → Keyed t
  dispatch-Keyed =
      dispatch-Holds calls (λ _. tt) (λ m _. Distinct (keys m)) no_view
        (λ m k f p again input d. insert_event-Distinct f p m d)

  remove-ep_events :
      (s : Reactor S) (p : Ptr) (t : Reactor S)
      → remove calls s (some p) ≡ ok t
      → t.ep_events ≡ s.ep_events
  unfolding remove
  remove-ep_events s p t run =
      let (h, _, done) = >>=_ok (or_fault (s.handles p)) _ t run in
      elim (Bool-cases (h.status == 1)) [
        | inl e ↦ ap (λ (x : Reactor S). x.ep_events) (sym (ok_injective _ t (rw e at done)))
        | inr e ↦ ap (λ (x : Reactor S). x.ep_events) (sym (ok_injective _ t (rw e at done)))
      ]

  erase_handle-Keyed : (s : Reactor S) (f : ℕ) → Keyed s → Keyed (erase_handle s f)
  unfolding erase_handle
  erase_handle-Keyed s f d = elim (Option-cases (find_event f s.ep_events)) [
    | inl e ↦ rw (erase_handle, e) d
    | inr (q, e) ↦ rw (erase_handle, e) (erase_event-Distinct f s.ep_events d)
  ]

  pub remove-Keyed :
      (s : Reactor S) (p : Ptr) (t : Reactor S)
      → remove_event_handle calls s (some p) ≡ ok t
      → Keyed s
      → Keyed t
  unfolding remove_event_handle
  remove-Keyed s p t run d =
      let (u, removed, after_u) = >>=_ok (remove calls s (some p)) _ t run in
      let (h, _, same) = >>=_ok (or_fault (u.handles p)) _ t after_u in
      let d' : Keyed u = subst (λ m. Distinct (keys m)) (sym (remove-ep_events s p u removed)) d in
      subst Keyed (ok_injective _ t same) (erase_handle-Keyed u h.fd d')
