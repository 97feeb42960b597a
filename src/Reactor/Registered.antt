-- ===== src/Reactor/Registered.antt =====
-- The calls of `epoll_ctl` in Reactor/EventDemultiplex.cpp for the descriptors in the map of a reactor.
use cpp_project.Base.{
  ℕ, ◌≡◌, refl, sym, ap, ◌∙◌, ◌≢◌, subst, ◌⊎◌, inl, inr, Bool, Bool-cases, false, Option,
  Option-cases, none, some, List, [], ◌∷◌, ◌==◌, if◌then◌else◌, arith, ok, ok_injective, update,
  update_self,
}
use cpp_project.Reactor.{
  Ptr, EventHandle, EventMap, Op, add, modify, del, Calls, Reactor, find_event, insert_event,
  erase_handle, remove, remove_event_handle,
}
use cpp_project.Reactor.Invariant.{
  Consistent, find_event-insert_event, remove_event_handle-Consistent,
}
use cpp_project.Reactor.Loop.{with_handle}
use cpp_project.Reactor.Kept.{Quiet, register-Holds, dispatch-Holds}
use cpp_project.Reactor.History
use cpp_project.Reactor.History.{Step, Reach, start, later, Reach-Consistent}

-- The calls of `epoll_ctl`, the last one first.
abbrev pub Log : Type 0
Log = List (Op × ℕ)

-- The same system calls, with a kernel that keeps the calls of `epoll_ctl`, those that fail too.
abbrev pub traced : {S : Type 0} → Calls S → Calls (S × Log)
traced calls = record {
  epoll_ctl = λ k op f input. let r = calls.epoll_ctl k.0 op f input in (r.0, (r.1, (op, f) ∷ k.1));
  accept = λ k f. let r = calls.accept k.0 f in (r.0, (r.1, k.1));
  set_nonblocking = λ k f. let r = calls.set_nonblocking k.0 f in (r.0, (r.1, k.1));
  recv = λ k f. let r = calls.recv k.0 f in (r.0, (r.1, k.1));
  close = λ k f. (calls.close k.0 f, k.1);
  close_epoll = λ k. (calls.close_epoll k.0, k.1);
}

-- The last call for a descriptor.
abbrev pub last_ctl : ℕ → Log → Option Op
last_ctl f [] = none
last_ctl f ((op, g) ∷ log) = let rest = last_ctl f log in if g == f then some op else rest

abbrev pub IsAsked : ℕ → Log → Type 0
IsAsked f log = (op : Op) × (last_ctl f log ≡ some op) × (op ≢ del)

-- Each entry of the map is one that epoll was asked for.
abbrev Asked : EventMap → Log → Type 0
Asked m log = (f : ℕ) (p : Ptr) → find_event f m ≡ some p → IsAsked f log

IsAsked-other : (f g : ℕ) (op : Op) (log : Log) → f ≢ g → IsAsked f log → IsAsked f ((op, g) ∷ log)
IsAsked-other f g op log ne (old, last, keeps) = (old, ground (arith, ne, last), keeps)

IsAsked-now : (f : ℕ) (op : Op) (log : Log) → op ≢ del → IsAsked f ((op, f) ∷ log)
IsAsked-now f op log ne = (op, ground arith, ne)

module _ {S : Type 0} (calls : Calls S) where
  log_only : Quiet (traced calls) (λ k. k.1)
  log_only = record {
    accept = λ k f. refl;
    set_nonblocking = λ k f. refl;
    recv = λ k f. refl;
    close = λ k f. refl;
  }

  insert_event-Asked :
      (m : EventMap) (k : S × Log) (f : ℕ) (p : Ptr) (again input : Bool)
      → Asked m k.1
      → Asked (insert_event f p m) ((if again then modify else add, f) ∷ k.1)
  insert_event-Asked m k f p again input a g q found = elim (Bool-cases (g == f)) [
    | inl same ↦
        subst (λ x. IsAsked x ((op, f) ∷ k.1)) (ground (arith, same)) (IsAsked-now f op k.1 keeps)
    | inr other ↦ elim (find_event-insert_event f p m g q found) [
      | inl old ↦ IsAsked-other g f op k.1 (ground (arith, other)) (a g q old)
      | inr (is, _) ↦ absurd (ground (arith, other))
    ]
  ]
    where
      op : Op
      op = if again then modify else add

      keeps : op ≢ del
      keeps e = elim (Bool-cases again) [ inl b ↦ ground arith | inr b ↦ ground arith ]

  erase_handle-kernel : (s : Reactor (S × Log)) (f : ℕ) → (erase_handle s f).kernel ≡ s.kernel
  unfolding erase_handle
  erase_handle-kernel s f = elim (Option-cases (find_event f s.ep_events)) [
    | inl e ↦ rw (erase_handle, e) refl
    | inr (q, e) ↦ rw (erase_handle, e) refl
  ]

  -- `RemoveEventHandle` calls `epoll_ctl` for its own descriptor, or not at all.
  remove_event_handle-log :
      (s t : Reactor (S × Log)) (p : Ptr) (h : EventHandle)
      → s.handles p ≡ some h
      → remove_event_handle (traced calls) s (some p) ≡ ok t
      → (t.kernel.1 ≡ s.kernel.1) ⊎ (t.kernel.1 ≡ (del, h.fd) ∷ s.kernel.1)
  unfolding remove_event_handle remove
  remove_event_handle-log s t p h live run = elim (Bool-cases (h.status == 1)) [
    | inl e ↦
        let removed = record s {
          handles = update s.handles p (some (record h { status = 0 }));
          kernel = ((calls.epoll_ctl s.kernel.0 del h.fd false).1, (del, h.fd) ∷ s.kernel.1);
        } in
        let at = update_self s.handles p (some (record h { status = 0 })) in
        let run' = rw (remove_event_handle, remove, live, e, at) at run in
        inr (
          ap (λ (x : Reactor (S × Log)). x.kernel.1) (sym (ok_injective _ t run'))
          ∙ ap (λ k. k.1) (erase_handle-kernel removed h.fd))
    | inr e ↦
        let run' = rw (remove_event_handle, remove, live, e, live) at run in
        inl (
          ap (λ (x : Reactor (S × Log)). x.kernel.1) (sym (ok_injective _ t run'))
          ∙ ap (λ k. k.1) (erase_handle-kernel s h.fd))
  ]

  Step-Asked :
      {s t : Reactor (S × Log)}
      → Step (traced calls) s t
      → Consistent s
      → Asked s.ep_events s.kernel.1
      → Asked t.ep_events t.kernel.1
  Step-Asked {s} {t} (History.register p f e {done} unused run) c a g q found =
      register-Holds (traced calls) (λ k. k.1) Asked log_only insert_event-Asked
        (with_handle (traced calls) s p f s.kernel) p e (done, t) run a g q found
  Step-Asked {s} {t} (History.serve r unused run) c a g q found =
      dispatch-Holds (traced calls) (λ k. k.1) Asked log_only insert_event-Asked s r t run a g q
        found
  Step-Asked {s} {t} (History.remove p h live run) c a g q found =
      let (t', run', _, gone, others) =
        remove_event_handle-Consistent (traced calls) s p h live c in
      let same = ok_injective t' t (sym run' ∙ run) in
      let found' : find_event g t'.ep_events ≡ some q =
        ap (λ (x : Reactor (S × Log)). find_event g x.ep_events) same ∙ found in
      let ne : g ≢ h.fd =
        λ (d : g ≡ h.fd). cc (sym gone ∙ ap (λ x. find_event x t'.ep_events) (sym d) ∙ found') in
      let old = a g q (sym (others g ne) ∙ found') in
      elim (remove_event_handle-log s t p h live run) [
        | inl kept ↦ subst (IsAsked g) (sym kept) old
        | inr called ↦ subst (IsAsked g) (sym called) (IsAsked-other g h.fd del s.kernel.1 ne old)
      ]

  nothing_found : (f : ℕ) (p : Ptr) → find_event f [] ≢ some p
  unfolding find_event
  nothing_found f p e = cc

  Reach-Asked : (s : Reactor (S × Log)) → Reach (traced calls) s → Asked s.ep_events s.kernel.1
  Reach-Asked _ (start k) = λ f p found. absurd (nothing_found f p found)
  Reach-Asked t (later {s} before_it step) =
      Step-Asked step (Reach-Consistent (traced calls) s before_it) (Reach-Asked s before_it)

  -- In every state that a reactor reaches by making and registering handles, serving ready descriptors
  -- and removing handles, every entry of the map leads to a live handle of its descriptor with status 1,
  -- and of the calls of `epoll_ctl` for this descriptor the last was to add or to modify it. Whether that
  -- call succeeded is not looked at, and a descriptor that `HandRecv` has closed may still have its entry.
  pub Reach-Registered :
      (s : Reactor (S × Log))
      → Reach (traced calls) s
      → (f : ℕ) (p : Ptr) → find_event f s.ep_events ≡ some p
      → ((h : EventHandle) × (s.handles p ≡ some h) × (h.fd ≡ f) × (h.status ≡ 1))
        × ((op : Op) × (last_ctl f s.kernel.1 ≡ some op) × (op ≢ del))
  Reach-Registered s run f p found =
      (Reach-Consistent (traced calls) s run f p found, Reach-Asked s run f p found)
