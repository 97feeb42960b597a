-- ===== src/HttpReactor/Buffers.antt =====
-- The buffers of the handles of HttpReactor, in HttpReactor/EventHandle.h, in all its runs.
use cpp_project.Base.{
  ℕ, ◌≡◌, refl, sym, ap, ◌∙◌, subst, ◌≤◌, ◌<◌, inl, inr, Bool, Bool-cases, Option, Option-cases,
  none, some, List, ◌==◌, if◌then◌else◌, update, update_cases, ok, ok_injective, >>=_ok, or_fault,
  or_fault_ok, ◌>>=◌, arith,
}
use cpp_project.Reactor.{Ptr, Mask, Calls, Ready}
use cpp_project.Reactor.History.{AreFresh}
use cpp_project.HttpReactor.{
  EventHandle, Reactor, new_handle, erase_handle, regist, register_event_handle, remove,
  remove_event_handle, get_event_handle, hand_accept, hand_recv, dispatch, wait_event,
}
use cpp_project.HttpReactor.History
use cpp_project.HttpReactor.History.{
  Step, Reach, start, later, with_handle, Reach-entries, wait_event_returns,
}

module _ {S : Type 0} (calls : Calls S) (memory : Ptr → ℕ → ℕ) where
  -- Each live handle has the buffer that its constructor has left.
  abbrev Idle : (Ptr → Option EventHandle) → Type 0
  Idle f =
      (p : Ptr) (h : EventHandle)
      → f p ≡ some h
      → (h.len ≡ 0) × (h.sbuffer ≡ (new_handle (memory p) 0).sbuffer)

  put-Idle :
      (f : Ptr → Option EventHandle) (p : Ptr) (g : EventHandle)
      → (g.len ≡ 0) × (g.sbuffer ≡ (new_handle (memory p) 0).sbuffer)
      → Idle f
      → Idle (update f p (some g))
  put-Idle f p g idle a q h e = elim (update_cases f p (some g) q e) [
    | inl (at, same) ↦
        let is : g ≡ h = cc in
        (
          ap (λ (x : EventHandle). x.len) (sym is) ∙ idle.0,
          ap (λ (x : EventHandle). x.sbuffer) (sym is)
              ∙ idle.1
              ∙ ap (λ r. (new_handle (memory r) 0).sbuffer) (sym at),
        )
    | inr (_, old) ↦ a q h old
  ]

  free-Idle : (f : Ptr → Option EventHandle) (p : Ptr) → Idle f → Idle (update f p none)
  free-Idle f p a q h e = elim (update_cases f p none q e) [
    | inl (_, gone) ↦ absurd cc
    | inr (_, old) ↦ a q h old
  ]

  register-Idle :
      (s : Reactor S) (p : Ptr) (e : Mask) (r : Bool × Reactor S)
      → register_event_handle calls memory s (some p) e ≡ ok r
      → Idle s.handles
      → Idle r.1.handles
  unfolding register_event_handle regist
  register-Idle s p e r run a =
      let (_, _, registers) = >>=_ok (or_fault (s.handles p)) _ r run in
      let (h, live, done) = >>=_ok (or_fault (s.handles p)) _ r registers in
      subst (λ (x : Bool × Reactor S). Idle x.1.handles) (ok_injective _ r done)
        (put-Idle s.handles p (record h { status = 1 }) (a p h (or_fault_ok (s.handles p) h live))
          a)

  hand_accept-Idle :
      (s : Reactor S) (f : ℕ) (fresh : Ptr) (t : Reactor S)
      → hand_accept calls memory s f fresh ≡ ok t
      → Idle s.handles
      → Idle t.handles
  unfolding hand_accept
  hand_accept-Idle s f fresh t run a = elim (Option-cases (calls.accept s.kernel f).0) [
    | inl e ↦
        let run' = rw (hand_accept, e) at run in
        subst (λ (x : Reactor S). Idle x.handles) (ok_injective _ t run') a
    | inr (c, e) ↦ elim (Bool-cases (calls.set_nonblocking (calls.accept s.kernel f).1 c).0) [
      | inr set ↦
          let run' = rw (hand_accept, e, set) at run in
          subst (λ (x : Reactor S). Idle x.handles) (ok_injective _ t run') a
      | inl set ↦
          let run' = rw (hand_accept, e, set) at run in
          let (r, registered, same) = >>=_ok _ (λ (r : Bool × Reactor S). ok r.1) t run' in
          subst (λ (x : Reactor S). Idle x.handles) (ok_injective r.1 t same)
            (register-Idle _ fresh _ r registered
              (put-Idle s.handles fresh (new_handle (memory fresh) c) (refl, refl) a))
    ]
  ]

  hand_recv-handles : (s : Reactor S) (f : ℕ) → (hand_recv calls memory s f).handles ≡ s.handles
  unfolding hand_recv get_event_handle
  hand_recv-handles s f = elim (Option-cases (s.ep_events f)) [
    | inl e ↦ rw (hand_recv, get_event_handle, e) refl
    | inr (p, e) ↦ elim (Option-cases (calls.recv s.kernel f).0) [
      | inl d ↦ rw (hand_recv, get_event_handle, e, d) refl
      | inr (n, d) ↦ rw (hand_recv, get_event_handle, e, d) refl
    ]
  ]

  dispatch-Idle :
      (s : Reactor S) (r : Ready) (t : Reactor S)
      → dispatch calls memory s r ≡ ok t
      → Idle s.handles
      → Idle t.handles
  unfolding dispatch get_event_handle
  dispatch-Idle s r t run a = elim (Option-cases (s.ep_events r.fd)) [
    | inl e ↦
        let run' = rw (dispatch, get_event_handle, e) at run in
        subst (λ (x : Reactor S). Idle x.handles) (ok_injective s t run') a
    | inr (p, e) ↦
        let run' = rw (dispatch, get_event_handle, e) at run in
        let (h, live, after_h) = >>=_ok (or_fault (s.handles p)) _ t run' in
        let (u, handled, after_u) = >>=_ok _ _ t after_h in
        subst (λ (x : Reactor S). Idle x.handles) (sent u p after_u) (input_Idle h u handled)
  ]
    where
      sent :
          (u : Reactor S) (p : Ptr)
          → (if r.output then (or_fault (u.handles p) >>= λ _. ok u) else ok u) ≡ ok t
          → u ≡ t
      sent u p e = elim (Bool-cases r.output) [
        | inl o ↦
            let (_, _, same) = >>=_ok (or_fault (u.handles p)) _ t (rw o at e) in
            ok_injective u t same
        | inr o ↦ ok_injective u t (rw o at e)
      ]

      input_Idle :
          (h : EventHandle) (u : Reactor S)
          → (if r.input
              then (if s.socketfd == r.fd
                  then hand_accept calls memory s h.fd r.fresh
                  else ok (hand_recv calls memory s h.fd))
              else ok s)
            ≡ ok u
          → Idle u.handles
      input_Idle h u e = elim (Bool-cases r.input) [
        | inr i ↦ subst (λ (x : Reactor S). Idle x.handles) (ok_injective s u (rw i at e)) a
        | inl i ↦ elim (Bool-cases (s.socketfd == r.fd)) [
          | inl l ↦ hand_accept-Idle s h.fd r.fresh u (rw (i, l) at e) a
          | inr l ↦
              subst (λ (x : Reactor S). Idle x.handles) (ok_injective _ u (rw (i, l) at e))
                (subst Idle (sym (hand_recv-handles s h.fd)) a)
        ]
      ]

  erase_handle-Idle : (s : Reactor S) (f : ℕ) → Idle s.handles → Idle (erase_handle s f).handles
  unfolding erase_handle
  erase_handle-Idle s f a = elim (Option-cases (s.ep_events f)) [
    | inl e ↦ rw (erase_handle, e) a
    | inr (q, e) ↦ rw (erase_handle, e) (free-Idle s.handles q a)
  ]

  remove-Idle :
      (s : Reactor S) (p : Ptr) (t : Reactor S)
      → remove calls memory s (some p) ≡ ok t
      → Idle s.handles
      → Idle t.handles
  unfolding remove
  remove-Idle s p t run a =
      let (h, live, done) = >>=_ok (or_fault (s.handles p)) _ t run in
      let idle = a p h (or_fault_ok (s.handles p) h live) in
      elim (Bool-cases (h.status == 1)) [
        | inl e ↦
            subst (λ (x : Reactor S). Idle x.handles) (ok_injective _ t (rw e at done))
              (put-Idle s.handles p (record h { status = 0 }) idle a)
        | inr e ↦ subst (λ (x : Reactor S). Idle x.handles) (ok_injective _ t (rw e at done)) a
      ]

  remove_event_handle-Idle :
      (s : Reactor S) (p : Ptr) (t : Reactor S)
      → remove_event_handle calls memory s (some p) ≡ ok t
      → Idle s.handles
      → Idle t.handles
  unfolding remove_event_handle
  remove_event_handle-Idle s p t run a =
      let (u, removed, after_u) = >>=_ok (remove calls memory s (some p)) _ t run in
      let (h, _, same) = >>=_ok (or_fault (u.handles p)) _ t after_u in
      subst (λ (x : Reactor S). Idle x.handles) (ok_injective _ t same)
        (erase_handle-Idle u h.fd (remove-Idle s p u removed a))

  Step-Idle : {s t : Reactor S} → Step calls memory s t → Idle s.handles → Idle t.handles
  Step-Idle {s} {t} (History.register p f e {done} unused run) a =
      register-Idle (with_handle calls memory s p f) p e (done, t) run
        (put-Idle s.handles p (new_handle (memory p) f) (refl, refl) a)
  Step-Idle {s} {t} (History.serve r unused run) a = dispatch-Idle s r t run a
  Step-Idle {s} {t} (History.remove p h live run) a = remove_event_handle-Idle s p t run a

  Reach-Idle : (s : Reactor S) → Reach calls memory s → Idle s.handles
  Reach-Idle _ (start k) = λ p h e. absurd cc
  Reach-Idle t (later {s} before_it step) = Step-Idle step (Reach-Idle s before_it)

  -- In every state that the reactor of HttpReactor reaches by making and registering handles, serving
  -- ready descriptors and removing handles, wait_event serves any ready descriptors without a fault, if
  -- the addresses of new handles are unused and differ. Whatever the clients have sent, there is nothing
  -- to answer them with then: each entry of the map leads to a live handle of its descriptor with status
  -- 1, whose buffer is as the constructor has left it, with length 0, the first 128 of its 1024 pointers
  -- NULL, and the others what the memory held before.
  pub nothing_answered :
      (s : Reactor S) (rs : List Ready)
      → Reach calls memory s
      → AreFresh s.handles rs
      → (t : Reactor S) × (wait_event calls memory s rs ≡ ok t)
        × ((f : ℕ) (p : Ptr)
            → t.ep_events f ≡ some p
            → (h : EventHandle) × (t.handles p ≡ some h)
              × (h.fd ≡ f)
              × (h.status ≡ 1)
              × (h.len ≡ 0)
              × ((i : ℕ) → i < 128 → h.sbuffer i ≡ 0)
              × ((i : ℕ) → 128 ≤ i → h.sbuffer i ≡ memory p i))
  nothing_answered s rs run fresh =
      let (t, served, run') = wait_event_returns calls memory s rs run fresh in
      (
        t,
        served,
        λ f p found.
            let (h, at, fd, status) = Reach-entries calls memory t run' f p found in
            let (len, buffer) = Reach-Idle t run' p h at in
            (
              h,
              at,
              fd,
              status,
              len,
              λ i below. ap (λ (b : ℕ → ℕ). b i) buffer ∙ ground (arith, below),
              λ i above. ap (λ (b : ℕ → ℕ). b i) buffer ∙ ground (arith, above),
            ),
      )
