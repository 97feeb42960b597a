-- ===== src/Reactor/Kept.antt =====
-- What registering a handle and serving a ready descriptor keep: a property of the map and of a part of the
-- kernel that only `epoll_ctl` changes.
use cpp_project.Base.{
  ℕ, ◌≡◌, sym, ◌∙◌, subst, inl, inr, Bool, Bool-cases, Option-cases, some, ◌==◌, ok, ok_injective,
  >>=_ok, if◌then◌else◌, or_fault, ◌>>=◌,
}
use cpp_project.Reactor.{
  Ptr, EventHandle, EventMap, Mask, add, modify, Calls, Ready, Reactor, find_event, insert_event,
  register_event_handle, get_event_handle, hand_accept, hand_recv, dispatch,
}
use cpp_project.Reactor.Invariant.{register_event_handle-run}
use cpp_project.Reactor.Loop.{with_handle, recv_mask}

-- The other system calls leave this part of the kernel alone.
pub record Quiet {S L : Type 0} (calls : Calls S) (view : S → L) : Type 0 where
  pub accept : (k : S) (f : ℕ) → view (calls.accept k f).1 ≡ view k
  pub set_nonblocking : (k : S) (f : ℕ) → view (calls.set_nonblocking k f).1 ≡ view k
  pub recv : (k : S) (f : ℕ) → view (calls.recv k f).1 ≡ view k
  pub close : (k : S) (f : ℕ) → view (calls.close k f) ≡ view k

module _ {S L : Type 0} (calls : Calls S) (view : S → L) (P : EventMap → L → Type 0)
    (quiet : Quiet calls view)
    (registers : (m : EventMap) (k : S) (f : ℕ) (p : Ptr) (again input : Bool)
      → P m (view k)
      → P
          (insert_event f p m)
          (view (calls.epoll_ctl k (if again then modify else add) f input).1)) where
  abbrev Holds : Reactor S → Type 0
  Holds s = P s.ep_events (view s.kernel)

  pub register-Holds :
      (s : Reactor S) (p : Ptr) (e : Mask) (r : Bool × Reactor S)
      → register_event_handle calls s (some p) e ≡ ok r
      → Holds s
      → Holds r.1
  unfolding register_event_handle
  register-Holds s p e r run d = elim (Option-cases (s.handles p)) [
    | inl gone ↦ let run' = rw (register_event_handle, gone) at run in absurd cc
    | inr (h, live) ↦
        let same = ok_injective _ r (sym (register_event_handle-run calls s p h e live) ∙ run) in
        subst (λ (x : Bool × Reactor S). Holds x.1) same
          (registers s.ep_events s.kernel h.fd p (h.status == 1) _ d)
  ]

  hand_accept-Holds :
      (s : Reactor S) (f : ℕ) (fresh : Ptr) (t : Reactor S)
      → hand_accept calls s f fresh ≡ ok t
      → Holds s
      → Holds t
  unfolding hand_accept
  hand_accept-Holds s f fresh t run d =
      let d' = subst (P s.ep_events) (sym (quiet.accept s.kernel f)) d in
      let k = (calls.accept s.kernel f).1 in
      elim (Option-cases (calls.accept s.kernel f).0) [
        | inl e ↦ let run' = rw (hand_accept, e) at run in subst Holds (ok_injective _ t run') d'
        | inr (c, e) ↦
            let d'' = subst (P s.ep_events) (sym (quiet.set_nonblocking k c)) d' in
            elim (Bool-cases (calls.set_nonblocking k c).0) [
              | inl set ↦
                  let run' = rw (hand_accept, e, set) at run in
                  let s' = with_handle calls s fresh c (calls.set_nonblocking k c).1 in
                  let (r, registered, same) =
                    >>=_ok (register_event_handle calls s' (some fresh) recv_mask)
                      (λ (r : Bool × Reactor S). ok r.1) t run' in
                  subst Holds (ok_injective r.1 t same)
                    (register-Holds s' fresh recv_mask r registered d'')
              | inr set ↦
                  let run' = rw (hand_accept, e, set) at run in
                  subst Holds (ok_injective _ t run') d''
            ]
      ]

  hand_recv-Holds : (s : Reactor S) (f : ℕ) → Holds s → Holds (hand_recv calls s f)
  unfolding hand_recv get_event_handle
  hand_recv-Holds s f d =
      let k = (calls.recv s.kernel f).1 in
      let d' = subst (P s.ep_events) (sym (quiet.recv s.kernel f)) d in
      let closed = subst (P s.ep_events) (sym (quiet.close k f)) d' in
      elim (Option-cases (find_event f s.ep_events)) [
        | inl e ↦ rw (hand_recv, get_event_handle, e) d
        | inr (p, e) ↦ elim (Option-cases (calls.recv s.kernel f).0) [
          | inl none_read ↦ rw (hand_recv, get_event_handle, e, none_read) closed
          | inr (n, read) ↦ elim (Bool-cases (n == 0)) [
            | inl at_end ↦ rw (hand_recv, get_event_handle, e, read, at_end) closed
            | inr more ↦ rw (hand_recv, get_event_handle, e, read, more) d'
          ]
        ]
      ]

  pub dispatch-Holds :
      (s : Reactor S) (r : Ready) (t : Reactor S) → dispatch calls s r ≡ ok t → Holds s → Holds t
  unfolding dispatch get_event_handle
  dispatch-Holds s r t run d = elim (Option-cases (find_event r.fd s.ep_events)) [
    | inl e ↦
        let run' = rw (dispatch, get_event_handle, e) at run in
        subst Holds (ok_injective s t run') d
    | inr (p, e) ↦
        let run' = rw (dispatch, get_event_handle, e) at run in
        let (h, live, after_h) = >>=_ok (or_fault (s.handles p)) _ t run' in
        let (u, handled, after_u) = >>=_ok _ _ t after_h in
        subst Holds (sent u p after_u) (input_Holds h u handled)
  ]
    where
      sent :
          (u : Reactor S) (p : Ptr)
          → (if r.output then (or_fault (u.handles p) >>= λ _. ok u) else ok u) ≡ ok t
          → u ≡ t
      sent u p e = elim (Bool-cases r.output) [
        | inl o ↦
            let (_, _, same) = >>=_ok (or_fault (u.handles p)) _ t (rw o at e) in
            ok_injective u t same
        | inr o ↦ ok_injective u t (rw o at e)
      ]

      input_Holds :
          (h : EventHandle) (u : Reactor S)
          → (if r.input
              then (if s.socketfd == r.fd
                  then hand_accept calls s h.fd r.fresh
                  else ok (hand_recv calls s h.fd))
              else ok s)
            ≡ ok u
          → Holds u
      input_Holds h u e = elim (Bool-cases r.input) [
        | inr i ↦ subst Holds (ok_injective s u (rw i at e)) d
        | inl i ↦ elim (Bool-cases (s.socketfd == r.fd)) [
          | inl l ↦ hand_accept-Holds s h.fd r.fresh u (rw (i, l) at e) d
          | inr l ↦ subst Holds (ok_injective _ u (rw (i, l) at e)) (hand_recv-Holds s h.fd d)
        ]
      ]
