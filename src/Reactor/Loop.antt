-- ===== src/Reactor/Loop.antt =====
-- The loop over ready descriptors: each is dispatched without a fault and keeps the map consistent.
use cpp_project.Base.{
  ℕ, ◌≡◌, refl, sym, ap, ◌∙◌, ◌≢◌, inl, inr, Bool-cases, true, false, Option, Option-cases, none,
  some, ◌==◌, if◌then◌else◌, update, update_self, update_ne, Run, ok,
}
use cpp_project.Reactor.{
  Ptr, EventHandle, Mask, Calls, Ready, Reactor, new_handle, find_event, get_event_handle,
  hand_accept, hand_recv, dispatch,
}
use cpp_project.Reactor.Invariant.{
  Consistent, after_register, register_event_handle-run, after_register-Consistent,
  insert_event_keeps,
}

abbrev pub recv_mask : Mask
recv_mask = record { accept = false; recv = true }

module _ {S : Type 0} (calls : Calls S) (s : Reactor S) where
  -- The new handle is in memory, and the map is as before.
  abbrev pub with_handle : Ptr → ℕ → S → Reactor S
  with_handle fresh f k = record s {
    kernel = k;
    handles = update s.handles fresh (some (new_handle f));
  }

  pub with_handle-Consistent :
      (fresh : Ptr) (f : ℕ) (k : S)
      → s.handles fresh ≡ none
      → Consistent s
      → Consistent (with_handle fresh f k)
  with_handle-Consistent fresh f k unused c g q found =
      let (h, live, same_fd, registered) = c g q found in
      let apart : q ≢ fresh = λ same. cc (sym live ∙ ap s.handles same ∙ unused) in
      (h, update_ne s.handles fresh _ q apart ∙ live, same_fd, registered)

  -- `HandAccept` never faults, keeps the map consistent, and keeps each entry that is there.
  pub hand_accept-Consistent :
      (f : ℕ) (fresh : Ptr)
      → s.handles fresh ≡ none
      → Consistent s
      → (t : Reactor S) × (hand_accept calls s f fresh ≡ ok t)
        × Consistent t
        × ((g : ℕ) (q : Ptr)
            → find_event g s.ep_events ≡ some q
            → find_event g t.ep_events ≡ some q)
        × ((q : Ptr) → q ≢ fresh → t.handles q ≡ s.handles q)
  unfolding hand_accept
  hand_accept-Consistent f fresh unused c = elim (Option-cases (calls.accept s.kernel f).0) [
    | inl e ↦ (
      record s { kernel = (calls.accept s.kernel f).1 },
      rw (hand_accept, e) refl,
      c,
      λ g q found. found,
      λ q ne. refl,
    )
    | inr (client, e) ↦
        let k = (calls.accept s.kernel f).1 in
        let set = calls.set_nonblocking k client in
        elim (Bool-cases set.0) [
          | inl d ↦
              let s' = with_handle fresh client set.1 in
              let live = update_self s.handles fresh (some (new_handle client)) in
              let run =
                register_event_handle-run calls s' fresh (new_handle client) recv_mask live in
              (
                (after_register calls s' fresh (new_handle client) recv_mask).1,
                rw (hand_accept, e, d, run) refl,
                after_register-Consistent calls s' fresh (new_handle client) recv_mask live
                    (with_handle-Consistent fresh client set.1 unused c),
                λ g q found. insert_event_keeps client fresh s.ep_events g q found,
                λ q ne.
                    update_ne s'.handles fresh (some (record (new_handle client) { status = 1 })) q
                      ne
                    ∙ update_ne s.handles fresh (some (new_handle client)) q ne,
              )
          | inr d ↦ (
            record s { kernel = set.1 },
            rw (hand_accept, e, d) refl,
            c,
            λ g q found. found,
            λ q ne. refl,
          )
        ]
  ]

  hand_recv-Consistent :
      (f : ℕ)
      → Consistent s
      → Consistent (hand_recv calls s f)
        × ((g : ℕ) (q : Ptr)
            → find_event g s.ep_events ≡ some q
            → find_event g (hand_recv calls s f).ep_events ≡ some q)
        × ((hand_recv calls s f).handles ≡ s.handles)
  unfolding hand_recv get_event_handle
  hand_recv-Consistent f c = elim (Option-cases (find_event f s.ep_events)) [
    | inl e ↦ rw (hand_recv, get_event_handle, e) (c, λ g q found. found, refl)
    | inr (p, e) ↦ elim (Option-cases (calls.recv s.kernel f).0) [
      | inl d ↦ rw (hand_recv, get_event_handle, e, d) (c, λ g q found. found, refl)
      | inr (n, d) ↦ rw (hand_recv, get_event_handle, e, d) (c, λ g q found. found, refl)
    ]
  ]

  abbrev handled : Ready → ℕ → Run (Reactor S)
  handled r f =
      if r.input
      then (if s.socketfd == r.fd then hand_accept calls s f r.fresh else ok (hand_recv calls s f))
      else ok s

  handled-Consistent :
      (r : Ready) (f : ℕ)
      → s.handles r.fresh ≡ none
      → Consistent s
      → (t : Reactor S) × (handled r f ≡ ok t)
        × Consistent t
        × ((g : ℕ) (q : Ptr)
            → find_event g s.ep_events ≡ some q
            → find_event g t.ep_events ≡ some q)
        × ((q : Ptr) → q ≢ r.fresh → t.handles q ≡ s.handles q)
  handled-Consistent r f unused c = elim (Bool-cases r.input) [
    | inr e ↦ (s, rw e refl, c, λ g q found. found, λ q ne. refl)
    | inl e ↦ elim (Bool-cases (s.socketfd == r.fd)) [
      | inl d ↦
          let (t, run, c', kept, same) = hand_accept-Consistent f r.fresh unused c in
          (t, rw (e, d) run, c', kept, same)
      | inr d ↦
          let (c', kept, same) = hand_recv-Consistent f c in
          (
            hand_recv calls s f,
            rw (e, d) refl,
            c',
            kept,
            λ q ne. ap (λ (h : Ptr → Option EventHandle). h q) same,
          )
    ]
  ]

  -- One round of the loop of `wait_event`, for any ready descriptor, never faults, keeps the map
  -- consistent, and takes no entry out of it, also if `HandRecv` has closed the descriptor.
  pub dispatch-Consistent :
      (r : Ready)
      → s.handles r.fresh ≡ none
      → Consistent s
      → (t : Reactor S) × (dispatch calls s r ≡ ok t)
        × Consistent t
        × ((g : ℕ) (q : Ptr)
            → find_event g s.ep_events ≡ some q
            → find_event g t.ep_events ≡ some q)
        × ((q : Ptr) → q ≢ r.fresh → t.handles q ≡ s.handles q)
  unfolding dispatch handled-Consistent
  dispatch-Consistent r unused c = elim (Option-cases (find_event r.fd s.ep_events)) [
    | inl e ↦ (s, rw (dispatch, get_event_handle, e) refl, c, λ g q found. found, λ q ne. refl)
    | inr (p, e) ↦
        let (h, live, _, _) = c r.fd p e in
        let (t, run, c', kept, same) = handled-Consistent r h.fd unused c in
        let (h', live', _, _) = c' r.fd p (kept r.fd p e) in
        elim (Bool-cases r.output) [
          | inl o ↦
              (t, rw (dispatch, get_event_handle, e, live, run, o, live') refl, c', kept, same)
          | inr o ↦ (t, rw (dispatch, get_event_handle, e, live, run, o) refl, c', kept, same)
        ]
  ]
