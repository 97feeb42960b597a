-- ===== src/Reactor/Invariant.antt =====
-- What holds between the map and the handles, and that registering and removing keep it.
use cpp_project.Base.{
  ℕ, ◌≡◌, refl, sym, ap, subst, ◌∙◌, ◌≢◌, ◌⊎◌, inl, inr, Bool, Bool-cases, false, ◌||◌, Option,
  Option-cases, none, some, ◌∷◌, ◌==◌, ==_iff, if◌then◌else◌, update, update_self, update_ne, arith,
  ok,
}
use cpp_project.Reactor.{
  Ptr, EventHandle, EventMap, Mask, add, modify, del, Calls, Reactor, find_event, erase_event,
  insert_event, erase_handle, regist, register_event_handle, remove, remove_event_handle,
}
use cpp_project.Reactor.Map.{find_event-erase_event}

-- Every entry leads to a live handle of its descriptor whose status is 1, which `regist` sets
-- whatever `epoll_ctl` says, and which a handle keeps when its descriptor is closed.
abbrev pub Consistent : {S : Type 0} → Reactor S → Type 0
Consistent s =
    (f : ℕ) (p : Ptr)
    → find_event f s.ep_events ≡ some p
    → (h : EventHandle) × (s.handles p ≡ some h) × (h.fd ≡ f) × (h.status ≡ 1)

some-injective : (a b : EventHandle) → some a ≡ some b → a ≡ b
some-injective a b e = cc

pub find_event-insert_event :
    (f : ℕ) (p : Ptr) (m : EventMap) (g : ℕ) (q : Ptr)
    → find_event g (insert_event f p m) ≡ some q
    → (find_event g m ≡ some q) ⊎ ((g ≡ f) × (q ≡ p))
unfolding find_event
find_event-insert_event f p m g q e = by_entry (find_event f m) refl e
  where
    by_entry :
        (o : Option Ptr)
        → find_event f m ≡ o
        → find_event g (elim o [ none ↦ (f, p) ∷ m | some r ↦ m ]) ≡ some q
        → (find_event g m ≡ some q) ⊎ ((g ≡ f) × (q ≡ p))
    by_entry none d e' = ground (arith, e')
    by_entry (some r) d e' = inl e'

pub insert_event_keeps :
    (f : ℕ) (p : Ptr) (m : EventMap) (g : ℕ) (q : Ptr)
    → find_event g m ≡ some q
    → find_event g (insert_event f p m) ≡ some q
unfolding find_event
insert_event_keeps f p m g q e = by_entry (find_event f m) refl
  where
    by_entry :
        (o : Option Ptr)
        → find_event f m ≡ o
        → find_event g (elim o [ none ↦ (f, p) ∷ m | some r ↦ m ]) ≡ some q
    by_entry none d = ground (arith, e)
    by_entry (some r) d = e

module _ {S : Type 0} (calls : Calls S) (s : Reactor S) where
  abbrev pub after_register : Ptr → EventHandle → Mask → Bool × Reactor S
  after_register p h e =
      let (done, k) =
        calls.epoll_ctl s.kernel (if h.status == 1 then modify else add) h.fd
          (e.accept || e.recv) in
      (
        done,
        record {
          handles = update s.handles p (some (record h { status = 1 }));
          ep_events = insert_event h.fd p s.ep_events;
          socketfd = if e.accept then h.fd else s.socketfd;
          kernel = k;
        },
      )

  -- `RegisterEventHandle` of a live handle registers it with epoll, and adds it to the map if its
  -- descriptor has no entry.
  pub register_event_handle-run :
      (p : Ptr) (h : EventHandle) (e : Mask)
      → s.handles p ≡ some h
      → register_event_handle calls s (some p) e ≡ ok (after_register p h e)
  unfolding register_event_handle regist
  register_event_handle-run p h e live = rw (register_event_handle, live) refl

  pub after_register-Consistent :
      (p : Ptr) (h : EventHandle) (e : Mask)
      → s.handles p ≡ some h
      → Consistent s
      → Consistent (after_register p h e).1
  after_register-Consistent p h e live c f q found =
      elim (find_event-insert_event h.fd p s.ep_events f q found) [
        | inl old ↦
            let (g, at, same_fd, registered) = c f q old in
            elim (Bool-cases (q == p)) [
              | inl d ↦
                  let same : q ≡ p = (==_iff q p).0 d in
                  let same_handle : g ≡ h = cc in
                  (
                    record h { status = 1 },
                    rw same (update_self s.handles p _),
                    rw (← same_handle) same_fd,
                    refl,
                  )
              | inr d ↦ (g, ground (arith, d, at), same_fd, registered)
            ]
        | inr (same_fd, same) ↦
            (record h { status = 1 }, rw same (update_self s.handles p _), sym same_fd, refl)
      ]

  remove_outcome :
      (p : Ptr) (h : EventHandle)
      → s.handles p ≡ some h
      → (t : Reactor S) × (g : EventHandle) × (remove calls s (some p) ≡ ok t)
        × (t.ep_events ≡ s.ep_events)
        × (t.handles p ≡ some g)
        × (g.fd ≡ h.fd)
        × ((q : Ptr) → q ≢ p → t.handles q ≡ s.handles q)
  unfolding remove
  remove_outcome p h live = elim (Bool-cases (h.status == 1)) [
    | inl e ↦ (
      record s {
        handles = update s.handles p (some (record h { status = 0 }));
        kernel = (calls.epoll_ctl s.kernel del h.fd false).1;
      },
      record h { status = 0 },
      rw (remove, live, e) refl,
      refl,
      update_self s.handles p _,
      refl,
      λ q ne. update_ne s.handles p _ q ne,
    )
    | inr e ↦ (s, h, rw (remove, live, e) refl, refl, live, refl, λ q ne. refl)
  ]

erase_handle_lem :
    {S : Type 0} (t : Reactor S) (f : ℕ)
    → ((g : ℕ) (q : Ptr)
        → g ≢ f
        → find_event g t.ep_events ≡ some q
        → (h : EventHandle) × (t.handles q ≡ some h) × (h.fd ≡ g) × (h.status ≡ 1))
    → ((q : Ptr)
        → find_event f t.ep_events ≡ some q
        → (h : EventHandle) × (t.handles q ≡ some h) × (h.fd ≡ f))
    → Consistent (erase_handle t f)
      × (find_event f (erase_handle t f).ep_events ≡ none)
      × ((g : ℕ) → g ≢ f → find_event g (erase_handle t f).ep_events ≡ find_event g t.ep_events)
unfolding erase_handle
erase_handle_lem t f others own = elim (Option-cases (find_event f t.ep_events)) [
  | inl e ↦
      rw (erase_handle, e)
        (
          λ g q found.
              others g q (λ same. cc (ap (λ k. find_event k t.ep_events) (sym same) ∙ found)) found,
          e,
          λ g ne. refl,
        )
  | inr (r, e) ↦
      let (h, at, own_fd) = own r e in
      rw (erase_handle, e)
        (
          λ g q found.
              let ne : g ≢ f = λ same. cc (
                sym (find_event-erase_event f f t.ep_events).0
                ∙ ap (λ k. find_event k (erase_event f t.ep_events)) (sym same)
                ∙ found) in
              let (h', at', fd', registered) =
                others g q ne (sym ((find_event-erase_event f g t.ep_events).1 ne) ∙ found) in
              let apart : q ≢ r = λ (same : q ≡ r). ne (
                sym fd'
                ∙ ap (λ (x : EventHandle). x.fd)
                    (some-injective h' h (sym at' ∙ ap t.handles same ∙ at))
                ∙ own_fd) in
              (h', update_ne t.handles r none q apart ∙ at', fd', registered),
          (find_event-erase_event f f t.ep_events).0,
          λ g ne. (find_event-erase_event f g t.ep_events).1 ne,
        )
]

-- `RemoveEventHandle` of a live handle never faults: it takes the entry of its descriptor out of the map,
-- keeps the other entries and keeps the map consistent.
pub remove_event_handle-Consistent :
    {S : Type 0} (calls : Calls S) (s : Reactor S) (p : Ptr) (h : EventHandle)
    → s.handles p ≡ some h
    → Consistent s
    → (t : Reactor S) × (remove_event_handle calls s (some p) ≡ ok t)
      × Consistent t
      × (find_event h.fd t.ep_events ≡ none)
      × ((g : ℕ) → g ≢ h.fd → find_event g t.ep_events ≡ find_event g s.ep_events)
unfolding remove_event_handle
remove_event_handle-Consistent calls s p h live c =
    let (t, g, run, events, at, same_fd, kept) = remove_outcome calls s p h live in
    let entry : (g' : ℕ) (q : Ptr)
        → find_event g' t.ep_events ≡ some q
        → (x : EventHandle) × (s.handles q ≡ some x) × (x.fd ≡ g') × (x.status ≡ 1) =
      λ g' q found. c g' q (subst (λ m. find_event g' m ≡ some q) events found) in
    let (fine, gone, others) =
      erase_handle_lem t h.fd
        (λ g' q ne found.
          let (x, live', fd', registered) = entry g' q found in
          let apart : q ≢ p = λ (same : q ≡ p). ne (
            sym fd'
            ∙ ap (λ (y : EventHandle). y.fd)
                (some-injective x h (sym live' ∙ ap s.handles same ∙ live))) in
          (x, kept q apart ∙ live', fd', registered))
        (λ q found.
          let (x, live', fd', _) = entry h.fd q found in
          elim (Bool-cases (q == p)) [
            | inl d ↦ (g, ap t.handles ((==_iff q p).0 d) ∙ at, same_fd)
            | inr d ↦ (x, kept q (ground (arith, d)) ∙ live', fd')
          ]) in
    (
      erase_handle t h.fd,
      rw (remove_event_handle, run, at, same_fd) refl,
      fine,
      gone,
      λ g' ne. others g' ne ∙ ap (find_event g') events,
    )
