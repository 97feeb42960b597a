-- ===== src/HttpReactor/Registering.antt =====
-- Registering and removing a handle in the two reactors.
use cpp_project.Base.{
  ℕ, ◌≡◌, refl, sym, ◌∙◌, inl, inr, Bool, Bool-cases, false, Option, Option-cases, none, some, ◌==◌,
  update, if◌then◌else◌, or_fault,
}
use cpp_project.Reactor
use cpp_project.Reactor.{
  Ptr, Mask, Calls, Ready, EventMap, find_event, insert_event, erase_event, add, modify, del,
}
use cpp_project.HttpReactor
use cpp_project.HttpReactor.{EventHandle}
use cpp_project.HttpReactor.Alike.{
  Alike, Both, Both->>=, SameHandle, or_fault-Both, forget_at-update,
}
use cpp_project.HttpReactor.Entries.{entries_insert, entries_erase}

module _ {S : Type 0} (calls : Calls S) (memory : Ptr → ℕ → ℕ) where
  -- The same results, and states that are alike.
  abbrev pub SameResult : Bool × Reactor.Reactor S → Bool × HttpReactor.Reactor S → Type 0
  SameResult x y = (x.0 ≡ y.0) × Alike x.1 y.1

  pub regist-Both :
      (s : Reactor.Reactor S) (t : HttpReactor.Reactor S) (p : Option Ptr) (e : Mask)
      → Alike s t
      → Both SameResult (Reactor.regist calls s p e) (HttpReactor.regist calls memory t p e)
  unfolding Reactor.regist HttpReactor.regist
  regist-Both s t none e a = (refl, a)
  regist-Both s t (some p) e a =
      Both->>= SameHandle SameResult (or_fault (s.handles p)) (or_fault (t.handles p)) _ _
        (or_fault-Both (s.handles p) (t.handles p) (a.handles p))
        (λ h g same. (
          rw (same, a.kernel) refl,
          record {
            handles =
                rw same (
                  forget_at-update s.handles t.handles p (some (record g { status = 1 }))
                    a.handles);
            entries = a.entries;
            socketfd = rw (same, a.socketfd) refl;
            kernel = rw (same, a.kernel) refl;
          },
        ))

  pub register-Both :
      (s : Reactor.Reactor S) (t : HttpReactor.Reactor S) (p : Option Ptr) (e : Mask)
      → Alike s t
      → Both SameResult
          (Reactor.register_event_handle calls s p e)
          (HttpReactor.register_event_handle calls memory t p e)
  unfolding Reactor.register_event_handle HttpReactor.register_event_handle
  register-Both s t none e a = (refl, a)
  register-Both s t (some p) e a =
      Both->>= SameHandle SameResult (or_fault (s.handles p)) (or_fault (t.handles p)) _ _
        (or_fault-Both (s.handles p) (t.handles p) (a.handles p))
        (λ h g same.
          regist-Both (record s { ep_events = insert_event h.fd p s.ep_events })
            (record t { ep_events = HttpReactor.insert_event g.fd p t.ep_events }) (some p) e
            (record {
              handles = a.handles;
              entries = rw same (entries_insert s.ep_events t.ep_events g.fd p a.entries);
              socketfd = a.socketfd;
              kernel = a.kernel;
            }))

  erase_handle-Alike :
      (s : Reactor.Reactor S) (t : HttpReactor.Reactor S) (f : ℕ)
      → Alike s t
      → Alike (Reactor.erase_handle s f) (HttpReactor.erase_handle t f)
  unfolding Reactor.erase_handle HttpReactor.erase_handle
  erase_handle-Alike s t f a = elim (Option-cases (find_event f s.ep_events)) [
    | inl e ↦ rw (Reactor.erase_handle, HttpReactor.erase_handle, e, sym (a.entries f) ∙ e) a
    | inr (q, e) ↦
        rw (Reactor.erase_handle, HttpReactor.erase_handle, e, sym (a.entries f) ∙ e)
          (record {
            handles = forget_at-update s.handles t.handles q none a.handles;
            entries = entries_erase s.ep_events t.ep_events f a.entries;
            socketfd = a.socketfd;
            kernel = a.kernel;
          })
  ]

  remove-Both :
      (s : Reactor.Reactor S) (t : HttpReactor.Reactor S) (p : Option Ptr)
      → Alike s t
      → Both Alike (Reactor.remove calls s p) (HttpReactor.remove calls memory t p)
  unfolding Reactor.remove HttpReactor.remove
  remove-Both s t none a = a
  remove-Both s t (some p) a =
      Both->>= SameHandle Alike (or_fault (s.handles p)) (or_fault (t.handles p)) _ _
        (or_fault-Both (s.handles p) (t.handles p) (a.handles p)) by_status
    where
      by_status :
          (h : Reactor.EventHandle) (g : EventHandle)
          → SameHandle h g
          → Alike
              (if h.status == 1
                then record s {
                  handles = update s.handles p (some (record h { status = 0 }));
                  kernel = (calls.epoll_ctl s.kernel del h.fd false).1;
                }
                else s)
              (if g.status == 1
                then record t {
                  handles = update t.handles p (some (record g { status = 0 }));
                  kernel = (calls.epoll_ctl t.kernel del g.fd false).1;
                }
                else t)
      by_status h g same = elim (Bool-cases (g.status == 1)) [
        | inl e ↦
            rw (same, e)
              (record {
                handles =
                    forget_at-update s.handles t.handles p (some (record g { status = 0 }))
                      a.handles;
                entries = a.entries;
                socketfd = a.socketfd;
                kernel = rw a.kernel refl;
              })
        | inr e ↦ rw (same, e) a
      ]

  pub remove_event_handle-Both :
      (s : Reactor.Reactor S) (t : HttpReactor.Reactor S) (p : Option Ptr)
      → Alike s t
      → Both Alike
          (Reactor.remove_event_handle calls s p)
          (HttpReactor.remove_event_handle calls memory t p)
  unfolding Reactor.remove_event_handle HttpReactor.remove_event_handle
  remove_event_handle-Both s t none a = a
  remove_event_handle-Both s t (some p) a =
      Both->>= Alike Alike (Reactor.remove calls s (some p))
        (HttpReactor.remove calls memory t (some p)) _ _ (remove-Both s t (some p) a)
        (λ s' t' a'.
          Both->>= SameHandle Alike (or_fault (s'.handles p)) (or_fault (t'.handles p)) _ _
            (or_fault-Both (s'.handles p) (t'.handles p) (a'.handles p))
            (λ h g same. rw same (erase_handle-Alike s' t' g.fd a')))
