-- ===== src/HttpReactor/Agrees.antt =====
-- A round of the loop over ready descriptors in the two reactors.
use cpp_project.Base.{
  ℕ, ap, ◌∙◌, inl, inr, Bool-cases, Option-cases, ◌==◌, if◌then◌else◌, ok, ◌>>=◌, or_fault,
}
use cpp_project.Reactor
use cpp_project.Reactor.{
  Ptr, Mask, Calls, Ready, EventMap, find_event, insert_event, erase_event, add, modify, del,
}
use cpp_project.HttpReactor
use cpp_project.HttpReactor.{EventHandle}
use cpp_project.HttpReactor.Alike.{Alike, Both, Both->>=, SameHandle, or_fault-Both}
use cpp_project.HttpReactor.Handlers.{hand_accept-Both, hand_recv-Alike}

module _ {S : Type 0} (calls : Calls S) (memory : Ptr → ℕ → ℕ) where
  pub dispatch-Both :
      (s : Reactor.Reactor S) (t : HttpReactor.Reactor S) (r : Ready)
      → Alike s t
      → Both Alike (Reactor.dispatch calls s r) (HttpReactor.dispatch calls memory t r)
  unfolding Reactor.dispatch HttpReactor.dispatch Reactor.get_event_handle
      HttpReactor.get_event_handle
  dispatch-Both s t r a = elim (Option-cases (t.ep_events r.fd)) [
    | inl e ↦
        rw
          (
            Reactor.dispatch,
            HttpReactor.dispatch,
            Reactor.get_event_handle,
            HttpReactor.get_event_handle,
            a.entries r.fd ∙ e,
            e,
          )
          a
    | inr (p, e) ↦
        rw
          (
            Reactor.dispatch,
            HttpReactor.dispatch,
            Reactor.get_event_handle,
            HttpReactor.get_event_handle,
            a.entries r.fd ∙ e,
            e,
          )
          (Both->>= SameHandle Alike (or_fault (s.handles p)) (or_fault (t.handles p)) _ _
            (or_fault-Both (s.handles p) (t.handles p) (a.handles p))
            (λ h g same. Both->>= Alike Alike _ _ _ _ (input h g same) (output p)))
  ]
    where
      input :
          (h : Reactor.EventHandle) (g : EventHandle)
          → SameHandle h g
          → Both Alike
              (if r.input
                then (if s.socketfd == r.fd
                    then Reactor.hand_accept calls s h.fd r.fresh
                    else ok (Reactor.hand_recv calls s h.fd))
                else ok s)
              (if r.input
                then (if t.socketfd == r.fd
                    then HttpReactor.hand_accept calls memory t g.fd r.fresh
                    else ok (HttpReactor.hand_recv calls memory t g.fd))
                else ok t)
      input h g same = elim (Bool-cases r.input) [
        | inr i ↦ rw i a
        | inl i ↦ elim (Bool-cases (t.socketfd == r.fd)) [
          | inl l ↦
              rw (i, same, ap (λ x. x == r.fd) a.socketfd ∙ l, l)
                (hand_accept-Both calls memory s t g.fd r.fresh a)
          | inr l ↦
              rw (i, same, ap (λ x. x == r.fd) a.socketfd ∙ l, l)
                (hand_recv-Alike calls memory s t g.fd a)
        ]
      ]

      output :
          (p : Ptr) (u : Reactor.Reactor S) (v : HttpReactor.Reactor S)
          → Alike u v
          → Both Alike
              (if r.output then (or_fault (u.handles p) >>= λ _. ok u) else ok u)
              (if r.output then (or_fault (v.handles p) >>= λ _. ok v) else ok v)
      output p u v b = elim (Bool-cases r.output) [
        | inr o ↦ rw o b
        | inl o ↦ rw o (
            Both->>= SameHandle Alike (or_fault (u.handles p)) (or_fault (v.handles p)) _ _
              (or_fault-Both (u.handles p) (v.handles p) (b.handles p)) (λ _ _ _. b))
      ]
