-- ===== src/HttpReactor/Handlers.antt =====
-- `HandAccept` and `HandRecv` in the two reactors.
use cpp_project.Base.{
  ℕ, ◌≡◌, ap, ◌∙◌, inl, inr, Bool-cases, true, false, Option-cases, some, ◌==◌, update,
  if◌then◌else◌, ok, ◌>>=◌,
}
use cpp_project.Reactor
use cpp_project.Reactor.{
  Ptr, Mask, Calls, Ready, EventMap, find_event, insert_event, erase_event, add, modify, del,
}
use cpp_project.HttpReactor
use cpp_project.HttpReactor.{EventHandle}
use cpp_project.HttpReactor.Alike.{Alike, Both, Both->>=, forget_at-update}
use cpp_project.HttpReactor.Registering.{SameResult, register-Both}

module _ {S : Type 0} (calls : Calls S) (memory : Ptr → ℕ → ℕ) where
  with_kernel :
      (s : Reactor.Reactor S) (t : HttpReactor.Reactor S) (k l : S)
      → k ≡ l
      → Alike s t
      → Alike (record s { kernel = k }) (record t { kernel = l })
  with_kernel s t k l e a = record {
    handles = a.handles;
    entries = a.entries;
    socketfd = a.socketfd;
    kernel = e;
  }

  pub hand_accept-Both :
      (s : Reactor.Reactor S) (t : HttpReactor.Reactor S) (f : ℕ) (fresh : Ptr)
      → Alike s t
      → Both Alike
          (Reactor.hand_accept calls s f fresh)
          (HttpReactor.hand_accept calls memory t f fresh)
  unfolding Reactor.hand_accept HttpReactor.hand_accept
  hand_accept-Both s t f fresh a =
      let same = ap (λ k. calls.accept k f) a.kernel in
      elim (Option-cases (calls.accept t.kernel f).0) [
        | inl e ↦
            rw (Reactor.hand_accept, HttpReactor.hand_accept, ap (λ x. x.0) same ∙ e, e)
              (with_kernel s t _ _ (ap (λ x. x.1) same) a)
        | inr (c, e) ↦
            let same_set = ap (λ x. calls.set_nonblocking x.1 c) same in
            let set = calls.set_nonblocking (calls.accept t.kernel f).1 c in
            elim (Bool-cases set.0) [
              | inl y ↦
                  rw
                    (
                      Reactor.hand_accept,
                      HttpReactor.hand_accept,
                      ap (λ x. x.0) same ∙ e,
                      e,
                      ap (λ x. x.0) same_set ∙ y,
                      y,
                    )
                    (entered c _ _ (ap (λ x. x.1) same_set))
              | inr y ↦
                  rw
                    (
                      Reactor.hand_accept,
                      HttpReactor.hand_accept,
                      ap (λ x. x.0) same ∙ e,
                      e,
                      ap (λ x. x.0) same_set ∙ y,
                      y,
                    )
                    (with_kernel s t _ _ (ap (λ x. x.1) same_set) a)
            ]
      ]
    where
      entered :
          (c : ℕ) (k l : S)
          → k ≡ l
          → Both Alike
              (Reactor.register_event_handle calls
                  (record s {
                    kernel = k;
                    handles = update s.handles fresh (some (Reactor.new_handle c));
                  })
                  (some fresh)
                  (record { accept = false; recv = true })
                >>= λ r. ok r.1)
              (HttpReactor.register_event_handle calls memory
                  (record t {
                    kernel = l;
                    handles =
                        update t.handles fresh (some (HttpReactor.new_handle (memory fresh) c));
                  })
                  (some fresh)
                  (record { accept = false; recv = true })
                >>= λ r. ok r.1)
      entered c k l e =
          Both->>= (SameResult calls memory) Alike _ _ _ _
            (register-Both calls memory
              (record s {
                kernel = k;
                handles = update s.handles fresh (some (Reactor.new_handle c));
              })
              (record t {
                kernel = l;
                handles = update t.handles fresh (some (HttpReactor.new_handle (memory fresh) c));
              })
              (some fresh) (record { accept = false; recv = true })
              (record {
                handles =
                    forget_at-update s.handles t.handles fresh
                      (some (HttpReactor.new_handle (memory fresh) c)) a.handles;
                entries = a.entries;
                socketfd = a.socketfd;
                kernel = e;
              }))
            (λ x y r. r.1)

  pub hand_recv-Alike :
      (s : Reactor.Reactor S) (t : HttpReactor.Reactor S) (f : ℕ)
      → Alike s t
      → Alike (Reactor.hand_recv calls s f) (HttpReactor.hand_recv calls memory t f)
  unfolding Reactor.hand_recv HttpReactor.hand_recv Reactor.get_event_handle
      HttpReactor.get_event_handle
  hand_recv-Alike s t f a =
      let same = ap (λ k. calls.recv k f) a.kernel in
      elim (Option-cases (t.ep_events f)) [
        | inl e ↦
            rw
              (
                Reactor.hand_recv,
                HttpReactor.hand_recv,
                Reactor.get_event_handle,
                HttpReactor.get_event_handle,
                a.entries f ∙ e,
                e,
              )
              a
        | inr (p, e) ↦ elim (Option-cases (calls.recv t.kernel f).0) [
          | inl d ↦
              rw
                (
                  Reactor.hand_recv,
                  HttpReactor.hand_recv,
                  Reactor.get_event_handle,
                  HttpReactor.get_event_handle,
                  a.entries f ∙ e,
                  e,
                  ap (λ x. x.0) same ∙ d,
                  d,
                )
                (with_kernel s t _ _ (ap (λ x. calls.close x.1 f) same) a)
          | inr (n, d) ↦
              rw
                (
                  Reactor.hand_recv,
                  HttpReactor.hand_recv,
                  Reactor.get_event_handle,
                  HttpReactor.get_event_handle,
                  a.entries f ∙ e,
                  e,
                  ap (λ x. x.0) same ∙ d,
                  d,
                )
                (with_kernel s t _ _ (ap (λ x. if n == 0 then calls.close x.1 f else x.1) same) a)
        ]
      ]
