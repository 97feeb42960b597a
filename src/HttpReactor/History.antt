-- ===== src/HttpReactor/History.antt =====
-- Histories of the reactor of HttpReactor, and the history of that of Reactor for each of them.
use cpp_project.Base.{
  ℕ, ◌≡◌, refl, sym, ap, ◌∙◌, subst, Bool, Option, none, some, List, [], ◌∷◌, update, Run, ok,
  fault, timeout, ◌>>=◌,
}
use cpp_project.Reactor
use cpp_project.Reactor.{Ptr, Mask, Calls, Ready, find_event}
use cpp_project.Reactor.Loop
use cpp_project.Reactor.History
use cpp_project.Reactor.History.{Reach-Consistent, AreFresh, AreFresh-same, AreFresh-kept}
use cpp_project.HttpReactor
use cpp_project.HttpReactor.{EventHandle}
use cpp_project.HttpReactor.Alike.{Alike, Both, forget, forget_at, forget_at-update}
use cpp_project.HttpReactor.Registering.{SameResult, register-Both, remove_event_handle-Both}
use cpp_project.HttpReactor.Agrees.{dispatch-Both}

-- A run that agrees with one that returns does so too.
Both-ok :
    {A B : Type 0} (R : A → B → Type 0) (m : Run A) (b : B)
    → Both R m (ok b)
    → (a : A) × (m ≡ ok a) × R a b
Both-ok R (ok a) b r = (a, refl, r)
Both-ok R fault b r = elim r [ ]
Both-ok R timeout b r = elim r [ ]

ok-Both :
    {A B : Type 0} (R : A → B → Type 0) (a : A) (n : Run B)
    → Both R (ok a) n
    → (b : B) × (n ≡ ok b) × R a b
ok-Both R a (ok b) r = (b, refl, r)
ok-Both R a fault r = elim r [ ]
ok-Both R a timeout r = elim r [ ]

module _ {S : Type 0} (calls : Calls S) (memory : Ptr → ℕ → ℕ) where
  -- A new handle is made at `p`.
  abbrev pub with_handle : HttpReactor.Reactor S → Ptr → ℕ → HttpReactor.Reactor S
  with_handle s p f = record s {
    handles = update s.handles p (some (HttpReactor.new_handle (memory p) f));
  }

  pub data Step (s : HttpReactor.Reactor S) : HttpReactor.Reactor S → Type 0 where
    register :
        (p : Ptr) (f : ℕ) (e : Mask) {done : Bool} {t : HttpReactor.Reactor S}
        → s.handles p ≡ none
        → HttpReactor.register_event_handle calls memory (with_handle s p f) (some p) e
          ≡ ok (done, t)
        → Step s t
    serve :
        (r : Ready) {t : HttpReactor.Reactor S}
        → s.handles r.fresh ≡ none
        → HttpReactor.dispatch calls memory s r ≡ ok t
        → Step s t
    remove :
        (p : Ptr) (h : EventHandle) {t : HttpReactor.Reactor S}
        → s.handles p ≡ some h
        → HttpReactor.remove_event_handle calls memory s (some p) ≡ ok t
        → Step s t

  pub data Reach : HttpReactor.Reactor S → Type 0 where
    start : (k : S) → Reach (HttpReactor.new_reactor k)
    later : {s t : HttpReactor.Reactor S} → Reach s → Step s t → Reach t

  new_reactor-Alike : (k : S) → Alike (Reactor.new_reactor k) (HttpReactor.new_reactor k)
  unfolding find_event
  new_reactor-Alike k = record {
    handles = λ p. refl;
    entries = λ f. refl;
    socketfd = refl;
    kernel = refl;
  }

  Step-Alike :
      {s t : HttpReactor.Reactor S} (u : Reactor.Reactor S)
      → Step s t
      → Alike u s
      → (v : Reactor.Reactor S) × History.Step calls u v × Alike v t
  Step-Alike {s} {t} u (register p f e {done} unused run) a =
      let made : Alike (Loop.with_handle calls u p f u.kernel) (with_handle s p f) = record {
        handles =
            forget_at-update u.handles s.handles p (some (HttpReactor.new_handle (memory p) f))
              a.handles;
        entries = a.entries;
        socketfd = a.socketfd;
        kernel = a.kernel;
      } in
      let both = register-Both calls memory _ (with_handle s p f) (some p) e made in
      let ((done', v), run', (_, alike)) =
        Both-ok (SameResult calls memory) _ (done, t)
          (subst (Both (SameResult calls memory) _) run both) in
      (v, History.register p f e (a.handles p ∙ ap forget_at unused) run', alike)
  Step-Alike {s} {t} u (serve r unused run) a =
      let both = dispatch-Both calls memory u s r a in
      let (v, run', alike) = Both-ok Alike _ t (subst (Both Alike _) run both) in
      (v, History.serve r (a.handles r.fresh ∙ ap forget_at unused) run', alike)
  Step-Alike {s} {t} u (remove p h live run) a =
      let both = remove_event_handle-Both calls memory u s (some p) a in
      let (v, run', alike) = Both-ok Alike _ t (subst (Both Alike _) run both) in
      (v, History.remove p (forget h) (a.handles p ∙ ap forget_at live) run', alike)

  Reach-Alike :
      (s : HttpReactor.Reactor S)
      → Reach s
      → (u : Reactor.Reactor S) × History.Reach calls u × Alike u s
  Reach-Alike _ (start k) = (Reactor.new_reactor k, History.start k, new_reactor-Alike k)
  Reach-Alike t (later {s} before_it step) =
      let (u, run, a) = Reach-Alike s before_it in
      let (v, step', a') = Step-Alike u step a in (v, History.later run step', a')

  forget_at-some :
      (o : Option EventHandle) (g : Reactor.EventHandle)
      → some g ≡ forget_at o
      → (h : EventHandle) × (o ≡ some h) × (g ≡ forget h)
  forget_at-some none g e = absurd cc
  forget_at-some (some h) g e = (h, refl, cc)

  forget_at-none : (o : Option EventHandle) → none ≡ forget_at o → o ≡ none
  forget_at-none none e = refl
  forget_at-none (some h) e = absurd cc

  served :
      (s : HttpReactor.Reactor S) (u : Reactor.Reactor S) (rs : List Ready)
      → Reach s
      → History.Reach calls u
      → Alike u s
      → AreFresh u.handles rs
      → (t : HttpReactor.Reactor S) × (HttpReactor.wait_event calls memory s rs ≡ ok t) × Reach t
  unfolding HttpReactor.wait_event
  served s u [] run run' a fresh = (s, refl, run)
  served s u (r ∷ rs) run run' a fresh =
      let c = Reach-Consistent calls u run' in
      let (u', done, _, _, kept) = Loop.dispatch-Consistent calls u r fresh.0 c in
      let both =
        subst (λ m. Both Alike m (HttpReactor.dispatch calls memory s r)) done
          (dispatch-Both calls memory u s r a) in
      let (s', done', a') = ok-Both Alike u' (HttpReactor.dispatch calls memory s r) both in
      let unused = forget_at-none (s.handles r.fresh) (sym fresh.0 ∙ a.handles r.fresh) in
      let fresh' = AreFresh-kept u.handles u'.handles r.fresh rs kept fresh.1 fresh.2 in
      let (t, rest, reached) =
        served s' u' rs (later run (serve r unused done'))
          (History.later run' (History.serve r fresh.0 done)) a' fresh' in
      (t, ap (λ m. m >>= λ x. HttpReactor.wait_event calls memory x rs) done' ∙ rest, reached)

  -- The ready descriptors are handled without a fault.
  pub wait_event_returns :
      (s : HttpReactor.Reactor S) (rs : List Ready)
      → Reach s
      → AreFresh s.handles rs
      → (t : HttpReactor.Reactor S) × (HttpReactor.wait_event calls memory s rs ≡ ok t) × Reach t
  wait_event_returns s rs run fresh =
      let (u, run', a) = Reach-Alike s run in
      let empty : (q : Ptr) → s.handles q ≡ none → u.handles q ≡ none =
        λ q e. a.handles q ∙ ap forget_at e in
      served s u rs run run' a (AreFresh-same s.handles u.handles rs empty fresh)

  -- Every entry of the map leads to a live handle of its descriptor whose status is 1.
  pub Reach-entries :
      (s : HttpReactor.Reactor S)
      → Reach s
      → (f : ℕ) (p : Ptr) → s.ep_events f ≡ some p
      → (h : EventHandle) × (s.handles p ≡ some h) × (h.fd ≡ f) × (h.status ≡ 1)
  Reach-entries s run f p found =
      let (u, run', a) = Reach-Alike s run in
      let (g, at, fd, status) = Reach-Consistent calls u run' f p (a.entries f ∙ found) in
      let (h, at', same) = forget_at-some (s.handles p) g (sym at ∙ a.handles p) in
      (
        h,
        at',
        ap (λ (x : Reactor.EventHandle). x.fd) (sym same) ∙ fd,
        ap (λ (x : Reactor.EventHandle). x.status) (sym same) ∙ status,
      )
