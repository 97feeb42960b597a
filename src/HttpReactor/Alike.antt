-- ===== src/HttpReactor/Alike.antt =====
-- What it means that the two reactors are in the same state, and that runs of them agree.
use cpp_project.Base.{
  ℕ, ◌≡◌, sym, ap, subst, ◌∙◌, ◌≢◌, inl, inr, Bool-cases, Option, none, some, ◌==◌, ==_iff, update,
  update_self, update_ne, Run, ok, fault, timeout, ◌>>=◌, or_fault,
}
use cpp_project.Reactor
use cpp_project.Reactor.{Ptr, find_event}
use cpp_project.HttpReactor
use cpp_project.HttpReactor.{EventHandle}

-- A handle without its buffer.
abbrev pub forget : EventHandle → Reactor.EventHandle
forget h = record { fd = h.fd; status = h.status }

abbrev pub forget_at : Option EventHandle → Option Reactor.EventHandle
forget_at none = none
forget_at (some h) = some (forget h)

-- The same handles but for their buffers, the same entries, and the same of all else.
pub record Alike {S : Type 0} (s : Reactor.Reactor S) (t : HttpReactor.Reactor S) : Type 0 where
  pub handles : (p : Ptr) → s.handles p ≡ forget_at (t.handles p)
  pub entries : (f : ℕ) → find_event f s.ep_events ≡ t.ep_events f
  pub socketfd : s.socketfd ≡ t.socketfd
  pub kernel : s.kernel ≡ t.kernel

-- Two runs agree: both return and their results are related, or both go wrong in the same way.
abbrev pub Both {ℓ κ} : {A : Type ℓ} {B : Type κ} → (A → B → Type 0) → Run A → Run B → Type 0
Both R (ok a) (ok b) = R a b
Both R fault fault = Unit
Both R timeout timeout = Unit
Both R _ _ = ⊥

pub Both->>= {ℓ κ μ ν} :
    {A : Type ℓ} {B : Type κ} {C : Type μ} {D : Type ν} (R : A → B → Type 0) (Q : C → D → Type 0)
    (m : Run A) (n : Run B) (f : A → Run C) (g : B → Run D)
    → Both R m n
    → ((a : A) (b : B) → R a b → Both Q (f a) (g b))
    → Both Q (m >>= f) (n >>= g)
Both->>= R Q (ok a) (ok b) f g r next = next a b r
Both->>= R Q fault fault f g r next = tt
Both->>= R Q timeout timeout f g r next = tt
Both->>= R Q (ok a) fault f g r next = elim r [ ]
Both->>= R Q (ok a) timeout f g r next = elim r [ ]
Both->>= R Q fault (ok b) f g r next = elim r [ ]
Both->>= R Q fault timeout f g r next = elim r [ ]
Both->>= R Q timeout (ok b) f g r next = elim r [ ]
Both->>= R Q timeout fault f g r next = elim r [ ]

abbrev pub SameHandle : Reactor.EventHandle → EventHandle → Type 0
SameHandle h g = h ≡ forget g

pub or_fault-Both :
    (o : Option Reactor.EventHandle) (p : Option EventHandle)
    → o ≡ forget_at p
    → Both SameHandle (or_fault o) (or_fault p)
or_fault-Both none none e = tt
or_fault-Both none (some g) e = absurd cc
or_fault-Both (some h) none e = absurd cc
or_fault-Both (some h) (some g) e = cc

pub forget_at-update :
    (f : Ptr → Option Reactor.EventHandle) (g : Ptr → Option EventHandle) (p : Ptr)
    (h : Option EventHandle)
    → ((q : Ptr) → f q ≡ forget_at (g q))
    → (q : Ptr) → update f p (forget_at h) q ≡ forget_at (update g p h q)
forget_at-update f g p h same q = elim (Bool-cases (q == p)) [
  | inl e ↦
      subst (λ x. update f p (forget_at h) x ≡ forget_at (update g p h x)) (sym ((==_iff q p).0 e))
        (update_self f p (forget_at h) ∙ sym (ap forget_at (update_self g p h)))
  | inr e ↦
      let ne : q ≢ p = λ d. cc (sym ((==_iff q p).1 d) ∙ e) in
      update_ne f p (forget_at h) q ne ∙ same q ∙ sym (ap forget_at (update_ne g p h q ne))
]
