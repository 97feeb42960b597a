-- ===== src/HttpReactor/Entries.antt =====
-- The map of HttpReactor as a function, and the list of entries of Reactor, after the same change.
use cpp_project.Base.{
  ℕ, ◌≡◌, refl, sym, subst, ◌∙◌, ◌≢◌, inl, inr, Bool-cases, Option, none, some, ◌∷◌, ◌==◌, ==_iff,
  update, update_self, update_ne,
}
use cpp_project.Reactor.{Ptr, EventMap, find_event, insert_event, erase_event}
use cpp_project.Reactor.Map.{find_event-erase_event}
use cpp_project.HttpReactor
use cpp_project.HttpReactor.{EventHandle}

pub first_entry :
    (m : EventMap) (g : HttpReactor.EventMap) (f : ℕ) (p : Ptr)
    → ((k : ℕ) → find_event k m ≡ g k)
    → (k : ℕ) → find_event k ((f, p) ∷ m) ≡ update g f (some p) k
unfolding find_event
first_entry m g f p same k = elim (Bool-cases (f == k)) [
  | inl e ↦
      rw (find_event, e)
        (subst (λ x. some p ≡ update g f (some p) x) ((==_iff f k).0 e)
          (sym (update_self g f (some p))))
  | inr e ↦
      let ne : k ≢ f = λ d. cc (sym ((==_iff f k).1 (sym d)) ∙ e) in
      rw (find_event, e) (same k ∙ sym (update_ne g f (some p) k ne))
]

pub entries_insert :
    (m : EventMap) (g : HttpReactor.EventMap) (f : ℕ) (p : Ptr)
    → ((k : ℕ) → find_event k m ≡ g k)
    → (k : ℕ) → find_event k (insert_event f p m) ≡ HttpReactor.insert_event f p g k
unfolding find_event
entries_insert m g f p same k = by_entry (find_event f m) refl
  where
    by_entry :
        (o : Option Ptr)
        → find_event f m ≡ o
        → find_event k (insert_event f p m) ≡ HttpReactor.insert_event f p g k
    by_entry none e =
        rw (insert_event, HttpReactor.insert_event, e, sym (same f) ∙ e)
          (first_entry m g f p same k)
    by_entry (some q) e = rw (insert_event, HttpReactor.insert_event, e, sym (same f) ∙ e) (same k)

pub entries_erase :
    (m : EventMap) (g : HttpReactor.EventMap) (f : ℕ)
    → ((k : ℕ) → find_event k m ≡ g k)
    → (k : ℕ) → find_event k (erase_event f m) ≡ update g f none k
entries_erase m g f same k = elim (Bool-cases (k == f)) [
  | inl e ↦
      let d = (==_iff k f).0 e in
      subst (λ x. find_event x (erase_event f m) ≡ update g f none x) (sym d)
        ((find_event-erase_event f f m).0 ∙ sym (update_self g f none))
  | inr e ↦
      let ne : k ≢ f = λ d. cc (sym ((==_iff k f).1 d) ∙ e) in
      (find_event-erase_event f k m).1 ne ∙ same k ∙ sym (update_ne g f none k ne)
]
