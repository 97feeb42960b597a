-- ===== src/Reactor/Map.antt =====
-- The map from descriptors to handles.
use cpp_project.Base.{ℕ, ◌≡◌, refl, ◌≢◌, inl, inr, Bool-cases, none, [], ◌∷◌, ◌==◌, arith}
use cpp_project.Reactor.{EventMap, find_event, erase_event}

pub find_event-erase_event :
    (f g : ℕ) (m : EventMap)
    → (find_event f (erase_event f m) ≡ none)
      × (g ≢ f → find_event g (erase_event f m) ≡ find_event g m)
unfolding find_event erase_event
find_event-erase_event f g [] = (refl, λ ne. refl)
find_event-erase_event f g ((k, p) ∷ m) =
    let (gone, kept) = find_event-erase_event f g m in
    elim (Bool-cases (k == f)) [
      | inl e ↦ (rw e gone, λ ne. ground (arith, e, kept ne))
      | inr e ↦ (rw (e, e) gone, λ ne. ground (arith, e, kept ne))
    ]
