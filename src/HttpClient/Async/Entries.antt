-- ===== src/HttpClient/Async/Entries.antt =====
-- The entries of the epoll with their arguments in memory.
use cpp_project.Base.{
  ℕ, suc, ◌+◌, ◌≡◌, refl, sym, ap, subst, ◌∙◌, ◌≢◌, inl, inr, Bool-cases, Option, none, some, List,
  [], ◌∷◌, ◌++◌, map, ◌==◌, ==_refl, ==_ne, if◌then◌else◌, arith, update, update_ne, All, Has, Out,
  Out-Has,
}
use cpp_project.HttpClient.Async.{Ptr, EpArg, Call, unwatch, close}

abbrev pub fds : List (ℕ × Ptr) → List ℕ
fds [] = []
fds ((f, p) ∷ es) = f ∷ fds es

abbrev pub ptrs : List (ℕ × Ptr) → List ℕ
ptrs [] = []
ptrs ((f, p) ∷ es) = p ∷ ptrs es

pub fds-append : (xs ys : List (ℕ × Ptr)) → fds (xs ++ ys) ≡ fds xs ++ fds ys
fds-append [] ys = refl
fds-append ((f, p) ∷ xs) ys = ap (λ r. f ∷ r) (fds-append xs ys)

pub ptrs-append : (xs ys : List (ℕ × Ptr)) → ptrs (xs ++ ys) ≡ ptrs xs ++ ptrs ys
ptrs-append [] ys = refl
ptrs-append ((f, p) ∷ xs) ys = ap (λ r. p ∷ r) (ptrs-append xs ys)

-- The callbacks that are still to be called.
abbrev pub cb_of : Option EpArg → List ℕ
cb_of none = []
cb_of (some a) = a.cb ∷ []

abbrev pub pending : (Ptr → Option EpArg) → List (ℕ × Ptr) → List ℕ
pending args [] = []
pending args ((f, p) ∷ es) = cb_of (args p) ++ pending args es

abbrev pub cbs : List Call → List ℕ
cbs = map (λ c. c.cb)

abbrev pub count : ℕ → List ℕ → ℕ
count k [] = 0
count k (x ∷ xs) = let rest = count k xs in if x == k then suc rest else rest

pub count-append : (k : ℕ) (xs ys : List ℕ) → count k (xs ++ ys) ≡ count k xs + count k ys
count-append k [] ys = omega arith
count-append k (x ∷ xs) ys = elim (Bool-cases (x == k)) [
  | inl e ↦ rw (e, count-append k xs ys) (omega arith)
  | inr e ↦ rw e (count-append k xs ys)
]

pub pending-append :
    (args : Ptr → Option EpArg) (xs ys : List (ℕ × Ptr)) (k : ℕ)
    → count k (pending args (xs ++ ys)) ≡ count k (pending args xs) + count k (pending args ys)
pending-append args [] ys k = omega arith
pending-append args ((f, p) ∷ xs) ys k = omega (
  arith,
  count-append k (cb_of (args p)) (pending args (xs ++ ys)),
  count-append k (cb_of (args p)) (pending args xs),
  pending-append args xs ys k,
)

-- What is at another address does not matter.
pub pending-update :
    (args : Ptr → Option EpArg) (p : Ptr) (a : Option EpArg) (es : List (ℕ × Ptr))
    → Out p (ptrs es)
    → pending (update args p a) es ≡ pending args es
pending-update args p a [] o = refl
pending-update args p a ((f, q) ∷ es) o =
    rw (update_ne args p a q o.0) (ap (λ r. cb_of (args q) ++ r) (pending-update args p a es o.1))

unwatch-Out : (fd : ℕ) (es : List (ℕ × Ptr)) → Out fd (fds es) → unwatch fd es ≡ es
unfolding unwatch
unwatch-Out fd [] o = refl
unwatch-Out fd ((f, p) ∷ es) o =
    rw (unwatch, ==_ne f fd o.0) (ap (λ r. (f, p) ∷ r) (unwatch-Out fd es o.1))

pub unwatch-middle :
    (fd p : ℕ) (xs ys : List (ℕ × Ptr))
    → Out fd (fds (xs ++ ys))
    → unwatch fd (xs ++ (fd, p) ∷ ys) ≡ xs ++ ys
unfolding unwatch
unwatch-middle fd p [] ys o = rw (unwatch, ==_refl fd) (unwatch-Out fd ys o)
unwatch-middle fd p ((f, q) ∷ xs) ys o =
    rw (unwatch, ==_ne f fd o.0) (ap (λ r. (f, q) ∷ r) (unwatch-middle fd p xs ys o.1))

pub Has-close : (f fd : ℕ) (fs : List ℕ) → f ≢ fd → Has f fs → Has f (close fd fs)
unfolding close
Has-close f fd (g ∷ fs) ne (inl e) = rw (close, ==_ne g fd (λ d. ne (sym e ∙ d))) (inl e)
Has-close f fd (g ∷ fs) ne (inr h) = elim (Bool-cases (g == fd)) [
  | inl e ↦ rw (close, e) (Has-close f fd fs ne h)
  | inr e ↦ rw (close, e) (inr (Has-close f fd fs ne h))
]
Has-close f fd [] ne h = absurd h

-- An entry leads to its argument, which has its descriptor, which is open.
abbrev pub IsEntry : (Ptr → Option EpArg) → List ℕ → ℕ × Ptr → Type 0
IsEntry args open_fds (f, p) = (a : EpArg) × (args p ≡ some a) × (a.sockfd ≡ f) × Has f open_fds

-- The entries stay entries where another argument is freed and another descriptor closed.
pub All-IsEntry-serve :
    (args : Ptr → Option EpArg) (open_fds : List ℕ) (fd p : ℕ) (es : List (ℕ × Ptr))
    → Out fd (fds es)
    → Out p (ptrs es)
    → All (IsEntry args open_fds) es
    → All (IsEntry (update args p none) (close fd open_fds)) es
All-IsEntry-serve args open_fds fd p [] of op h = tt
All-IsEntry-serve args open_fds fd p ((f, q) ∷ es) of op ((a, at, same, opened), h) = (
  (a, update_ne args p none q op.0 ∙ at, same, Has-close f fd open_fds of.0 opened),
  All-IsEntry-serve args open_fds fd p es of.1 op.1 h,
)

-- And where an argument is made and a descriptor opened.
pub All-IsEntry-request :
    (args : Ptr → Option EpArg) (open_fds : List ℕ) (fd p : ℕ) (x : Option EpArg)
    (es : List (ℕ × Ptr))
    → args p ≡ none
    → All (IsEntry args open_fds) es
    → All (IsEntry (update args p x) (fd ∷ open_fds)) es
All-IsEntry-request args open_fds fd p x [] unused h = tt
All-IsEntry-request args open_fds fd p x ((f, q) ∷ es) unused ((a, at, same, opened), h) =
    let other : q ≢ p = λ d. cc (sym at ∙ ap args d ∙ unused) in
    (
      (a, update_ne args p x q other ∙ at, same, inr opened),
      All-IsEntry-request args open_fds fd p x es unused h,
    )

pub Out-fds :
    (args : Ptr → Option EpArg) (open_fds : List ℕ) (fd : ℕ) (es : List (ℕ × Ptr))
    → Out fd open_fds
    → All (IsEntry args open_fds) es
    → Out fd (fds es)
Out-fds args open_fds fd [] o h = tt
Out-fds args open_fds fd ((f, q) ∷ es) o ((_, _, _, opened), h) = (
  λ d. Out-Has fd open_fds o (subst (λ g. Has g open_fds) d opened),
  Out-fds args open_fds fd es o h,
)

pub Out-ptrs :
    (args : Ptr → Option EpArg) (open_fds : List ℕ) (p : Ptr) (es : List (ℕ × Ptr))
    → args p ≡ none
    → All (IsEntry args open_fds) es
    → Out p (ptrs es)
Out-ptrs args open_fds p [] unused h = tt
Out-ptrs args open_fds p ((f, q) ∷ es) unused ((a, at, _, _), h) =
    (λ d. cc (sym at ∙ ap args d ∙ unused), Out-ptrs args open_fds p es unused h)
