-- ===== src/Base/Members.antt =====
-- Lists of numbers: membership, and lists with no repetition.
use Prim.Native.Nat.{ℕ}
use mathlib.Core.Path.{◌≡◌, ◌∙◌, refl, sym, ap, subst}
use mathlib.Core.Logic.{◌≢◌, ◌⊎◌, inl, inr}
use mathlib.Core.List.{List, [], ◌∷◌, ◌++◌}
use cpp_project.Base.Tests.{◌==◌, ==_iff, Bool-cases}
use cpp_project.Base.Lists.{All, All-append, All-left, All-right, All-drop}

abbrev pub Has : ℕ → List ℕ → Type 0
Has p [] = ⊥
Has p (q ∷ qs) = (q ≡ p) ⊎ Has p qs

abbrev pub Out : ℕ → List ℕ → Type 0
Out p = All (λ q. q ≢ p)

abbrev pub Distinct : List ℕ → Type 0
Distinct [] = Unit
Distinct (p ∷ ps) = Out p ps × Distinct ps

pub Out-Has : (p : ℕ) (ps : List ℕ) → Out p ps → Has p ps → ⊥
Out-Has p [] o h = elim h [ ]
Out-Has p (q ∷ qs) o (inl e) = o.0 e
Out-Has p (q ∷ qs) o (inr h) = Out-Has p qs o.1 h

pub Has-Out : (p : ℕ) (xs ys : List ℕ) → Has p ys → Distinct (xs ++ ys) → Out p xs
Has-Out p [] ys h d = tt
Has-Out p (x ∷ xs) ys h d = (
  λ same. Out-Has x ys (All-right (λ q. q ≢ x) xs ys d.0) (subst (λ q. Has q ys) (sym same) h),
  Has-Out p xs ys h d.1,
)

pub Has-split : (p : ℕ) (ps : List ℕ) → Has p ps → (xs ys : List ℕ) × (ps ≡ xs ++ p ∷ ys)
Has-split p [] h = elim h [ ]
Has-split p (q ∷ qs) (inl e) = ([], qs, ap (λ r. r ∷ qs) e)
Has-split p (q ∷ qs) (inr h) =
    let (xs, ys, e) = Has-split p qs h in (q ∷ xs, ys, ap (λ rs. q ∷ rs) e)

pub Has-drop : (q p : ℕ) (xs ys : List ℕ) → q ≢ p → Has q (xs ++ p ∷ ys) → Has q (xs ++ ys)
Has-drop q p [] ys ne (inl e) = absurd (ne (sym e))
Has-drop q p [] ys ne (inr h) = h
Has-drop q p (x ∷ xs) ys ne (inl e) = inl e
Has-drop q p (x ∷ xs) ys ne (inr h) = inr (Has-drop q p xs ys ne h)

pub Distinct-drop :
    (p : ℕ) (xs ys : List ℕ) → Distinct (xs ++ p ∷ ys) → Out p (xs ++ ys) × Distinct (xs ++ ys)
Distinct-drop p [] ys d = d
Distinct-drop p (x ∷ xs) ys d =
    let (o, e) = Distinct-drop p xs ys d.1 in
    let ne = (All-right (λ q. q ≢ x) xs (p ∷ ys) d.0).0 in
    ((λ same. ne (sym same), o), (All-drop (λ q. q ≢ x) xs p ys d.0, e))

pub All-put :
    (P : ℕ → Type 0) (p : ℕ) (xs ys : List ℕ) → P p → All P (xs ++ ys) → All P (xs ++ p ∷ ys)
All-put P p xs ys h a = All-append P xs (p ∷ ys) (All-left P xs ys a) (h, All-right P xs ys a)

pub Distinct-put :
    (p : ℕ) (xs ys : List ℕ) → Out p (xs ++ ys) → Distinct (xs ++ ys) → Distinct (xs ++ p ∷ ys)
Distinct-put p [] ys o d = (o, d)
Distinct-put p (x ∷ xs) ys o d =
    (All-put (λ q. q ≢ x) p xs ys (λ same. o.0 (sym same)) d.0, Distinct-put p xs ys o.1 d.1)

-- What holds of each member holds of all.
pub All-Has {κ} : (P : ℕ → Type κ) (ps : List ℕ) → ((q : ℕ) → Has q ps → P q) → All P ps
All-Has P [] f = tt
All-Has P (p ∷ ps) f = (f p (inl refl), All-Has P ps (λ q h. f q (inr h)))

pub Has-append : (q : ℕ) (xs ys : List ℕ) → Has q (xs ++ ys) → Has q xs ⊎ Has q ys
Has-append q [] ys h = inr h
Has-append q (x ∷ xs) ys (inl e) = inl (inl e)
Has-append q (x ∷ xs) ys (inr h) = elim (Has-append q xs ys h) [
  | inl a ↦ inl (inr a)
  | inr b ↦ inr b
]

pub Has-middle : (p : ℕ) (xs ys : List ℕ) → Has p (xs ++ p ∷ ys)
Has-middle p [] ys = inl refl
Has-middle p (x ∷ xs) ys = inr (Has-middle p xs ys)

pub Has-weaken : (q p : ℕ) (xs ys : List ℕ) → Has q (xs ++ ys) → Has q (xs ++ p ∷ ys)
Has-weaken q p [] ys h = inr h
Has-weaken q p (x ∷ xs) ys (inl e) = inl e
Has-weaken q p (x ∷ xs) ys (inr h) = inr (Has-weaken q p xs ys h)

pub is_member : (k : ℕ) (ws : List ℕ) → Has k ws ⊎ Out k ws
is_member k [] = inr tt
is_member k (w ∷ ws) = elim (Bool-cases (w == k)) [
  | inl e ↦ inl (inl ((==_iff w k).0 e))
  | inr e ↦ elim (is_member k ws) [
    | inl h ↦ inl (inr h)
    | inr o ↦ inr (λ same. cc (sym ((==_iff w k).1 same) ∙ e), o)
  ]
]
