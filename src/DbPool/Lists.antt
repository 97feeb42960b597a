-- ===== src/DbPool/Lists.antt =====
-- Lists of connections without repetition, all of them live: a connection is moved within such a list.
use cpp_project.Base.{
  ℕ, suc, ◌+◌, Option, none, ◌≡◌, refl, sym, ap, ◌∙◌, subst, Bool, true, false, some, List, [], ◌∷◌,
  ◌++◌, arith, length, length-append, All, All-right, All-drop, Out, Distinct, Distinct-drop,
  Distinct-put, All-put,
}
use cpp_project.DbPool.{Ptr, is_listed}

-- `n` connections, each live and none twice.
abbrev pub Good : (Ptr → Bool) → ℕ → List Ptr → Type 0
Good f n ps = Distinct ps × All (λ p. f p ≡ true) ps × (n ≡ length ps)

pub Out-live :
    (f : Ptr → Bool) (p : Ptr) (ps : List Ptr) → f p ≡ false → All (λ q. f q ≡ true) ps → Out p ps
Out-live f p [] e a = tt
Out-live f p (q ∷ qs) e a = (λ same. cc (sym e ∙ ap f (sym same) ∙ a.0), Out-live f p qs e a.1)

pub Good-move :
    (f : Ptr → Bool) (n : ℕ) (p : Ptr) (xs ys us vs : List Ptr)
    → xs ++ ys ≡ us ++ vs
    → Good f n (xs ++ p ∷ ys)
    → Good f n (us ++ p ∷ vs)
Good-move f n p xs ys us vs e (d, a, c) =
    let (o, d') = Distinct-drop p xs ys d in
    let live = (All-right (λ q. f q ≡ true) xs (p ∷ ys) a).0 in
    let a' = All-drop (λ q. f q ≡ true) xs p ys a in
    (
      Distinct-put p us vs (subst (Out p) e o) (subst Distinct e d'),
      All-put (λ q. f q ≡ true) p us vs live (subst (All (λ q. f q ≡ true)) e a'),
      omega (
        arith,
        c,
        length-append xs (p ∷ ys),
        length-append us (p ∷ vs),
        length-append xs ys,
        length-append us vs,
        ap length e,
      ),
    )

-- The connections in a list, without the NULLs, and the number of these.
abbrev pub conns : List (Option Ptr) → List Ptr
conns [] = []
conns (none ∷ cs) = conns cs
conns (some p ∷ cs) = p ∷ conns cs

abbrev pub nulls : List (Option Ptr) → ℕ
nulls [] = 0
nulls (none ∷ cs) = suc (nulls cs)
nulls (some p ∷ cs) = nulls cs

pub conns-append : (xs ys : List (Option Ptr)) → conns (xs ++ ys) ≡ conns xs ++ conns ys
conns-append [] ys = refl
conns-append (none ∷ xs) ys = conns-append xs ys
conns-append (some p ∷ xs) ys = ap (λ ps. p ∷ ps) (conns-append xs ys)

pub nulls-append : (xs ys : List (Option Ptr)) → nulls (xs ++ ys) ≡ nulls xs + nulls ys
nulls-append [] ys = omega arith
nulls-append (none ∷ xs) ys = omega (arith, nulls-append xs ys)
nulls-append (some p ∷ xs) ys = nulls-append xs ys

pub is_listed-Out :
    (p : Ptr) (cs : List (Option Ptr)) → Out p (conns cs) → is_listed (some p) cs ≡ false
unfolding is_listed
is_listed-Out p [] o = refl
is_listed-Out p (none ∷ cs) o = is_listed-Out p cs o
is_listed-Out p (some q ∷ cs) o = ground (arith, o.0, is_listed-Out p cs o.1)

-- NULL is given back to a list that has none of it.
pub is_listed-nulls : (cs : List (Option Ptr)) → is_listed none cs ≡ false → nulls cs ≡ 0
unfolding is_listed
is_listed-nulls [] e = refl
is_listed-nulls (none ∷ cs) e = absurd cc
is_listed-nulls (some q ∷ cs) e = is_listed-nulls cs e
