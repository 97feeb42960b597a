-- ===== src/ResultSet/Keys.antt =====
-- The position that a result set has for a name is that of the first column with the name.
use cpp_project.Base.{
  ℕ, suc, ◌+◌, ◌≡◌, refl, ap, ◌∙◌, ◌↔◌, inl, inr, Bool-cases, true, false, Option, Option-cases,
  none, some, List, [], ◌∷◌, if◌then◌else◌, arith,
}
use cpp_project.Text.{Bytes}
use cpp_project.ResultSet.{
  KeyMap, same_bytes, find_key, insert_key, insert_fields, new_result_set, get_index,
}

pub same_bytes_iff : (bs cs : Bytes) → (same_bytes bs cs ≡ true) ↔ (bs ≡ cs)
unfolding same_bytes
same_bytes_iff [] [] = (λ e. refl, λ e. refl)
same_bytes_iff [] (c ∷ cs) = (λ e. cc, λ e. cc)
same_bytes_iff (b ∷ bs) [] = (λ e. cc, λ e. cc)
same_bytes_iff (b ∷ bs) (c ∷ cs) =
    let ih = same_bytes_iff bs cs in (λ e. ground (arith, ih, e), λ e. ground (arith, ih, e))

abbrev pub next_column : Option ℕ → Option ℕ
next_column none = none
next_column (some i) = some (suc i)

-- The least position of a column with the name.
abbrev pub first_column : Bytes → List Bytes → Option ℕ
first_column key [] = none
first_column key (f ∷ fs) =
    let rest = next_column (first_column key fs) in if same_bytes f key then some 0 else rest

-- An entry of the map, or else the column's position among those still to be inserted.
abbrev or_column : Option ℕ → ℕ → Option ℕ → Option ℕ
or_column (some j) i c = some j
or_column none i none = none
or_column none i (some k) = some (i + k)

find_key-insert_same :
    (key : Bytes) (i : ℕ) (m : KeyMap)
    → find_key key (insert_key key i m) ≡ or_column (find_key key m) i (some 0)
unfolding find_key insert_key
find_key-insert_same key i m =
    let same : same_bytes key key ≡ true = (same_bytes_iff key key).1 refl in
    elim (Option-cases (find_key key m)) [
      | inl e ↦ rw (e, insert_key, e, same) (ap some (omega arith))
      | inr (j, e) ↦ rw (e, insert_key, e) refl
    ]

find_key-insert_other :
    (key f : Bytes) (i : ℕ) (m : KeyMap)
    → same_bytes f key ≡ false
    → find_key key (insert_key f i m) ≡ find_key key m
unfolding find_key insert_key
find_key-insert_other key f i m e = elim (Option-cases (find_key f m)) [
  | inl d ↦ rw (insert_key, d, e) refl
  | inr (j, d) ↦ rw (insert_key, d) refl
]

or_column-next :
    (o : Option ℕ) (i : ℕ) (c : Option ℕ) → or_column o (suc i) c ≡ or_column o i (next_column c)
or_column-next (some j) i c = refl
or_column-next none i none = refl
or_column-next none i (some k) = ap some (omega arith)

or_column-some :
    (o : Option ℕ) (i j : ℕ) (c : Option ℕ)
    → or_column (or_column o i (some 0)) j c ≡ or_column o i (some 0)
or_column-some (some k) i j c = refl
or_column-some none i j c = refl

find_key-fields :
    (key : Bytes) (fs : List Bytes) (i : ℕ) (m : KeyMap)
    → find_key key (insert_fields fs i m) ≡ or_column (find_key key m) i (first_column key fs)
unfolding insert_fields
find_key-fields key [] i m = elim (Option-cases (find_key key m)) [
  | inl e ↦ rw e refl
  | inr (j, e) ↦ rw e refl
]
find_key-fields key (f ∷ fs) i m =
    let ih = find_key-fields key fs (suc i) (insert_key f i m) in
    elim (Bool-cases (same_bytes f key)) [
      | inl e ↦
          let same : f ≡ key = (same_bytes_iff f key).0 e in
          rw e (
            ih
            ∙ ap (λ o. or_column o (suc i) (first_column key fs))
                (ap (λ g. find_key key (insert_key g i m)) same ∙ find_key-insert_same key i m)
            ∙ or_column-some (find_key key m) i (suc i) (first_column key fs))
      | inr e ↦ rw e (
          ih
          ∙ ap (λ o. or_column o (suc i) (first_column key fs)) (find_key-insert_other key f i m e)
          ∙ or_column-next (find_key key m) i (first_column key fs))
    ]

-- `GetIndex` gives the position of the first column with the name, and -1 if there is none.
get_index_lem :
    (fields : List Bytes) (key : Bytes)
    → get_index (new_result_set fields) key ≡ first_column key fields
unfolding get_index new_result_set find_key
get_index_lem fields key = find_key-fields key fields 0 [] ∙ from_zero (first_column key fields)
  where
    from_zero : (c : Option ℕ) → or_column none 0 c ≡ c
    from_zero none = refl
    from_zero (some k) = ap some (omega arith)
