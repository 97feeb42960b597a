-- ===== src/ResultSet/Numbers.antt =====
-- A number that a column holds in decimal is read back.
use cpp_project.Base.{
  ℕ, zero, suc, ◌+◌, ◌-◌, ◌*◌, ◌/◌, ◌^◌, ◌<◌, ◌≤◌, ◌≡◌, refl, ap, lt→ltb, ◌∙◌, inl, inr, Bool-cases,
  true, false, some, [], ◌∷◌, ltb, ◌==◌, arith, get_elem?, ok, All, All-append,
}
use cpp_project.Text.{Bytes}
use cpp_project.Text.Decimal.{digits, int2string, read_from, int2string_read}
use cpp_project.ResultSet.{
  Row, ResultSet, get_index, row_at, get_int, atoi, read_signed, read_digits, skip_spaces, is_digit,
  is_space,
}

AreDigits : Bytes → Type 0
AreDigits = All (λ c. (48 ≤ c) × (c ≤ 57))

digits-AreDigits : (n k : ℕ) → AreDigits (digits n k)
unfolding digits AreDigits
digits-AreDigits zero k = tt
digits-AreDigits (suc n) k = elim (Bool-cases (ltb k 10)) [
  | inl e ↦ rw e ((ground (arith, e), ground (arith, e)), tt)
  | inr e ↦ rw e (
      All-append _ (digits n (k / 10)) _ (digits-AreDigits n (k / 10))
        ((omega arith, omega arith), tt))
]

int2string-AreDigits : (k : ℕ) → AreDigits (int2string k)
unfolding int2string
int2string-AreDigits k = digits-AreDigits (suc k) k

read_digits-all : (k : ℕ) (cs : Bytes) → AreDigits cs → read_digits k cs ≡ read_from k cs
unfolding read_digits AreDigits
read_digits-all k [] h = refl
read_digits-all k (c ∷ cs) h =
    let digit : is_digit c ≡ true = ground (arith, h.0) in
    rw digit (read_digits-all (10 * k + (c - 48)) cs h.1)

atoi-all : (cs : Bytes) → AreDigits cs → read_from 0 cs < 2 ^ 31 → atoi cs ≡ ok (read_from 0 cs)
unfolding atoi skip_spaces read_signed AreDigits
atoi-all [] h l = refl
atoi-all (c ∷ cs) h l =
    let no_space : is_space c ≡ false = ground (arith, h.0) in
    let no_minus : (c == 45) ≡ false = ground (arith, h.0) in
    let no_plus : (c == 43) ≡ false = ground (arith, h.0) in
    rw (no_space, no_minus, no_plus, read_digits-all 0 (c ∷ cs) h, lt→ltb _ _ l) refl

-- If the current row has the decimal text of a number below 2^31 in the column that `GetIndex` finds for
-- a name, `GetInt` of the name returns the number.
pub get_int-int2string :
    (r : ResultSet) (row : Row) (key : Bytes) (i k : ℕ)
    → r.row ≡ some row
    → get_index r key ≡ some i
    → get_elem? row i ≡ some (some (int2string k))
    → k < 2 ^ 31
    → get_int r key ≡ ok k
unfolding get_int row_at
get_int-int2string r row key i k e f g l =
    let read = int2string_read k in
    rw (get_int, f, row_at, e, g)
      (atoi-all (int2string k) (int2string-AreDigits k) (rw read l) ∙ ap ok read)
