-- ===== src/Text/Decimal.antt =====
-- `int2string`: the digits of a number, and that reading them gives the number back.
use cpp_project.Base.{
  ℕ, zero, suc, ◌+◌, ◌-◌, ◌*◌, ◌/◌, ◌%◌, ◌<◌, ◌≡◌, refl, [], ◌∷◌, ◌++◌, if◌then◌else◌, ltb,
  Bool-cases, inl, inr, arith,
}
use cpp_project.Text.{Bytes}

-- The last digit is put after the digits of the rest; `n` bounds the number of digits.
unfoldable pub digits : (n : ℕ) → ℕ → Bytes
digits zero k = []
digits (suc n) k =
    let rest = digits n (k / 10) in if ltb k 10 then (48 + k) ∷ [] else rest ++ (48 + k % 10) ∷ []

-- `ss << user_id`
unfoldable pub int2string : ℕ → Bytes
int2string k = digits (suc k) k

abbrev pub read_from : ℕ → Bytes → ℕ
read_from k [] = k
read_from k (c ∷ cs) = read_from (10 * k + (c - 48)) cs

read_from-append : (k : ℕ) (xs ys : Bytes) → read_from k (xs ++ ys) ≡ read_from (read_from k xs) ys
read_from-append k [] ys = refl
read_from-append k (x ∷ xs) ys = read_from-append (10 * k + (x - 48)) xs ys

digits-read : (n k : ℕ) → k < n → read_from 0 (digits n k) ≡ k
unfolding digits
digits-read zero k h = absurd (omega arith)
digits-read (suc n) k h = elim (Bool-cases (ltb k 10)) [
  | inl e ↦ rw e (omega arith)
  | inr e ↦
      let ih : read_from 0 (digits n (k / 10)) ≡ k / 10 =
        digits-read n (k / 10) (ground (arith, e)) in
      rw (e, read_from-append 0 (digits n (k / 10)) ((48 + k % 10) ∷ []), ih) (omega arith)
]

-- Reading the decimal text of a number gives the number.
pub int2string_read : (k : ℕ) → read_from 0 (int2string k) ≡ k
unfolding int2string
int2string_read k = digits-read (suc k) k (omega arith)
