-- ===== src/ResultSet.antt =====
-- 线程池连接池/ResultSet.cpp: the rows of a query and the positions of the columns by name. The rows and
-- names come from the client library of MySQL. `atoi` is that of C, undefined outside of `int`.
pub mod Keys
pub mod Numbers
use cpp_project.Base.{
  ℕ, zero, suc, ◌+◌, ◌-◌, ◌*◌, ◌%◌, ◌^◌, Bool, true, false, ◌&&◌, ◌||◌, Option, none, some, List,
  [], ◌∷◌, if◌then◌else◌, ltb, leb, ◌==◌, get_elem?, Run, ok, fault, ◌>>=◌, or_fault,
}
use cpp_project.Text.{Bytes}

abbrev pub Row : Type 0
Row = List (Option Bytes)

abbrev pub KeyMap : Type 0
KeyMap = List (Bytes × ℕ)

-- `m_key_map` and `m_row`, which is `none` before `Next` and after the last row.
pub record ResultSet : Type 0 where
  pub key_map : KeyMap
  pub row : Option Row

unfoldable pub same_bytes : Bytes → Bytes → Bool
same_bytes [] [] = true
same_bytes [] (c ∷ cs) = false
same_bytes (b ∷ bs) [] = false
same_bytes (b ∷ bs) (c ∷ cs) = b == c && same_bytes bs cs

-- `map::find`
unfoldable pub find_key : Bytes → KeyMap → Option ℕ
find_key key [] = none
find_key key ((k, i) ∷ m) = let rest = find_key key m in if same_bytes k key then some i else rest

-- `map::insert`, which keeps the entry that is there.
unfoldable pub insert_key : Bytes → ℕ → KeyMap → KeyMap
insert_key key i m = elim (find_key key m) [ none ↦ (key, i) ∷ m | some _ ↦ m ]

-- The loop of `ResultSet::ResultSet`.
unfoldable pub insert_fields : List Bytes → ℕ → KeyMap → KeyMap
insert_fields [] i m = m
insert_fields (f ∷ fs) i m = insert_fields fs (suc i) (insert_key f i m)

unfoldable pub new_result_set : List Bytes → ResultSet
new_result_set fields = record { key_map = insert_fields fields 0 []; row = none }

-- `Next`, with what `mysql_fetch_row` returns.
unfoldable pub next : ResultSet → Option Row → Bool × ResultSet
next r fetched = (elim fetched [ none ↦ false | some _ ↦ true ], record r { row = fetched })

-- `GetIndex`, with `none` for -1.
unfoldable pub get_index : ResultSet → Bytes → Option ℕ
get_index r key = find_key key r.key_map

-- `m_row[idx]`
unfoldable pub row_at : ResultSet → ℕ → Run (Option Bytes)
row_at r i = or_fault r.row >>= λ row. or_fault (get_elem? row i)

unfoldable pub get_string : ResultSet → Bytes → Run (Option Bytes)
get_string r key = elim (get_index r key) [ none ↦ ok none | some i ↦ row_at r i ]

abbrev pub is_space : ℕ → Bool
is_space c = c == 32 || (leb 9 c && leb c 13)

abbrev pub is_digit : ℕ → Bool
is_digit c = leb 48 c && leb c 57

unfoldable pub skip_spaces : Bytes → Bytes
skip_spaces [] = []
skip_spaces (c ∷ cs) = let rest = skip_spaces cs in if is_space c then rest else c ∷ cs

unfoldable pub read_digits : ℕ → Bytes → ℕ
read_digits k [] = k
read_digits k (c ∷ cs) =
    let rest = read_digits (10 * k + (c - 48)) cs in if is_digit c then rest else k

abbrev pub positive : ℕ → Run ℕ
positive n = if ltb n (2 ^ 31) then ok n else fault

-- A negative number by its representation in 32 bits.
abbrev pub negative : ℕ → Run ℕ
negative n = if leb n (2 ^ 31) then ok ((2 ^ 32 - n) % 2 ^ 32) else fault

unfoldable pub read_signed : Bytes → Run ℕ
read_signed [] = ok 0
read_signed (c ∷ cs) =
    let minus = negative (read_digits 0 cs) in
    let plus = positive (read_digits 0 cs) in
    let unsigned = positive (read_digits 0 (c ∷ cs)) in
    if c == 45 then minus else if c == 43 then plus else unsigned

unfoldable pub atoi : Bytes → Run ℕ
atoi bs = read_signed (skip_spaces bs)

-- `GetInt`, with the representation of -1 in 32 bits for a missing column.
unfoldable pub get_int : ResultSet → Bytes → Run ℕ
get_int r key = elim (get_index r key) [
  | none ↦ ok (2 ^ 32 - 1)
  | some i ↦ row_at r i >>= λ text. or_fault text >>= atoi
]
