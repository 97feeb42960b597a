-- ===== src/SkipListTimer/Levels.antt =====
-- `RandomLevel` draws a height within the limits, and as soon as one number is not below the bound.
use cpp_project.Base.{
  ℕ, ◌+◌, ◌≡◌, refl, ◌≤◌, List, [], ◌∷◌, ◌++◌, true, false, ltb, if◌then◌else◌, Run, ok, fault,
  timeout, ◌>>=◌, arith, All, length, ap, min,
}
use cpp_project.SkipListTimer.Node.{skiplist_maxlevel}
use cpp_project.SkipListTimer.SkipList.{goes_up, count_levels, random_level}

count_levels-append :
    (ds es : List ℕ) (d n : ℕ)
    → All (λ c. goes_up c ≡ true) ds
    → goes_up d ≡ false
    → count_levels (ds ++ d ∷ es) n ≡ ok (n + length ds)
unfolding count_levels
count_levels-append [] es d n up stop = rw stop (ap ok (omega arith))
count_levels-append (c ∷ ds) es d n up stop =
    rw up.0 (ground (arith, count_levels-append ds es d (n + 1) up.1 stop))

-- `RandomLevel` stops at the first number that is not below the bound, and gives one more than the
-- count of the numbers before it, but at most 32.
random_level-min :
    (ds es : List ℕ) (d : ℕ)
    → All (λ c. goes_up c ≡ true) ds
    → goes_up d ≡ false
    → random_level (ds ++ d ∷ es) ≡ ok (min (length ds + 1) skiplist_maxlevel)
unfolding random_level
random_level-min ds es d up stop = rw (count_levels-append ds es d 1 up stop) (ap ok (ground arith))

count_levels-le : (ds : List ℕ) (n m : ℕ) → count_levels ds n ≡ ok m → n ≤ m
unfolding count_levels
count_levels-le [] n m e = ground arith
count_levels-le (d ∷ ds) n m e = ground (arith, count_levels-le ds (n + 1) m)

cap_bounds :
    (r : Run ℕ) (m : ℕ)
    → ((n : ℕ) → r ≡ ok n → 1 ≤ n)
    → (r >>= λ n. ok (if ltb n skiplist_maxlevel then n else skiplist_maxlevel)) ≡ ok m
    → (1 ≤ m) × (m ≤ skiplist_maxlevel)
cap_bounds (ok n) m low e = let le = low n refl in (ground arith, ground arith)
cap_bounds fault m low e = cc
cap_bounds timeout m low e = cc

pub random_level_bounds :
    (ds : List ℕ) (m : ℕ) → random_level ds ≡ ok m → (1 ≤ m) × (m ≤ skiplist_maxlevel)
unfolding random_level
random_level_bounds ds m e = cap_bounds (count_levels ds 1) m (count_levels-le ds 1) e
