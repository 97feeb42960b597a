-- ===== src/SkipListTimer/Represents.antt =====
-- The abstract timer queue, a list of entries by score, and what it means that a skip list stands for
-- one.
use cpp_project.Base.{
  ℕ, ◌-◌, ◌≡◌, refl, ap, ◌≢◌, ◌<◌, ◌≤◌, List, [], ◌∷◌, ◌++◌, ltb, ltb→lt, ltb→le, if◌then◌else◌,
  Bool-cases, inl, inr, arith, All, All-mono, All-append, All-left, All-right, length, ◌==◌,
}
use cpp_project.SkipListTimer.Node.{skiplist_maxlevel}
use cpp_project.SkipListTimer.SkipList.{SkipList}
use cpp_project.SkipListTimer.Chain.{Entry, pick, Chain, Fresh, Distinct}
use cpp_project.SkipListTimer.Stored.{Stored}

abbrev pub IsSorted : List Entry → Type 0
IsSorted [] = Unit
IsSorted (e ∷ xs) = All (λ f. e.score ≤ f.score) xs × IsSorted xs

-- A new timer goes before the first one that is not due earlier.
unfoldable pub insert_sorted : Entry → List Entry → List Entry
insert_sorted e [] = e ∷ []
insert_sorted e (f ∷ xs) = if ltb f.score e.score then f ∷ insert_sorted e xs else e ∷ f ∷ xs

-- The first timer with a score is taken out.
unfoldable pub remove_score : ℕ → List Entry → List Entry
remove_score b [] = []
remove_score b (e ∷ xs) = if e.score == b then xs else e ∷ remove_score b xs

pub record Represents (s : SkipList) (xs : List Entry) : Type 0 where
  pub apart : Fresh s.header xs
  pub distinct : Distinct xs
  pub chains : (i : ℕ) → i < skiplist_maxlevel → Chain s.heap i s.header (pick i xs)
  pub stored : All (Stored s.heap) xs
  pub sorted : IsSorted xs
  pub count : s.length ≡ length xs
  pub heights : All (λ e. (0 < e.level) × (e.level ≤ s.level)) xs
  pub low : 1 ≤ s.level
  pub high : s.level ≤ skiplist_maxlevel
  pub used : 1 < s.level → pick (s.level - 1) xs ≢ []

-- The entries below a score, and the others.
pub record Split (b : ℕ) (xs : List Entry) : Type 0 where
  pub before : List Entry
  pub after : List Entry
  pub joined : xs ≡ before ++ after
  pub lower : All (λ e. e.score < b) before
  pub upper : All (λ e. b ≤ e.score) after

pub split : (b : ℕ) (xs : List Entry) → IsSorted xs → Split b xs
split b [] s = record { before = []; after = []; joined = refl; lower = tt; upper = tt }
split b (e ∷ xs) s = elim (Bool-cases (ltb e.score b)) [
  | inl t ↦
      let r = split b xs s.1 in
      record {
        before = e ∷ r.before;
        after = r.after;
        joined = ap (◌∷◌ e) r.joined;
        lower = (ltb→lt e.score b t, r.lower);
        upper = r.upper;
      }
  | inr t ↦ record {
    before = [];
    after = e ∷ xs;
    joined = refl;
    lower = tt;
    upper = (
      ltb→le e.score b t,
      All-mono _ (λ f. b ≤ f.score) (λ f le. omega (arith, ltb→le e.score b t)) xs s.0,
    );
  }
]

pub insert_sorted-append :
    (e : Entry) (xs ys : List Entry)
    → All (λ f. f.score < e.score) xs
    → All (λ f. e.score ≤ f.score) ys
    → insert_sorted e (xs ++ ys) ≡ xs ++ e ∷ ys
unfolding insert_sorted
insert_sorted-append e [] [] l u = refl
insert_sorted-append e [] (f ∷ ys) l u = ground arith
insert_sorted-append e (f ∷ xs) ys l u = ground (arith, insert_sorted-append e xs ys l.1 u)

pub remove_score-append :
    (b : ℕ) (xs ys : List Entry)
    → All (λ f. f.score < b) xs
    → remove_score b (xs ++ ys) ≡ xs ++ remove_score b ys
unfolding remove_score
remove_score-append b [] ys l = refl
remove_score-append b (f ∷ xs) ys l = ground (arith, remove_score-append b xs ys l.1)

pub IsSorted-insert :
    (e : Entry) (xs ys : List Entry)
    → IsSorted (xs ++ ys)
    → All (λ f. f.score < e.score) xs
    → All (λ f. e.score ≤ f.score) ys
    → IsSorted (xs ++ e ∷ ys)
IsSorted-insert e [] ys s l u = (u, s)
IsSorted-insert e (x ∷ xs) ys s l u = (
  All-append _ xs (e ∷ ys) (All-left _ xs ys s.0) (omega (arith, l.0), All-right _ xs ys s.0),
  IsSorted-insert e xs ys s.1 l.1 u,
)

pub IsSorted-remove :
    (e : Entry) (xs ys : List Entry) → IsSorted (xs ++ e ∷ ys) → IsSorted (xs ++ ys)
IsSorted-remove e [] ys s = s.1
IsSorted-remove e (x ∷ xs) ys s = (
  All-append _ xs ys (All-left _ xs (e ∷ ys) s.0) (All-right _ xs (e ∷ ys) s.0).1,
  IsSorted-remove e xs ys s.1,
)

pub IsSorted-right : (xs ys : List Entry) → IsSorted (xs ++ ys) → IsSorted ys
IsSorted-right [] ys s = s
IsSorted-right (e ∷ xs) ys s = IsSorted-right xs ys s.1

pub remove_score-absent :
    (b : ℕ) (xs : List Entry) → All (λ e. b < e.score) xs → remove_score b xs ≡ xs
unfolding remove_score
remove_score-absent b [] a = refl
remove_score-absent b (e ∷ xs) a = ground (arith, remove_score-absent b xs a.1)
