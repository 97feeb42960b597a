-- ===== src/Base/Outcome.antt =====
-- The outcome of code that follows pointers and loops: a value, an access that C++ leaves undefined,
-- or fuel that ran out. `or_fault` reads a place that may hold nothing.
use mathlib.Core.Option.{Option, none, some}
use mathlib.Core.Path.{◌≡◌, refl}

pub data Run {ℓ} (A : Type ℓ) : Type ℓ where
  ok : A → Run A
  fault : Run A
  timeout : Run A

infixl 5 ◌>>=◌ ◌>>◌
abbrev pub ◌>>=◌ {ℓ κ} : {A : Type ℓ} {B : Type κ} → Run A → (A → Run B) → Run B
ok a >>= f = f a
fault >>= f = fault
timeout >>= f = timeout

abbrev pub ◌>>◌ {ℓ κ} : {A : Type ℓ} {B : Type κ} → Run A → Run B → Run B
m >> n = m >>= λ _. n

abbrev pub or_fault {ℓ} : {A : Type ℓ} → Option A → Run A
or_fault none = fault
or_fault (some a) = ok a

pub ok_injective {ℓ} : {A : Type ℓ} → (a b : A) → ok a ≡ ok b → a ≡ b
ok_injective a b e = cc

-- A chain that returns has returned at each link.
pub >>=_ok {ℓ κ} :
    {A : Type ℓ} {B : Type κ} (m : Run A) (f : A → Run B) (b : B)
    → (m >>= f) ≡ ok b
    → (a : A) × (m ≡ ok a) × (f a ≡ ok b)
>>=_ok (ok a) f b e = (a, refl, e)
>>=_ok fault f b e = absurd cc
>>=_ok timeout f b e = absurd cc

pub or_fault_ok {ℓ} : {A : Type ℓ} (o : Option A) (a : A) → or_fault o ≡ ok a → o ≡ some a
or_fault_ok none a e = absurd cc
or_fault_ok (some b) a e = cc
