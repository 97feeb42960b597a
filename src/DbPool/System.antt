-- ===== src/DbPool/System.antt =====
-- The threads that use a pool: each gets a connection or NULL, or waits, and gives back what it was
-- given, NULL too, as workUsePool does; a thread that tests for NULL may leave without. A waiting thread
-- may be woken at any time.
use cpp_project.Base.{ℕ, ◌≡◌, ◌≢◌, ◌⊎◌, Bool, true, false, Option, none, some, update}
use cpp_project.DbPool.{
  Ptr, DbPool, Attempt, Got, waits, fails, gets, get_section, rel_section, init, new_pool,
}

pub data User : Type 0 where
  outside : User
  asking : User
  waiting : User
  woken : User
  holding : Option Ptr → User

-- `live` says which connections exist.
pub record System : Type 0 where
  pub pool : DbPool
  pub live : Ptr → Bool
  pub users : ℕ → User

abbrev pub wake : User → User
wake waiting = woken
wake u = u

abbrev pub live_at : Option Ptr → (Ptr → Bool) → Ptr → Bool
live_at none f = f
live_at (some p) f = update f p true

unfoldable pub after_get : System → (i : ℕ) → Got → System
after_get s i waits = record s { users = update s.users i waiting }
after_get s i fails = record s { users = update s.users i (holding none) }
after_get s i (gets p c) = record s {
  pool = p;
  live = live_at c s.live;
  users = update s.users i (holding c);
}

abbrev pub TriesGet : User → Type 0
TriesGet u = (u ≡ asking) ⊎ (u ≡ woken)

-- The thread that a signal wakes, if there is one that waits.
abbrev pub Signals : System → ℕ → Type 0
Signals s k = (s.users k ≡ waiting) ⊎ ((l : ℕ) → s.users l ≢ waiting)

abbrev pub woken_at : System → ℕ → ℕ → User
woken_at s k = update s.users k (wake (s.users k))

pub data Step (s : System) : System → Type 0 where
  ask : (i : ℕ) → s.users i ≡ outside → Step s (record s { users = update s.users i asking })
  get :
      (i : ℕ) (a : Attempt)
      → TriesGet (s.users i)
      → s.live a.address ≡ false
      → Step s (after_get s i (get_section s.pool a))
  rel :
      (i k : ℕ) (c : Option Ptr)
      → s.users i ≡ holding c
      → Signals s k
      → Step s (record s { pool = rel_section s.pool c; users = update (woken_at s k) i outside })
  leave :
      (i : ℕ) → s.users i ≡ holding none → Step s (record s { users = update s.users i outside })
  wake_spuriously : (i : ℕ) → Step s (record s { users = woken_at s i })

-- `Init` has succeeded with a connection at `p`.
abbrev pub started : ℕ → Ptr → System
started max_conn p = record {
  pool = (init (new_pool max_conn) (record { address = p; result = 0 })).1;
  live = live_at (some p) (λ _. false);
  users = λ _. outside;
}

pub data Reach (m : ℕ) : System → Type 0 where
  start : (p : Ptr) → Reach m (started m p)
  later : {s t : System} → Reach m s → Step s t → Reach m t
