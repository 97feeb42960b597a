-- ===== src/DbPool/Tests.antt =====
-- Runs of a pool of at most one connection and two threads, and the theorems at them.
use cpp_project.Base.{ℕ, update, ◌≡◌, refl, [], inl, inr, false, none, ◌∷◌, some, arith}
use cpp_project.DbPool.{Attempt, get_section, rel_section, is_listed, init}
use cpp_project.DbPool.System
use cpp_project.DbPool.System.{
  System, User, waiting, holding, outside, asking, Reach, start, later, started, after_get,
  woken_at,
}
use cpp_project.DbPool.Awake.{Awake, signals_kept}
use cpp_project.DbPool.Safety.{held_alone}

abbrev no_server : Attempt
no_server = record { address = 9; result = 1 }

abbrev one_asks : System
one_asks = record (started 1 5) { users = update (started 1 5).users 0 asking }

abbrev one_leased : System
one_leased = after_get one_asks 0 (get_section one_asks.pool no_server)

abbrev two_ask : System
two_ask = record one_leased { users = update one_leased.users 1 asking }

abbrev one_waits : System
one_waits = after_get two_ask 1 (get_section two_ask.pool no_server)

-- The connection is given back, and the thread that waits is woken and gets it.
abbrev given_back : System
given_back = record one_waits {
  pool = rel_section one_waits.pool (some 5);
  users = update (woken_at one_waits 1) 0 outside;
}

abbrev handed_on : System
handed_on = after_get given_back 1 (get_section given_back.pool no_server)

-- Two threads wait, and one of them is woken.
abbrev third_asks : System
third_asks = record one_waits { users = update one_waits.users 2 asking }

abbrev two_wait : System
two_wait = after_get third_asks 2 (get_section third_asks.pool no_server)

abbrev one_woken : System
one_woken = record two_wait {
  pool = rel_section two_wait.pool (some 5);
  users = update (woken_at two_wait 1) 0 outside;
}

-- Its `unfolding` line is that of every run below.
steps : System
unfolding init get_section rel_section is_listed after_get
steps = handed_on

one_waits-reached : Reach 1 one_waits
unfolding steps
one_waits-reached =
    later
      (later (later (later (start 5) (System.ask 0 refl)) (System.get 0 no_server (inl refl) refl))
        (System.ask 1 refl))
      (System.get 1 no_server (inl refl) refl)

one_woken-reached : Reach 1 one_woken
unfolding steps
one_woken-reached =
    later
      (later (later one_waits-reached (System.ask 2 refl)) (System.get 2 no_server (inl refl) refl))
      (System.rel 0 1 (some 5) refl (inl refl))

one_woken-run : one_woken.users 2 ≡ waiting
unfolding steps
one_woken-run = refl

signals_kept_example : (one_woken.pool.cur_conn_cnt ≡ 1) × Awake one_woken
signals_kept_example = signals_kept 1 one_woken (omega arith) one_woken-reached 2 one_woken-run

handed_on-reached : Reach 1 handed_on
unfolding steps
handed_on-reached =
    later (later one_waits-reached (System.rel 0 1 (some 5) refl (inl refl)))
      (System.get 1 no_server (inr refl) refl)

one_waits-run : (one_waits.users 1 ≡ waiting) × (one_waits.pool.free_list ≡ [])
unfolding steps
one_waits-run = (refl, refl)

handed_on-run : handed_on.users 1 ≡ holding (some 5)
unfolding steps
handed_on-run = refl

-- The connection is with the first thread, so the second is refused at a limit of two, and gives the
-- NULL back, which the third is given.
abbrev refuses : Attempt
refuses = record { address = 9; result = 1 }

abbrev first_asks : System
first_asks = record (started 2 5) { users = update (started 2 5).users 0 asking }

abbrev first_leased : System
first_leased = after_get first_asks 0 (get_section first_asks.pool refuses)

abbrev second_asks : System
second_asks = record first_leased { users = update first_leased.users 1 asking }

abbrev second_refused : System
second_refused = after_get second_asks 1 (get_section second_asks.pool refuses)

abbrev null_listed : System
null_listed = record second_refused {
  pool = rel_section second_refused.pool none;
  users = update (woken_at second_refused 2) 1 outside;
}

nobody_waits : (l : ℕ) → second_refused.users l ≡ waiting → ⊥
unfolding steps
nobody_waits l e = ground arith

null_listed-reached : Reach 2 null_listed
unfolding steps
null_listed-reached =
    later
      (later
        (later (later (later (start 5) (System.ask 0 refl)) (System.get 0 refuses (inl refl) refl))
          (System.ask 1 refl))
        (System.get 1 refuses (inl refl) refl))
      (System.rel 1 2 none refl (inr nobody_waits))

null_listed-run : null_listed.pool.free_list ≡ none ∷ []
unfolding steps
null_listed-run = refl

null_listed-holds : null_listed.users 0 ≡ holding (some 5)
unfolding steps
null_listed-holds = refl

held_alone_example :
    (null_listed.users 1 ≡ holding (some 5) → ◌≡◌ {A = ℕ} 0 1)
    × (is_listed (some 5) null_listed.pool.free_list ≡ false)
held_alone_example =
    held_alone 2 null_listed (omega arith) null_listed-reached 0 1 5 null_listed-holds
