-- ===== src/SkipListTimer/MainTests.antt =====
-- main of SkipListTimer/main.cpp with six addresses, at the start of the clock.
use cpp_project.Base.{Distinct, ◌<◌, ℕ, ◌≡◌, refl, none, [], ◌∷◌, ok, arith}
use cpp_project.SkipListTimer.Node.{Slot, null}
use cpp_project.SkipListTimer.SkipList.{SkipList, create, random_level, count_levels}
use cpp_project.SkipListTimer.Clock.{getcurrent_time}
use cpp_project.SkipListTimer.Expire.{Call, main_start, expire_rounds}
use cpp_project.SkipListTimer.Represents.{Represents}
use cpp_project.SkipListTimer.Main.{Fits, all_calls, left_over, main_timers, main_rounds_lem}

abbrev cleared : ℕ → Slot
cleared _ = null

abbrev call_at : ℕ → Call
call_at p = record {
  fresh = p;
  raw = cleared;
  draws = 0 ∷ 20000 ∷ [];
  time = record { sec = 0; usec = 0 };
}

call-Fits : (p mesc : ℕ) → mesc < 40000 → Fits (call_at p) mesc 2
unfolding getcurrent_time random_level count_levels
call-Fits p mesc small = (λ i e. cc, omega (arith, small), refl)

six-Distinct : Distinct (1 ∷ 2 ∷ 3 ∷ 4 ∷ 5 ∷ 6 ∷ [])
six-Distinct = (
  (
    (λ e. omega (arith, e)),
    (
      (λ e. omega (arith, e)),
      ((λ e. omega (arith, e)), ((λ e. omega (arith, e)), ((λ e. omega (arith, e)), tt))),
    ),
  ),
  (
    (
      (λ e. omega (arith, e)),
      ((λ e. omega (arith, e)), ((λ e. omega (arith, e)), ((λ e. omega (arith, e)), tt))),
    ),
    (
      ((λ e. omega (arith, e)), ((λ e. omega (arith, e)), ((λ e. omega (arith, e)), tt))),
      (
        ((λ e. omega (arith, e)), ((λ e. omega (arith, e)), tt)),
        (((λ e. omega (arith, e)), tt), (tt, tt)),
      ),
    ),
  ),
)

main_rounds_lem_example :
    (s t : SkipList) × (main_start
        (create (λ _. none) 1 cleared)
        (call_at 2)
        (call_at 3)
        (call_at 4)
        (call_at 5)
        (call_at 6)
      ≡ ok s)
    × (expire_rounds (5000 ∷ 25000 ∷ []) s
        ≡ ok (
          t,
          all_calls
              (5000 ∷ 25000 ∷ [])
              (main_timers (call_at 2) (call_at 3) (call_at 4) (call_at 6) 2 2 2 2),
        ))
    × Represents t (
        left_over
          (5000 ∷ 25000 ∷ [])
          (main_timers (call_at 2) (call_at 3) (call_at 4) (call_at 6) 2 2 2 2))
main_rounds_lem_example =
    main_rounds_lem 1 cleared (call_at 2) (call_at 3) (call_at 4) (call_at 5) (call_at 6) 2 2 2 2 2
      (5000 ∷ 25000 ∷ []) six-Distinct (call-Fits 2 10100 (omega arith))
      (call-Fits 3 21040 (omega arith)) (call-Fits 4 32050 (omega arith))
      (call-Fits 5 22050 (omega arith)) (call-Fits 6 32850 (omega arith))
