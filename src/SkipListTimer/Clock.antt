-- ===== src/SkipListTimer/Clock.antt =====
-- SkipListTimer/common.h: the clock of the timer, in 32 bits. The time of day is an argument.
use cpp_project.Base.{ℕ, ◌+◌, ◌*◌, ◌/◌, ◌%◌, ◌^◌, ◌≡◌, arith}

-- `gettimeofday` gives seconds and microseconds; the code reads the seconds only.
pub record TimeVal : Type 0 where
  pub sec : ℕ
  pub usec : ℕ

unfoldable pub getcurrent_time : TimeVal → ℕ
getcurrent_time tv = (tv.sec % 2 ^ 32 * 1000 % 2 ^ 32 + tv.sec / 1000) % 2 ^ 32

-- In a thousand seconds the clock gains a million and one: it is a millisecond ahead, whatever the
-- microseconds are.
getcurrent_time_gain :
    (sec usec usec' : ℕ)
    → getcurrent_time (record { sec = sec + 1000; usec = usec' })
      ≡ (getcurrent_time (record { sec = sec; usec = usec }) + 1_000_001) % 2 ^ 32
unfolding getcurrent_time
getcurrent_time_gain sec usec usec' = omega arith
