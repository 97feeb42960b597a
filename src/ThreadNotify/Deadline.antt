-- ===== src/ThreadNotify/Deadline.antt =====
-- Where the deadline of `WaitTime` is wrong.
use cpp_project.Base.{ℕ, ◌+◌, ◌*◌, ◌/◌, ◌%◌, ◌≡◌, ◌≤◌, ◌<◌, arith}
use cpp_project.ThreadNotify.{Timespec, wait_until}

-- A wait of `k` seconds, at a time whose nanoseconds leave room for `k` more, ends in the same second
-- and no more than `k` nanoseconds later.
wait_until_seconds :
    (now : Timespec) (k : ℕ)
    → now.tv_nsec + k < 1000000000
    → ((wait_until now (k * 1000)).tv_sec ≡ now.tv_sec)
      × ((wait_until now (k * 1000)).tv_nsec ≤ now.tv_nsec + k)
unfolding wait_until
wait_until_seconds now k h = (omega arith, omega arith)

-- If the microseconds of the deadline pass the end of the second, its nanoseconds are out of the range
-- that a `timespec` has, though its second is carried.
wait_until_carry :
    (now : Timespec) (ms : ℕ)
    → 1000000 ≤ (now.tv_nsec + ms / 1000) / 1000 + 1000 * (ms % 1000)
    → (now.tv_sec < (wait_until now ms).tv_sec) × (1000000000 ≤ (wait_until now ms).tv_nsec)
unfolding wait_until
wait_until_carry now ms h = (omega arith, omega arith)
