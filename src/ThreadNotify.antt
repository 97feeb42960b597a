-- ===== src/ThreadNotify.antt =====
-- 线程池连接池/ThreadNotify.cpp: the time until which `WaitTime` waits. Calls of the mutex and the
-- condition are part of the pools' models.
pub mod Deadline
use cpp_project.Base.{ℕ, ◌+◌, ◌*◌, ◌/◌, ◌%◌}

-- `struct timespec`
pub record Timespec : Type 0 where
  pub tv_sec : ℕ
  pub tv_nsec : ℕ

-- `CThreadNotify::WaitTime`, from the time that `clock_gettime` gives to the time that is passed to
-- `pthread_cond_timedwait`. `us % 1000000` comes too late to be used.
unfoldable pub wait_until : Timespec → (ms : ℕ) → Timespec
wait_until now ms =
    let nsec = now.tv_nsec + ms / 1000 in
    let us = nsec / 1000 + 1000 * (ms % 1000) in
    record { tv_sec = now.tv_sec + us / 1000000; tv_nsec = us * 1000 }
