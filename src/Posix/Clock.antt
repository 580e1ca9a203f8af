-- ===== src/Posix/Clock.antt =====
-- posix/threadpool.cpp: the times that are handed to the operating system.
use queued_thread_pool.Prelude.{ℕ, ◌+◌, ◌*◌, ◌/◌, ◌%◌, ◌≤◌, ◌<◌, ◌≡◌, leb, if◌then◌else◌, arith}

-- `struct timespec`
pub record Timespec : Type 0 where
  pub tv_sec : ℕ
  pub tv_nsec : ℕ

-- `wait(long timeout)` and `lock(unsigned long timeout)`: the clock's reading plus milliseconds.
pub deadline : Timespec → ℕ → Timespec
deadline now timeout = record {
  tv_sec = if leb 1000 millis then sec + 1 else sec;
  tv_nsec = millis % 1000 * 1000000;
}
  where
    sec : ℕ
    sec = now.tv_sec + timeout / 1000

    millis : ℕ
    millis = now.tv_nsec / 1000000 + timeout % 1000

-- `nsleep(secs, nanos)`, up to the call of nanosleep
pub nsleep_interval : ℕ → ℕ → Timespec
nsleep_interval secs nanos = record {
  tv_sec = secs + nanos / 1000000000;
  tv_nsec = nanos % 1000000000;
}

-- `sleep(millis, nanos)`
pub sleep_interval : ℕ → ℕ → Timespec
unfolding nsleep_interval
sleep_interval millis nanos = nsleep_interval (millis / 1000) (millis % 1000 * 1000000 + nanos)

abbrev pub nanoseconds : Timespec → ℕ
nanoseconds t = t.tv_sec * 1000000000 + t.tv_nsec

-- A valid clock reading plus a timeout gives a valid timespec (less than a second of nanoseconds),
-- which is never later than the exact time and less than a millisecond earlier.
pub deadline_exact :
    (now : Timespec) (timeout : ℕ)
    → now.tv_nsec < 1000000000
    → ((deadline now timeout).tv_nsec < 1000000000)
      × (nanoseconds (deadline now timeout) ≤ nanoseconds now + timeout * 1000000)
      × (nanoseconds now + timeout * 1000000 < nanoseconds (deadline now timeout) + 1000000)
unfolding deadline
deadline_exact now timeout h = ground arith

-- For every number of milliseconds and additional nanoseconds the interval is a valid timespec and
-- has exactly the length that was asked for.
pub sleep_interval_exact :
    (millis nanos : ℕ)
    → ((sleep_interval millis nanos).tv_nsec < 1000000000)
      × (nanoseconds (sleep_interval millis nanos) ≡ millis * 1000000 + nanos)
unfolding sleep_interval
sleep_interval_exact millis nanos = (omega arith, omega arith)
