-- ===== src/Sys/Unix/Condvar/Deadline.antt =====
-- The deadlines of src/sys/unix/condvar.rs against the sum of now and the duration.
use pinned_sync.Base.{ℕ, ◌/◌, ◌%◌, ◌+◌, ◌*◌, ◌≤◌, ◌<◌, ◌≡◌, arith}
use Prim.Native.Nat.{min}
use pinned_sync.Sys.Unix.Condvar.Time.{
  Duration, Timespec, Timeval, time_max, giga, timespec_max, deadline, max_dur, clamp_dur,
  system_deadline,
}

abbrev pub nanos_of : Timespec → ℕ
nanos_of t = t.tv_sec * giga + t.tv_nsec

abbrev pub duration_nanos : Duration → ℕ
duration_nanos d = d.secs * giga + d.nanos

-- The deadline on a monotonic clock is now plus the duration, with its seconds cut to
-- `time_t::MAX`, or the latest time where that does not fit; it is a proper time. The duration and
-- the time now are proper ones.
pub deadline_is_sum :
    (dur : Duration) (now : Timespec)
    → dur.nanos < giga
    → now.tv_nsec < giga
    → now.tv_sec ≤ time_max
    → (nanos_of (deadline dur now)
        ≡ min (nanos_of now + min dur.secs time_max * giga + dur.nanos) (nanos_of timespec_max))
      × ((deadline dur now).tv_nsec < giga)
      × ((deadline dur now).tv_sec ≤ time_max)
unfolding deadline
deadline_is_sum dur now hd hn hs = (ground arith, ground arith, ground arith)

-- The deadline is never later than now plus `n` nanoseconds.
pub deadline_at_most :
    (n : ℕ) (now : Timespec)
    → now.tv_nsec < giga
    → nanos_of (deadline (record { secs = n / giga; nanos = n % giga }) now) ≤ nanos_of now + n
unfolding deadline
deadline_at_most n now h = ground arith

-- In system time the deadline is now plus the duration cut to 1000 years, and no sum overflows, as
-- long as the clock is a thousand years from its end.
system_deadline_is_sum :
    (dur : Duration) (now : Timeval)
    → dur.nanos < giga
    → now.tv_usec < 1_000_000
    → now.tv_sec + max_dur.secs < time_max
    → (nanos_of (system_deadline (clamp_dur dur) now)
        ≡ now.tv_sec * giga
          + now.tv_usec * 1000
          + min (duration_nanos dur) (duration_nanos max_dur))
      × ((system_deadline (clamp_dur dur) now).tv_nsec < giga)
unfolding clamp_dur system_deadline
system_deadline_is_sum dur now hd hu hs = (ground arith, ground arith)
