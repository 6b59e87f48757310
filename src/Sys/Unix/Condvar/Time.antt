-- ===== src/Sys/Unix/Condvar/Time.antt =====
-- The times of src/sys/unix/condvar.rs. Seconds and nanoseconds are never negative here: a clock
-- counts from its start, and a duration has no sign.
use pinned_sync.Base.{
  ℕ, ◌+◌, ◌-◌, ◌*◌, ◌/◌, ◌%◌, ◌^◌, Bool, ◌||◌, ◌&&◌, Option, none, some, ltb, ◌==◌, if◌then◌else◌,
}

-- `std::time::Duration`, and what `as_secs` and `subsec_nanos` give.
pub record Duration : Type 0 where
  pub secs : ℕ
  pub nanos : ℕ

pub record Timespec : Type 0 where
  pub tv_sec : ℕ
  pub tv_nsec : ℕ

-- `libc::timeval`
pub record Timeval : Type 0 where
  pub tv_sec : ℕ
  pub tv_usec : ℕ

-- `<libc::time_t>::MAX` at 64 bits
abbrev pub time_max : ℕ
time_max = 2 ^ 63 - 1

abbrev pub giga : ℕ
giga = 1_000_000_000

abbrev pub timespec_max : Timespec
timespec_max = record { tv_sec = time_max; tv_nsec = giga - 1 }

unfoldable pub saturating_cast_to_time_t : ℕ → ℕ
saturating_cast_to_time_t value = if ltb time_max value then time_max else value

-- `time_t::checked_add`
abbrev checked_add : ℕ → ℕ → Option ℕ
checked_add a b = if ltb time_max (a + b) then none else some (a + b)

abbrev and_add : Option ℕ → ℕ → Option ℕ
and_add none b = none
and_add (some a) b = checked_add a b

abbrev timespec_or_max : Option ℕ → ℕ → Timespec
timespec_or_max none nsec = timespec_max
timespec_or_max (some s) nsec = record { tv_sec = s; tv_nsec = nsec }

-- The deadline of `wait_timeout` on systems with a monotonic clock; the first sum is of `u32`.
unfoldable pub deadline : Duration → Timespec → Timespec
unfolding saturating_cast_to_time_t
deadline dur now =
    let nsec = (dur.nanos + now.tv_nsec % 2 ^ 32) % 2 ^ 32 in
    let sec = and_add (checked_add (saturating_cast_to_time_t dur.secs) (nsec / giga)) now.tv_sec in
    timespec_or_max sec (nsec % giga)

-- 1000 years
abbrev pub max_dur : Duration
max_dur = record { secs = 1000 * 365 * 86400; nanos = 0 }

abbrev exceeds : Duration → Duration → Bool
exceeds a b = ltb b.secs a.secs || (a.secs == b.secs && ltb b.nanos a.nanos)

unfoldable pub clamp_dur : Duration → Duration
clamp_dur dur = if exceeds dur max_dur then max_dur else dur

-- The deadline on macOS, iOS and Android, in system time.
unfoldable pub system_deadline : Duration → Timeval → Timespec
unfolding saturating_cast_to_time_t
system_deadline dur sys_now =
    let nsec = dur.nanos + sys_now.tv_usec * 1000 in
    let extra = nsec / giga in
    let seconds = saturating_cast_to_time_t dur.secs in
    timespec_or_max (and_add (checked_add sys_now.tv_sec extra) seconds) (nsec % giga)
