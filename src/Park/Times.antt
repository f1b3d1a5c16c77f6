-- ===== src/Park/Times.antt =====
-- crates/ignis/src/php/park.rs: the arithmetic of timeouts and sleeps.
use ignis.Shared.{
  ℕ, zero, suc, ◌+◌, ◌-◌, ◌*◌, ◌/◌, ◌≤◌, ◌<◌, min, ◌≡◌, ◌⊎◌, Bool, false, Option, none, some, arith,
  ltb, if◌then◌else◌, ℤ, pos, negsuc, i64_max, i32_max, u64_mod, saturating_add, saturating_mul,
  quotient, clamp_from_zero,
}

-- `timespec`; both fields are `i64`.
pub record Timespec : Type 0 where
  pub tv_sec : ℤ
  pub tv_nsec : ℤ

unfoldable pub milliseconds_ceil : (seconds sub_second : ℤ) → (units_per_millisecond : ℕ) → ℕ
milliseconds_ceil seconds sub_second units =
    let whole = saturating_mul seconds 1000 in
    let remainder = quotient (saturating_add sub_second (pos (units - 1))) units in
    clamp_from_zero (saturating_add whole remainder) i32_max

unfoldable pub ms_ceil : Timespec → ℕ
unfolding milliseconds_ceil
ms_ceil ts = milliseconds_ceil ts.tv_sec ts.tv_nsec 1000000

-- `u64` arithmetic saturates at its greatest value.
microseconds : ℤ → ℤ → Option ℕ
microseconds (pos s) (pos n) =
    if ltb n 1000000000
    then some (min (min (s * 1000000) (u64_mod - 1) + n / 1000) (u64_mod - 1))
    else none
microseconds _ _ = none

unfoldable pub microseconds_of : Timespec → Option ℕ
unfolding microseconds
microseconds_of req = microseconds req.tv_sec req.tv_nsec

abbrev is_positive : ℤ → Bool
is_positive (pos n) = ltb 0 n
is_positive (negsuc n) = false

-- `remaining.tv_sec.max(0)` and one more for a part of a second.
rounded_up : Timespec → ℕ
rounded_up remaining =
    let seconds = pos (clamp_from_zero remaining.tv_sec i64_max) in
    clamp_from_zero
      (if is_positive remaining.tv_nsec then saturating_add seconds (pos 1) else seconds) 4294967295

unfoldable pub unslept_seconds : (syscall_result : ℤ) → Timespec → ℕ
unfolding rounded_up
unslept_seconds (pos zero) remaining = 0
unslept_seconds (pos (suc n)) remaining = rounded_up remaining
unslept_seconds (negsuc n) remaining = rounded_up remaining

abbrev pub interval : ℕ → ℕ → Timespec
interval s n = record { tv_sec = pos s; tv_nsec = pos n }

-- For a timeout of `i64` seconds that is not negative and less than a second of nanoseconds: the
-- milliseconds fit a `c_int`, they cover the timeout or are the longest wait that a `c_int` can
-- express, and they are less than one millisecond longer than the timeout.
pub ms_ceil-least :
    (s n : ℕ)
    → s ≤ i64_max
    → n < 1000000000
    → let ms = ms_ceil (interval s n) in
      (ms ≤ i32_max)
      × ((s * 1000000000 + n ≤ ms * 1000000) ⊎ (ms ≡ i32_max))
      × (ms * 1000000 < s * 1000000000 + n + 1000000)
unfolding ms_ceil milliseconds_ceil
ms_ceil-least s n l m = omega arith

-- For an interval of `i64` seconds that is not negative and less than a second of nanoseconds: a
-- sleep of it is its microseconds rounded down, or the greatest `u64` where they do not fit; and
-- where a sleep was cut short and this is what remains, the seconds reported cover it, or are the
-- greatest that the type can express, and are less than one second more.
pub sleep_rounding :
    (s n rc : ℕ)
    → s ≤ i64_max
    → n < 1000000000
    → (microseconds_of (interval s n) ≡ some (min (s * 1000000 + n / 1000) (u64_mod - 1)))
      × ((s * 1000000000 + n ≤ unslept_seconds (negsuc rc) (interval s n) * 1000000000)
          ⊎ (unslept_seconds (negsuc rc) (interval s n) ≡ 4294967295))
      × (unslept_seconds (negsuc rc) (interval s n) * 1000000000 < s * 1000000000 + n + 1000000000)
unfolding microseconds_of microseconds unslept_seconds rounded_up
sleep_rounding s n rc l m = (ground arith, ground arith, ground arith)
