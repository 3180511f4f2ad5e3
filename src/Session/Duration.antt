-- ===== src/Session/Duration.antt =====
-- `format_session_duration` (session_manager.cpp): the numbers that it prints, with their units.
use zero_trust_secure_sessio.Common.{
  ℕ, ◌+◌, ◌-◌, ◌*◌, ◌/◌, ◌%◌, ◌≤◌, ◌<◌, arith, ltb, if◌then◌else◌, seconds,
}

-- The three formats "{}s", "{}m {}s" and "{}h {}m".
pub data Duration : Type 0 where
  in_seconds : ℕ → Duration
  in_minutes in_hours : ℕ → ℕ → Duration

-- `start` is not after `end`, which every caller of a session's times meets.
unfoldable pub format_session_duration : ℕ → ℕ → Duration
format_session_duration start end =
    let count = (end - start) / seconds 1 in
    if ltb count 60
    then in_seconds count
    else if ltb count 3600
    then in_minutes (count / 60) (count % 60)
    else in_hours (count / 3600) (count % 3600 / 60)

abbrev pub total_seconds : Duration → ℕ
total_seconds (in_seconds s) = s
total_seconds (in_minutes m s) = m * 60 + s
total_seconds (in_hours h m) = h * 3600 + m * 60

abbrev pub IsNormal : Duration → Type 0
IsNormal (in_seconds s) = s < 60
IsNormal (in_minutes m s) = (1 ≤ m) × (m < 60) × (s < 60)
IsNormal (in_hours h m) = (1 ≤ h) × (m < 60)

-- Seconds are printed below an hour, and only minutes from there on.
abbrev pub precision : Duration → ℕ
precision (in_seconds s) = 1
precision (in_minutes m s) = 1
precision (in_hours h m) = 60

-- What is printed for an elapsed time that is not negative is in range for its unit, and is the
-- elapsed time to the second below an hour and to the minute from there on, rounded down.
pub format_session_duration_lem :
    (start end : ℕ)
    → start ≤ end
    → let d = format_session_duration start end in
      IsNormal d
      × (start + seconds (total_seconds d) ≤ end)
      × (end < start + seconds (total_seconds d + precision d))
unfolding format_session_duration
format_session_duration_lem start end le = ground arith
