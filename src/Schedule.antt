-- ===== src/Schedule.antt =====
-- services/schedule.py: whether the present instant lies in a time window of the schedule, or in an
-- override, and until when access is authorised. Two datetimes with the same `tzinfo` compare by
-- their wall clocks, so the test `start <= local_now < end` is on `WallTime`.
pub mod Windows
use verigence_security.Common.{
  ℕ, ◌+◌, ◌*◌, ◌-◌, ◌/◌, ◌%◌, Bool, ◌&&◌, List, [], ◌∷◌, Option, none, some, Text, ltb, leb, ◌==◌,
  if◌then◌else◌,
}
use verigence_security.Core.Types.{Instant, WallTime}
use verigence_security.Core.Errors.{
  overflow_error, zone_not_found, access_schedule_missing, access_outside_allowed_time,
}
use verigence_security.Core.Result.{Result, ok, err, deny, ◌>>=◌}
use verigence_security.Platform.Zones.{Zone, Zones}

-- The times of day are microseconds since midnight.
pub record ScheduleWindow : Type 0 where
  pub iso_day_of_week : ℕ
  pub start_local_time : ℕ
  pub end_local_time : ℕ
  pub crosses_midnight : Bool

pub record ScheduleDecision : Type 0 where
  pub local_time : WallTime
  pub authorized_until : Instant

-- A date is counted from 0001-01-01, a Monday.
abbrev pub day_length : ℕ
day_length = 86400000000

abbrev pub date_of : WallTime → ℕ
date_of w = w / day_length

abbrev pub iso_weekday : ℕ → ℕ
iso_weekday day = day % 7 + 1

abbrev pub window_start : ℕ → ScheduleWindow → WallTime
window_start day w = day * day_length + w.start_local_time

abbrev pub window_end : ℕ → ScheduleWindow → WallTime
window_end day w = (if w.crosses_midnight then day + 1 else day) * day_length + w.end_local_time

-- The window is one of that day's, and the clock stands inside it.
abbrev pub is_open : WallTime → ℕ → ScheduleWindow → Bool
is_open local_now day w =
    w.iso_day_of_week == iso_weekday day
    && (leb (window_start day w) local_now && ltb local_now (window_end day w))

-- The inner loop: the end of the first open window.
first_open : WallTime → ℕ → List ScheduleWindow → Option WallTime
first_open local_now day [] = none
first_open local_now day (w ∷ ws) =
    let rest = first_open local_now day ws in
    if is_open local_now day w then some (window_end day w) else rest

-- The outer loop, over today and yesterday.
search_days : WallTime → List ℕ → List ScheduleWindow → Option WallTime
unfolding first_open
search_days local_now [] ws = none
search_days local_now (day ∷ days) ws =
    let rest = search_days local_now days ws in
    elim (first_open local_now day ws) [ some e ↦ some e | none ↦ rest ]

-- `[local_now.date(), local_now.date() - timedelta(days=1)]`; no date lies before the first.
candidate_days : WallTime → Result (List ℕ)
candidate_days local_now =
    let today = date_of local_now in
    if today == 0 then err overflow_error else ok (today ∷ (today - 1) ∷ [])

abbrev pub find_zone : Zones → Text → Result Zone
find_zone zones name = elim (zones name) [ none ↦ err zone_not_found | some z ↦ ok z ]

-- The answer of the loops, with the end of the window carried to UTC.
abbrev pub decide_window : Zone → WallTime → Option WallTime → Result ScheduleDecision
decide_window z local_now none = deny access_outside_allowed_time
decide_window z local_now (some e) =
    ok (record { local_time = local_now; authorized_until = z.to_utc e })

by_windows : Zones → Instant → Text → List ScheduleWindow → Result ScheduleDecision
unfolding search_days candidate_days
by_windows zones now timezone_iana [] = deny access_schedule_missing
by_windows zones now timezone_iana (w ∷ ws) = do
  z ← find_zone zones timezone_iana
  let local_now = z.to_local now
  days ← candidate_days local_now
  decide_window z local_now (search_days local_now days (w ∷ ws))

by_override : Zones → Instant → Text → Instant → Result ScheduleDecision
by_override zones now timezone_iana until = do
  z ← find_zone zones timezone_iana
  ok (record { local_time = z.to_local now; authorized_until = until })

-- `if override_until_utc and override_until_utc > now_utc`
unfoldable pub evaluate_schedule :
    Zones → Instant → Text → List ScheduleWindow → Option Instant → Result ScheduleDecision
unfolding by_windows by_override
evaluate_schedule zones now timezone_iana windows none = by_windows zones now timezone_iana windows
evaluate_schedule zones now timezone_iana windows (some until) =
    if ltb now until
    then by_override zones now timezone_iana until
    else by_windows zones now timezone_iana windows
