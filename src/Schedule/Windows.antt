-- ===== src/Schedule/Windows.antt =====
-- When `evaluate_schedule` grants access, and until when.
use mathlib.Core.Path.{subst}
use verigence_security.Common.{
  ℕ, ◌+◌, ◌*◌, ◌-◌, ◌≤◌, ◌<◌, ◌≡◌, refl, sym, ◌∙◌, ap, ◌⊎◌, inl, inr, true, List, [], ◌∷◌, Option,
  none, some, Text, ltb, arith, Among, Bool-cases, Option-cases,
}
use verigence_security.Core.Types.{Instant, WallTime}
use verigence_security.Core.Result.{ok, >>=-eq-ok, >>=_ok, ok-injective}
use verigence_security.Platform.Zones.{Zone, Zones}
use verigence_security.Schedule.{
  ScheduleWindow, ScheduleDecision, day_length, date_of, iso_weekday, window_start, window_end,
  is_open, first_open, search_days, candidate_days, decide_window, find_zone, by_windows,
  by_override, evaluate_schedule,
}

-- A window of the list is open on the local clock, as the window of some date, and closes at `e`.
pub record InWindow (local_now : WallTime) (ws : List ScheduleWindow) (e : WallTime) : Type 0 where
  pub day : ℕ
  pub window : ScheduleWindow
  pub listed : Among window ws
  pub weekday : window.iso_day_of_week ≡ iso_weekday day
  pub started : window_start day window ≤ local_now
  pub not_ended : local_now < window_end day window
  pub closes : e ≡ window_end day window

InWindow-cons :
    (l : WallTime) (w : ScheduleWindow) (ws : List ScheduleWindow) (e : WallTime)
    → InWindow l ws e
    → InWindow l (w ∷ ws) e
InWindow-cons l w ws e k = record {
  day = k.day;
  window = k.window;
  listed = Among.there k.listed;
  weekday = k.weekday;
  started = k.started;
  not_ended = k.not_ended;
  closes = k.closes;
}

first_open_sound :
    (l : WallTime) (day : ℕ) (ws : List ScheduleWindow) (e : WallTime)
    → first_open l day ws ≡ some e
    → InWindow l ws e
unfolding first_open
first_open_sound l day [] e h = cc
first_open_sound l day (w ∷ ws) e h = elim (Bool-cases (is_open l day w)) [
  | inl t ↦ record {
    day = day;
    window = w;
    listed = Among.here refl;
    weekday = ground arith;
    started = ground arith;
    not_ended = ground arith;
    closes = ground arith;
  }
  | inr f ↦ InWindow-cons l w ws e (first_open_sound l day ws e (rw f at h))
]

search_days_sound :
    (l : WallTime) (days : List ℕ) (ws : List ScheduleWindow) (e : WallTime)
    → search_days l days ws ≡ some e
    → InWindow l ws e
unfolding search_days
search_days_sound l [] ws e h = cc
search_days_sound l (day ∷ days) ws e h = elim (Option-cases (first_open l day ws)) [
  | inl n ↦ search_days_sound l days ws e (rw (n, search_days) at h)
  | inr (x, s) ↦ first_open_sound l day ws e (s ∙ rw (s, search_days) at h)
]

first_open_complete :
    (l : WallTime) (day : ℕ) (ws : List ScheduleWindow) (w : ScheduleWindow)
    → Among w ws
    → is_open l day w ≡ true
    → (e : WallTime) × (first_open l day ws ≡ some e)
unfolding first_open
first_open_complete l day [] w a t = elim a [ ]
first_open_complete l day (v ∷ ws) w (Among.here e) t = (window_end day v, rw (← e) (rw t))
first_open_complete l day (v ∷ ws) w (Among.there a) t =
    let (e, h) = first_open_complete l day ws w a t in
    elim (Bool-cases (is_open l day v)) [ inl o ↦ (window_end day v, rw o) | inr c ↦ (e, rw c h) ]

search_days_complete :
    (l : WallTime) (days : List ℕ) (ws : List ScheduleWindow) (day : ℕ) (w : ScheduleWindow)
    → Among day days
    → Among w ws
    → is_open l day w ≡ true
    → (e : WallTime) × (search_days l days ws ≡ some e)
unfolding search_days
search_days_complete l [] ws day w a b t = elim a [ ]
search_days_complete l (d ∷ days) ws day w (Among.here q) b t =
    let (e, h) = first_open_complete l day ws w b t in (e, rw (← q) (rw (h, search_days)))
search_days_complete l (d ∷ days) ws day w (Among.there a) b t =
    let (e, h) = search_days_complete l days ws day w a b t in
    elim (Option-cases (first_open l d ws)) [
      | inl n ↦ (e, rw (n, search_days) h)
      | inr (x, s) ↦ (x, rw (s, search_days))
    ]

decide-candidates :
    (z : Zone) (l : WallTime) (ws : List ScheduleWindow) (o : Option WallTime)
    (dec : ScheduleDecision)
    → decide_window z l o ≡ ok dec
    → (e : WallTime) × (o ≡ some e) × (dec.local_time ≡ l) × (dec.authorized_until ≡ z.to_utc e)
decide-candidates z l ws none dec h = cc
decide-candidates z l ws (some e) dec h =
    let q = ok-injective h in
    (
      e,
      refl,
      ap (λ (r : ScheduleDecision). r.local_time) (sym q),
      ap (λ (r : ScheduleDecision). r.authorized_until) (sym q),
    )

-- How access was granted by the clock: inside a window, until its end, in the zone of the location.
pub record ByWindow (zones : Zones) (now : Instant) (name : Text) (ws : List ScheduleWindow)
    (dec : ScheduleDecision) : Type 0 where
  pub zone : Zone
  pub known : zones name ≡ some zone
  pub closing : WallTime
  pub inside : InWindow (zone.to_local now) ws closing
  pub until_closing : dec.authorized_until ≡ zone.to_utc closing

-- How access was granted by an override: it ends in the future, and access ends with it.
pub record ByOverride (now : Instant) (override : Option Instant) (dec : ScheduleDecision)
    : Type 0 where
  pub until : Instant
  pub given : override ≡ some until
  pub in_force : now < until
  pub until_override : dec.authorized_until ≡ until

find_zone-eq-ok :
    (zones : Zones) (name : Text) (z : Zone) → find_zone zones name ≡ ok z → zones name ≡ some z
find_zone-eq-ok zones name z h = ground arith

find_zone_known :
    (zones : Zones) (name : Text) (z : Zone) → zones name ≡ some z → find_zone zones name ≡ ok z
find_zone_known zones name z h = ground arith

by_windows_sound :
    (zones : Zones) (now : Instant) (name : Text) (ws : List ScheduleWindow)
    (dec : ScheduleDecision)
    → by_windows zones now name ws ≡ ok dec
    → ByWindow zones now name ws dec
unfolding by_windows
by_windows_sound zones now name [] dec h = cc
by_windows_sound zones now name (w ∷ ws) dec h =
    let (z, ez, h1) = >>=-eq-ok (find_zone zones name) _ h in
    let (days, ed, h2) = >>=-eq-ok (candidate_days (z.to_local now)) _ h1 in
    let (e, es, el, eu) =
      decide-candidates z (z.to_local now) (w ∷ ws) (search_days (z.to_local now) days (w ∷ ws)) dec
        h2 in
    record {
      zone = z;
      known = find_zone-eq-ok zones name z ez;
      closing = e;
      inside = search_days_sound (z.to_local now) days (w ∷ ws) e es;
      until_closing = eu;
    }

by_override_sound :
    (zones : Zones) (now : Instant) (name : Text) (until : Instant) (dec : ScheduleDecision)
    → by_override zones now name until ≡ ok dec
    → dec.authorized_until ≡ until
unfolding by_override
by_override_sound zones now name until dec h =
    let (z, ez, h1) = >>=-eq-ok (find_zone zones name) _ h in
    ap (λ (r : ScheduleDecision). r.authorized_until) (sym (ok-injective h1))

-- `evaluate_schedule` grants access only inside an override that is still in force, or inside a
-- window of the schedule on the clock of the location, and until the end of it.
pub evaluate_schedule_sound :
    (zones : Zones) (now : Instant) (name : Text) (ws : List ScheduleWindow)
    (override : Option Instant) (dec : ScheduleDecision)
    → evaluate_schedule zones now name ws override ≡ ok dec
    → ByOverride now override dec ⊎ ByWindow zones now name ws dec
unfolding evaluate_schedule
evaluate_schedule_sound zones now name ws none dec h =
    inr (by_windows_sound zones now name ws dec h)
evaluate_schedule_sound zones now name ws (some until) dec h = elim (Bool-cases (ltb now until)) [
  | inl t ↦ inl (record {
    until = until;
    given = refl;
    in_force = ground arith;
    until_override = by_override_sound zones now name until dec (rw t at h);
  })
  | inr f ↦ inr (by_windows_sound zones now name ws dec (rw f at h))
]

-- The times of day of a window lie within a day.
abbrev pub IsTimed : ScheduleWindow → Type 0
IsTimed w = (w.start_local_time < day_length) × (w.end_local_time < day_length)

recent_day :
    (l day start end : ℕ)
    → start < day_length
    → end < day_length
    → day * day_length + start ≤ l
    → l < (day + 1) * day_length + end
    → 0 < date_of l
    → (day ≡ date_of l) ⊎ (day ≡ date_of l - 1)
recent_day l day start end hs he h k p = omega arith

open_day_recent :
    (l day : ℕ) (w : ScheduleWindow)
    → IsTimed w
    → is_open l day w ≡ true
    → 0 < date_of l
    → (day ≡ date_of l) ⊎ (day ≡ date_of l - 1)
open_day_recent l day w t h p =
    recent_day l day w.start_local_time w.end_local_time t.0 t.1 (ground arith) (ground arith) p

candidate_days_lem :
    (l : WallTime) → 0 < date_of l → candidate_days l ≡ ok (date_of l ∷ (date_of l - 1) ∷ [])
unfolding candidate_days
candidate_days_lem l p = ground arith

-- A window that is open as the window of any date at all opens access: looking at today and
-- yesterday is enough for windows whose times lie within a day.
pub evaluate_schedule_complete :
    (zones : Zones) (now : Instant) (name : Text) (ws : List ScheduleWindow) (z : Zone) (day : ℕ)
    (w : ScheduleWindow)
    → zones name ≡ some z
    → 0 < date_of (z.to_local now)
    → Among w ws
    → IsTimed w
    → is_open (z.to_local now) day w ≡ true
    → (dec : ScheduleDecision) × (evaluate_schedule zones now name ws none ≡ ok dec)
unfolding evaluate_schedule by_windows
evaluate_schedule_complete zones now name [] z day w ez p a t o = elim a [ ]
evaluate_schedule_complete zones now name (v ∷ ws) z day w ez p a t o =
    let l = z.to_local now in
    let days = date_of l ∷ (date_of l - 1) ∷ [] in
    let (e, h) =
      search_days_complete l days (v ∷ ws) day w (recent (open_day_recent l day w t o p)) a o in
    (
      record { local_time = l; authorized_until = z.to_utc e },
      >>=_ok (find_zone zones name) _ (find_zone_known zones name z ez)
          (>>=_ok (candidate_days l) _ (candidate_days_lem l p) (ap (decide_window z l) h)),
    )
  where
    recent :
        (day ≡ date_of (z.to_local now)) ⊎ (day ≡ date_of (z.to_local now) - 1)
        → Among day (date_of (z.to_local now) ∷ (date_of (z.to_local now) - 1) ∷ [])
    recent (inl q) = Among.here q
    recent (inr q) = Among.there (Among.here q)

-- A zone in which a later wall-clock time, read with `fold=0`, is a later instant: no clock is ever
-- set back.
abbrev pub NeverSetBack : Zone → Type 0
NeverSetBack z = (i : Instant) (w : WallTime) → z.to_local i < w → i < z.to_utc w

-- In a zone whose clock is never set back, access is always granted until some time in the future.
pub evaluate_schedule_future :
    (zones : Zones) (now : Instant) (name : Text) (ws : List ScheduleWindow)
    (override : Option Instant) (dec : ScheduleDecision)
    → ((z : Zone) → zones name ≡ some z → NeverSetBack z)
    → evaluate_schedule zones now name ws override ≡ ok dec
    → now < dec.authorized_until
evaluate_schedule_future zones now name ws override dec steady h =
    elim (evaluate_schedule_sound zones now name ws override dec h) [
      | inl o ↦ omega (arith, o.in_force, o.until_override)
      | inr b ↦ omega (
        arith,
        b.until_closing,
        b.inside.closes,
        steady b.zone b.known now b.closing (omega (arith, b.inside.not_ended, b.inside.closes)),
      )
    ]

-- With `fold=0`, a wall-clock time that a zone shows more than once is read as the first of its
-- instants.
abbrev pub PicksFirst : Zone → Type 0
PicksFirst z = (i : Instant) → z.to_utc (z.to_local i) ≤ i

-- Where a clock was set back, access can be granted until a time that has already passed: when today's
-- first window is open by the clock, and the clock has shown the end of that window before, at the
-- latest now, then the call grants access, and the time up to which it does is not later than the
-- present. A wall-clock time is read as the first of its instants.
pub evaluate_schedule_past :
    (zones : Zones) (now earlier : Instant) (name : Text) (z : Zone) (w : ScheduleWindow)
    (ws : List ScheduleWindow)
    → zones name ≡ some z
    → PicksFirst z
    → 0 < date_of (z.to_local now)
    → is_open (z.to_local now) (date_of (z.to_local now)) w ≡ true
    → earlier ≤ now
    → z.to_local earlier ≡ window_end (date_of (z.to_local now)) w
    → (dec : ScheduleDecision) × (evaluate_schedule zones now name (w ∷ ws) none ≡ ok dec)
      × (dec.authorized_until ≤ now)
unfolding evaluate_schedule by_windows search_days first_open
evaluate_schedule_past zones now earlier name z w ws ez first p o before shown =
    let l = z.to_local now in
    let e = window_end (date_of l) w in
    let until : z.to_utc e ≤ earlier = subst (λ x. z.to_utc x ≤ earlier) shown (first earlier) in
    (
      record { local_time = l; authorized_until = z.to_utc e },
      >>=_ok (find_zone zones name) _ (find_zone_known zones name z ez)
          (>>=_ok (candidate_days l) _ (candidate_days_lem l p) (rw (o, search_days))),
      omega (arith, until, before),
    )
