-- ===== src/Agent/Schedules/Calendar.antt =====
-- feishu/agent/scheduled.py: `Schedule` and `_calendar_instant`. Times are whole seconds from 1970 on.
use open_feishu.Common.{
  ℕ, zero, suc, ◌+◌, ◌-◌, ◌*◌, ◌/◌, ◌%◌, String, Bool, true, false, ◌&&◌, ◌||◌, Option, none, some,
  List, [], ◌∷◌, Outcome, ok, err, ltb, leb, ◌==◌, string_eq, nat_eq, if◌then◌else◌,
}

-- The exceptions that the stores raise: ValueError, PermissionError, `ScheduledRunConflict`,
-- `sqlite3.IntegrityError`, `ZoneInfoNotFoundError` and OverflowError.
pub data Failure : Type 0 where
  value_error permission_error run_conflict integrity_error zone_not_found overflow_error : Failure

-- A `ZoneInfo`: the instant of a local time that the clocks of the zone show, the first one where
-- they show it twice, and the local time at an instant. Local times are seconds too.
pub record Zone : Type 0 where
  pub to_utc : ℕ → ℕ
  pub to_local : ℕ → ℕ

abbrev pub Zones : Type 0
Zones = String → Option Zone

pub record Schedule : Type 0 where
  pub kind : String
  pub run_at : Option ℕ
  pub seconds : Option ℕ
  pub anchor_at : Option ℕ
  pub hour : Option ℕ
  pub minute : Option ℕ
  pub weekdays : List ℕ

-- 9999-12-31T23:59:59
abbrev pub last_instant : ℕ
last_instant = 253402300799

-- `_instant` raises nothing.
abbrev pub is_instant : Option ℕ → Bool
is_instant none = false
is_instant (some t) = leb t last_instant

abbrev pub is_none : Option ℕ → Bool
is_none none = true
is_none (some _) = false

abbrev pub below : ℕ → Option ℕ → Bool
below n none = false
below n (some k) = ltb k n

abbrev pub no_weekdays : List ℕ → Bool
no_weekdays [] = true
no_weekdays _ = false

unfoldable pub are_weekdays : List ℕ → Bool
are_weekdays [] = true
are_weekdays (d ∷ ds) = leb d 6 && are_weekdays ds

abbrev pub no_calendar : Schedule → Bool
no_calendar s = is_none s.hour && (is_none s.minute && no_weekdays s.weekdays)

abbrev pub is_interval : Option ℕ → Bool
is_interval none = false
is_interval (some n) = leb 60 n

-- `__post_init__` raises nothing.
unfoldable pub post_init : Schedule → Bool
post_init s =
    if s.kind == "once"
    then is_instant s.run_at && (is_none s.seconds && (is_none s.anchor_at && no_calendar s))
    else if s.kind == "interval"
    then is_interval s.seconds && (is_instant s.anchor_at && (is_none s.run_at && no_calendar s))
    else if s.kind == "calendar"
    then below 24 s.hour
      && (below 60 s.minute
          && (are_weekdays s.weekdays
              && (is_none s.run_at && (is_none s.seconds && is_none s.anchor_at))))
    else false

unfoldable pub made : Schedule → Option Schedule
made s = if post_init s then some s else none

unfoldable pub once : ℕ → Option Schedule
once run_at = made record {
  kind = "once";
  run_at = some run_at;
  seconds = none;
  anchor_at = none;
  hour = none;
  minute = none;
  weekdays = [];
}

unfoldable pub interval : ℕ → ℕ → Option Schedule
interval seconds anchor_at = made record {
  kind = "interval";
  run_at = none;
  seconds = some seconds;
  anchor_at = some anchor_at;
  hour = none;
  minute = none;
  weekdays = [];
}

unfoldable pub has_day : ℕ → List ℕ → Bool
has_day d [] = false
has_day d (e ∷ es) = (e == d) || has_day d es

unfoldable pub insert_day : ℕ → List ℕ → List ℕ
insert_day d [] = d ∷ []
insert_day d (e ∷ es) = let rest = insert_day d es in if leb d e then d ∷ e ∷ es else e ∷ rest

-- `tuple(sorted(set(weekdays)))`
unfoldable pub sorted_days : List ℕ → List ℕ
sorted_days [] = []
sorted_days (d ∷ ds) = let rest = sorted_days ds in if has_day d ds then rest else insert_day d rest

unfoldable pub calendar : ℕ → ℕ → List ℕ → Option Schedule
calendar hour minute weekdays = made record {
  kind = "calendar";
  run_at = none;
  seconds = none;
  anchor_at = none;
  hour = some hour;
  minute = some minute;
  weekdays = sorted_days weekdays;
}

-- `date.weekday()` of the day with a number: day 0 is Thursday 1970-01-01.
abbrev pub weekday : ℕ → ℕ
weekday day = (day + 3) % 7

-- The loop of `_calendar_instant` at a local time, with some rounds to go.
unfoldable pub first_valid : Zone → ℕ → ℕ → Outcome Failure ℕ
first_valid zone zero candidate = err value_error
first_valid zone (suc left) candidate =
    let later = first_valid zone left (candidate + 60) in
    if ltb last_instant candidate
    then err overflow_error
    else if zone.to_local (zone.to_utc candidate) == candidate
    then ok (zone.to_utc candidate)
    else later

abbrev pub minutes_of_search : ℕ
minutes_of_search = 1441

unfoldable pub calendar_instant : Zone → ℕ → ℕ → ℕ → Outcome Failure ℕ
calendar_instant zone day hour minute =
    first_valid zone minutes_of_search (day * 86400 + hour * 3600 + minute * 60)

-- The day is one of the schedule's.
abbrev pub is_on : List ℕ → ℕ → Bool
is_on weekdays day = no_weekdays weekdays || has_day (weekday day) weekdays

abbrev pub later_than :
    ℕ → Outcome Failure ℕ → Outcome Failure (Option ℕ) → Outcome Failure (Option ℕ)
later_than after (err e) rest = err e
later_than after (ok candidate) rest = if ltb after candidate then ok (some candidate) else rest

-- The loop over the days in `next_after`, with some days to go.
unfoldable pub next_day : Zone → List ℕ → ℕ → ℕ → ℕ → ℕ → ℕ → Outcome Failure (Option ℕ)
next_day zone weekdays hour minute after zero day = err value_error
next_day zone weekdays hour minute after (suc left) day =
    let rest = next_day zone weekdays hour minute after left (day + 1) in
    if ltb last_instant (day * 86400)
    then err overflow_error
    else if is_on weekdays day
    then later_than after (calendar_instant zone day hour minute) rest
    else rest

unfoldable pub next_once : Option ℕ → ℕ → Outcome Failure (Option ℕ)
next_once none after = err value_error
next_once (some run_at) after = ok (if ltb after run_at then some run_at else none)

-- `max(0, math.floor((after - anchor) / seconds) + 1)`
unfoldable pub rounds_after : ℕ → ℕ → ℕ → ℕ
rounds_after seconds anchor after = if ltb after anchor then 0 else (after - anchor) / seconds + 1

unfoldable pub next_interval : Option ℕ → Option ℕ → ℕ → Outcome Failure (Option ℕ)
next_interval (some seconds) (some anchor) after =
    let next_at = anchor + rounds_after seconds anchor after * seconds in
    ok (if leb next_at last_instant then some next_at else none)
next_interval _ _ after = err value_error

unfoldable pub next_calendar :
    Zone → Schedule → Option ℕ → Option ℕ → ℕ → Outcome Failure (Option ℕ)
next_calendar zone s (some hour) (some minute) after =
    next_day zone s.weekdays hour minute after 9 (zone.to_local after / 86400)
next_calendar zone s _ _ after = err value_error

unfoldable pub next_in : Zone → Schedule → ℕ → Outcome Failure (Option ℕ)
next_in zone s after =
    if s.kind == "once"
    then next_once s.run_at after
    else if s.kind == "interval"
    then next_interval s.seconds s.anchor_at after
    else next_calendar zone s s.hour s.minute after

unfoldable pub next_after : Zones → Schedule → ℕ → String → Outcome Failure (Option ℕ)
next_after zones s after zone =
    if ltb last_instant after
    then err value_error
    else elim (zones zone) [ none ↦ err zone_not_found | some z ↦ next_in z s after ]
