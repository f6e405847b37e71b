-- ===== src/Agent/Schedules/Next.antt =====
-- What `Schedule.next_after` answers.
mod Days
use native.Mathlib.Nat.{mul-le-mul_right, div-lt_iff_lt-mul, lt-div-mul-add}
use open_feishu.Common.{
  ℕ, zero, suc, ◌+◌, ◌-◌, ◌*◌, ◌/◌, ◌≤◌, ◌<◌, ◌≡◌, refl, String, true, Option, none, some, List,
  arith, ltb, leb, ltb→lt, leb→le, leb_false→lt, ◌==◌, string_eq, nat_eq, Outcome, ok, err,
  Bool-cases, Option-cases, inl, inr,
}
use open_feishu.Agent.Schedules.Calendar.{
  Failure, Zone, Zones, Schedule, last_instant, is_interval, post_init, calendar_instant, is_on,
  later_than, next_day, next_once, rounds_after, next_interval, next_calendar, next_in, next_after,
}
use open_feishu.Agent.Schedules.Next.Days.{next_day-FirstDay}

-- The answer of a schedule after an instant: its first occurrence, or none if there is no more.
pub data IsAnswer (zone : Zone) (s : Schedule) (after : ℕ) (r : Option ℕ) : Type 0 where
  once_at :
      (t : ℕ)
      → r ≡ some t
      → (s.kind == "once") ≡ true
      → s.run_at ≡ some t
      → after < t
      → IsAnswer zone s after r
  once_over :
      (t : ℕ)
      → r ≡ none
      → (s.kind == "once") ≡ true
      → s.run_at ≡ some t
      → t ≤ after
      → IsAnswer zone s after r
  round_at :
      (seconds anchor n : ℕ)
      → r ≡ some (anchor + n * seconds)
      → (s.kind == "interval") ≡ true
      → s.seconds ≡ some seconds
      → s.anchor_at ≡ some anchor
      → after < anchor + n * seconds
      → ((m : ℕ) → after < anchor + m * seconds → n ≤ m)
      → IsAnswer zone s after r
  rounds_over :
      (seconds anchor : ℕ)
      → r ≡ none
      → (s.kind == "interval") ≡ true
      → s.seconds ≡ some seconds
      → s.anchor_at ≡ some anchor
      → ((m : ℕ) → after < anchor + m * seconds → last_instant < anchor + m * seconds)
      → IsAnswer zone s after r
  day_at :
      (hour minute day t : ℕ)
      → r ≡ some t
      → (s.kind == "calendar") ≡ true
      → s.hour ≡ some hour
      → s.minute ≡ some minute
      → is_on s.weekdays day ≡ true
      → calendar_instant zone day hour minute ≡ ok t
      → after < t
      → ((d : ℕ)
          → zone.to_local after / 86400 ≤ d
          → d < day
          → is_on s.weekdays d ≡ true
          → (u : ℕ) × (calendar_instant zone d hour minute ≡ ok u) × (u ≤ after))
      → IsAnswer zone s after r

module _ (seconds anchor after : ℕ) (positive : 0 < seconds) where
  rounds_after-lt : after < anchor + rounds_after seconds anchor after * seconds
  unfolding rounds_after
  rounds_after-lt = elim (Bool-cases (ltb after anchor)) [
    | inl e ↦ rw e (omega (arith, ltb→lt after anchor e))
    | inr e ↦ rw e (ground (arith, lt-div-mul-add {a = after - anchor} {b = seconds} positive))
  ]

  rounds_after-least :
      (m : ℕ) → after < anchor + m * seconds → rounds_after seconds anchor after ≤ m
  unfolding rounds_after
  rounds_after-least m h = elim (Bool-cases (ltb after anchor)) [
    | inl e ↦ rw e (omega arith)
    | inr e ↦ rw e (
        omega (
          arith,
          (div-lt_iff_lt-mul {k = seconds} {x = after - anchor} {y = m} positive).1 (ground arith),
        ))
  ]

next_once-IsAnswer :
    (zone : Zone) (s : Schedule) (after : ℕ) (r : Option ℕ)
    → (s.kind == "once") ≡ true
    → (at : Option ℕ) → s.run_at ≡ at
    → next_once at after ≡ ok r
    → IsAnswer zone s after r
unfolding next_once
next_once-IsAnswer zone s after r k none e h = cc
next_once-IsAnswer zone s after r k (some t) e h = elim (Bool-cases (ltb after t)) [
  | inl lt ↦ once_at t (ground arith) k e (ltb→lt after t lt)
  | inr ge ↦ once_over t (ground arith) k e (ground arith)
]

next_interval-IsAnswer :
    (zone : Zone) (s : Schedule) (after : ℕ) (r : Option ℕ)
    → (s.kind == "interval") ≡ true
    → (seconds anchor : Option ℕ) → is_interval seconds ≡ true
    → s.seconds ≡ seconds
    → s.anchor_at ≡ anchor
    → next_interval seconds anchor after ≡ ok r
    → IsAnswer zone s after r
unfolding next_interval
next_interval-IsAnswer zone s after r k (some seconds) (some anchor) i e f h =
    let positive : 0 < seconds = omega (arith, leb→le 60 seconds i) in
    let n = rounds_after seconds anchor after in
    let least = rounds_after-least seconds anchor after positive in
    elim (Bool-cases (leb (anchor + n * seconds) last_instant)) [
      | inl le ↦
          round_at seconds anchor n (ground arith) k e f
            (rounds_after-lt seconds anchor after positive) least
      | inr gt ↦ rounds_over seconds anchor (ground arith) k e f (λ m lt. omega (
        arith,
        least m lt,
        mul-le-mul_right seconds (least m lt),
        leb_false→lt (anchor + n * seconds) last_instant gt,
      ))
    ]
next_interval-IsAnswer zone s after r k (some seconds) none i e f h = cc
next_interval-IsAnswer zone s after r k none anchor i e f h = cc

next_calendar-IsAnswer :
    (zone : Zone) (s : Schedule) (after : ℕ) (r : Option ℕ) (hour minute : Option ℕ)
    → (s.kind == "calendar") ≡ true
    → s.hour ≡ hour
    → s.minute ≡ minute
    → next_calendar zone s hour minute after ≡ ok r
    → IsAnswer zone s after r
unfolding next_calendar
next_calendar-IsAnswer zone s after r (some hour) (some minute) k e f h =
    let first =
      next_day-FirstDay zone s.weekdays hour minute after 9 (zone.to_local after / 86400) r h in
    day_at hour minute first.day first.time first.answer k e f first.is_named first.instant
      first.later first.passed
next_calendar-IsAnswer zone s after r (some hour) none k e f h = cc
next_calendar-IsAnswer zone s after r none minute k e f h = cc

next_in-IsAnswer :
    (zone : Zone) (s : Schedule) (after : ℕ) (r : Option ℕ)
    → post_init s ≡ true
    → next_in zone s after ≡ ok r
    → IsAnswer zone s after r
unfolding post_init next_in
next_in-IsAnswer zone s after r p h = elim (Bool-cases (s.kind == "once")) [
  | inl e ↦ next_once-IsAnswer zone s after r e s.run_at refl (simp e at h)
  | inr e ↦ elim (Bool-cases (s.kind == "interval")) [
    | inl f ↦
        next_interval-IsAnswer zone s after r f s.seconds s.anchor_at (ground arith) refl refl
          (simp (e, f) at h)
    | inr f ↦
        next_calendar-IsAnswer zone s after r s.hour s.minute (ground arith) refl refl
          (simp (e, f) at h)
  ]
]

-- Whatever `next_after` returns is right: an answer is an occurrence of the schedule, it is
-- strictly later than the given instant, and no occurrence between them is passed over: none at
-- all of an "interval" schedule, and for a "calendar" one the time of no named day from the local
-- date on. It returns no occurrence where none is left that a date can express.
pub next_after-IsAnswer :
    (zones : Zones) (s : Schedule) (after : ℕ) (name : String) (r : Option ℕ)
    → post_init s ≡ true
    → next_after zones s after name ≡ ok r
    → (zone : Zone) × (zones name ≡ some zone) × IsAnswer zone s after r
unfolding next_after
next_after-IsAnswer zones s after name r p h = elim (Bool-cases (ltb last_instant after)) [
  | inl e ↦ ground arith
  | inr e ↦ elim (Option-cases (zones name)) [
    | inl none_is ↦ ground arith
    | inr (zone, is) ↦ (zone, is, next_in-IsAnswer zone s after r p (simp (e, is) at h))
  ]
]
