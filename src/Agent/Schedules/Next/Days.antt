-- ===== src/Agent/Schedules/Next/Days.antt =====
-- The loop over the days in `Schedule.next_after`.
use open_feishu.Common.{
  ℕ, zero, suc, ◌+◌, ◌*◌, ◌≤◌, ◌<◌, ◌≡◌, refl, true, Option, some, List, arith, ltb, ltb→lt, ◌==◌,
  string_eq, nat_eq, Outcome, ok, err, Bool-cases, inl, inr,
}
use open_feishu.Agent.Schedules.Calendar.{
  Failure, Zone, last_instant, calendar_instant, is_on, later_than, next_day,
}

module _ (zone : Zone) (weekdays : List ℕ) (hour minute after : ℕ) where
  -- The days before `stop` that the schedule names have their time no later than `after`.
  abbrev pub Passed : ℕ → ℕ → Type 0
  Passed start stop =
      (d : ℕ)
      → start ≤ d
      → d < stop
      → is_on weekdays d ≡ true
      → (u : ℕ) × (calendar_instant zone d hour minute ≡ ok u) × (u ≤ after)

  pub record FirstDay (start : ℕ) (r : Option ℕ) : Type 0 where
    pub day : ℕ
    pub time : ℕ
    pub answer : r ≡ some time
    pub is_named : is_on weekdays day ≡ true
    pub instant : calendar_instant zone day hour minute ≡ ok time
    pub later : after < time
    pub passed : Passed start day

  after_day :
      (day : ℕ) (r : Option ℕ)
      → (is_on weekdays day ≡ true
          → (u : ℕ) × (calendar_instant zone day hour minute ≡ ok u) × (u ≤ after))
      → FirstDay (day + 1) r
      → FirstDay day r
  after_day day r here f = record {
    day = f.day;
    time = f.time;
    answer = f.answer;
    is_named = f.is_named;
    instant = f.instant;
    later = f.later;
    passed = λ d from to on. elim (Bool-cases (d == day)) [
      | inl e ↦ let same : d ≡ day = ground arith in rw same (here (rw (← same) on))
      | inr e ↦ f.passed d (ground arith) to on
    ];
  }

  later_than-FirstDay :
      (day : ℕ) (r : Option ℕ) (rest : Outcome Failure (Option ℕ)) (at : Outcome Failure ℕ)
      → is_on weekdays day ≡ true
      → calendar_instant zone day hour minute ≡ at
      → (rest ≡ ok r → FirstDay (day + 1) r)
      → later_than after at rest ≡ ok r
      → FirstDay day r
  later_than-FirstDay day r rest (err x) on e ih h = cc
  later_than-FirstDay day r rest (ok u) on e ih h = elim (Bool-cases (ltb after u)) [
    | inl lt ↦ record {
      day = day;
      time = u;
      answer = ground arith;
      is_named = on;
      instant = e;
      later = ltb→lt after u lt;
      passed = λ d from to. absurd (omega arith);
    }
    | inr ge ↦ after_day day r (λ _. (u, e, ground arith)) (ih (ground arith))
  ]

  pub next_day-FirstDay :
      (left day : ℕ) (r : Option ℕ)
      → next_day zone weekdays hour minute after left day ≡ ok r
      → FirstDay day r
  unfolding next_day
  next_day-FirstDay zero day r h = cc
  next_day-FirstDay (suc left) day r h =
      let ih = next_day-FirstDay left (day + 1) r in
      elim (Bool-cases (ltb last_instant (day * 86400))) [
        | inl e ↦ ground arith
        | inr e ↦ elim (Bool-cases (is_on weekdays day)) [
          | inl on ↦
              later_than-FirstDay day r (next_day zone weekdays hour minute after left (day + 1))
                (calendar_instant zone day hour minute) on refl ih (simp (e, on) at h)
          | inr off ↦ after_day day r (λ on. cc) (ih (simp (e, off) at h))
        ]
      ]
