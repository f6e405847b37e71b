-- ===== src/Events/Runner/Drains.antt =====
-- What `drain` answers, job by job.
use open_feishu.Common.{List, ok, err, string_eq, Outcome}
use open_feishu.Dict
use open_feishu.Dict.{Dict}
use open_feishu.Events.Job.{EventJob}
use open_feishu.Events.Memory.Store.{Store}
use open_feishu.Events.Runner.{Runner, Round, RunError}
use open_feishu.Events.Runner.Left.{Left, AreLeft}

module _ {P : Type 0} where
  -- What `drain` answers; where it raises, it answers no jobs.
  abbrev pub Answers : List (Round P) → Outcome RunError (List (EventJob P)) → Type 0
  Answers rounds (ok jobs) = AreLeft rounds jobs
  Answers rounds (err e) = Unit
