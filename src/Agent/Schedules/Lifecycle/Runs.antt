-- ===== src/Agent/Schedules/Lifecycle/Runs.antt =====
-- The calls that change runs that are there already make moves of the life of a run.
use open_feishu.Common.{
  ℕ, ◌+◌, ◌≡◌, refl, String, Bool, true, ◌||◌, Option, none, some, inl, inr, ◌==◌, string_eq,
  nat_eq, if◌then◌else◌, arith, Bool-cases, err,
}
use open_feishu.Dict
use open_feishu.Dict.{Dict}
use open_feishu.Agent.Schedules.Calendar.{Failure, run_conflict}
use open_feishu.Agent.Schedules.Tables.{meets_key, update_key}
use open_feishu.Agent.Schedules.Rows.{RunStatus, RunRow, Store, is_final, WaitKind}
use open_feishu.Agent.Schedules.Runs.{
  with_runs, leases, is_lost, lost_row, may_finish, finished_row, finish_row, finish_run, fits,
  renew_lease, expire_runs, read_at, read_back,
}
use open_feishu.Agent.Schedules.Waits.{
  may_resume, resumed_row, resume_kind, claim_resume, waiting_row, waits_under, record_wait,
  clear_wait, wait_of,
}
use open_feishu.Agent.Schedules.Calls.{after}
use open_feishu.Agent.Schedules.Lifecycle.{
  stays, ends, resumes, Moves, Change, Change-refl, update_where-Change, update_key-Change,
  modify-Change,
}

finished_row-Moves :
    (status : RunStatus) (expected_status : Option RunStatus) (expected_token : Option String)
    (now : ℕ) (summary : Option String) (reset : Bool) (r : RunRow)
    → is_final status ≡ true
    → may_finish expected_status expected_token now r ≡ true
    → Moves r (finished_row status now summary reset r)
unfolding may_finish finished_row
finished_row-Moves status expected_status expected_token now summary reset r f h = record {
  same = refl;
  move =
      ends (ground arith) f (elim (Bool-cases reset) [ inl e ↦ inr (rw e) | inr e ↦ inl (rw e) ]);
}

pub read_at-Change :
    (s s' : Store) (o : Option RunRow)
    → Change s.runs s'.runs
    → Change s.runs (after (read_at s' o) s).runs
read_at-Change s s' none c = Change-refl s.runs
read_at-Change s s' (some r) c = c

pub read_back-Change :
    (id : String) (s s' : Store)
    → Change s.runs s'.runs
    → Change s.runs (after (read_back id s') s).runs
read_back-Change id s s' c = read_at-Change s s' (Dict.get id s'.runs) c

finish_row-Change :
    (id : String) (status : RunStatus) (now : ℕ) (summary : Option String)
    (expected_status : Option RunStatus) (expected_token : Option String) (reset : Bool) (s : Store)
    (o : Option RunRow)
    → is_final status ≡ true
    → Dict.get id s.runs ≡ o
    → Change s.runs
        (after (finish_row id status now summary expected_status expected_token reset s o) s).runs
unfolding finish_row
finish_row-Change id status now summary expected_status expected_token reset s none f e =
    Change-refl s.runs
finish_row-Change id status now summary expected_status expected_token reset s (some r) f e =
    elim (Bool-cases (may_finish expected_status expected_token now r)) [
      | inl m ↦ rw m (
          read_back-Change id s _ (
            modify-Change id (finished_row status now summary reset) s.runs r e
              (finished_row-Moves status expected_status expected_token now summary reset r f m)))
      | inr m ↦ rw m (Change-refl s.runs)
    ]

pub finish_run-Change :
    (id : String) (status : RunStatus) (now : ℕ) (summary : Option String)
    (expected_status : Option RunStatus) (expected_token : Option String) (reset : Bool) (s : Store)
    → Change s.runs
        (after (finish_run id status now summary expected_status expected_token reset s) s).runs
unfolding finish_run
finish_run-Change id status now summary expected_status expected_token reset s =
    elim (Bool-cases (is_final status)) [
      | inr f ↦ rw f (Change-refl s.runs)
      | inl f ↦ elim (Bool-cases (fits summary)) [
        | inr g ↦ rw (f, g) (Change-refl s.runs)
        | inl g ↦
            rw (f, g)
              (finish_row-Change id status now summary expected_status expected_token reset s
                (Dict.get id s.runs) f refl)
      ]
    ]

pub renew_lease-Change :
    (id : String) (token : Option String) (now lease_seconds : ℕ) (s : Store)
    → Change s.runs (after (renew_lease id token now lease_seconds s) s).runs
unfolding renew_lease
renew_lease-Change id none now lease_seconds s = Change-refl s.runs
renew_lease-Change id (some token) now lease_seconds s =
    elim (Bool-cases ((token == "") || (lease_seconds == 0))) [
      | inl e ↦ rw e (Change-refl s.runs)
      | inr e ↦ rw e (
          update_key-Change id (leases token now)
            (λ r. record r { lease_until = some (now + lease_seconds) }) s.runs
            (λ r p. record { same = refl; move = stays refl refl }))
    ]

pub expire_runs-Change : (now : ℕ) (s : Store) → Change s.runs (expire_runs now s).0.runs
unfolding expire_runs lost_row
expire_runs-Change now s =
    update_where-Change (is_lost now) lost_row s.runs
      (λ r p. record { same = refl; move = ends (ground arith) refl (inr refl) })

-- A write of the rows under one key, where it met one.
module _ (id : String) (p : RunRow → Bool) (f : RunRow → RunRow) (s : Store)
    (h : (r : RunRow) → p r ≡ true → Moves r (f r)) where
  guarded-Change :
      (e : Failure)
      → Change s.runs
          (after
            (if meets_key id p s.runs
              then read_back id (with_runs (update_key id p f s.runs) s)
              else err e)
            s).runs
  guarded-Change e = elim (Bool-cases (meets_key id p s.runs)) [
    | inl m ↦ rw m (read_back-Change id s _ (update_key-Change id p f s.runs h))
    | inr m ↦ rw m (Change-refl s.runs)
  ]

resume_kind-Change :
    (id wait_id : String) (expected_status : RunStatus) (kind : Option WaitKind)
    (now lease_seconds : ℕ) (token : String) (s : Store)
    → wait_of expected_status ≡ kind
    → Change s.runs
        (after (resume_kind id wait_id expected_status kind now lease_seconds token s) s).runs
unfolding resume_kind may_resume resumed_row
resume_kind-Change id wait_id expected_status none now lease_seconds token s k = Change-refl s.runs
resume_kind-Change id wait_id expected_status (some kind) now lease_seconds token s k =
    elim (Bool-cases ((wait_id == "") || (lease_seconds == 0))) [
      | inl e ↦ rw e (Change-refl s.runs)
      | inr e ↦ rw e (
          guarded-Change id (may_resume s.tasks expected_status kind wait_id)
            (resumed_row token (now + lease_seconds)) s
            (λ r p. record { same = refl; move = resumes (ground arith) refl refl }) run_conflict)
    ]

pub claim_resume-Change :
    (id wait_id : String) (expected_status : RunStatus) (now lease_seconds : ℕ) (token : String)
    (s : Store)
    → Change s.runs
        (after (claim_resume id wait_id expected_status now lease_seconds token s) s).runs
unfolding claim_resume
claim_resume-Change id wait_id expected_status now lease_seconds token s =
    resume_kind-Change id wait_id expected_status (wait_of expected_status) now lease_seconds token
      s refl

pub record_wait-Change :
    (id : String) (kind : WaitKind) (wait_id : String) (deadline : ℕ) (token : String) (now : ℕ)
    (s : Store)
    → Change s.runs (after (record_wait id kind wait_id deadline token now s) s).runs
unfolding record_wait waiting_row
record_wait-Change id kind wait_id deadline token now s = elim (Bool-cases (wait_id == "")) [
  | inl e ↦ rw e (Change-refl s.runs)
  | inr e ↦ elim (Bool-cases (token == "")) [
    | inl f ↦ rw (e, f) (Change-refl s.runs)
    | inr f ↦
        rw (e, f)
          (guarded-Change id (leases token now)
            (waiting_row (some kind) (some wait_id) (some deadline)) s
            (λ r p. record { same = refl; move = stays refl refl }) run_conflict)
  ]
]

pub clear_wait-Change :
    (id wait_id token : String) (now : ℕ) (s : Store)
    → Change s.runs (after (clear_wait id wait_id token now s) s).runs
unfolding clear_wait waiting_row
clear_wait-Change id wait_id token now s =
    elim (Bool-cases (meets_key id (waits_under wait_id token now) s.runs)) [
      | inl m ↦ rw m (
          update_key-Change id (waits_under wait_id token now) (waiting_row none none none) s.runs
            (λ r p. record { same = refl; move = stays refl refl }))
      | inr m ↦ rw m (Change-refl s.runs)
    ]
