-- ===== src/Agent/Approvals/Ends.antt =====
-- How a run of an approval ends, and what each step of it leaves.
use open_feishu.Common.{
  ◌≡◌, refl, ap, String, Bool, false, Bool-cases, Option, none, some, ◌⊎◌, inl, inr, Outcome, ok,
  err, List, [], ◌∷◌, ◌++◌, string_eq,
}
use open_feishu.Dict
use open_feishu.Dict.{Dict, get-del, get-modify, beq_self}
use open_feishu.Agent.Pending.{
  PendingState, awaiting, executing, execution_unknown, PendingApproval, Approvals, move_to, get,
  complete,
}
use open_feishu.Agent.Approvals.{
  ApprovalStatus, executed, replayed, failed, frozen, ApprovalOutcome, Engine, AuditRow, Dispatch,
  World, Outside,
}
use open_feishu.Agent.Approvals.Action.{
  Cancelled, Leaves, bind-ok, bind-err, pure, completes, records,
}
use open_feishu.Agent.Approvals.Running.{conclude}
use open_feishu.Agent.Approvals.Decision.{settle, settle_cancelled, is_executing}

-- The status of a result, if there is one.
abbrev pub status_of : Outcome Cancelled ApprovalOutcome × World → Option ApprovalStatus
status_of (ok outcome, w) = some outcome.status
status_of (err e, w) = none

-- The call of the tool that an approval stands for.
abbrev pub call_of : PendingApproval → Dispatch
call_of approval = record {
  approval_id = approval.approval_id;
  tool_name = approval.tool_name;
  arguments = approval.arguments;
}

-- A world after another one where the tool has not been called, and where it has been once.
abbrev pub Uncalled : World → World → Type 0
Uncalled w v = v.dispatched ≡ w.dispatched

abbrev pub Called : PendingApproval → World → World → Type 0
Called approval w v = v.dispatched ≡ w.dispatched ++ call_of approval ∷ []

abbrev pub Dropped : PendingApproval → World → World → Type 0
Dropped approval w v = v.approvals ≡ Dict.del approval.approval_id w.approvals

abbrev pub Moved : PendingApproval → PendingState → World → World → Type 0
Moved approval state w v = v.approvals ≡ move_to approval.approval_id state w.approvals

-- The ends of a run, by the status that is answered; none for a task that was cancelled.
pub data Ends (approval : PendingApproval) (w : World)
    (r : Outcome Cancelled ApprovalOutcome × World) : Type 0 where
  executes :
      status_of r ≡ some executed
      → Dropped approval w r.1
      → Called approval w r.1
      → Ends approval w r
  replays :
      status_of r ≡ some replayed → Dropped approval w r.1 → Uncalled w r.1 → Ends approval w r
  fails :
      status_of r ≡ some failed
      → Dropped approval w r.1
      → Called approval w r.1 ⊎ Uncalled w r.1
      → Ends approval w r
  freezes :
      status_of r ≡ some frozen
      → Moved approval execution_unknown w r.1
      → Called approval w r.1
      → Ends approval w r
  stops_called :
      status_of r ≡ none
      → Dropped approval w r.1 ⊎ Moved approval execution_unknown w r.1
      → Called approval w r.1
      → Ends approval w r
  stops_uncalled :
      status_of r ≡ none
      → Dropped approval w r.1 ⊎ Moved approval awaiting w r.1
      → Uncalled w r.1
      → Ends approval w r

-- The world with other approvals and other rows.
abbrev pub with_rows : Approvals → List AuditRow → World → World
with_rows s rows w = record w { approvals = s; audit = rows }

pub records-Leaves :
    (engine : Engine) (out : Outside) (event_type : String) (approval : PendingApproval)
    (error : Bool) (w : World)
    → (rows : List AuditRow) × Leaves tt
        (with_rows w.approvals rows w)
        (records engine out event_type approval error w)
unfolding records
records-Leaves engine out event_type approval error w = elim (Bool-cases engine.has_audit) [
  | inr p ↦ (w.audit, inl (simp p))
  | inl p ↦ elim (Bool-cases (out.audit_cancelled event_type)) [
    | inl q ↦ (w.audit, inr (simp (p, q)))
    | inr q ↦ (
      w.audit ++ record { event_type = event_type; key = approval.approval_id; error = error } ∷ [],
      inl (simp (p, q)),
    )
  ]
]

pub records-world :
    (engine : Engine) (out : Outside) (event_type : String) (approval : PendingApproval)
    (error : Bool) (w : World)
    → (rows : List AuditRow) × ((records engine out event_type approval error w).1
        ≡ with_rows w.approvals rows w)
records-world engine out event_type approval error w =
    let (rows, l) = records-Leaves engine out event_type approval error w in
    (rows, elim l [ inl p ↦ ap (λ r. r.1) p | inr p ↦ ap (λ r. r.1) p ])

pub conclude-Leaves :
    {A : Type 0} (engine : Engine) (out : Outside) (approval : PendingApproval)
    (outcome event_type : String) (error : Bool) (v : A) (w : World)
    → (rows : List AuditRow) × Leaves v
        (with_rows (complete approval.approval_id outcome w.approvals) rows w)
        (conclude engine out approval outcome event_type error v w)
unfolding conclude completes
conclude-Leaves engine out approval outcome event_type error v w =
    let s = complete approval.approval_id outcome w.approvals in
    let v0 = record w { approvals = s } in
    let (rows, p) = records-Leaves engine out event_type approval error v0 in
    let m = records engine out event_type approval error in
    (
      rows,
      elim p [
        | inl q ↦ inl (bind-ok m (λ _. pure v) v0 (with_rows s rows w) tt q)
        | inr q ↦ inr (bind-err m (λ _. pure v) v0 (with_rows s rows w) q)
      ],
    )

pub settle-kept :
    (engine : Engine) (out : Outside) (approval : PendingApproval) (w : World)
    → get approval.approval_id w.approvals ≡ none
      ⊎ ((c : PendingApproval) × (get approval.approval_id w.approvals ≡ some c)
          × (is_executing c.state ≡ false))
    → settle_cancelled engine out approval w ≡ w
unfolding settle_cancelled
settle-kept engine out approval w (inl p) = rw (settle_cancelled, p) refl
settle-kept engine out approval w (inr (c, p, q)) = rw (settle_cancelled, p) (simp q)

-- The approval is gone, or not in execution.
abbrev pub Over : String → Approvals → Type 0
Over id s =
    (get id s ≡ none)
    ⊎ ((c : PendingApproval) × (get id s ≡ some c) × (is_executing c.state ≡ false))

abbrev pub InExecution : String → Approvals → Type 0
InExecution id s = (c : PendingApproval) × (get id s ≡ some c) × (c.state ≡ executing)

pub settle-executing :
    (engine : Engine) (out : Outside) (approval : PendingApproval) (w : World) (started : Bool)
    → InExecution approval.approval_id w.approvals
    → w.execution_started ≡ started
    → settle_cancelled engine out approval w ≡ settle engine out approval started w
unfolding settle_cancelled
settle-executing engine out approval w started (c, p, q) t =
    rw (settle_cancelled, p) (simp q (ap (λ b. settle engine out approval b w) t))
