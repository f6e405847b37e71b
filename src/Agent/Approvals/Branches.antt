-- ===== src/Agent/Approvals/Branches.antt =====
-- The branches in which a run ends: each leaves the approval gone, frozen or reopened.
use open_feishu.Common.{
  ◌≡◌, refl, sym, ap, ◌∙◌, subst, String, Bool, true, false, some, ◌⊎◌, inl, inr, Outcome, ok, err,
  string_eq,
}
use open_feishu.Dict
use open_feishu.Dict.{Dict, get-del, get-modify, beq_self}
use open_feishu.Agent.Pending.{
  awaiting, execution_unknown, PendingApproval, Approvals, set_state, move_to, get, complete,
}
use open_feishu.Agent.Approvals.{frozen, ApprovalOutcome, Engine, World, Outside}
use open_feishu.Agent.Approvals.Action.{Cancelled, cancelled_error, Leaves, completes}
use open_feishu.Agent.Approvals.Running.{conclude}
use open_feishu.Agent.Approvals.Decision.{caught}
use open_feishu.Agent.Approvals.Ends.{
  Uncalled, Called, Dropped, Moved, Ends, with_rows, records-world, conclude-Leaves, settle-kept,
  Over, InExecution, settle-executing, freezes, stops_called, stops_uncalled,
}

module _ (engine : Engine) (out : Outside) (approval : PendingApproval) (w : World) where
  Leaves-Ends :
      (o : ApprovalOutcome) (v : World) (r : Outcome Cancelled ApprovalOutcome × World)
      → Over approval.approval_id v.approvals
      → Ends approval w (ok o, v)
      → Ends approval w (err cancelled_error, v)
      → Leaves o v r
      → Ends approval w (caught engine out approval r)
  Leaves-Ends o v r over e1 e2 (inl p) =
      subst (λ r. Ends approval w (caught engine out approval r)) (sym p) e1
  Leaves-Ends o v r over e1 e2 (inr p) =
      subst (λ r. Ends approval w (caught engine out approval r)) (sym p)
        (subst (λ v. Ends approval w (err cancelled_error, v))
          (sym (settle-kept engine out approval v over)) e2)

  -- A branch that drops the approval, for the result and for a cancellation.
  pub Dropped-Ends :
      (o : ApprovalOutcome) (outcome event_type : String) (error : Bool) (v : World)
      → ((s : Approvals)
          → complete approval.approval_id outcome s ≡ Dict.del approval.approval_id s)
      → v.approvals ≡ w.approvals
      → ((u : World)
          → Dropped approval w u
          → u.dispatched ≡ v.dispatched
          → Ends approval w (ok o, u))
      → Called approval w v ⊎ Uncalled w v
      → Ends approval w
          (caught engine out approval (conclude engine out approval outcome event_type error o v))
  unfolding get
  Dropped-Ends o outcome event_type error v drops same ends call =
      let (rows, l) = conclude-Leaves engine out approval outcome event_type error o v in
      let id = approval.approval_id in
      let u = with_rows (complete id outcome v.approvals) rows v in
      let gone : Dropped approval w u = drops v.approvals ∙ ap (Dict.del id) same in
      Leaves-Ends o u _
        (inl (ap (Dict.get id) gone ∙ get-del id id w.approvals ∙ rw (beq_self id) refl))
        (ends u gone refl)
        (elim call [
          | inl c ↦ stops_called refl (inl gone) c
          | inr c ↦ stops_uncalled refl (inl gone) c
        ])
        l

  -- A branch after a call that freezes the approval.
  pub frozen-Ends :
      (o : ApprovalOutcome) (event_type : String) (error : Bool) (v : World)
      → InExecution approval.approval_id w.approvals
      → v.approvals ≡ w.approvals
      → o.status ≡ frozen
      → Called approval w v
      → Ends approval w
          (caught engine out approval (conclude engine out approval "frozen" event_type error o v))
  unfolding get complete
  frozen-Ends o event_type error v (c, p, q) same st call =
      let (rows, l) = conclude-Leaves engine out approval "frozen" event_type error o v in
      let id = approval.approval_id in
      let u = with_rows (complete id "frozen" v.approvals) rows v in
      let gone : Moved approval execution_unknown w u = ap (move_to id execution_unknown) same in
      Leaves-Ends o u _
        (inr (
          set_state execution_unknown c,
          ap (Dict.get id) gone
              ∙ get-modify id id (set_state execution_unknown) w.approvals
              ∙ rw (beq_self id, p) refl,
          refl,
        ))
        (freezes (ap some st) gone call) (stops_called refl (inr gone) call) l

  at :
      (v : World)
      → v.approvals ≡ w.approvals
      → InExecution approval.approval_id w.approvals
      → InExecution approval.approval_id v.approvals
  at v same run = subst (InExecution approval.approval_id) (sym same) run

  -- A cancellation where the approval has not been completed.
  pub cancelled-Ends :
      (v : World)
      → InExecution approval.approval_id w.approvals
      → v.approvals ≡ w.approvals
      → ((v.execution_started ≡ true) × Called approval w v)
        ⊎ ((v.execution_started ≡ false) × Uncalled w v)
      → Ends approval w (caught engine out approval (err cancelled_error, v))
  unfolding get complete completes
  cancelled-Ends v run same (inr (t, call)) =
      subst (λ u. Ends approval w (err cancelled_error, u))
        (sym (settle-executing engine out approval v false (at v same run) t))
        (stops_uncalled refl (inr (ap (move_to approval.approval_id awaiting) same)) call)
  cancelled-Ends v run same (inl (t, call)) =
      let v' = record v { approvals = complete approval.approval_id "frozen" v.approvals } in
      let (rows, r) = records-world engine out "execute_unknown" approval true v' in
      let settled = settle-executing engine out approval v true (at v same run) t ∙ r in
      subst (λ u. Ends approval w (err cancelled_error, u)) (sym settled)
        (stops_called refl (inr (ap (move_to approval.approval_id execution_unknown) same)) call)
