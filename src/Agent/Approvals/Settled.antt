-- ===== src/Agent/Approvals/Settled.antt =====
-- How an approval stands after `on_decision` has run it, also where the task was cancelled.
use open_feishu.Common.{
  ◌≡◌, refl, sym, ap, ◌∙◌, subst, String, Bool, true, false, Bool-cases, Option-cases, some, ◌⊎◌,
  inl, inr, Outcome, ok, err, [], ◌∷◌, ◌++◌, string_eq, ◌||◌, ◌&&◌, not,
}
use open_feishu.Dict
use open_feishu.Dict.{Dict, get-del, get-modify, beq_self}
use open_feishu.Json.{Json}
use open_feishu.Agent.Pending.{PendingApproval, complete, is_given}
use open_feishu.Agent.Approvals.{
  replayed, failed, ApprovalOutcome, Execution, Engine, World, Answer, done, raises, is_cancelled,
  DispatchAnswer, refuses, tool_raises, dispatch_cancelled, gives, Outside,
}
use open_feishu.Agent.Approvals.Action.{
  Cancelled, followed, bind-ok, bind-err, pure, completes, records,
}
use open_feishu.Agent.Approvals.Running.{
  conclude, hit, look_up, replay, dispatches, succeeds, finish, store_result, store_with, keep,
  after_dispatch, run_tool, or_run, on_claimed_decision, if_used, has_text, same_hash, key_of,
}
use open_feishu.Agent.Approvals.Decision.{caught, run_claimed}
use open_feishu.Agent.Approvals.Ends.{
  call_of, Uncalled, Called, Ends, with_rows, records-Leaves, InExecution, executes, replays, fails,
}
use open_feishu.Agent.Approvals.Branches.{Dropped-Ends, frozen-Ends, cancelled-Ends}

module _ (engine : Engine) (out : Outside) (approval : PendingApproval) (w : World) where
  Ended : Outcome Cancelled ApprovalOutcome × World → Type 0
  Ended r = Ends approval w (caught engine out approval r)

  finish-Ends :
      (content : Json) (v : World)
      → v.approvals ≡ w.approvals
      → Called approval w v
      → Ended (finish engine out approval content v)
  unfolding finish complete Ended
  finish-Ends content v same call =
      Dropped-Ends engine out approval w _ "executed" "execute" false v (λ s. refl) same
        (λ u d k. executes refl d (k ∙ call)) (inl call)

  failed-Ends :
      (o : ApprovalOutcome) (error : Bool) (v : World)
      → o.status ≡ failed
      → v.approvals ≡ w.approvals
      → Called approval w v ⊎ Uncalled w v
      → Ended (conclude engine out approval "failed" "execute_failed" error o v)
  unfolding complete Ended
  failed-Ends o error v st same call =
      Dropped-Ends engine out approval w o "failed" "execute_failed" error v (λ s. refl) same
        (λ u d k. fails (ap some st) d (elim call [ inl c ↦ inl (k ∙ c) | inr c ↦ inr (k ∙ c) ]))
        call

  store_with-Ends :
      (content : Json) (answer : Answer) (rows : Dict String Execution) (v : World)
      → InExecution approval.approval_id w.approvals
      → v.approvals ≡ w.approvals
      → Called approval w v
      → v.execution_started ≡ true
      → Ended (store_with engine out approval content answer rows v)
  unfolding Ended store_with store_result
  store_with-Ends content is_cancelled rows v run same call t =
      cancelled-Ends engine out approval w v run same (inl (t, call))
  store_with-Ends content raises rows v run same call t =
      frozen-Ends engine out approval w _ "execute_unknown" true v run same refl call
  store_with-Ends content done rows v run same call t = finish-Ends content _ same call

  keep-Ends :
      (content : Json) (v : World)
      → InExecution approval.approval_id w.approvals
      → v.approvals ≡ w.approvals
      → Called approval w v
      → v.execution_started ≡ true
      → Ended (keep engine out approval content v)
  unfolding Ended keep
  keep-Ends content v run same call t =
      elim (Option-cases (if_used (has_text approval.idempotency_key) v.executions)) [
        | inl p ↦ rw (keep, p) (finish-Ends content v same call)
        | inr (rows, p) ↦ rw (keep, p) (store_with-Ends content out.store rows v run same call t)
      ]

  after_dispatch-Ends :
      (answer : DispatchAnswer) (v : World)
      → InExecution approval.approval_id w.approvals
      → v.approvals ≡ w.approvals
      → Called approval w v
      → v.execution_started ≡ true
      → Ended (after_dispatch engine out approval answer v)
  unfolding Ended after_dispatch
  after_dispatch-Ends dispatch_cancelled v run same call t =
      cancelled-Ends engine out approval w v run same (inl (t, call))
  after_dispatch-Ends (refuses e) v run same call t = failed-Ends _ _ v refl same (inl call)
  after_dispatch-Ends (tool_raises e) v run same call t =
      frozen-Ends engine out approval w _ _ _ v run same refl call
  after_dispatch-Ends (gives result) v run same call t =
      elim (Bool-cases (result.is_error || not (succeeds result.outcome))) [
        | inl p ↦ simp p (failed-Ends _ true v refl same (inl call))
        | inr p ↦ simp p (keep-Ends result.content v run same call t)
      ]

  run_tool-Ends :
      (v : World)
      → InExecution approval.approval_id w.approvals
      → v.approvals ≡ w.approvals
      → Uncalled w v
      → v.execution_started ≡ false
      → Ended (run_tool engine out approval v)
  unfolding Ended run_tool dispatches
  run_tool-Ends v run same call t =
      let (rows, l) = records-Leaves engine out "confirm" approval false v in
      let m = records engine out "confirm" approval false in
      let u = with_rows v.approvals rows v in
      elim l [
        | inl p ↦ subst Ended (sym (bind-ok m _ v u tt p)) (
            after_dispatch-Ends out.dispatch _ run same (ap (λ d. d ++ call_of approval ∷ []) call)
              refl)
        | inr p ↦
            subst Ended (sym (bind-err m _ v u p))
              (cancelled-Ends engine out approval w u run same (inr (t, call)))
      ]

  pub followed-or_run :
      (o : ApprovalOutcome) (r : Outcome Cancelled (Unit {0}) × World)
      → followed (or_run engine out approval) (followed (λ x. pure (some o)) r)
        ≡ followed (λ x. pure o) r
  followed-or_run o (ok x, v) = refl
  followed-or_run o (err x, v) = refl

  -- A branch that ends before the tool.
  concluded-Ends :
      (outcome event_type : String) (error : Bool) (o : ApprovalOutcome) (v : World)
      → Ended (conclude engine out approval outcome event_type error o v)
      → Ended (
          followed
            (or_run engine out approval)
            (conclude engine out approval outcome event_type error (some o) v))
  unfolding conclude completes
  concluded-Ends outcome event_type error o v e =
      subst Ended (sym (followed-or_run o (records engine out event_type approval error _))) e

  replayed-Ends :
      (o : ApprovalOutcome) (v : World)
      → o.status ≡ replayed
      → v.approvals ≡ w.approvals
      → Uncalled w v
      → Ended (conclude engine out approval "replayed" "replay" false o v)
  unfolding complete Ended
  replayed-Ends o v st same call =
      Dropped-Ends engine out approval w o "replayed" "replay" false v (λ s. refl) same
        (λ u d k. replays (ap some st) d (k ∙ call)) (inr call)

  look_up-Ends :
      (answer : Answer) (rows : Dict String Execution) (v : World)
      → InExecution approval.approval_id w.approvals
      → v.approvals ≡ w.approvals
      → Uncalled w v
      → v.execution_started ≡ false
      → Ended (followed (or_run engine out approval) (look_up engine out approval answer rows v))
  unfolding Ended look_up hit
  look_up-Ends is_cancelled rows v run same call t =
      cancelled-Ends engine out approval w v run same (inr (t, call))
  look_up-Ends raises rows v run same call t =
      concluded-Ends _ _ true _ v (failed-Ends _ true v refl same (inr call))
  look_up-Ends done rows v run same call t =
      elim (Option-cases (Dict.get (key_of engine approval) rows)) [
        | inl p ↦ rw (hit, p) (run_tool-Ends v run same call t)
        | inr (row, p) ↦
            rw (hit, p)
              (elim (Bool-cases (same_hash row.payload_sha256 approval.payload_sha256)) [
                | inl q ↦ simp q (concluded-Ends _ _ false _ v (replayed-Ends _ v refl same call))
                | inr q ↦ simp q (run_tool-Ends v run same call t)
              ])
      ]

  -- An approval that is in execution when its run begins is never so when the run ends, also where
  -- the task is cancelled at one of the calls. After EXECUTED, REPLAYED and FAILED it is gone, after
  -- FROZEN its execution is unknown. The tool has been called once or not at all: once for EXECUTED
  -- and FROZEN, not for REPLAYED; an approval whose state is unknown has been called, and one that
  -- waits again has not.
  pub run_claimed-Ends :
      InExecution approval.approval_id w.approvals
      → Ends approval w (run_claimed engine out approval w)
  unfolding run_claimed on_claimed_decision replay Ended
  run_claimed-Ends run =
      let v = record w { execution_started = false } in
      elim (Option-cases (
        if_used (has_text approval.idempotency_key && is_given approval.payload_sha256)
          v.executions)) [
            | inl p ↦ rw (on_claimed_decision, replay, p) (run_tool-Ends v run refl refl refl)
            | inr (rows, p) ↦
                rw (on_claimed_decision, replay, p)
                  (look_up-Ends out.lookup rows v run refl refl refl)
          ]
