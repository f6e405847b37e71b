-- ===== src/Agent/Approvals/Replay.antt =====
-- A result that was kept is what a later approval of the same key and payload gets, without its tool.
use open_feishu.Common.{
  ◌≡◌, ◌≢◌, refl, sym, ap, ◌∙◌, subst, String, Bool, true, false, ◌&&◌, ◌||◌, not, Bool-cases,
  Option-cases, Option, none, some, ◌⊎◌, inl, inr, Outcome, ok, err, string_eq, arith,
}
use open_feishu.Dict
use open_feishu.Dict.{Dict, get-put_self, beq_self}
use open_feishu.Json.{Json}
use open_feishu.Agent.Pending.{PendingApproval, Approvals, is_given, get, complete}
use open_feishu.Agent.Approvals.{
  executed, replayed, failed, says, ApprovalOutcome, Execution, Engine, World, Answer, done, raises,
  is_cancelled, DispatchAnswer, refuses, tool_raises, dispatch_cancelled, gives, Outside,
  outcome_of,
}
use open_feishu.Agent.Approvals.Action.{
  Cancelled, cancelled_error, Leaves, followed, bind-ok, bind-err, completes, records,
}
use open_feishu.Agent.Approvals.Running.{
  conclude, hit, look_up, replay, dispatches, succeeds, finish, store_result, store_with, keep,
  after_dispatch, run_tool, or_run, on_claimed_decision, if_used, has_text, same_hash, key_of,
}
use open_feishu.Agent.Approvals.Decision.{caught, run_claimed, is_executing, settle_cancelled}
use open_feishu.Agent.Approvals.Invariant.{get-del_self}
use open_feishu.Agent.Approvals.Ends.{with_rows, records-Leaves, conclude-Leaves, settle-kept}
use open_feishu.Agent.Approvals.Settled.{followed-or_run}

-- The row of a result of the approval.
abbrev pub row_of : PendingApproval → Json → Execution
row_of a content = record { payload_sha256 = a.payload_sha256; result = content }

module _ (engine : Engine) (out : Outside) (a : PendingApproval) where
  -- Where the result is EXECUTED, its content is kept under the key.
  abbrev pub Stored : Outcome Cancelled ApprovalOutcome × World → Type 0
  Stored r =
      (o : ApprovalOutcome)
      → r.0 ≡ ok o
      → o.status ≡ executed
      → (rows : Dict String Execution) × (r.1.executions ≡ some rows)
        × (Dict.get (key_of engine a) rows ≡ some (row_of a o.content))

  ok_eq :
      (o p : ApprovalOutcome) → ◌≡◌ {A = Outcome Cancelled ApprovalOutcome} (ok o) (ok p) → o ≡ p
  ok_eq o p h = cc

  err-Stored : (v : World) → Stored (err cancelled_error, v)
  err-Stored v o h st = cc

  other-Stored :
      (outcome event_type : String) (error : Bool) (p : ApprovalOutcome) (v : World)
      → p.status ≢ executed
      → Stored (conclude engine out a outcome event_type error p v)
  other-Stored outcome event_type error p v other o h st =
      let (rows, l) = conclude-Leaves engine out a outcome event_type error p v in
      elim l [
        | inl e ↦
            let q = ok_eq p o (sym (ap (λ r. r.0) e) ∙ h) in
            elim (other (ap (λ (p : ApprovalOutcome). p.status) q ∙ st)) [ ]
        | inr e ↦ let q = ap (λ r. r.0) e in cc
      ]

  finish-Stored :
      (content : Json) (rows : Dict String Execution) (v : World)
      → v.executions ≡ some rows
      → Dict.get (key_of engine a) rows ≡ some (row_of a content)
      → Stored (finish engine out a content v)
  unfolding finish
  finish-Stored content rows v x g o h st =
      let p = outcome_of executed content false in
      let (_, l) = conclude-Leaves engine out a "executed" "execute" false p v in
      elim l [
        | inl e ↦
            let q = ok_eq p o (sym (ap (λ r. r.0) e) ∙ h) in
            (
              rows,
              ap (λ r. r.1.executions) e ∙ x,
              g ∙ ap (λ (p : ApprovalOutcome). some (row_of a p.content)) q,
            )
        | inr e ↦ let q = ap (λ r. r.0) e in cc
      ]

  store_with-Stored :
      (content : Json) (answer : Answer) (rows : Dict String Execution) (v : World)
      → Stored (store_with engine out a content answer rows v)
  unfolding store_with store_result
  store_with-Stored content is_cancelled rows v = err-Stored v
  store_with-Stored content raises rows v = other-Stored _ _ true _ v (λ h. cc)
  store_with-Stored content done rows v =
      finish-Stored content _ _ refl (get-put_self (key_of engine a) (row_of a content) rows)

  module _ (rows : Dict String Execution) (t : has_text a.idempotency_key ≡ true) where
    keep-Stored :
        (content : Json) (v : World)
        → v.executions ≡ some rows
        → Stored (keep engine out a content v)
    unfolding keep
    keep-Stored content v x =
        let p : if_used (has_text a.idempotency_key) v.executions ≡ some rows = rw t x in
        rw (keep, p) (store_with-Stored content out.store rows v)

    after_dispatch-Stored :
        (answer : DispatchAnswer) (v : World)
        → v.executions ≡ some rows
        → Stored (after_dispatch engine out a answer v)
    unfolding after_dispatch
    after_dispatch-Stored dispatch_cancelled v x = err-Stored v
    after_dispatch-Stored (refuses e) v x = other-Stored _ _ _ _ v (λ h. cc)
    after_dispatch-Stored (tool_raises e) v x = other-Stored _ _ _ _ v (λ h. cc)
    after_dispatch-Stored (gives result) v x =
        elim (Bool-cases (result.is_error || not (succeeds result.outcome))) [
          | inl p ↦ simp p (other-Stored _ _ true _ v (λ h. cc))
          | inr p ↦ simp p (keep-Stored result.content v x)
        ]

    run_tool-Stored : (v : World) → v.executions ≡ some rows → Stored (run_tool engine out a v)
    unfolding run_tool dispatches
    run_tool-Stored v x =
        let (log, l) = records-Leaves engine out "confirm" a false v in
        let m = records engine out "confirm" a false in
        let u = with_rows v.approvals log v in
        elim l [
          | inl p ↦
              subst Stored (sym (bind-ok m _ v u tt p)) (after_dispatch-Stored out.dispatch _ x)
          | inr p ↦ subst Stored (sym (bind-err m _ v u p)) (err-Stored u)
        ]

    concluded-Stored :
        (outcome event_type : String) (error : Bool) (o : ApprovalOutcome) (v : World)
        → o.status ≢ executed
        → Stored (
            followed
              (or_run engine out a)
              (conclude engine out a outcome event_type error (some o) v))
    unfolding conclude completes
    concluded-Stored outcome event_type error o v other =
        subst Stored
          (sym (followed-or_run engine out a v o (records engine out event_type a error _)))
          (other-Stored outcome event_type error o v other)

    look_up-Stored :
        (answer : Answer) (found : Dict String Execution) (v : World)
        → v.executions ≡ some rows
        → Stored (followed (or_run engine out a) (look_up engine out a answer found v))
    unfolding look_up hit
    look_up-Stored is_cancelled found v x = err-Stored v
    look_up-Stored raises found v x = concluded-Stored _ _ true _ v (λ h. cc)
    look_up-Stored done found v x = elim (Option-cases (Dict.get (key_of engine a) found)) [
      | inl p ↦ rw (hit, p) (run_tool-Stored v x)
      | inr (row, p) ↦
          rw (hit, p)
            (elim (Bool-cases (same_hash row.payload_sha256 a.payload_sha256)) [
              | inl q ↦ simp q (concluded-Stored _ _ false _ v (λ h. cc))
              | inr q ↦ simp q (run_tool-Stored v x)
            ])
    ]

    on_claimed-Stored :
        (v : World) → v.executions ≡ some rows → Stored (on_claimed_decision engine out a v)
    unfolding on_claimed_decision replay
    on_claimed-Stored v x =
        elim (Option-cases
          (if_used (has_text a.idempotency_key && is_given a.payload_sha256) v.executions)) [
            | inl p ↦ rw (on_claimed_decision, replay, p) (run_tool-Stored v x)
            | inr (found, p) ↦
                rw (on_claimed_decision, replay, p) (look_up-Stored out.lookup found v x)
          ]

    caught-Stored :
        (r : Outcome Cancelled ApprovalOutcome × World) → Stored r → Stored (caught engine out a r)
    caught-Stored (ok p, v) s o h st = s o h st
    caught-Stored (err e, v) s o h st = cc

    pub run_claimed-Stored :
        (w : World) → w.executions ≡ some rows → Stored (run_claimed engine out a w)
    unfolding run_claimed
    run_claimed-Stored w x = caught-Stored _ (on_claimed-Stored _ x)

-- What a run answers that finds the content of an earlier one, by the answer of its look-up.
abbrev pub reply : Engine → Json → Answer → Outcome Cancelled ApprovalOutcome
reply engine content done = ok (outcome_of replayed content false)
reply engine content raises = ok (says engine failed)
reply engine content is_cancelled = err cancelled_error

-- A run answers so, or its task is cancelled; it calls no tool.
abbrev pub Answers :
    Outcome Cancelled ApprovalOutcome → World → Outcome Cancelled ApprovalOutcome × World → Type 0
Answers o w r = ((r.0 ≡ o) ⊎ (r.0 ≡ err cancelled_error)) × (r.1.dispatched ≡ w.dispatched)

caught-Answers :
    (engine : Engine) (out : Outside) (b : PendingApproval) (o : ApprovalOutcome) (w v : World)
    (r : Outcome Cancelled ApprovalOutcome × World)
    → v.dispatched ≡ w.dispatched
    → get b.approval_id v.approvals ≡ none
    → Leaves o v r
    → Answers (ok o) w (caught engine out b r)
caught-Answers engine out b o w v r d g (inl p) =
    subst (λ r. Answers (ok o) w (caught engine out b r)) (sym p) (inl refl, d)
caught-Answers engine out b o w v r d g (inr p) =
    subst (λ r. Answers (ok o) w (caught engine out b r)) (sym p)
      (inr refl, ap (λ (u : World). u.dispatched) (settle-kept engine out b v (inl g)) ∙ d)

module _ (engine : Engine) (out : Outside) (b : PendingApproval) (rows : Dict String Execution)
    (w : World) (t : (has_text b.idempotency_key && is_given b.payload_sha256) ≡ true)
    (x : w.executions ≡ some rows) where
  -- The look-up ends the run with an outcome.
  concluded-Answers :
      (outcome event_type : String) (error : Bool) (o : ApprovalOutcome)
      → look_up engine out b out.lookup rows (record w { execution_started = false })
        ≡ conclude engine out b outcome event_type error
            (some o)
            (record w { execution_started = false })
      → ((s : Approvals) → complete b.approval_id outcome s ≡ Dict.del b.approval_id s)
      → Answers (ok o) w (run_claimed engine out b w)
  unfolding run_claimed on_claimed_decision replay conclude completes get
  concluded-Answers outcome event_type error o q gone =
      let v = record w { execution_started = false } in
      let p : if_used (has_text b.idempotency_key && is_given b.payload_sha256) w.executions
          ≡ some rows =
        rw t x in
      let (log, leaves) = conclude-Leaves engine out b outcome event_type error o v in
      let found : on_claimed_decision engine out b v
          ≡ conclude engine out b outcome event_type error o v =
        rw (on_claimed_decision, replay, p)
          (ap (followed (or_run engine out b)) q ∙ followed-or_run engine out b v o _) in
      subst (λ r. Answers (ok o) w (caught engine out b r)) (sym found)
        (caught-Answers engine out b o w _ _ refl
          (ap (get b.approval_id) (gone w.approvals) ∙ get-del_self b.approval_id w.approvals)
          leaves)

  -- A run that is cancelled before its tool.
  settled-dispatched :
      (v : World)
      → v.execution_started ≡ false
      → (settle_cancelled engine out b v).dispatched ≡ v.dispatched
  unfolding settle_cancelled completes
  settled-dispatched v n = elim (Option-cases (get b.approval_id v.approvals)) [
    | inl p ↦ rw (settle_cancelled, p) refl
    | inr (c, p) ↦
        rw (settle_cancelled, p, n)
          (elim (Bool-cases (is_executing c.state)) [ inl q ↦ simp q | inr q ↦ simp q ])
  ]

  stopped-Answers :
      out.lookup ≡ is_cancelled → Answers (err cancelled_error) w (run_claimed engine out b w)
  unfolding run_claimed on_claimed_decision replay look_up
  stopped-Answers l =
      let v = record w { execution_started = false } in
      let p : if_used (has_text b.idempotency_key && is_given b.payload_sha256) w.executions
          ≡ some rows =
        rw t x in
      let found : on_claimed_decision engine out b v ≡ (err cancelled_error, v) =
        rw (on_claimed_decision, replay, p, l) refl in
      subst (λ r. Answers (err cancelled_error) w (caught engine out b r)) (sym found)
        (inl refl, settled-dispatched v refl)

  reply-Answers :
      (answer : Answer) (row : Execution)
      → out.lookup ≡ answer
      → Dict.get (key_of engine b) rows ≡ some row
      → same_hash row.payload_sha256 b.payload_sha256 ≡ true
      → Answers (reply engine row.result answer) w (run_claimed engine out b w)
  unfolding look_up hit complete
  reply-Answers done row l g s =
      concluded-Answers "replayed" "replay" false (outcome_of replayed row.result false)
        (ap (λ answer. look_up engine out b answer rows (record w { execution_started = false })) l
          ∙ rw (hit, g) (simp s))
        (λ s. refl)
  reply-Answers raises row l g s =
      concluded-Answers "failed" "execute_failed" true (says engine failed)
        (ap (λ answer. look_up engine out b answer rows (record w { execution_started = false })) l)
        (λ s. refl)
  reply-Answers is_cancelled row l g s = stopped-Answers l

same_hash_self : (h : Option String) → same_hash h h ≡ true
same_hash_self none = refl
same_hash_self (some t) = beq_self t

-- Where there is a store of executions, and the run of an approval with an idempotency key and a
-- payload hash answers EXECUTED: an approval of the same key, tool and payload hash, that runs while
-- the entry of the key is as the first run left it, does not call a tool. If its look-up succeeds it
-- gets REPLAYED with the content of the first result; if its look-up raises it gets FAILED; or its
-- task is cancelled.
pub run_claimed-replayed :
    (engine : Engine) (out again : Outside) (a b : PendingApproval)
    (rows left found : Dict String Execution) (w v : World) (o : ApprovalOutcome)
    → w.executions ≡ some rows
    → (run_claimed engine out a w).0 ≡ ok o
    → o.status ≡ executed
    → (has_text a.idempotency_key && is_given a.payload_sha256) ≡ true
    → b.idempotency_key ≡ a.idempotency_key
    → b.tool_name ≡ a.tool_name
    → b.payload_sha256 ≡ a.payload_sha256
    → (run_claimed engine out a w).1.executions ≡ some left
    → v.executions ≡ some found
    → Dict.get (key_of engine b) found ≡ Dict.get (key_of engine b) left
    → Answers (reply engine o.content again.lookup) v (run_claimed engine again b v)
run_claimed-replayed engine out again a b rows left found w v o x e st t k n h y z same =
    let (kept, f, g) = run_claimed-Stored engine out a rows (ground arith) w x o e st in
    let there : kept ≡ left = (let q = sym f ∙ y in cc) in
    reply-Answers engine again b found v (rw (k, h) t) z again.lookup (row_of a o.content) refl
      (same ∙ rw (k, n, sym there) g) (rw h (same_hash_self a.payload_sha256))
