-- ===== src/Agent/Schedules/Lifecycle/Notices.antt =====
-- The calls about notices, and an operator's decision, make moves of the life of a run.
use open_feishu.Common.{
  ℕ, ◌+◌, ◌≡◌, refl, String, true, ◌||◌, not, Option, none, some, ◌⊎◌, inl, inr, ltb, ◌==◌,
  string_eq, nat_eq, arith, Bool-cases, Outcome, ok, err,
}
use Prim.Native.String.{count}
use open_feishu.Dict
use open_feishu.Dict.{Dict}
use open_feishu.Texts.{has_text, is_tenant}
use open_feishu.Agent.Schedules.Calendar.{Failure}
use open_feishu.Agent.Schedules.Tables.{meets_key}
use open_feishu.Agent.Schedules.Rows.{
  DeliveryStatus, delivered, delivery_unknown, sending, RunRow, Store, is_unknown, Reconciliation,
  Attempt,
}
use open_feishu.Agent.Schedules.Waits.{
  settle, settle_as, reconciled_row, reconcile_row, reconcile_unknown, in_tenant, is_decision,
}
use open_feishu.Agent.Schedules.Deliveries.{
  may_notify, sending_row, sent, claim_delivery, is_stale, stale_row, expire_deliveries, is_outcome,
  sends_under, recorded_row, record_delivery,
}
use open_feishu.Agent.Schedules.Calls.{after}
use open_feishu.Agent.Schedules.Lifecycle.{
  settles, notifies, notified, is_settled, Moves, Change, Change-refl, update_where-Change,
  update_key-Change,
}
use open_feishu.Agent.Schedules.Lifecycle.Runs.{read_back-Change}

settle_as-settled : (decision : String) → is_settled (settle_as decision) ≡ true
settle_as-settled decision = ground arith

reconciled_row-Moves :
    (decision : String) (now : ℕ) (r : RunRow)
    → is_unknown r.status ≡ true
    → Moves r (reconciled_row (settle_as decision) now r)
unfolding reconciled_row
reconciled_row-Moves decision now r u = record {
  same = refl;
  move = settles (ground arith) (settle_as-settled decision) refl;
}

settle-Change :
    (id decision : String) (now : ℕ) (s : Store) (o : Outcome Failure (Dict String Reconciliation))
    → Change s.runs (after (settle id decision now s o) s).runs
settle-Change id decision now s (err e) = Change-refl s.runs
settle-Change id decision now s (ok reconciliations) = read_back-Change id s _ (
    update_key-Change id (λ r. is_unknown r.status) (reconciled_row (settle_as decision) now) s.runs
      (reconciled_row-Moves decision now))

reconcile_row-Change :
    (id tenant_key actor decision reason : String) (now : ℕ) (s : Store) (o : Option RunRow)
    → Change s.runs (after (reconcile_row id tenant_key actor decision reason now s o) s).runs
unfolding reconcile_row
reconcile_row-Change id tenant_key actor decision reason now s none = Change-refl s.runs
reconcile_row-Change id tenant_key actor decision reason now s (some r) =
    elim (Bool-cases (in_tenant s.tasks tenant_key r)) [
      | inr e ↦ rw e (Change-refl s.runs)
      | inl e ↦ elim (Bool-cases (is_unknown r.status)) [
        | inr f ↦ rw (e, f) (Change-refl s.runs)
        | inl f ↦ rw (e, f) (settle-Change id decision now s _)
      ]
    ]

pub reconcile_unknown-Change :
    (id tenant_key actor decision reason : String) (now : ℕ) (s : Store)
    → Change s.runs (after (reconcile_unknown id tenant_key actor decision reason now s) s).runs
unfolding reconcile_unknown
reconcile_unknown-Change id tenant_key actor decision reason now s =
    elim (Bool-cases (is_tenant tenant_key)) [
      | inr e ↦ rw e (Change-refl s.runs)
      | inl e ↦
          elim (Bool-cases (
            not (has_text actor)
            || (not (has_text reason)
                || (ltb 2000 (count reason) || not (is_decision decision))))) [
                  | inl f ↦ rw (e, f) (Change-refl s.runs)
                  | inr f ↦
                      rw (e, f)
                        (reconcile_row-Change id tenant_key actor decision reason now s
                          (Dict.get id s.runs))
                ]
    ]

sending_row-Moves :
    (token : String) (deadline : ℕ) (r : RunRow)
    → may_notify r ≡ true
    → Moves r (sending_row token deadline r)
unfolding sending_row
sending_row-Moves token deadline r h = record {
  same = refl;
  move = notifies (ground arith) refl (ground arith) refl;
}

sent-Change :
    (id token : String) (deadline : ℕ) (s : Store) (o : Outcome Failure (Dict String Attempt))
    → Change s.runs (after (sent id deadline token s o) s).runs
sent-Change id token deadline s (err e) = Change-refl s.runs
sent-Change id token deadline s (ok attempts) =
    update_key-Change id may_notify (sending_row token deadline) s.runs
      (sending_row-Moves token deadline)

pub claim_delivery-Change :
    (id : String) (now lease_seconds : ℕ) (token : String) (s : Store)
    → Change s.runs (after (claim_delivery id now lease_seconds token s) s).runs
unfolding claim_delivery
claim_delivery-Change id now lease_seconds token s = elim (Bool-cases (lease_seconds == 0)) [
  | inl e ↦ rw e (Change-refl s.runs)
  | inr e ↦ elim (Bool-cases (meets_key id may_notify s.runs)) [
    | inl m ↦ rw (e, m) (sent-Change id token (now + lease_seconds) s _)
    | inr m ↦ rw (e, m) (Change-refl s.runs)
  ]
]

pub expire_deliveries-Change : (now : ℕ) (s : Store) → Change s.runs (expire_deliveries now s).runs
unfolding expire_deliveries stale_row
expire_deliveries-Change now s =
    update_where-Change (is_stale now) stale_row s.runs
      (λ r p. record { same = refl; move = notified refl (ground arith) (inr refl) })

is_outcome-cases :
    (status : DeliveryStatus)
    → is_outcome status ≡ true
    → (status ≡ delivered) ⊎ (status ≡ delivery_unknown)
is_outcome-cases delivered h = inl refl
is_outcome-cases delivery_unknown h = inr refl
is_outcome-cases sending h = cc
is_outcome-cases DeliveryStatus.pending h = cc

recorded_row-Moves :
    (status : DeliveryStatus) (token : String) (r : RunRow)
    → is_outcome status ≡ true
    → sends_under token r ≡ true
    → Moves r (recorded_row status r)
unfolding recorded_row
recorded_row-Moves status token r o h = record {
  same = refl;
  move = notified refl (ground arith) (is_outcome-cases status o);
}

pub record_delivery-Change :
    (id : String) (status : DeliveryStatus) (token : String) (now : ℕ) (s : Store)
    → Change s.runs (after (record_delivery id status token now s) s).runs
unfolding record_delivery
record_delivery-Change id status token now s = elim (Bool-cases (is_outcome status)) [
  | inr e ↦ rw e (Change-refl s.runs)
  | inl e ↦ elim (Bool-cases (meets_key id (sends_under token) s.runs)) [
    | inl m ↦
        rw (e, m)
          (read_back-Change id s _ (
            update_key-Change id (sends_under token) (recorded_row status) s.runs
              (λ r. recorded_row-Moves status token r e)))
    | inr m ↦ rw (e, m) (Change-refl s.runs)
  ]
]
