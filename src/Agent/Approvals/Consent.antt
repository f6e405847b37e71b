-- ===== src/Agent/Approvals/Consent.antt =====
-- When `on_decision` calls a tool, and with what.
use open_feishu.Common.{
  ◌≡◌, refl, sym, ap, ◌∙◌, subst, String, true, false, Option-cases, Option, some, ◌⊎◌, inl, inr,
  string_eq, Outcome, none, eq_iff, arith,
}
use open_feishu.Dict
use open_feishu.Dict.{or_else}
use open_feishu.Agent.Pending.{
  executing, is_awaiting, PendingApproval, ClaimResult, set_state, move_to, get, is_tampered,
}
use open_feishu.Agent.Approvals.{ApprovalOutcome, Engine, Outside, World, rejected, says}
use open_feishu.Agent.Approvals.Action.{Cancelled}
use open_feishu.Agent.Approvals.Decision.{
  Decision, approve, reject, claim_failure, decide, on_decision,
}
use open_feishu.Agent.Approvals.Claims.{
  Waits, claims_nothing, claims_expired, claims_approval, claim-Claims,
}
use open_feishu.Agent.Approvals.Invariant.{get-move_to_self}
use open_feishu.Agent.Approvals.Ends.{
  Ends, executes, replays, fails, freezes, stops_called, stops_uncalled, Called, Uncalled,
}
use open_feishu.Agent.Approvals.Settled.{run_claimed-Ends}
use open_feishu.Agent.Approvals.Preserve.{refused-if_claimed, conclude-cancelled}

Ends-calls :
    (a : PendingApproval) (w : World) (r : Outcome Cancelled ApprovalOutcome × World)
    → Ends a w r
    → Uncalled w r.1 ⊎ Called a w r.1
Ends-calls a w r (executes st d e) = inr e
Ends-calls a w r (replays st d e) = inl e
Ends-calls a w r (fails st d (inl e)) = inr e
Ends-calls a w r (fails st d (inr e)) = inl e
Ends-calls a w r (freezes st d e) = inr e
Ends-calls a w r (stops_called st d e) = inr e
Ends-calls a w r (stops_uncalled st d e) = inl e

-- What the card gave is the stored hash of the payload; or it gave none, and none is stored.
abbrev pub GivesHash : Option String → PendingApproval → Type 0
GivesHash expected a =
    let stored = or_else a.payload_sha256 "" in
    (expected ≡ some stored) ⊎ ((expected ≡ none) × (stored ≡ ""))

untampered :
    (expected : Option String) (a : PendingApproval)
    → is_tampered expected a ≡ false
    → GivesHash expected a
unfolding is_tampered
untampered none a h =
    let stored = or_else a.payload_sha256 "" in inr (refl, ground (arith, eq_iff stored "", h))
untampered (some e) a h =
    let stored = or_else a.payload_sha256 "" in
    let same : e ≡ stored = ground (arith, eq_iff e stored, h) in inl (ap some same)

-- What calls a tool: the user approved, the approval was waiting, and what the card gave as the hash of
-- the payload is the stored one; the call is the stored one.
abbrev pub Consents : String → Decision → Option String → World → World → Type 0
Consents id decision expected w v =
    (a : PendingApproval) × Waits id w.approvals a
    × GivesHash expected a
    × (decision ≡ approve)
    × Called a w v

decide-calls :
    (engine : Engine) (out : Outside) (id : String) (decision : Decision) (a : PendingApproval)
    (w : World)
    → Dict.get id w.approvals ≡ some a
    → a.approval_id ≡ id
    → Uncalled w
        (decide engine out decision a (record w { approvals = move_to id executing w.approvals })).1
      ⊎ ((decision ≡ approve)
          × Called a w
              (decide engine out decision a
                (record w { approvals = move_to id executing w.approvals })).1)
unfolding decide get
decide-calls engine out id reject a w g i =
    inl
      (conclude-cancelled engine out a "cancel" false (says engine rejected)
        (record w { approvals = move_to id executing w.approvals })).1
decide-calls engine out id approve a w g i =
    let v = record w { approvals = move_to id executing w.approvals } in
    let stored : Dict.get a.approval_id v.approvals ≡ some (set_state executing a) =
      ap (λ k. Dict.get k v.approvals) i ∙ get-move_to_self id executing w.approvals a g in
    elim (Ends-calls a v _
      (run_claimed-Ends engine out a v (set_state executing a, stored, refl))) [
        | inl e ↦ inl e
        | inr e ↦ inr (refl, e)
      ]

-- Where approvals are stored under their own identifiers, a decision calls no tool, or it calls that
-- of the approval once: then the decision is to approve, the approval waited for it, the hash that came
-- with the decision is the stored one, or it came with none and none is stored, and the call has the
-- stored name and arguments.
pub on_decision-Consents :
    (engine : Engine) (out : Outside) (id : String) (decision : Decision) (expected : Option String)
    (w : World)
    → ((a : PendingApproval) → Dict.get id w.approvals ≡ some a → a.approval_id ≡ id)
    → Uncalled w (on_decision engine out id decision expected w).1
      ⊎ Consents id decision expected w (on_decision engine out id decision expected w).1
unfolding on_decision get
on_decision-Consents engine out id decision expected w keyed =
    elim (Option-cases (Dict.get id w.approvals)) [
      | inl p ↦ rw (on_decision, p) (inl refl)
      | inr (a, p) ↦
          let refuse : ClaimResult → ApprovalOutcome = λ c. says engine (claim_failure c) in
          let act = decide engine out decision a in
          rw (on_decision, p)
            (elim (claim-Claims out.now id expected w.approvals) [
              | claims_nothing c x q ↦
                  rw (q, refused-if_claimed refuse act w.approvals c w x) (inl refl)
              | claims_expired b h q ↦ rw q (inl refl)
              | claims_approval b h t q ↦
                  let e : a ≡ b = (let f = sym p ∙ h.0 in cc) in
                  rw q (elim (decide-calls engine out id decision a w p (keyed a p)) [
                    | inl u ↦ inl u
                    | inr (d, u) ↦ inr (
                      a,
                      (
                        refl,
                        subst (λ (x : PendingApproval). is_awaiting x.state ≡ true) (sym e) h.1,
                      ),
                      untampered expected a (subst (λ x. is_tampered expected x ≡ false) (sym e) t),
                      d,
                      u,
                    )
                  ])
            ])
    ]
