-- ===== src/Agent/Schedules/Finished.antt =====
-- What happens to a run that has ended.
use mathlib.Core.Option
use open_feishu.Common.{
  ℕ, ◌+◌, ◌≤◌, ◌≡◌, refl, sym, ◌⊎◌, ◌∙◌, subst, String, true, false, Option, none, some, List, [],
  ◌∷◌, inl, inr, ◌==◌, string_eq, nat_eq, eq_iff, if◌then◌else◌, arith, Bool-cases, Outcome, ok,
  err,
}
use open_feishu.Dict
use open_feishu.Dict.{Dict, get-put, get-modify, beq_self}
use open_feishu.Agent.Schedules.Calendar.{Failure, Zones}
use open_feishu.Agent.Schedules.Tables.{update_key, meets_key, holds}
use open_feishu.Agent.Schedules.Rows.{
  Payload, DeliveryStatus, pending, RunRow, Attempt, Store, Transaction, is_open,
}
use open_feishu.Agent.Schedules.Deliveries.{may_notify, sending_row, sent, claim_delivery}
use open_feishu.Agent.Schedules.Calls.{Call, claims_notice, after, perform, perform_all}
use open_feishu.Agent.Schedules.Lifecycle.{
  Move, stays, ends, resumes, settles, notifies, notified, identity, Row, absent, present, Change,
  moves, inserts,
}
use open_feishu.Agent.Schedules.Lifecycle.Calls.{perform-Change}

-- 1 for a run whose notice no one has begun to send.
abbrev unsent_in : DeliveryStatus → ℕ
unsent_in pending = 1
unsent_in _ = 0

abbrev unsent : Option RunRow → ℕ
unsent none = 0
unsent (some r) = unsent_in r.delivery_status

-- The tokens that a claim of a notice gives.
abbrev pub tokens : Transaction (Option String) → ℕ
tokens (ok (s, some token)) = 1
tokens _ = 0

-- The notices of a run that a call lets its caller send.
abbrev pub sends : String → Call → Store → ℕ
sends id (claims_notice k now lease token) s =
    if k == id then tokens (claim_delivery k now lease token s) else 0
sends id _ s = 0

module _ (zones : Zones) (digest : Payload → String) where
  unfoldable pub sends_all : String → List Call → Store → ℕ
  sends_all id [] s = 0
  sends_all id (c ∷ calls) s = sends id c s + sends_all id calls (perform zones digest c s)

-- A run that has ended keeps its status, and its notice does not come back.
record Kept (r q : RunRow) : Type 0 where
  pub identity_kept : identity q ≡ identity r
  pub status_kept : q.status ≡ r.status
  pub notice_kept : unsent_in q.delivery_status ≤ unsent_in r.delivery_status

Move-Kept :
    (r q : RunRow) → is_open r.status ≡ false → identity q ≡ identity r → Move r q → Kept r q
Move-Kept r q o i (stays s d) = record {
  identity_kept = i;
  status_kept = s;
  notice_kept = rw d (omega arith);
}
Move-Kept r q o i (ends c f d) = absurd (ground arith)
Move-Kept r q o i (resumes w s d) = absurd (ground arith)
Move-Kept r q o i (settles s f d) = absurd (ground arith)
Move-Kept r q o i (notifies n s d e) = record {
  identity_kept = i;
  status_kept = s;
  notice_kept = rw e (omega arith);
}
Move-Kept r q o i (notified s d (inl e)) = record {
  identity_kept = i;
  status_kept = s;
  notice_kept = rw e (omega arith);
}
Move-Kept r q o i (notified s d (inr e)) = record {
  identity_kept = i;
  status_kept = s;
  notice_kept = rw e (omega arith);
}

Row-Kept :
    (o p : Option RunRow) (r : RunRow)
    → is_open r.status ≡ false
    → o ≡ some r
    → Row o p
    → (q : RunRow) × (p ≡ some q) × Kept r q
Row-Kept none none r h e absent = cc
Row-Kept none (some p) r h e x = elim x [ ]
Row-Kept (some o) none r h e x = elim x [ ]
Row-Kept (some o) (some p) r h e (present m) =
    let same : o ≡ r = cc in
    (p, refl, subst (λ x. Kept x p) same (Move-Kept o p (rw same h) m.same m.move))

Change-Kept :
    (a b : Dict String RunRow) (id : String) (r : RunRow)
    → is_open r.status ≡ false
    → Dict.get id a ≡ some r
    → Change a b
    → (q : RunRow) × (Dict.get id b ≡ some q) × Kept r q
Change-Kept a b id r o e (moves h) = Row-Kept _ _ r o e (h id)
Change-Kept a b id r o e (inserts n new k d alone f) =
    (r, still, record { identity_kept = refl; status_kept = refl; notice_kept = omega arith })
  where
    still : Dict.get id b ≡ some r
    still = elim (Bool-cases (n.run_id == id)) [
      | inl l ↦
          let same : n.run_id ≡ id = (eq_iff n.run_id id).0 l in
          let gone : Dict.get id a ≡ none = rw same at new in
          absurd (let x : none ≡ some r = sym gone ∙ e in cc)
      | inr l ↦ rw (f, get-put n.run_id id n a, l) e
    ]

begun :
    (token : String) (deadline : ℕ) (o : Option RunRow)
    → holds may_notify o ≡ true
    → 1 + unsent (Option.map (λ r. if may_notify r then sending_row token deadline r else r) o)
      ≤ unsent o
unfolding sending_row
begun token deadline none h = cc
begun token deadline (some r) h = ground arith

sent-unsent :
    (id token : String) (deadline : ℕ) (s : Store) (o : Outcome Failure (Dict String Attempt))
    → meets_key id may_notify s.runs ≡ true
    → tokens (sent id deadline token s o)
        + unsent (Dict.get id (after (sent id deadline token s o) s).runs)
      ≤ unsent (Dict.get id s.runs)
unfolding meets_key update_key
sent-unsent id token deadline s (err e) h = omega arith
sent-unsent id token deadline s (ok attempts) h =
    rw
      (
        get-modify id id (λ r. if may_notify r then sending_row token deadline r else r) s.runs,
        beq_self id,
      )
      (begun token deadline (Dict.get id s.runs) h)

-- A claim that gives a token has begun the notice, which no one had.
claim_delivery-unsent :
    (id : String) (now lease : ℕ) (token : String) (s : Store)
    → tokens (claim_delivery id now lease token s)
        + unsent (Dict.get id (after (claim_delivery id now lease token s) s).runs)
      ≤ unsent (Dict.get id s.runs)
unfolding claim_delivery
claim_delivery-unsent id now lease token s = elim (Bool-cases (lease == 0)) [
  | inl e ↦ rw e (omega arith)
  | inr e ↦ elim (Bool-cases (meets_key id may_notify s.runs)) [
    | inl m ↦ rw (e, m) (sent-unsent id token (now + lease) s _ m)
    | inr m ↦ rw (e, m) (omega arith)
  ]
]

module _ (zones : Zones) (digest : Payload → String) (id : String) where
  sends-zero_or :
      (c : Call) (s : Store)
      → (sends id c s ≡ 0)
        ⊎ (sends id c s + unsent (Dict.get id (perform zones digest c s).runs)
            ≤ unsent (Dict.get id s.runs))
  unfolding perform
  sends-zero_or (claims_notice k now lease token) s = elim (Bool-cases (k == id)) [
    | inl e ↦
        let same : k ≡ id = (eq_iff k id).0 e in
        inr (rw (e, same) (claim_delivery-unsent id now lease token s))
    | inr e ↦ inl (rw e refl)
  ]
  sends-zero_or _ s = inl refl

  step-Kept :
      (c : Call) (s : Store) (r : RunRow)
      → is_open r.status ≡ false
      → Dict.get id s.runs ≡ some r
      → (q : RunRow) × (Dict.get id (perform zones digest c s).runs ≡ some q)
        × (Kept r q)
        × (sends id c s + unsent_in q.delivery_status ≤ unsent_in r.delivery_status)
  step-Kept c s r o e =
      let (q, f, k) = Change-Kept s.runs _ id r o e (perform-Change zones digest c s) in
      let bound : sends id c s + unsent_in q.delivery_status ≤ unsent_in r.delivery_status =
        elim (sends-zero_or c s) [
          | inl z ↦ omega (arith, z, k.notice_kept)
          | inr z ↦ rw (e, f) at z
        ] in
      (q, f, k, bound)

  sends_all-le_unsent :
      (calls : List Call) (s : Store) (r : RunRow)
      → is_open r.status ≡ false
      → Dict.get id s.runs ≡ some r
      → (q : RunRow) × (Dict.get id (perform_all zones digest calls s).runs ≡ some q)
        × (identity q ≡ identity r)
        × (q.status ≡ r.status)
        × (sends_all zones digest id calls s ≤ unsent_in r.delivery_status)
  unfolding sends_all perform_all
  sends_all-le_unsent [] s r o e = (r, e, refl, refl, omega arith)
  sends_all-le_unsent (c ∷ calls) s r o e =
      let (q, f, k, b) = step-Kept c s r o e in
      let (p, g, i, t, n) =
        sends_all-le_unsent calls (perform zones digest c s) q (rw k.status_kept o) f in
      (p, g, i ∙ k.identity_kept, t ∙ k.status_kept, omega (arith, n, b))

unsent_in-le_one : (d : DeliveryStatus) → unsent_in d ≤ 1
unsent_in-le_one d = ground arith

-- Once a run has ended, no sequence of calls loses it, changes its status or what it is a run of, or
-- lets its notice be sent more than once.
pub perform_all-once :
    (zones : Zones) (digest : Payload → String) (id : String) (calls : List Call) (s : Store)
    (r : RunRow)
    → is_open r.status ≡ false
    → Dict.get id s.runs ≡ some r
    → (q : RunRow) × (Dict.get id (perform_all zones digest calls s).runs ≡ some q)
      × (identity q ≡ identity r)
      × (q.status ≡ r.status)
      × (sends_all zones digest id calls s ≤ 1)
perform_all-once zones digest id calls s r o e =
    let (q, f, i, t, n) = sends_all-le_unsent zones digest id calls s r o e in
    (q, f, i, t, omega (arith, n, unsent_in-le_one r.delivery_status))
