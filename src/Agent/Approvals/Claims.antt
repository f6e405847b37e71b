-- ===== src/Agent/Approvals/Claims.antt =====
-- What a claim, and the expiry of a scheduled approval, do to the approvals.
use open_feishu.Common.{
  ℕ, ◌≡◌, refl, ◌∙◌, arith, String, Bool, true, false, ◌&&◌, not, Bool-cases, Option-cases, Option,
  none, some, ◌⊎◌, inl, inr, string_eq,
}
use open_feishu.Dict
use open_feishu.Dict.{Dict, get-modify}
use open_feishu.Agent.Pending.{
  scheduled_approval_ttl_seconds, PendingState, awaiting, executing, execution_unknown, expired,
  other, PendingApproval, Approvals, ClaimResult, claimed, claim_expired, expiry, expire_if_pending,
  is_scheduled, is_expired, is_awaiting, is_over, move_to, is_tampered, judge, moved, claim,
}

abbrev pub is_claimed : ClaimResult → Bool
is_claimed claimed = true
is_claimed _ = false

-- The approval waits for its decision.
abbrev pub Waits : String → Approvals → PendingApproval → Type 0
Waits id s a = (Dict.get id s ≡ some a) × (is_awaiting a.state ≡ true)

-- A claim that changes nothing, finds the approval over its time, or succeeds.
pub data Claims (id : String) (expected : Option String) (s : Approvals)
    (r : Approvals × ClaimResult) : Type 0 where
  claims_nothing : (c : ClaimResult) → is_claimed c ≡ false → r ≡ (s, c) → Claims id expected s r
  claims_expired :
      (a : PendingApproval)
      → Waits id s a
      → r ≡ (move_to id expired s, claim_expired)
      → Claims id expected s r
  claims_approval :
      (a : PendingApproval)
      → Waits id s a
      → is_tampered expected a ≡ false
      → r ≡ (move_to id executing s, claimed)
      → Claims id expected s r

claim-hit :
    (now : ℕ) (id : String) (expected : Option String) (s : Approvals) (a : PendingApproval)
    → Dict.get id s ≡ some a
    → claim now id expected s ≡ (moved id (judge now expected a).1 s, (judge now expected a).0)
unfolding claim
claim-hit now id expected s a p = rw (claim, p) refl

is_awaiting-scheduled : (a b c : Bool) → (a && (b && c)) ≡ true → b ≡ true
is_awaiting-scheduled a b c h = ground arith

pub claim-Claims :
    (now : ℕ) (id : String) (expected : Option String) (s : Approvals)
    → Claims id expected s (claim now id expected s)
unfolding claim judge
claim-Claims now id expected s = elim (Option-cases (Dict.get id s)) [
  | inl p ↦ claims_nothing ClaimResult.missing refl (rw (claim, p) refl)
  | inr (a, p) ↦
      let hit = claim-hit now id expected s a p in
      elim (Bool-cases (is_scheduled a.session_id && is_expired a.state)) [
        | inl q ↦ claims_nothing claim_expired refl (hit ∙ simp q)
        | inr q ↦
            elim (Bool-cases (
              is_scheduled a.session_id
              && (is_awaiting a.state
                  && is_over scheduled_approval_ttl_seconds now a.created_at))) [
                    | inl t ↦
                        claims_expired a (p, is_awaiting-scheduled _ _ _ t) (hit ∙ simp (q, t))
                    | inr t ↦ elim (Bool-cases (is_tampered expected a)) [
                      | inl u ↦ claims_nothing ClaimResult.tampered refl (hit ∙ simp (q, t, u))
                      | inr u ↦ elim (Bool-cases (not (is_awaiting a.state))) [
                        | inr x ↦ claims_approval a (p, ground arith) u (hit ∙ simp (q, t, u, x))
                        | inl x ↦
                            claims_nothing ClaimResult.already_claimed refl
                              (hit ∙ simp (q, t, u, x))
                      ]
                    ]
                  ]
      ]
]

pub expiry-cases :
    (ttl now : ℕ) (state : PendingState) (created : Option ℕ)
    → ((expiry ttl now state created).1 ≡ none)
      ⊎ ((is_awaiting state ≡ true) × ((expiry ttl now state created).1 ≡ some expired))
expiry-cases ttl now awaiting none = inl refl
expiry-cases ttl now awaiting (some t) = ground arith
expiry-cases ttl now executing t = inl refl
expiry-cases ttl now execution_unknown t = inl refl
expiry-cases ttl now expired t = inl refl
expiry-cases ttl now (other x) t = inl refl

pub expire_if_pending-cases :
    (id : String) (now : ℕ) (s : Approvals)
    → ((expire_if_pending id now s).0 ≡ s)
      ⊎ ((a : PendingApproval) × Waits id s a
          × ((expire_if_pending id now s).0 ≡ move_to id expired s))
unfolding expire_if_pending
expire_if_pending-cases id now s = elim (Option-cases (Dict.get id s)) [
  | inl p ↦ inl (rw (expire_if_pending, p) refl)
  | inr (a, p) ↦ elim (Bool-cases (is_scheduled a.session_id)) [
    | inr q ↦ inl (rw (expire_if_pending, p) (simp q))
    | inl q ↦ elim (expiry-cases scheduled_approval_ttl_seconds now a.state a.created_at) [
      | inl e ↦ inl (rw (expire_if_pending, p) (simp (q, e)))
      | inr (x, e) ↦ inr (a, (p, x), rw (expire_if_pending, p) (simp (q, e)))
    ]
  ]
]
