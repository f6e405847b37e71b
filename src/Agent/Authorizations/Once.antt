-- ===== src/Agent/Authorizations/Once.antt =====
-- Of any claims of an authorization one succeeds at most.
use mathlib.Core.Option
use open_feishu.Common.{
  ℕ, ◌+◌, ◌≤◌, ◌≡◌, refl, sym, ap, ◌∙◌, subst, arith, String, true, false, ◌&&◌, not, Bool-cases,
  Option-cases, Option, none, some, ◌⊎◌, inl, inr, List, [], ◌∷◌, ◌==◌, string_eq, eq_iff,
  if◌then◌else◌,
}
use open_feishu.Dict
use open_feishu.Dict.{Dict, get-modify, beq_self}
use open_feishu.Agent.Pending.{
  PendingState, executing, expired, is_scheduled, is_awaiting, is_expired, is_over,
}
use open_feishu.Agent.Approvals.Claims.{is_claimed, expiry-cases}
use open_feishu.Agent.Authorizations.{
  PendingAuthorization, scheduled_authorization_ttl_seconds, Authorizations, set_state, move_to,
  judge, claim, expire_if_pending,
}

-- The calls of tasks that want to go on with an authorization, or to end it.
pub data Call : Type 0 where
  claims expires : (id : String) (now : ℕ) → Call

-- How many claims of one authorization succeed.
unfoldable pub won : String → List Call → Authorizations → ℕ
won id [] s = 0
won id (claims k now ∷ cs) s =
    (if (k == id) && is_claimed (claim now k s).1 then 1 else 0) + won id cs (claim now k s).0
won id (expires k now ∷ cs) s = won id cs (expire_if_pending k now s).0

-- A call leaves the authorizations as they are, or moves one that was waiting.
abbrev Rests : Authorizations → Authorizations → Type 0
Rests s s' = s' ≡ s

abbrev Leaves : String → Authorizations → Authorizations → Type 0
Leaves k s s' =
    (a : PendingAuthorization) × (st : PendingState) × (Dict.get k s ≡ some a)
    × (is_awaiting a.state ≡ true)
    × (is_awaiting st ≡ false)
    × (s' ≡ move_to k st s)

claim-cases :
    (now : ℕ) (k : String) (s : Authorizations)
    → (((claim now k s).0 ≡ s) × (is_claimed (claim now k s).1 ≡ false))
      ⊎ Leaves k s (claim now k s).0
unfolding claim judge
claim-cases now k s = elim (Option-cases (Dict.get k s)) [
  | inl p ↦ inl (rw (claim, p) (refl, refl))
  | inr (a, p) ↦ elim (Bool-cases (is_scheduled a.session_id && is_expired a.state)) [
    | inl q ↦ inl (rw (claim, p) (simp q (refl, refl)))
    | inr q ↦
        elim (Bool-cases (
          is_scheduled a.session_id
          && (is_awaiting a.state
              && is_over scheduled_authorization_ttl_seconds now a.created_at))) [
                | inl t ↦ inr (a, expired, p, ground arith, refl, rw (claim, p) (simp (q, t)))
                | inr t ↦ elim (Bool-cases (not (is_awaiting a.state))) [
                  | inl u ↦ inl (rw (claim, p) (simp (q, t, u) (refl, refl)))
                  | inr u ↦
                      inr (a, executing, p, ground arith, refl, rw (claim, p) (simp (q, t, u)))
                ]
              ]
  ]
]

expire-cases :
    (k : String) (now : ℕ) (s : Authorizations)
    → ((expire_if_pending k now s).0 ≡ s) ⊎ Leaves k s (expire_if_pending k now s).0
unfolding expire_if_pending
expire-cases k now s = elim (Option-cases (Dict.get k s)) [
  | inl p ↦ inl (rw (expire_if_pending, p) refl)
  | inr (a, p) ↦ elim (Bool-cases (is_scheduled a.session_id)) [
    | inr q ↦ inl (rw (expire_if_pending, p) (simp q))
    | inl q ↦ elim (expiry-cases scheduled_authorization_ttl_seconds now a.state a.created_at) [
      | inl e ↦ inl (rw (expire_if_pending, p) (simp (q, e)))
      | inr (x, e) ↦ inr (a, expired, p, x, refl, rw (expire_if_pending, p) (simp (q, e)))
    ]
  ]
]

-- The authorization does not wait.
abbrev Idle : String → Authorizations → Type 0
Idle id s = (a : PendingAuthorization) → Dict.get id s ≡ some a → is_awaiting a.state ≡ false

set_state-Idle :
    (st : PendingState) (o : Option PendingAuthorization) (a : PendingAuthorization)
    → is_awaiting st ≡ false
    → Option.map (set_state st) o ≡ some a
    → is_awaiting a.state ≡ false
set_state-Idle st none a h e = cc
set_state-Idle st (some b) a h e =
    let t : set_state st b ≡ a = cc in
    ap (λ (a : PendingAuthorization). is_awaiting a.state) (sym t) ∙ h

moved-Idle :
    (k : String) (st : PendingState) (s : Authorizations)
    → is_awaiting st ≡ false
    → Idle k (move_to k st s)
moved-Idle k st s h a g =
    set_state-Idle st (Dict.get k s) a h
      (sym (get-modify k k (set_state st) s ∙ simp (beq_self k)) ∙ g)

Leaves-Idle : (id k : String) (s s' : Authorizations) → Leaves k s s' → Idle id s → Idle id s'
Leaves-Idle id k s s' (a, st, p, w, i, e) idle = elim (Bool-cases (k == id)) [
  | inl q ↦
      subst (Idle id) (sym e)
        (subst (λ j. Idle j (move_to k st s)) ((eq_iff k id).0 q) (moved-Idle k st s i))
  | inr q ↦ λ b g. idle b (sym (ap (Dict.get id) e ∙ get-modify k id (set_state st) s ∙ simp q) ∙ g)
]

-- A claim that succeeds was of one that waited.
claimed-waits :
    (now : ℕ) (id k : String) (s : Authorizations)
    → Idle id s
    → ((k == id) && is_claimed (claim now k s).1) ≡ false
claimed-waits now id k s idle = elim (claim-cases now k s) [
  | inl (p, q) ↦ ground arith
  | inr (a, st, p, w, i, e) ↦ elim (Bool-cases (k == id)) [
    | inr q ↦ simp q
    | inl q ↦ let t = idle a (ap (λ j. Dict.get j s) (sym ((eq_iff k id).0 q)) ∙ p) in cc
  ]
]

claim-Idle : (now : ℕ) (id k : String) (s : Authorizations) → Idle id s → Idle id (claim now k s).0
claim-Idle now id k s idle = elim (claim-cases now k s) [
  | inl (p, q) ↦ subst (Idle id) (sym p) idle
  | inr l ↦ Leaves-Idle id k s _ l idle
]

won-Idle : (id : String) (cs : List Call) (s : Authorizations) → Idle id s → won id cs s ≡ 0
unfolding won
won-Idle id [] s idle = refl
won-Idle id (claims k now ∷ cs) s idle =
    simp (claimed-waits now id k s idle)
      (let e = won-Idle id cs _ (claim-Idle now id k s idle) in omega (arith, e))
won-Idle id (expires k now ∷ cs) s idle = won-Idle id cs _ (elim (expire-cases k now s) [
  | inl p ↦ subst (Idle id) (sym p) idle
  | inr l ↦ Leaves-Idle id k s _ l idle
])

-- After a claim of the authorization it does not wait, where it was stored.
claim-claimed :
    (now : ℕ) (id k : String) (s : Authorizations)
    → ((k == id) && is_claimed (claim now k s).1) ≡ true
    → Idle id (claim now k s).0
claim-claimed now id k s h = elim (claim-cases now k s) [
  | inl (p, q) ↦ let t : is_claimed (claim now k s).1 ≡ true = ground arith in cc
  | inr (a, st, p, w, i, e) ↦
      let t : (k == id) ≡ true = ground arith in
      subst (Idle id) (sym e)
        (subst (λ j. Idle j (move_to k st s)) ((eq_iff k id).0 t) (moved-Idle k st s i))
]

-- Whatever the authorizations are, and whatever tasks claim or expire them at whatever times: of the
-- claims of one authorization one succeeds at most.
pub won-le : (id : String) (cs : List Call) (s : Authorizations) → won id cs s ≤ 1
unfolding won
won-le id [] s = omega arith
won-le id (claims k now ∷ cs) s = elim (Bool-cases ((k == id) && is_claimed (claim now k s).1)) [
  | inl t ↦ simp t (let e = won-Idle id cs _ (claim-claimed now id k s t) in omega (arith, e))
  | inr t ↦ simp t (let e = won-le id cs (claim now k s).0 in omega (arith, e))
]
won-le id (expires k now ∷ cs) s = won-le id cs (expire_if_pending k now s).0
