-- ===== src/Agent/Approvals/Once.antt =====
-- The approvals of an agent over any sequence of requests, decisions, cancellations and expiries, with
-- any number of runs in flight: the tool of an approval is called at most once.
use open_feishu.Common.{
  ℕ, ◌≡◌, refl, sym, ap, ◌∙◌, subst, String, true, false, Bool-cases, Option-cases, Option, none,
  some, inl, inr, [], ◌&&◌, string_eq, mem, Unique,
}
use open_feishu.Dict
use open_feishu.Dict.{Dict, get-put, get-put_self}
use open_feishu.Agent.Pending.{
  executing, PendingApproval, Approvals, ClaimResult, claimed, is_awaiting, move_to, put, get,
  claim, expire_if_pending,
}
use open_feishu.Agent.Approvals.{Engine, Outside, World, rejected, says}
use open_feishu.Agent.Approvals.Running.{conclude, has_text}
use open_feishu.Agent.Approvals.Decision.{
  claim_failure, decide, if_claimed, is_none, reject, cancels, run_claimed, on_decision, on_cancel,
  with_key, on_request,
}
use open_feishu.Agent.Approvals.Claims.{
  claims_nothing, claims_expired, claims_approval, claim-Claims, expire_if_pending-cases,
  is_claimed,
}
use open_feishu.Agent.Approvals.Invariant.{absent, IsValid, flies-running, stored-keyed}
use open_feishu.Agent.Approvals.Preserve.{
  calls_of, expire-IsValid, request-IsValid, begin-IsValid, claim-IsValid, WorldIsValid,
  if_claimed-WorldIsValid, run_claimed-IsValid, conclude-cancelled,
}
use open_feishu.Agent.Approvals.Ends.{records-world}

-- The world, and the approvals whose decision is being run.
pub record System : Type 0 where
  pub world : World
  pub flight : Dict String PendingApproval

-- What the tasks do. `on_decision` for an approval is its claim and then its run, between which others
-- come; what it does while it waits for a tool changes no other approval.
pub data Step (t t' : System) : Type 0 where
  requests :
      (engine : Engine) (out : Outside) (approval : PendingApproval)
      → is_awaiting approval.state ≡ true
      → Dict.get approval.approval_id t.flight ≡ none
      → mem approval.approval_id (calls_of t.world.dispatched) ≡ false
      → t' ≡ record t { world = (on_request engine out approval t.world).1 }
      → Step t t'
  begins :
      (id : String) (expected : Option String) (now : ℕ) (approval : PendingApproval)
      (s : Approvals)
      → get id t.world.approvals ≡ some approval
      → claim now id expected t.world.approvals ≡ (s, claimed)
      → t' ≡ record {
        world = record (t.world) { approvals = s };
        flight = Dict.put id approval t.flight;
      }
      → Step t t'
  ends :
      (engine : Engine) (out : Outside) (id : String) (approval : PendingApproval)
      → Dict.get id t.flight ≡ some approval
      → t' ≡ record {
        world = (run_claimed engine out approval t.world).1;
        flight = Dict.del id t.flight;
      }
      → Step t t'
  is_refused :
      (id : String) (expected : Option String) (now : ℕ) (c : ClaimResult) (s : Approvals)
      → claim now id expected t.world.approvals ≡ (s, c)
      → is_claimed c ≡ false
      → t' ≡ record t { world = record (t.world) { approvals = s } }
      → Step t t'
  rejects :
      (engine : Engine) (out : Outside) (id : String) (expected : Option String)
      → t' ≡ record t { world = (on_decision engine out id reject expected t.world).1 }
      → Step t t'
  withdraws :
      (engine : Engine) (out : Outside) (id : String)
      → t' ≡ record t { world = (on_cancel engine out id t.world).1 }
      → Step t t'
  expires :
      (id : String) (now : ℕ)
      → t' ≡ record t {
        world = record (t.world) { approvals = (expire_if_pending id now t.world.approvals).0 };
      }
      → Step t t'

-- The states that an agent without approvals can reach.
pub data Reach : System → Type 0 where
  made :
      {w : World} → w.approvals ≡ [] → w.dispatched ≡ [] → Reach (record { world = w; flight = [] })
  after : {t t' : System} → Reach t → Step t t' → Reach t'

abbrev Holds : System → Type 0
Holds t = WorldIsValid t.flight t.world

with_key-kept :
    (engine : Engine) (a : PendingApproval)
    → ((with_key engine a).approval_id ≡ a.approval_id) × ((with_key engine a).state ≡ a.state)
unfolding with_key
with_key-kept engine a =
    elim (Bool-cases
      (is_none a.idempotency_key && (has_text a.created_message_id && has_text a.payload_sha256))) [
        | inl p ↦ simp p (refl, refl)
        | inr p ↦ simp p (refl, refl)
      ]

request-Holds :
    (engine : Engine) (out : Outside) (a : PendingApproval) (t : System)
    → is_awaiting a.state ≡ true
    → Dict.get a.approval_id t.flight ≡ none
    → mem a.approval_id (calls_of t.world.dispatched) ≡ false
    → Holds t
    → WorldIsValid t.flight (on_request engine out a t.world).1
unfolding on_request put
request-Holds engine out a t x f c v =
    let b = with_key engine a in
    let (i, j) = with_key-kept engine a in
    let u = record (t.world) { approvals = put b t.world.approvals } in
    let (rows, p) = records-world engine out "write_request" b false u in
    subst (WorldIsValid t.flight) (sym p) (
      request-IsValid t.world.approvals _ t.flight v b (ap is_awaiting j ∙ x)
        (ap (λ k. mem k (calls_of t.world.dispatched)) i ∙ c) (ap (λ k. Dict.get k t.flight) i ∙ f))

begin-Holds :
    (id : String) (expected : Option String) (now : ℕ) (a : PendingApproval) (s : Approvals)
    (t : System)
    → get id t.world.approvals ≡ some a
    → claim now id expected t.world.approvals ≡ (s, claimed)
    → Holds t
    → IsValid s (calls_of t.world.dispatched) (Dict.put id a t.flight)
unfolding get
begin-Holds id expected now a s t g c v = elim (claim-Claims now id expected t.world.approvals) [
  | claims_nothing d x p ↦
      let q : is_claimed claimed ≡ false = ap (λ r. is_claimed r.1) (sym c ∙ p) ∙ x in cc
  | claims_expired b w p ↦ let q : false ≡ true = ap (λ r. is_claimed r.1) (sym p ∙ c) in cc
  | claims_approval b w x p ↦
      let q : a ≡ b = (let h = sym g ∙ w.0 in cc) in
      let e : s ≡ move_to id executing t.world.approvals = ap (λ r. r.0) (sym c ∙ p) in
      subst (λ a. IsValid s (calls_of t.world.dispatched) (Dict.put id a t.flight)) (sym q)
        (rw e (begin-IsValid t.world.approvals _ t.flight v id b w))
]

-- An approval that is stored, for a task that cancels it.
cancelled-Holds :
    {A : Type 0} (engine : Engine) (out : Outside) (refuse : ClaimResult → A) (answer : A)
    (id : String) (expected : Option String) (a : PendingApproval) (t : System)
    → Dict.get id t.world.approvals ≡ some a
    → Holds t
    → WorldIsValid t.flight
        (if_claimed refuse
          (conclude engine out a "cancelled" "cancel" false answer)
          (claim out.now id expected t.world.approvals)
          t.world).1
cancelled-Holds engine out refuse answer id expected a t p v =
    if_claimed-WorldIsValid refuse (conclude engine out a "cancelled" "cancel" false answer) out.now
      id expected t.flight t.world
      (λ u.
        subst
          (λ k.
            ((conclude engine out a "cancelled" "cancel" false answer u).1.approvals
              ≡ Dict.del k u.approvals)
            × ((conclude engine out a "cancelled" "cancel" false answer u).1.dispatched
                ≡ u.dispatched))
          (stored-keyed t.world.approvals _ t.flight v id a p)
          (conclude-cancelled engine out a "cancel" false answer u))
      v

end-Holds :
    (engine : Engine) (out : Outside) (id : String) (a : PendingApproval) (t : System)
    → Dict.get id t.flight ≡ some a
    → Holds t
    → WorldIsValid (Dict.del id t.flight) (run_claimed engine out a t.world).1
end-Holds engine out id a t f v =
    let i = (flies-running t.world.approvals _ t.flight v id a f).0 in
    subst (λ k. WorldIsValid (Dict.del k t.flight) (run_claimed engine out a t.world).1) i
      (run_claimed-IsValid engine out a t.flight t.world
        (subst (λ k. Dict.get k t.flight ≡ some a) (sym i) f) v)

Step-Holds : (t t' : System) → Step t t' → Holds t → Holds t'
unfolding on_decision on_cancel decide cancels get
Step-Holds t t' (requests engine out approval x f c e) v =
    subst Holds (sym e) (request-Holds engine out approval t x f c v)
Step-Holds t t' (begins id expected now approval s g c e) v =
    subst Holds (sym e) (begin-Holds id expected now approval s t g c v)
Step-Holds t t' (ends engine out id approval f e) v =
    subst Holds (sym e) (end-Holds engine out id approval t f v)
Step-Holds t t' (is_refused id expected now c s p h e) v =
    subst Holds (sym e) (claim-IsValid t.world.approvals _ t.flight v now id expected s c p h)
Step-Holds t t' (rejects engine out id expected e) v =
    subst Holds (sym e) (elim (Option-cases (Dict.get id t.world.approvals)) [
      | inl p ↦ rw (on_decision, p) v
      | inr (a, p) ↦
          rw (on_decision, p)
            (cancelled-Holds engine out (λ c. says engine (claim_failure c)) (says engine rejected)
              id expected a t p v)
    ])
Step-Holds t t' (withdraws engine out id e) v =
    subst Holds (sym e) (elim (Option-cases (Dict.get id t.world.approvals)) [
      | inl p ↦ rw (on_cancel, p) v
      | inr (a, p) ↦
          rw (on_cancel, p)
            (cancelled-Holds engine out (λ c. false) true id a.payload_sha256 a t p v)
    ])
Step-Holds t t' (expires id now e) v =
    subst Holds (sym e) (elim (expire_if_pending-cases id now t.world.approvals) [
      | inl p ↦ rw p v
      | inr (a, w, p) ↦ rw p (expire-IsValid t.world.approvals _ t.flight v id a w)
    ])

-- In every state that can be reached each approval stands in one of these ways: it is gone; it waits
-- or has expired, and its tool has not been called; it is in execution, which it is just while its run
-- is in flight, and no earlier run has called its tool; or its execution is unknown, its tool has been
-- called, and no run is in flight.
pub Reach-IsValid :
    {t : System} → Reach t → IsValid t.world.approvals (calls_of t.world.dispatched) t.flight
unfolding Dict.get
Reach-IsValid (made p q) = rw (p, q) (record { stands = λ id. absent refl refl; once = tt })
Reach-IsValid (after r st) = Step-Holds _ _ st (Reach-IsValid r)

-- In every state that can be reached, whatever the order of requests, claims, ends of runs,
-- rejections, cancellations and expiries, no approval is among those whose tools were called twice.
pub dispatched-Unique : {t : System} → Reach t → Unique (calls_of t.world.dispatched)
dispatched-Unique r = (Reach-IsValid r).once
