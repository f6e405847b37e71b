-- ===== src/Agent/Approvals/Preserve.antt =====
-- What the engine's calls do to the approvals keeps how each stands.
use open_feishu.Common.{
  ℕ, ◌≡◌, refl, sym, ap, ◌∙◌, subst, String, Bool, true, false, Option, none, some, ◌⊎◌, inl, inr,
  List, [], ◌∷◌, ◌++◌, ◌==◌, string_eq, mem, mem-append, Unique-snoc, arith,
}
use open_feishu.Dict
use open_feishu.Dict.{Dict, get-put_self, beq_self}
use open_feishu.Agent.Pending.{
  awaiting, executing, execution_unknown, expired, PendingApproval, Approvals, ClaimResult, claimed,
  is_awaiting, move_to, get, claim, complete,
}
use open_feishu.Agent.Approvals.{Engine, Outside, World, Dispatch}
use open_feishu.Agent.Approvals.Action.{Action}
use open_feishu.Agent.Approvals.Running.{conclude}
use open_feishu.Agent.Approvals.Decision.{if_claimed, run_claimed}
use open_feishu.Agent.Approvals.Claims.{
  Waits, claims_nothing, claims_expired, claims_approval, claim-Claims, is_claimed,
}
use open_feishu.Agent.Approvals.Invariant.{
  absent, waiting, running, unknown, IsValid, del-Elsewhere, put-Elsewhere, move_to-Elsewhere,
  get-del_self, get-move_to_self, change-IsValid, Waits-free, flies-running, quiet-IsValid,
}
use open_feishu.Agent.Approvals.Ends.{
  conclude-Leaves, executes, replays, fails, freezes, stops_called, stops_uncalled, Called, call_of,
}
use open_feishu.Agent.Approvals.Settled.{run_claimed-Ends}

-- Whose tools have been called.
abbrev pub calls_of : List Dispatch → List String
calls_of [] = []
calls_of (d ∷ ds) = d.approval_id ∷ calls_of ds

pub calls_of-snoc :
    (ds : List Dispatch) (d : Dispatch)
    → calls_of (ds ++ d ∷ []) ≡ calls_of ds ++ d.approval_id ∷ []
calls_of-snoc [] d = refl
calls_of-snoc (c ∷ ds) d = ap (λ xs. c.approval_id ∷ xs) (calls_of-snoc ds d)

pub mem-snoc_other :
    (k : String) (xs : List String) (id : String)
    → (k == id) ≡ false
    → mem id (xs ++ k ∷ []) ≡ mem id xs
mem-snoc_other k xs id h = ground (arith, mem-append id xs (k ∷ []))

pub mem-snoc_self : (k : String) (xs : List String) → mem k (xs ++ k ∷ []) ≡ true
mem-snoc_self k xs = ground (arith, mem-append k xs (k ∷ []), beq_self k)

module _ (s : Approvals) (calls : List String) (flight : Dict String PendingApproval)
    (v : IsValid s calls flight) where
  pub expire-IsValid :
      (k : String) (a : PendingApproval) → Waits k s a → IsValid (move_to k expired s) calls flight
  expire-IsValid k a w =
      let (i, c, f) = Waits-free s calls flight v k a w in
      quiet-IsValid s calls flight v k _ (move_to-Elsewhere k expired s)
        (waiting _ (get-move_to_self k expired s a w.0) i (inr refl) c f)

  pub drop-IsValid :
      (k : String) (a : PendingApproval)
      → Waits k s a
      → IsValid (Dict.del k (move_to k executing s)) calls flight
  drop-IsValid k a w =
      let (i, c, f) = Waits-free s calls flight v k a w in
      quiet-IsValid s calls flight v k _
        (λ id h. del-Elsewhere k _ id h ∙ move_to-Elsewhere k executing s id h)
        (absent (get-del_self k _) f)

  pub request-IsValid :
      (a : PendingApproval)
      → is_awaiting a.state ≡ true
      → mem a.approval_id calls ≡ false
      → Dict.get a.approval_id flight ≡ none
      → IsValid (Dict.put a.approval_id a s) calls flight
  request-IsValid a w c f =
      quiet-IsValid s calls flight v a.approval_id _ (put-Elsewhere a.approval_id a s)
        (waiting a (get-put_self a.approval_id a s) refl (inl w) c f)

  pub begin-IsValid :
      (k : String) (a : PendingApproval)
      → Waits k s a
      → IsValid (move_to k executing s) calls (Dict.put k a flight)
  begin-IsValid k a w =
      let (i, c, f) = Waits-free s calls flight v k a w in
      change-IsValid s _ calls calls flight _ k v (move_to-Elsewhere k executing s) (λ id h. refl)
        (put-Elsewhere k a flight)
        (running _ a (get-move_to_self k executing s a w.0) i refl c (get-put_self k a flight) i)
        v.once

  -- A claim, and what follows one that succeeds.
  pub claim-IsValid :
      (now : ℕ) (k : String) (expected : Option String) (s' : Approvals) (c : ClaimResult)
      → claim now k expected s ≡ (s', c)
      → is_claimed c ≡ false
      → IsValid s' calls flight
  claim-IsValid now k expected s' c e h = elim (claim-Claims now k expected s) [
    | claims_nothing d x p ↦
        let q : s ≡ s' = ap (λ r. r.0) (sym p ∙ e) in subst (λ s. IsValid s calls flight) q v
    | claims_expired a w p ↦
        subst (λ s. IsValid s calls flight) (ap (λ r. r.0) (sym p ∙ e)) (expire-IsValid k a w)
    | claims_approval a w x p ↦
        let q : is_claimed c ≡ true = sym (ap (λ r. is_claimed r.1) (sym p ∙ e)) in cc
  ]

abbrev pub WorldIsValid : Dict String PendingApproval → World → Type 0
WorldIsValid flight w = IsValid w.approvals (calls_of w.dispatched) flight

pub refused-if_claimed :
    {A : Type 0} (refuse : ClaimResult → A) (act : Action A) (s : Approvals) (c : ClaimResult)
    (w : World)
    → is_claimed c ≡ false
    → (if_claimed refuse act (s, c) w).1 ≡ record w { approvals = s }
refused-if_claimed refuse act s claimed w h = cc
refused-if_claimed refuse act s ClaimResult.already_claimed w h = refl
refused-if_claimed refuse act s ClaimResult.superseded w h = refl
refused-if_claimed refuse act s ClaimResult.tampered w h = refl
refused-if_claimed refuse act s ClaimResult.claim_expired w h = refl
refused-if_claimed refuse act s ClaimResult.missing w h = refl

-- A claim whose success leads to the end of the approval without its tool.
pub if_claimed-WorldIsValid :
    {A : Type 0} (refuse : ClaimResult → A) (act : Action A) (now : ℕ) (k : String)
    (expected : Option String) (flight : Dict String PendingApproval) (w : World)
    → ((u : World)
        → ((act u).1.approvals ≡ Dict.del k u.approvals) × ((act u).1.dispatched ≡ u.dispatched))
    → WorldIsValid flight w
    → WorldIsValid flight (if_claimed refuse act (claim now k expected w.approvals) w).1
if_claimed-WorldIsValid refuse act now k expected flight w drops v =
    elim (claim-Claims now k expected w.approvals) [
      | claims_nothing c x p ↦ rw (p, refused-if_claimed refuse act w.approvals c w x) v
      | claims_expired a h p ↦ rw p (expire-IsValid w.approvals _ flight v k a h)
      | claims_approval a h x p ↦
          let (d, e) = drops (record w { approvals = move_to k executing w.approvals }) in
          rw (p, d, e) (drop-IsValid w.approvals _ flight v k a h)
    ]

module _ (s : Approvals) (calls : List String) (flight : Dict String PendingApproval)
    (v : IsValid s calls flight) (k : String) (a : PendingApproval) (p : Dict.get k s ≡ some a)
    (i : a.approval_id ≡ k) (c : mem k calls ≡ false) where
  dropped-IsValid :
      (calls' : List String)
      → (calls' ≡ calls ++ k ∷ []) ⊎ (calls' ≡ calls)
      → IsValid (Dict.del k s) calls' (Dict.del k flight)
  dropped-IsValid calls' (inl e) = rw e (
      change-IsValid s _ calls _ flight _ k v (del-Elsewhere k s) (mem-snoc_other k calls)
        (del-Elsewhere k flight) (absent (get-del_self k s) (get-del_self k flight))
        (Unique-snoc k calls c v.once))
  dropped-IsValid calls' (inr e) = rw e (
      change-IsValid s _ calls _ flight _ k v (del-Elsewhere k s) (λ id h. refl)
        (del-Elsewhere k flight) (absent (get-del_self k s) (get-del_self k flight)) v.once)

  frozen-IsValid : IsValid (move_to k execution_unknown s) (calls ++ k ∷ []) (Dict.del k flight)
  frozen-IsValid =
      change-IsValid s _ calls _ flight _ k v (move_to-Elsewhere k execution_unknown s)
        (mem-snoc_other k calls) (del-Elsewhere k flight)
        (unknown _ (get-move_to_self k execution_unknown s a p) i refl (mem-snoc_self k calls)
          (get-del_self k flight))
        (Unique-snoc k calls c v.once)

  reopened-IsValid : IsValid (move_to k awaiting s) calls (Dict.del k flight)
  reopened-IsValid =
      change-IsValid s _ calls _ flight _ k v (move_to-Elsewhere k awaiting s) (λ id h. refl)
        (del-Elsewhere k flight)
        (waiting _ (get-move_to_self k awaiting s a p) i (inl refl) c (get-del_self k flight))
        v.once

called :
    (approval : PendingApproval) (w u : World)
    → Called approval w u
    → calls_of u.dispatched ≡ calls_of w.dispatched ++ approval.approval_id ∷ []
called approval w u e = ap calls_of e ∙ calls_of-snoc w.dispatched (call_of approval)

-- The end of a run that was in flight.
pub run_claimed-IsValid :
    (engine : Engine) (out : Outside) (approval : PendingApproval)
    (flight : Dict String PendingApproval) (w : World)
    → Dict.get approval.approval_id flight ≡ some approval
    → WorldIsValid flight w
    → WorldIsValid (Dict.del approval.approval_id flight) (run_claimed engine out approval w).1
unfolding get
run_claimed-IsValid engine out approval flight w f v =
    let k = approval.approval_id in
    let u = (run_claimed engine out approval w).1 in
    let (i, (a, p, j, x), c) = flies-running w.approvals _ flight v k approval f in
    let dropped = dropped-IsValid w.approvals _ flight v k a p j c in
    let frozen = frozen-IsValid w.approvals _ flight v k a p j c in
    let reopened = reopened-IsValid w.approvals _ flight v k a p j c in
    elim (run_claimed-Ends engine out approval w (a, p, x)) [
      | executes st d e ↦ rw d (dropped _ (inl (called approval w u e)))
      | replays st d e ↦ rw d (dropped _ (inr (ap calls_of e)))
      | fails st d (inl e) ↦ rw d (dropped _ (inl (called approval w u e)))
      | fails st d (inr e) ↦ rw d (dropped _ (inr (ap calls_of e)))
      | freezes st d e ↦ rw (d, called approval w u e) frozen
      | stops_called st (inl d) e ↦ rw d (dropped _ (inl (called approval w u e)))
      | stops_called st (inr d) e ↦ rw (d, called approval w u e) frozen
      | stops_uncalled st (inl d) e ↦ rw d (dropped _ (inr (ap calls_of e)))
      | stops_uncalled st (inr d) e ↦ rw (d, ap calls_of e) reopened
    ]

-- Where a branch records that the approval is cancelled.
pub conclude-cancelled :
    {A : Type 0} (engine : Engine) (out : Outside) (approval : PendingApproval)
    (event_type : String) (error : Bool) (v : A) (u : World)
    → ((conclude engine out approval "cancelled" event_type error v u).1.approvals
        ≡ Dict.del approval.approval_id u.approvals)
      × ((conclude engine out approval "cancelled" event_type error v u).1.dispatched
          ≡ u.dispatched)
unfolding complete
conclude-cancelled engine out approval event_type error v u =
    let (rows, l) = conclude-Leaves engine out approval "cancelled" event_type error v u in
    elim l [ inl p ↦ rw p (refl, refl) | inr p ↦ rw p (refl, refl) ]
