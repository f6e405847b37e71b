-- ===== src/Agent/Approvals/Invariant.antt =====
-- How each approval stands with respect to the tools that were called and the runs in flight.
use open_feishu.Common.{
  ◌≡◌, refl, ap, ◌∙◌, subst, String, Bool, true, false, Bool-cases, Option, none, some, ◌⊎◌, inl,
  inr, List, ◌==◌, string_eq, eq_iff, mem, Unique,
}
use open_feishu.Dict
use open_feishu.Dict.{Dict, get-put, get-del, get-modify, beq_self}
use open_feishu.Agent.Pending.{
  PendingState, executing, execution_unknown, expired, PendingApproval, Approvals, is_awaiting,
  set_state, move_to,
}
use open_feishu.Agent.Approvals.Claims.{Waits}

-- What is stored under an identifier, whether its tool has been called, and its run in flight.
pub data Stands (id : String) (o : Option PendingApproval) (called : Bool)
    (f : Option PendingApproval) : Type 0 where
  absent : o ≡ none → f ≡ none → Stands id o called f
  waiting :
      (a : PendingApproval)
      → o ≡ some a
      → a.approval_id ≡ id
      → (is_awaiting a.state ≡ true) ⊎ (a.state ≡ expired)
      → called ≡ false
      → f ≡ none
      → Stands id o called f
  running :
      (a b : PendingApproval)
      → o ≡ some a
      → a.approval_id ≡ id
      → a.state ≡ executing
      → called ≡ false
      → f ≡ some b
      → b.approval_id ≡ id
      → Stands id o called f
  unknown :
      (a : PendingApproval)
      → o ≡ some a
      → a.approval_id ≡ id
      → a.state ≡ execution_unknown
      → called ≡ true
      → f ≡ none
      → Stands id o called f

-- Each identifier stands in one of these ways, and no tool was called twice for one.
pub record IsValid (s : Approvals) (calls : List String) (flight : Dict String PendingApproval)
    : Type 0 where
  pub stands : (id : String) → Stands id (Dict.get id s) (mem id calls) (Dict.get id flight)
  pub once : Unique calls

-- All but one key is as before.
abbrev pub Elsewhere : String → Dict String PendingApproval → Dict String PendingApproval → Type 0
Elsewhere k s s' = (id : String) → (k == id) ≡ false → Dict.get id s' ≡ Dict.get id s

pub del-Elsewhere : (k : String) (s : Dict String PendingApproval) → Elsewhere k s (Dict.del k s)
del-Elsewhere k s id h = get-del k id s ∙ simp h

pub put-Elsewhere :
    (k : String) (a : PendingApproval) (s : Dict String PendingApproval)
    → Elsewhere k s (Dict.put k a s)
put-Elsewhere k a s id h = get-put k id a s ∙ simp h

pub move_to-Elsewhere :
    (k : String) (state : PendingState) (s : Approvals) → Elsewhere k s (move_to k state s)
move_to-Elsewhere k state s id h = get-modify k id (set_state state) s ∙ simp h

pub get-del_self : (k : String) (s : Dict String PendingApproval) → Dict.get k (Dict.del k s) ≡ none
get-del_self k s = get-del k k s ∙ simp (beq_self k)

pub get-move_to_self :
    (k : String) (state : PendingState) (s : Approvals) (a : PendingApproval)
    → Dict.get k s ≡ some a
    → Dict.get k (move_to k state s) ≡ some (set_state state a)
get-move_to_self k state s a h = get-modify k k (set_state state) s ∙ simp (beq_self k, h)

-- A change of what belongs to one identifier.
pub change-IsValid :
    (s s' : Approvals) (calls calls' : List String) (flight flight' : Dict String PendingApproval)
    (k : String)
    → IsValid s calls flight
    → Elsewhere k s s'
    → ((id : String) → (k == id) ≡ false → mem id calls' ≡ mem id calls)
    → Elsewhere k flight flight'
    → Stands k (Dict.get k s') (mem k calls') (Dict.get k flight')
    → Unique calls'
    → IsValid s' calls' flight'
change-IsValid s s' calls calls' flight flight' k v e1 e2 e3 at_k once = record {
  stands = λ id. elim (Bool-cases (k == id)) [
    | inl e ↦
        subst (λ i. Stands i (Dict.get i s') (mem i calls') (Dict.get i flight'))
          ((eq_iff k id).0 e) at_k
    | inr e ↦ rw (e1 id e, e2 id e, e3 id e) (v.stands id)
  ];
  once = once;
}

module _ (s : Approvals) (calls : List String) (flight : Dict String PendingApproval)
    (v : IsValid s calls flight) (k : String) where
  -- An approval that waits for its decision: its tool has not been called, and no run is in flight.
  pub Waits-free :
      (a : PendingApproval)
      → Waits k s a
      → (a.approval_id ≡ k) × (mem k calls ≡ false) × (Dict.get k flight ≡ none)
  Waits-free a (p, q) = elim (v.stands k) [
    | absent e f ↦ cc
    | waiting b e i w c f ↦ (cc, c, f)
    | running b d e i w c f j ↦ let t = ap is_awaiting w in cc
    | unknown b e i w c f ↦ let t = ap is_awaiting w in cc
  ]

  -- An approval is stored under its own identifier.
  pub stored-keyed : (a : PendingApproval) → Dict.get k s ≡ some a → a.approval_id ≡ k
  stored-keyed a h = elim (v.stands k) [
    | absent e f ↦ cc
    | waiting b e i w c f ↦ cc
    | running b d e i w c f j ↦ cc
    | unknown b e i w c f ↦ cc
  ]

  -- A run in flight: its approval is in execution, and its tool has not been called.
  pub flies-running :
      (b : PendingApproval)
      → Dict.get k flight ≡ some b
      → (b.approval_id ≡ k)
        × ((a : PendingApproval) × (Dict.get k s ≡ some a)
            × (a.approval_id ≡ k)
            × (a.state ≡ executing))
        × (mem k calls ≡ false)
  flies-running b h = elim (v.stands k) [
    | absent e f ↦ cc
    | waiting a e i w c f ↦ cc
    | running a d e i w c f j ↦ (cc, (a, e, i, w), c)
    | unknown a e i w c f ↦ cc
  ]

  -- A change at one identifier where no tool is called.
  pub quiet-IsValid :
      (s' : Approvals)
      → Elsewhere k s s'
      → Stands k (Dict.get k s') (mem k calls) (Dict.get k flight)
      → IsValid s' calls flight
  quiet-IsValid s' e at_k =
      change-IsValid s s' calls calls flight flight k v e (λ id h. refl) (λ id h. refl) at_k v.once
