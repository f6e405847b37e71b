-- ===== src/Agent/Approvals/Action.antt =====
-- A method of the engine: the world is changed, and the task may be cancelled while it waits. What
-- was changed stays changed.
use open_feishu.Common.{◌≡◌, ap, ◌⊎◌, String, Bool, if◌then◌else◌, Outcome, ok, err, [], ◌∷◌, ◌++◌}
use open_feishu.Agent.Pending.{PendingApproval, Approvals, complete}
use open_feishu.Agent.Approvals.{Engine, Outside, World}

-- asyncio.CancelledError.
pub data Cancelled : Type 0 where
  cancelled_error : Cancelled

abbrev pub Action : Type 0 → Type 0
Action A = World → Outcome Cancelled A × World

abbrev pub pure : {A : Type 0} → A → Action A
pure a w = (ok a, w)

abbrev pub cancel : {A : Type 0} → Action A
cancel w = (err cancelled_error, w)

abbrev pub followed :
    {A B : Type 0} → (A → Action B) → Outcome Cancelled A × World → Outcome Cancelled B × World
followed f (ok a, w) = f a w
followed f (err e, w) = (err e, w)

infixl 5 ◌>>=◌
abbrev pub ◌>>=◌ : {A B : Type 0} → Action A → (A → Action B) → Action B
◌>>=◌ m f w = followed f (m w)

-- An action that has ended with a value, or was cancelled, in the world.
abbrev pub Leaves : {A : Type 0} → A → World → Outcome Cancelled A × World → Type 0
Leaves v w r = (r ≡ (ok v, w)) ⊎ (r ≡ (err cancelled_error, w))

pub bind-ok :
    {A B : Type 0} (m : Action A) (f : A → Action B) (w v : World) (a : A)
    → m w ≡ (ok a, v)
    → (m >>= f) w ≡ f a v
bind-ok m f w v a p = ap (followed f) p

pub bind-err :
    {A B : Type 0} (m : Action A) (f : A → Action B) (w v : World)
    → m w ≡ (err cancelled_error, v)
    → (m >>= f) w ≡ (err cancelled_error, v)
bind-err m f w v p = ap (followed f) p

abbrev pub on_approvals : (Approvals → Approvals) → Action Unit
on_approvals f w = (ok tt, record w { approvals = f w.approvals })

-- `self.approvals.complete`.
unfoldable pub completes : String → String → Action Unit
completes id outcome = on_approvals (complete id outcome)

-- `_record`: an exception of the log is swallowed, a cancellation is not.
unfoldable pub records : Engine → Outside → String → PendingApproval → Bool → Action Unit
records engine out event_type approval error w =
    if engine.has_audit
    then (if out.audit_cancelled event_type then (err cancelled_error, w) else (
      ok tt,
      record w {
        audit =
            w.audit
            ++ record { event_type = event_type; key = approval.approval_id; error = error } ∷ [];
      },
    ))
    else (ok tt, w)
