-- ===== src/Events/Tests.antt =====
-- The stores of the inbox on concrete events.
use open_feishu.Common.{arith, ◌+◌, ◌<◌, ◌≡◌, refl, String, true, false, none, some, [], ◌∷◌, ok}
use open_feishu.Dict
use open_feishu.Events.Job.{EventJob, running}
use open_feishu.Events.Memory.Store.{
  Store, init, expired, purge, recover, recover_expired, enqueue, new_job,
}
use open_feishu.Events.Memory.Claim.{
  collect_unresolved, is_first, eligible, candidates, start, sweep, choose, claim_next,
}
use open_feishu.Events.Memory.Settle.{
  owned, renew, marked, mark_side_effect_started, finished, complete,
}
use open_feishu.Events.Memory.Invariant.{Phase}
use open_feishu.Events.Memory.Invariant.Claim.{first_unresolved}
use open_feishu.Events.Memory.History.{
  Reach, made, after, enqueues, claims, marks, running-first_unresolved, Reach-Phase,
}
use open_feishu.Events.Memory.Claiming.{claim_next-none}
use open_feishu.Events.Memory.Wakeup.{next_wakeup}
use open_feishu.Events.Memory.Sleeping.{Within, next_wakeup-Within}
use open_feishu.Events.Seen
use open_feishu.Events.Seen.Once.{seens, marks, perform_all, claim-once}

inbox : Unit {0}
unfolding Dict.get Dict.has Dict.put Dict.modify Dict.setdefault init expired purge recover
    recover_expired enqueue collect_unresolved is_first eligible candidates start sweep choose
    claim_next owned renew marked mark_side_effect_started finished complete first_unresolved
inbox = tt

abbrev Text : Type 0
Text = String

-- Two messages of one chat.
abbrev two : Store Text
two = record {
  max_attempts = 5;
  jobs = ("e1", new_job "e1" "hello" "chat" 10) ∷ ("e2", new_job "e2" "again" "chat" 11) ∷ [];
}

abbrev first : EventJob Text
first = record (new_job "e1" "hello" "chat" 10) {
  status = running;
  attempt = 1;
  worker_id = some "w";
  lease_until = some 72;
  updated_at = 12;
}

abbrev claimed : Store Text
claimed = record two { jobs = ("e1", first) ∷ ("e2", new_job "e2" "again" "chat" 11) ∷ [] }

two-Reach : Reach 5 two
unfolding inbox
two-Reach =
    after
      (after (made {s = record { max_attempts = 5; jobs = [] }} refl)
        (enqueues "e1" "hello" "chat" 10 refl))
      (enqueues "e2" "again" "chat" 11 refl)

claim_first : claim_next "w" 12 60 0 two ≡ ok (claimed, some first)
unfolding inbox
claim_first = refl

-- The second message waits for the first.
claim_second : claim_next "v" 13 60 0 claimed ≡ ok (claimed, none)
unfolding inbox
claim_second = refl

claimed-Reach : Reach 5 claimed
claimed-Reach = after two-Reach (claims "w" 12 60 0 (some first) claim_first)

running-first_unresolved_example : first_unresolved "chat" claimed.jobs ≡ some first
unfolding inbox
running-first_unresolved_example = running-first_unresolved "e1" first claimed-Reach refl refl

abbrev started_first : EventJob Text
started_first = record first { side_effect_started = true }

abbrev started : Store Text
started = record claimed {
  jobs = ("e1", started_first) ∷ ("e2", new_job "e2" "again" "chat" 11) ∷ [];
}

started-Reach : Reach 5 started
unfolding inbox
started-Reach = after claimed-Reach (marks "e1" "w" refl)

Reach-Phase_example : Phase 5 running started_first
unfolding inbox
Reach-Phase_example = Reach-Phase "e1" started_first started-Reach refl

-- Before the message is due there is nothing to do.
early : claim_next "w" 9 60 0 two ≡ ok (two, none)
unfolding inbox
early = refl

next_wakeup-Within_example : Within 10 (next_wakeup two)
unfolding inbox
next_wakeup-Within_example = next_wakeup-Within two (new_job "e1" "hello" "chat" 10) refl refl

claim_next-none_example : (two.jobs ≡ sweep 9 two) × (9 + 0 < 10)
unfolding inbox
claim_next-none_example =
    claim_next-none "w" 9 60 0 two two "e1" (new_job "e1" "hello" "chat" 10) early refl refl refl

-- An event is claimed, then seen and marked, then claimed again.
seen_calls : Unit {0}
unfolding Dict.get Dict.has Dict.put Seen.purge Seen.claim
seen_calls = tt

claim-once_example :
    (Seen.claim 60 "e1" 30 31
      (perform_all 60 (seens "e1" 20 20 ∷ marks "e1" 25 25 ∷ []) (Seen.claim 60 "e1" 9 10 []).0)).1
    ≡ false
unfolding seen_calls
claim-once_example =
    claim-once 60 "e1" 9 10 (seens "e1" 20 20 ∷ marks "e1" 25 25 ∷ []) 30 31 [] refl
      ((omega arith, omega arith), ((omega arith, omega arith), tt)) (omega arith)
