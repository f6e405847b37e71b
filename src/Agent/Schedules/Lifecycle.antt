-- ===== src/Agent/Schedules/Lifecycle.antt =====
-- The life of a run, as a state machine, and the changes of the table of runs that it allows.
pub mod Runs
pub mod Notices
pub mod Inserts
pub mod Tasks
pub mod Drafts
pub mod Calls
use mathlib.Core.Option
use open_feishu.Common.{
  ℕ, ◌≡◌, refl, sym, String, Bool, true, false, ◌&&◌, ◌||◌, not, Option, none, some, List, [], ◌∷◌,
  ◌⊎◌, inl, inr, ◌==◌, string_eq, eq_iff, if◌then◌else◌, arith, Bool-cases, Option-cases,
}
use open_feishu.Dict
use open_feishu.Dict.{Dict, get-modify}
use open_feishu.Agent.Schedules.Tables.{update_where, update_key}
use open_feishu.Agent.Schedules.Rows.{
  RunStatus, running, awaiting_authorization, awaiting_confirmation, unknown, succeeded, failed,
  missed, skipped_overlap, DeliveryStatus, pending, sending, delivered, delivery_unknown, RunRow,
  is_open, is_final, is_running, is_unknown,
}

-- A run that some worker or callback may still end.
abbrev pub can_end : RunStatus → Bool
can_end s = is_open s && not (is_unknown s)

abbrev pub is_waiting : RunStatus → Bool
is_waiting awaiting_authorization = true
is_waiting awaiting_confirmation = true
is_waiting _ = false

abbrev pub is_settled : RunStatus → Bool
is_settled succeeded = true
is_settled failed = true
is_settled _ = false

abbrev pub is_new : RunStatus → Bool
is_new running = true
is_new missed = true
is_new skipped_overlap = true
is_new _ = false

-- One move of a run: it ends or begins to wait, goes on after a wait, is settled by an operator, or
-- its notice is sent.
pub data Move (r q : RunRow) : Type 0 where
  stays : q.status ≡ r.status → q.delivery_status ≡ r.delivery_status → Move r q
  ends :
      can_end r.status ≡ true
      → is_final q.status ≡ true
      → (q.delivery_status ≡ r.delivery_status) ⊎ (q.delivery_status ≡ pending)
      → Move r q
  resumes :
      is_waiting r.status ≡ true
      → q.status ≡ running
      → q.delivery_status ≡ r.delivery_status
      → Move r q
  settles :
      r.status ≡ unknown
      → is_settled q.status ≡ true
      → q.delivery_status ≡ r.delivery_status
      → Move r q
  notifies :
      is_running r.status ≡ false
      → q.status ≡ r.status
      → r.delivery_status ≡ pending
      → q.delivery_status ≡ sending
      → Move r q
  notified :
      q.status ≡ r.status
      → r.delivery_status ≡ sending
      → (q.delivery_status ≡ delivered) ⊎ (q.delivery_status ≡ delivery_unknown)
      → Move r q

-- The run, its task, the occurrence and the session.
abbrev pub identity : RunRow → String × (String × (ℕ × String))
identity r = (r.run_id, (r.task_id, (r.scheduled_for, r.session_id)))

-- A move of the run that leaves what it is a run of.
pub record Moves (r q : RunRow) : Type 0 where
  pub same : identity q ≡ identity r
  pub move : Move r q

pub data Row : Option RunRow → Option RunRow → Type 0 where
  absent : Row none none
  present : {r q : RunRow} → Moves r q → Row (some r) (some q)

-- No other run of the task of `r` is open.
abbrev pub IsAlone : RunRow → Dict String RunRow → Type 0
IsAlone r a =
    (id : String) (q : RunRow)
    → Dict.get id a ≡ some q
    → q.task_id ≡ r.task_id
    → is_open q.status ≡ false

-- A change of the table: each run makes a move, or one run is new.
pub data Change (a b : Dict String RunRow) : Type 0 where
  moves : ((id : String) → Row (Dict.get id a) (Dict.get id b)) → Change a b
  inserts :
      (r : RunRow)
      → Dict.get r.run_id a ≡ none
      → is_new r.status ≡ true
      → r.delivery_status ≡ pending
      → (is_open r.status ≡ true → IsAlone r a)
      → b ≡ Dict.put r.run_id r a
      → Change a b

pub stay : (r : RunRow) → Moves r r
stay r = record { same = refl; move = stays refl refl }

pub Row-refl : (o : Option RunRow) → Row o o
Row-refl none = absent
Row-refl (some r) = present (stay r)

pub Change-refl : (a : Dict String RunRow) → Change a a
Change-refl a = moves (λ id. Row-refl (Dict.get id a))

Row-if :
    (p : RunRow → Bool) (f : RunRow → RunRow)
    → ((r : RunRow) → p r ≡ true → Moves r (f r))
    → (o : Option RunRow) → Row o (Option.map (λ r. if p r then f r else r) o)
Row-if p f h none = absent
Row-if p f h (some r) = elim (Bool-cases (p r)) [
  | inl e ↦ rw e (present (h r e))
  | inr e ↦ rw e (present (stay r))
]

pub get-update_where :
    {T : Type 0} (p : T → Bool) (f : T → T) (id : String) (a : Dict String T)
    → Dict.get id (update_where p f a) ≡ Option.map (λ r. if p r then f r else r) (Dict.get id a)
unfolding Dict.get update_where
get-update_where p f id [] = refl
get-update_where p f id ((key, r) ∷ a) = ground (arith, get-update_where p f id a)

pub update_where-Change :
    (p : RunRow → Bool) (f : RunRow → RunRow) (a : Dict String RunRow)
    → ((r : RunRow) → p r ≡ true → Moves r (f r))
    → Change a (update_where p f a)
update_where-Change p f a h =
    moves (λ id. rw (get-update_where p f id a) (Row-if p f h (Dict.get id a)))

pub update_key-Change :
    (key : String) (p : RunRow → Bool) (f : RunRow → RunRow) (a : Dict String RunRow)
    → ((r : RunRow) → p r ≡ true → Moves r (f r))
    → Change a (update_key key p f a)
unfolding update_key
update_key-Change key p f a h = moves (λ id. elim (Bool-cases (key == id)) [
  | inl e ↦ rw (get-modify key id (λ r. if p r then f r else r) a, e) (Row-if p f h (Dict.get id a))
  | inr e ↦ rw (get-modify key id (λ r. if p r then f r else r) a, e) (Row-refl (Dict.get id a))
])

pub modify-Change :
    (key : String) (f : RunRow → RunRow) (a : Dict String RunRow) (r : RunRow)
    → Dict.get key a ≡ some r
    → Moves r (f r)
    → Change a (Dict.modify key f a)
modify-Change key f a r e m = moves (λ id. elim (Bool-cases (key == id)) [
  | inl k ↦
      let same : key ≡ id = (eq_iff key id).0 k in
      let at : Dict.get id a ≡ some r = rw same at e in
      rw (get-modify key id f a, k, at) (present m)
  | inr k ↦ rw (get-modify key id f a, k) (Row-refl (Dict.get id a))
])
