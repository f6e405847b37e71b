-- ===== src/Agent/Schedules/Lifecycle/Inserts.antt =====
-- A new run in the table of runs.
use open_feishu.Common.{
  ◌≡◌, refl, sym, String, Bool, true, false, none, some, [], ◌∷◌, inl, inr, string_eq, nat_eq,
  eq_iff, arith, Bool-cases, ok, ok-injective,
}
use open_feishu.Dict
use open_feishu.Dict.{Dict}
use open_feishu.Agent.Schedules.Tables.{insert, exists_row}
use open_feishu.Agent.Schedules.Rows.{DeliveryStatus, RunRow, is_open}
use open_feishu.Agent.Schedules.Manage.{insert_run, is_occurrence}
use open_feishu.Agent.Schedules.Due.{is_open_run}
use open_feishu.Agent.Schedules.Lifecycle.{is_new, IsAlone, Change, inserts}

exists_row_none :
    {T : Type 0} (p : T → Bool) (a : Dict String T) (id : String) (r : T)
    → exists_row p a ≡ false
    → Dict.get id a ≡ some r
    → p r ≡ false
unfolding exists_row Dict.get
exists_row_none p [] id r h e = cc
exists_row_none p ((key, q) ∷ a) id r h e = ground (arith, exists_row_none p a id r)

get-absent :
    {T : Type 0} (id : String) (a : Dict String T) → Dict.has id a ≡ false → Dict.get id a ≡ none
unfolding Dict.has Dict.get
get-absent id [] h = refl
get-absent id ((key, q) ∷ a) h = ground (arith, get-absent id a)

-- What `insert_run` makes of the table, and that the identifier was new.
pub insert_run-put :
    (r : RunRow) (a b : Dict String RunRow)
    → insert_run r a ≡ ok b
    → (Dict.get r.run_id a ≡ none) × (b ≡ Dict.put r.run_id r a)
unfolding insert_run insert
insert_run-put r a b h =
    elim (Bool-cases (exists_row (is_occurrence r.task_id r.scheduled_for) a)) [
      | inl e ↦ ground arith
      | inr e ↦ elim (Bool-cases (Dict.has r.run_id a)) [
        | inl f ↦ ground arith
        | inr f ↦ (
          get-absent r.run_id a f,
          sym (ok-injective (Dict.put r.run_id r a) b (simp (e, f) at h)),
        )
      ]
    ]

-- A run that may be inserted where `insert_run` lets it.
pub insert_run-Change :
    (r : RunRow) (a b : Dict String RunRow)
    → is_new r.status ≡ true
    → r.delivery_status ≡ DeliveryStatus.pending
    → (is_open r.status ≡ true → IsAlone r a)
    → insert_run r a ≡ ok b
    → Change a b
insert_run-Change r a b n d alone h =
    let (new, put) = insert_run-put r a b h in inserts r new n d alone put

pub exists_row-IsAlone :
    (r : RunRow) (a : Dict String RunRow)
    → exists_row (is_open_run r.task_id) a ≡ false
    → IsAlone r a
exists_row-IsAlone r a h id q e t =
    ground (arith, exists_row_none (is_open_run r.task_id) a id q h e, eq_iff q.task_id r.task_id)
