-- ===== src/Agent/Schedules/Claiming/Rounds.antt =====
-- The rounds of the loop of `claim_due`: which task one finds, and that it leaves fewer.
use open_feishu.Common.{
  ℕ, suc, ◌≤◌, ◌<◌, ◌≡◌, refl, sym, String, Bool, true, false, ◌&&◌, Option, none, some, [], ◌∷◌,
  inl, inr, ◌⊎◌, string_eq, nat_eq, if◌then◌else◌, arith, Bool-cases, length,
}
use open_feishu.Dict.{Dict, beq_self}
use open_feishu.Agent.Schedules.Tables.{update_where, exists_row}
use open_feishu.Agent.Schedules.Rows.{error, TaskRow, is_due, is_active}
use open_feishu.Agent.Schedules.Manage.{advanced}
use open_feishu.Agent.Schedules.Due.{is_due_task, goes_before, sooner, first_due, is_task}

unfoldable pub count_active : Dict String TaskRow → ℕ
count_active [] = 0
count_active ((key, row) ∷ tasks) =
    let rest = count_active tasks in if is_active row.state then suc rest else rest

pub count_active-le : (tasks : Dict String TaskRow) → count_active tasks ≤ length tasks
unfolding count_active
count_active-le [] = omega arith
count_active-le ((key, row) ∷ tasks) = ground (arith, count_active-le tasks)

-- An active row of a task.
abbrev pub stands : String → TaskRow → Bool
stands id row = is_task id row && is_active row.state

count_active-update_le :
    (id : String) (now : ℕ) (tasks : Dict String TaskRow)
    → count_active (update_where (is_task id) (advanced error none now) tasks) ≤ count_active tasks
unfolding count_active update_where advanced
count_active-update_le id now [] = omega arith
count_active-update_le id now ((key, row) ∷ tasks) =
    ground (arith, count_active-update_le id now tasks)

pub count_active-update_lt :
    (id : String) (now : ℕ) (tasks : Dict String TaskRow)
    → exists_row (stands id) tasks ≡ true
    → count_active (update_where (is_task id) (advanced error none now) tasks) < count_active tasks
unfolding count_active update_where advanced exists_row
count_active-update_lt id now [] h = cc
count_active-update_lt id now ((key, row) ∷ tasks) h =
    ground (arith, count_active-update_le id now tasks, count_active-update_lt id now tasks)

sooner-or :
    (row x : TaskRow) (o : Option TaskRow) → sooner row o ≡ some x → (x ≡ row) ⊎ (o ≡ some x)
sooner-or row x none h = inl (let y : row ≡ x = cc in sym y)
sooner-or row x (some q) h = elim (Bool-cases (goes_before q row)) [
  | inl g ↦ inr (simp g at h)
  | inr g ↦ inl (let y : some row ≡ some x = simp g at h in let z : row ≡ x = cc in sym z)
]

sooner-none : (row : TaskRow) (o : Option TaskRow) → sooner row o ≡ none → ⊥
sooner-none row none h = cc
sooner-none row (some q) h = elim (Bool-cases (goes_before q row)) [
  | inl g ↦ let y : some q ≡ none = simp g at h in cc
  | inr g ↦ let y : some row ≡ none = simp g at h in cc
]

-- The row that the loop finds is one of an active task whose time has come.
pub first_due-stands :
    (now : ℕ) (tasks : Dict String TaskRow) (x : TaskRow)
    → first_due now tasks ≡ some x
    → (exists_row (stands x.task_id) tasks ≡ true) × (is_due x.next_run_at now ≡ true)
unfolding first_due exists_row
first_due-stands now [] x h = cc
first_due-stands now ((key, row) ∷ tasks) x h = elim (Bool-cases (is_due_task now row)) [
  | inr e ↦ let (a, b) = first_due-stands now tasks x (simp e at h) in (ground arith, b)
  | inl e ↦ elim (sooner-or row x (first_due now tasks) (simp e at h)) [
    | inl f ↦ rw f (ground (arith, beq_self row.task_id))
    | inr f ↦ let (a, b) = first_due-stands now tasks x f in (ground arith, b)
  ]
]

pub first_due-none :
    (now : ℕ) (tasks : Dict String TaskRow)
    → first_due now tasks ≡ none
    → exists_row (is_due_task now) tasks ≡ false
unfolding first_due exists_row
first_due-none now [] h = refl
first_due-none now ((key, row) ∷ tasks) h = elim (Bool-cases (is_due_task now row)) [
  | inr e ↦ ground (arith, first_due-none now tasks (simp e at h))
  | inl e ↦ absurd (sooner-none row (first_due now tasks) (simp e at h))
]
