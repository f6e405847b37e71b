-- ===== src/Agent/Schedules/Tables.antt =====
-- What the statements of SQL in feishu/agent/scheduled.py do to a table, which is a dict from the
-- primary key to the row.
use open_feishu.Common.{
  String, Bool, false, ◌||◌, Option, none, some, List, [], ◌∷◌, Outcome, ok, err, string_eq, nat_eq,
  if◌then◌else◌,
}
use open_feishu.Dict
use open_feishu.Dict.{Dict}
use open_feishu.Agent.Schedules.Calendar.{Failure, integrity_error}

-- INSERT of a row under a primary key.
unfoldable pub insert : {T : Type 0} → String → T → Dict String T → Outcome Failure (Dict String T)
insert key row table =
    if Dict.has key table then err integrity_error else ok (Dict.put key row table)

-- UPDATE of the rows that meet a condition.
unfoldable pub update_where : {T : Type 0} → (T → Bool) → (T → T) → Dict String T → Dict String T
update_where p f [] = []
update_where p f ((key, row) ∷ table) = (key, if p row then f row else row) ∷ update_where p f table

-- UPDATE with the primary key among the conditions, and whether it met a row.
unfoldable pub update_key :
    {T : Type 0} → String → (T → Bool) → (T → T) → Dict String T → Dict String T
update_key key p f table = Dict.modify key (λ row. if p row then f row else row) table

abbrev pub holds : {T : Type 0} → (T → Bool) → Option T → Bool
holds p none = false
holds p (some row) = p row

unfoldable pub meets_key : {T : Type 0} → String → (T → Bool) → Dict String T → Bool
meets_key key p table = holds p (Dict.get key table)

-- Some row meets a condition.
unfoldable pub exists_row : {T : Type 0} → (T → Bool) → Dict String T → Bool
exists_row p [] = false
exists_row p ((key, row) ∷ table) = p row || exists_row p table

-- The rows that meet a condition.
unfoldable pub select : {T : Type 0} → (T → Bool) → Dict String T → List T
select p [] = []
select p ((key, row) ∷ table) = let rest = select p table in if p row then row ∷ rest else rest
