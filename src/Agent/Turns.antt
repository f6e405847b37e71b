-- ===== src/Agent/Turns.antt =====
-- feishu/agent/llm.py: the messages of a conversation. feishu/agent/loop.py: how `AgentEngine` keeps a
-- result for each call of a tool in them.
pub mod Answered
pub mod Recover
pub mod Suspend
pub mod Marked
pub mod Tests
use open_feishu.Common.{
  String, Bool, true, false, ◌||◌, Option, none, some, List, [], ◌∷◌, ◌++◌, ◌==◌, string_eq, mem,
  if◌then◌else◌,
}
use open_feishu.Json.{Fields}
use open_feishu.Texts.{sorted_set}

pub data Role : Type 0 where
  user assistant tool : Role

pub data ContentPart : Type 0 where
  text_part reasoning_part : (text : String) → ContentPart
  tool_use_part : (id name : String) (arguments : Fields) → ContentPart
  tool_result_part : (tool_call_id content : String) (is_error : Bool) → ContentPart

pub record Message : Type 0 where
  pub role : Role
  pub content : List ContentPart
  pub continuation_id : Option String

-- A `ToolCall` of a model's answer, its arguments still a text.
pub record ToolCall : Type 0 where
  pub id : String
  pub name : String
  pub arguments : String

-- The identifiers of the calls of tools among parts.
unfoldable pub uses : List ContentPart → List String
uses [] = []
uses (tool_use_part id name arguments ∷ parts) = id ∷ uses parts
uses (_ ∷ parts) = uses parts

-- The identifiers that results answer.
unfoldable pub answers : List ContentPart → List String
answers [] = []
answers (tool_result_part id content is_error ∷ parts) = id ∷ answers parts
answers (_ ∷ parts) = answers parts

-- `pending.difference_update(answered)`
unfoldable pub difference : List String → List String → List String
difference [] answered = []
difference (id ∷ ids) answered =
    let rest = difference ids answered in if mem id answered then rest else id ∷ rest

abbrev pub unknown_note : String
unknown_note =
    "The previous execution outcome is unknown. The tool was not replayed; check the external system before trying again."

-- A result with a note for each call.
unfoldable pub placeholders : String → Bool → List String → List ContentPart
placeholders note is_error [] = []
placeholders note is_error (id ∷ ids) =
    tool_result_part id note is_error ∷ placeholders note is_error ids

abbrev pub tool_message : List ContentPart → Message
tool_message parts = record { role = tool; content = parts; continuation_id = none }

-- `close_pending_batch`, before the messages that follow.
unfoldable pub close_pending : List String → List Message → List Message
close_pending [] repaired = repaired
close_pending (id ∷ ids) repaired =
    tool_message (placeholders unknown_note true (sorted_set (id ∷ ids))) ∷ repaired

abbrev pub is_pending : List String → Bool
is_pending [] = false
is_pending (_ ∷ _) = true

-- A round of the loop of `_recover_interrupted_tool_calls`; `later` is what follows, by the calls that
-- are pending then.
abbrev pub repair_at : Role → List String → Message → (List String → List Message) → List Message
repair_at assistant pending m later = close_pending pending (m ∷ later (uses m.content))
repair_at user pending m later = close_pending pending (m ∷ later [])
repair_at tool pending m later = m ∷ later (difference pending (answers m.content))

-- The repaired messages.
unfoldable pub repair : List String → List Message → List Message
repair pending [] = close_pending pending []
repair pending (m ∷ history) = repair_at m.role pending m (λ p. repair p history)

abbrev pub changed_at : Role → List String → Message → (List String → Bool) → Bool
changed_at assistant pending m later = is_pending pending || later (uses m.content)
changed_at user pending m later = is_pending pending || later []
changed_at tool pending m later = later (difference pending (answers m.content))

-- The variable `changed` of that loop.
unfoldable pub is_changed : List String → List Message → Bool
is_changed pending [] = is_pending pending
is_changed pending (m ∷ history) = changed_at m.role pending m (λ p. is_changed p history)

-- The history afterwards, and what is written to the store of sessions.
unfoldable pub recover_interrupted : List Message → List Message × Option (List Message)
recover_interrupted history =
    if is_changed [] history then (repair [] history, some (repair [] history)) else (history, none)
