-- ===== src/Agent/Turns/Suspend.antt =====
-- feishu/agent/loop.py: `_originating_tool_messages` and `_mark_awaiting_tool_results`, by which a turn
-- that is suspended or interrupted keeps a result for each of its calls.
use open_feishu.Common.{
  String, Bool, true, false, ◌&&◌, Option, none, some, List, [], ◌∷◌, ◌++◌, ◌==◌, string_eq,
  if◌then◌else◌,
}
use open_feishu.Agent.Turns.{
  Role, user, assistant, tool, ContentPart, Message, ToolCall, answers, difference, placeholders,
  tool_message,
}

abbrev pub while_tool : Role → Message → List Message → List Message
while_tool tool m later = m ∷ later
while_tool user m later = []
while_tool assistant m later = []

-- The messages of tools at the front.
unfoldable pub tools_next : List Message → List Message
tools_next [] = []
tools_next (m ∷ history) = while_tool m.role m (tools_next history)

abbrev pub is_assistant : Role → Bool
is_assistant assistant = true
is_assistant user = false
is_assistant tool = false

abbrev pub has_id : Option String → String → Bool
has_id none origin = false
has_id (some id) origin = id == origin

-- The message that began the turn `origin`.
abbrev pub begins : String → Message → Bool
begins origin m = is_assistant m.role && has_id m.continuation_id origin

unfoldable pub batch_of : String → List Message → List Message
batch_of origin [] = []
batch_of origin (m ∷ history) =
    let later = batch_of origin history in if begins origin m then m ∷ tools_next history else later

unfoldable pub originating : Option String → List Message → List Message
originating none history = history
originating (some origin) history = if origin == "" then history else batch_of origin history

abbrev pub answers_of : Role → List ContentPart → List String → List String
answers_of tool parts later = answers parts ++ later
answers_of user parts later = later
answers_of assistant parts later = later

unfoldable pub answered_in : List Message → List String
answered_in [] = []
answered_in (m ∷ history) = answers_of m.role m.content (answered_in history)

abbrev pub call_ids : List ToolCall → List String
call_ids [] = []
call_ids (call ∷ calls) = call.id ∷ call_ids calls

abbrev pub mark_ids : String → Bool → List String → List Message → List Message × Option Message
mark_ids note is_error [] history = (history, none)
mark_ids note is_error (id ∷ ids) history =
    let message = tool_message (placeholders note is_error (id ∷ ids)) in
    (history ++ message ∷ [], some message)

-- The history afterwards, and what is appended in the store of sessions. `origin` is the continuation
-- of the current context.
unfoldable pub mark_awaiting :
    Option String → String → Bool → List ToolCall → List Message → List Message × Option Message
mark_awaiting origin note is_error calls history =
    mark_ids note is_error (difference (call_ids calls) (answered_in (originating origin history)))
      history
