-- ===== src/Agent/Turns/Tests.antt =====
-- A conversation whose second call of a tool was interrupted.
use open_feishu.Common.{◌≡◌, refl, String, true, false, none, some, List, [], ◌∷◌, string_eq}
use open_feishu.Json.{no_fields}
use open_feishu.Texts.{insert, sorted_set}
use open_feishu.Agent.Turns.{
  user, assistant, ToolCall, text_part, tool_use_part, tool_result_part, Message, uses, answers,
  difference, unknown_note, placeholders, tool_message, close_pending, repair, is_changed,
  recover_interrupted,
}
use open_feishu.Agent.Turns.Answered.{Covers, IsAnswered}
use open_feishu.Agent.Turns.Suspend.{
  tools_next, batch_of, originating, answered_in, call_ids, mark_awaiting,
}
use open_feishu.Agent.Turns.Marked.{mark_awaiting-IsAnswered}
use open_feishu.Agent.Turns.Recover.{Extends, recover_interrupted-IsAnswered}

turns : Unit {0}
unfolding uses answers difference placeholders close_pending repair is_changed recover_interrupted
    insert sorted_set
turns = tt

abbrev said : String → Message
said text = record { role = user; content = text_part text ∷ []; continuation_id = none }

abbrev calls : Message
calls = record {
  role = assistant;
  content = tool_use_part "c1" "list" no_fields ∷ tool_use_part "c2" "send" no_fields ∷ [];
  continuation_id = some "t1";
}

abbrev result : Message
result = tool_message (tool_result_part "c1" "two" false ∷ [])

abbrev interrupted : List Message
interrupted = said "hello" ∷ calls ∷ result ∷ said "and now?" ∷ []

closes_second : recover_interrupted interrupted ≡ (
  said "hello"
      ∷ calls
      ∷ result
      ∷ tool_message (tool_result_part "c2" unknown_note true ∷ [])
      ∷ said "and now?"
      ∷ [],
  some (
      said "hello"
      ∷ calls
      ∷ result
      ∷ tool_message (tool_result_part "c2" unknown_note true ∷ [])
      ∷ said "and now?"
      ∷ []),
)
unfolding turns
closes_second = refl

recover_interrupted-IsAnswered_example :
    IsAnswered (recover_interrupted interrupted).0
    × Extends interrupted (recover_interrupted interrupted).0
    × (recover_interrupted (recover_interrupted interrupted).0
        ≡ ((recover_interrupted interrupted).0, none))
recover_interrupted-IsAnswered_example = recover_interrupted-IsAnswered interrupted

abbrev asked : List ToolCall
asked =
    record { id = "c1"; name = "list"; arguments = "{}" }
    ∷ record { id = "c2"; name = "send"; arguments = "{}" }
    ∷ []

waits : Unit {0}
unfolding turns tools_next batch_of originating answered_in mark_awaiting
waits = tt

-- The call that has a result keeps it, the other gets the note.
marks_second :
    mark_awaiting (some "t1") "waiting" false asked (said "hello" ∷ calls ∷ result ∷ []) ≡ (
      said "hello"
          ∷ calls
          ∷ result
          ∷ tool_message (tool_result_part "c2" "waiting" false ∷ [])
          ∷ [],
      some (tool_message (tool_result_part "c2" "waiting" false ∷ [])),
    )
unfolding waits
marks_second = refl

asked-Covers : Covers (uses calls.content) (call_ids asked)
unfolding turns
asked-Covers id h = h

said-IsAnswered : IsAnswered (said "hello" ∷ [])
said-IsAnswered = ((λ x h. cc), tt)

mark_awaiting-IsAnswered_example :
    IsAnswered
      (mark_awaiting (some "t1") "waiting" false asked (said "hello" ∷ calls ∷ result ∷ [])).0
mark_awaiting-IsAnswered_example =
    mark_awaiting-IsAnswered (said "hello" ∷ []) calls said-IsAnswered refl "t1" "waiting" false
      asked (result ∷ []) refl refl (refl, tt) (refl, tt) asked-Covers
