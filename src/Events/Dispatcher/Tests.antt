-- ===== src/Events/Dispatcher/Tests.antt =====
-- Two handlers of messages and one of everything.
use open_feishu.Common.{
  Option, List, ℕ, zero, suc, ◌≢◌, ◌≡◌, refl, arith, String, true, false, none, some, [], ◌∷◌, ok,
  err, string_eq,
}
use open_feishu.Dict
use open_feishu.Json.{text}
use open_feishu.Events.Seen
use open_feishu.Events.Seen.{Entries, claim_event}
use open_feishu.Events.Seen.Once.{seens, perform_all}
use open_feishu.Events.Dispatcher.{
  Event, HandlerEnd, returns, raises, Dispatcher, on_handler_error, on, on_error, matching, run,
  nothing, dispatch,
}
use open_feishu.Events.Dispatcher.Order.{
  values, on_all, registered, no_handlers, in_memory, dispatch-whole, dispatch-again,
}

dispatcher : Unit {0}
unfolding Dict.get Dict.has Dict.put Seen.purge Seen.claim claim_event perform_all on_handler_error
    on on_error matching run dispatch values registered
dispatcher = tt

abbrev registrations : List (String × String)
registrations = ("im.message", "log") ∷ ("*", "count") ∷ ("im.message", "answer") ∷ []

abbrev apology : Option (ℕ → HandlerEnd)
apology = some (λ n. returns (some (text "sorry")))

abbrev handlers : Dispatcher String
handlers = on_all registrations (no_handlers apology)

with_error_handler :
    on_error (λ n. returns (some (text "sorry"))) (on_all registrations (no_handlers none))
    ≡ record {
      handlers = ("im.message", "log" ∷ "answer" ∷ []) ∷ ("*", "count" ∷ []) ∷ [];
      error_handler = apology;
    }
unfolding dispatcher
with_error_handler = refl

-- The second handler raises.
abbrev ends : ℕ → HandlerEnd
ends zero = returns none
ends (suc zero) = raises "ValueError"
ends (suc (suc n)) = returns (some (text "counted"))

abbrev message : Event
message = record { event_type = "im.message"; event_id = "e1" }

abbrev memory : Entries
memory = []

dispatch-whole_example :
    ((dispatch handlers (some (in_memory 60 10 10)) false false false ends message memory).1.called
      ≡ "log" ∷ "answer" ∷ "count" ∷ [])
    × ((dispatch handlers
          (some (in_memory 60 10 10))
          false
          false
          false
          ends
          message
          memory).1.result
        ≡ ok (some (text "sorry")))
unfolding dispatcher
dispatch-whole_example =
    dispatch-whole registrations apology (some (in_memory 60 10 10)) false false ends message memory
      refl

-- With propagation the third handler is not called.
propagated :
    (dispatch handlers (some (in_memory 60 10 10)) true false false ends message memory).1
    ≡ record { called = "log" ∷ "answer" ∷ []; result = err "ValueError" }
unfolding dispatcher
propagated = refl

two_called : ◌≢◌ {A = List String} ("log" ∷ "answer" ∷ []) []
two_called h = cc

abbrev kept : Entries
kept =
    perform_all 60 (seens "e2" 20 20 ∷ [])
      (dispatch handlers (some (in_memory 60 9 10)) true false false ends message memory).0

dispatch-again_example :
    (dispatch handlers (some (in_memory 60 30 31)) false false false ends message kept).1 ≡ nothing
unfolding dispatcher
dispatch-again_example =
    dispatch-again handlers 60 9 10 30 31 true false false false ends ends message
      (seens "e2" 20 20 ∷ []) memory two_called ((omega arith, omega arith), tt) (omega arith)
