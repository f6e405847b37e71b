-- ===== src/Events/Dispatcher.antt =====
-- feishu/events/dispatcher.py: `EventDispatcher`. How each call of a handler ends is an argument, by the
-- number of the call.
pub mod Order
pub mod Tests
use open_feishu.Common.{
  ℕ, suc, ◌+◌, String, Bool, true, false, ◌&&◌, not, Option, none, some, List, [], ◌∷◌, ◌++◌,
  Outcome, ok, err, ◌==◌, string_eq, if◌then◌else◌,
}
use open_feishu.Dict
use open_feishu.Dict.{Dict, or_else}
use open_feishu.Json.{Json}
use open_feishu.Events.Seen.{SeenStore, claim_event}

-- What `dispatch` reads of an event.
pub record Event : Type 0 where
  pub event_type : String
  pub event_id : String

-- A handler, or the handler of errors, returns a value, which may be None, or raises.
pub data HandlerEnd : Type 0 where
  returns : Option Json → HandlerEnd
  raises : String → HandlerEnd

pub record Dispatcher (H : Type 0) : Type 0 where
  pub handlers : Dict String (List H)
  pub error_handler : Option (ℕ → HandlerEnd)

-- Which handlers were called, in their order, and what `dispatch` returns or raises.
pub record Dispatched (H : Type 0) : Type 0 where
  pub called : List H
  pub result : Outcome String (Option Json)

-- `_on_handler_error`, for the handler of that number.
unfoldable pub on_handler_error : Option (ℕ → HandlerEnd) → ℕ → Option Json
on_handler_error none n = none
on_handler_error (some f) n = elim (f n) [ returns v ↦ v | raises e ↦ none ]

-- `value is not None and result is None`.
abbrev pub first : Option Json → Option Json → Option Json
first none v = v
first (some r) v = some r

-- The claim of the event, where there is a store to ask.
abbrev pub admitted : {S : Type 0} → Bool → Option (SeenStore S) → String → S → S × Bool
admitted true (some store) event_id s = claim_event store event_id s
admitted _ _ event_id s = (s, true)

module _ {H : Type 0} where
  -- `on`.
  unfoldable pub on : String → H → Dispatcher H → Dispatcher H
  on event_type h d = record d {
    handlers =
        Dict.put event_type (or_else (Dict.get event_type d.handlers) [] ++ h ∷ []) d.handlers;
  }

  unfoldable pub on_error : (ℕ → HandlerEnd) → Dispatcher H → Dispatcher H
  on_error f d = record d { error_handler = some f }

  unfoldable pub matching : Dispatcher H → String → List H
  matching d event_type =
      or_else (Dict.get event_type d.handlers) [] ++ or_else (Dict.get "*" d.handlers) []

  abbrev pub after_call : H → Dispatched H → Dispatched H
  after_call h r = record r { called = h ∷ r.called }

  -- What follows a handler; `fallback` is what its error gives.
  abbrev pub handled :
      Bool
      → Option Json
      → H
      → (Option Json → Dispatched H)
      → Option Json
      → HandlerEnd
      → Dispatched H
  handled propagate fallback h rest result (returns v) = after_call h (rest (first result v))
  handled false fallback h rest result (raises e) = after_call h (rest (first result fallback))
  handled true fallback h rest result (raises e) = record { called = h ∷ []; result = err e }

  -- The loop over the handlers.
  unfoldable pub run :
      Bool → Option (ℕ → HandlerEnd) → (ℕ → HandlerEnd) → ℕ → List H → Option Json → Dispatched H
  run propagate error_handler ends n [] result = record { called = []; result = ok result }
  run propagate error_handler ends n (h ∷ hs) result =
      handled propagate (on_handler_error error_handler n) h
        (run propagate error_handler ends (suc n) hs) result (ends n)

  abbrev pub nothing : Dispatched H
  nothing = record { called = []; result = ok none }

  -- `dispatch`; a redelivery is an event of the job that runs.
  unfoldable pub dispatch :
      {S : Type 0}
      → Dispatcher H
      → Option (SeenStore S)
      → (propagate skip_seen_store is_job_redelivery : Bool) → (ℕ → HandlerEnd)
      → Event
      → S
      → S × Dispatched H
  dispatch d store propagate skip redelivery ends event s =
      let a = admitted (not skip && not redelivery) store event.event_id s in
      (
        a.0,
        if a.1
            then run propagate d.error_handler ends 0 (matching d event.event_type) none
            else nothing,
      )
