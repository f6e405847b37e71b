-- ===== src/Events/Dispatcher/Order.antt =====
-- Which handlers an event reaches, and what it gives.
use open_feishu.Common.{
  ℕ, suc, ◌+◌, ◌<◌, ◌≡◌, ◌≢◌, refl, sym, ap, ◌∙◌, Bool, true, false, Bool-cases, inl, inr, Option,
  none, some, List, [], ◌∷◌, ok, not, ◌&&◌, ◌||◌, ◌++◌, ◌==◌, string_eq, eq_iff, String,
  if◌then◌else◌,
}
use mathlib.Core.List.{append_assoc, append-nil}
use open_feishu.Dict
use open_feishu.Dict.{or_else, get-put}
use open_feishu.Json.{Json}
use open_feishu.Events.Seen
use open_feishu.Events.Seen.{Entries, SeenStore, claim_event, seen, mark}
use open_feishu.Events.Seen.Once.{Call, perform_all, AllBetween, claim-once}
use open_feishu.Events.Dispatcher.{
  Event, HandlerEnd, returns, raises, Dispatcher, Dispatched, on_handler_error, first, matching,
  after_call, handled, run, on, nothing, admitted, dispatch,
}

-- What each call gives: its value, or what its error gives.
abbrev pub value_of : Option Json → HandlerEnd → Option Json
value_of fallback (returns v) = v
value_of fallback (raises e) = fallback

unfoldable pub values :
    {H : Type 0} → Option (ℕ → HandlerEnd) → (ℕ → HandlerEnd) → ℕ → List H → List (Option Json)
values error_handler ends n [] = []
values error_handler ends n (h ∷ hs) =
    value_of (on_handler_error error_handler n) (ends n) ∷ values error_handler ends (suc n) hs

-- The first value that is not None.
abbrev pub first_value : List (Option Json) → Option Json
first_value [] = none
first_value (some v ∷ vs) = some v
first_value (none ∷ vs) = first_value vs

first_assoc :
    (r v : Option Json) (vs : List (Option Json))
    → first (first r v) (first_value vs) ≡ first r (first_value (v ∷ vs))
first_assoc none none vs = refl
first_assoc none (some v) vs = refl
first_assoc (some r) v vs = refl

first-none : (r : Option Json) → r ≡ first r none
first-none none = refl
first-none (some r) = refl

module _ {H : Type 0} (error_handler : Option (ℕ → HandlerEnd)) (ends : ℕ → HandlerEnd) where
  -- Every handler is called, and the first value counts.
  abbrev IsWhole : ℕ → List H → Option Json → Dispatched H → Type 0
  IsWhole n hs r d =
      (d.called ≡ hs) × (d.result ≡ ok (first r (first_value (values error_handler ends n hs))))

  after_call-IsWhole :
      (n : ℕ) (h : H) (hs : List H) (r v : Option Json) (d : Dispatched H)
      → value_of (on_handler_error error_handler n) (ends n) ≡ v
      → IsWhole (suc n) hs (first r v) d
      → IsWhole n (h ∷ hs) r (after_call h d)
  unfolding values
  after_call-IsWhole n h hs r v d e (p, q) = (
    ap (λ t. h ∷ t) p,
    q
        ∙ ap ok (
            first_assoc r v _
            ∙ ap (λ v. first r (first_value (v ∷ values error_handler ends (suc n) hs))) (sym e)),
  )

  handled-IsWhole :
      (n : ℕ) (h : H) (hs : List H) (r : Option Json) (rest : Option Json → Dispatched H)
      (x : HandlerEnd)
      → ends n ≡ x
      → ((r : Option Json) → IsWhole (suc n) hs r (rest r))
      → IsWhole n (h ∷ hs) r (handled false (on_handler_error error_handler n) h rest r x)
  handled-IsWhole n h hs r rest (returns v) e w =
      after_call-IsWhole n h hs r v (rest (first r v))
        (ap (value_of (on_handler_error error_handler n)) e) (w (first r v))
  handled-IsWhole n h hs r rest (raises t) e w =
      after_call-IsWhole n h hs r (on_handler_error error_handler n) (rest _)
        (ap (value_of (on_handler_error error_handler n)) e) (w _)

  run-IsWhole :
      (n : ℕ) (hs : List H) (r : Option Json) → IsWhole n hs r (run false error_handler ends n hs r)
  unfolding run values
  run-IsWhole n [] r = (refl, ap ok (first-none r))
  run-IsWhole n (h ∷ hs) r =
      handled-IsWhole n h hs r (run false error_handler ends (suc n) hs) (ends n) refl
        (λ r. run-IsWhole (suc n) hs r)

-- Calls of `on`, the first one first, on a dispatcher without handlers.
abbrev pub on_all : {H : Type 0} → List (String × H) → Dispatcher H → Dispatcher H
on_all [] d = d
on_all ((event_type, h) ∷ calls) d = on_all calls (on event_type h d)

-- The handlers that were registered for a type, in that order.
unfoldable pub registered : {H : Type 0} → String → List (String × H) → List H
registered event_type [] = []
registered event_type ((t, h) ∷ calls) =
    let rest = registered event_type calls in if t == event_type then h ∷ rest else rest

abbrev pub no_handlers : {H : Type 0} → Option (ℕ → HandlerEnd) → Dispatcher H
no_handlers error_handler = record { handlers = []; error_handler = error_handler }

module _ {H : Type 0} where
  abbrev at_type : String → Dispatcher H → List H
  at_type event_type d = or_else (Dict.get event_type d.handlers) []

  at_type-on :
      (event_type t : String) (h : H) (d : Dispatcher H)
      → at_type event_type (on t h d)
        ≡ at_type event_type d ++ (if t == event_type then h ∷ [] else [])
  unfolding on
  at_type-on event_type t h d = elim (Bool-cases (t == event_type)) [
    | inl e ↦
        let same : t ≡ event_type = (eq_iff t event_type).0 e in
        rw (get-put t event_type (at_type t d ++ h ∷ []) d.handlers, e, same) refl
    | inr e ↦
        rw (get-put t event_type (at_type t d ++ h ∷ []) d.handlers, e)
          (sym (append-nil (at_type event_type d)))
  ]

  at_type-on_all :
      (event_type : String) (calls : List (String × H)) (d : Dispatcher H)
      → at_type event_type (on_all calls d) ≡ at_type event_type d ++ registered event_type calls
  unfolding registered
  at_type-on_all event_type [] d = sym (append-nil (at_type event_type d))
  at_type-on_all event_type ((t, h) ∷ calls) d =
      at_type-on_all event_type calls (on t h d)
      ∙ rw
          (
            at_type-on event_type t h d,
            append_assoc (at_type event_type d) (if t == event_type then h ∷ [] else [])
                (registered event_type calls),
          )
          (elim (Bool-cases (t == event_type)) [ inl e ↦ simp e | inr e ↦ simp e ])

  on_all-error_handler :
      (calls : List (String × H)) (d : Dispatcher H)
      → (on_all calls d).error_handler ≡ d.error_handler
  unfolding on
  on_all-error_handler [] d = refl
  on_all-error_handler ((t, h) ∷ calls) d = on_all-error_handler calls (on t h d)

  matching-on_all :
      (event_type : String) (calls : List (String × H)) (error_handler : Option (ℕ → HandlerEnd))
      → matching (on_all calls (no_handlers error_handler)) event_type
        ≡ registered event_type calls ++ registered "*" calls
  unfolding matching Dict.get
  matching-on_all event_type calls error_handler =
      rw
        (
          at_type-on_all event_type calls (no_handlers error_handler),
          at_type-on_all "*" calls (no_handlers error_handler),
        )
        refl

-- Where errors are not propagated, an event that no store keeps back reaches each handler that was
-- registered for its type and then each that was registered for "*", both in the order of the
-- registrations, also where some raise; the first value that is not None is the result, where an error
-- counts as what the handler of errors gives.
pub dispatch-whole :
    {H S : Type 0} (calls : List (String × H)) (error_handler : Option (ℕ → HandlerEnd))
    (store : Option (SeenStore S)) (skip redelivery : Bool) (ends : ℕ → HandlerEnd) (event : Event)
    (s : S)
    → (admitted (not skip && not redelivery) store event.event_id s).1 ≡ true
    → let d = on_all calls (no_handlers error_handler) in
      let hs = registered event.event_type calls ++ registered "*" calls in
      let r = (dispatch d store false skip redelivery ends event s).1 in
      (r.called ≡ hs) × (r.result ≡ ok (first_value (values error_handler ends 0 hs)))
unfolding dispatch
dispatch-whole calls error_handler store skip redelivery ends event s h = simp h (
    rw
      (
        on_all-error_handler calls (no_handlers error_handler),
        matching-on_all event.event_type calls error_handler,
      )
      (run-IsWhole error_handler ends 0 (registered event.event_type calls ++ registered "*" calls)
        none))

-- The store in memory, while the clock reads these times.
abbrev pub in_memory : (ttl purged now : ℕ) → SeenStore Entries
in_memory ttl purged now = record {
  store_seen = λ id d. seen id purged d;
  store_mark = λ id d. mark ttl id purged now d;
  store_claim = some (λ id d. Seen.claim ttl id purged now d);
}

-- With the store in memory: an event that has reached a handler, in a dispatch that did ask the store,
-- and that comes again within the lifetime of its entry, whatever other calls of the store there were,
-- reaches no handler and gives None; except that a dispatch that skips the store, or that redelivers
-- the job that runs, goes as one without a store.
pub dispatch-again :
    {H : Type 0} (d : Dispatcher H) (ttl purged now purged' now' : ℕ)
    (propagate propagate' skip' redelivery' : Bool) (ends ends' : ℕ → HandlerEnd) (event : Event)
    (calls : List Call) (s : Entries)
    → (dispatch d (some (in_memory ttl purged now)) propagate false false ends event s).1.called
      ≢ []
    → AllBetween now (now + ttl) calls
    → purged' < now + ttl
    → let s' =
        perform_all ttl calls
          (dispatch d (some (in_memory ttl purged now)) propagate false false ends event s).0 in
      (dispatch d (some (in_memory ttl purged' now')) propagate' skip' redelivery' ends' event s').1
      ≡ (if skip' || redelivery'
          then (dispatch d none propagate' false false ends' event s').1
          else nothing)
unfolding dispatch claim_event
dispatch-again d ttl purged now purged' now' propagate propagate' skip' redelivery' ends ends' event
      calls s c between before =
    elim (Bool-cases (Seen.claim ttl event.event_id purged now s).1) [
      | inl t ↦
          let again =
            claim-once ttl event.event_id purged now calls purged' now' s t between before in
          elim (Bool-cases skip') [
            | inl k ↦ simp k
            | inr k ↦ elim (Bool-cases redelivery') [
              | inl r ↦ simp (k, r)
              | inr r ↦ simp (k, r, again)
            ]
          ]
      | inr t ↦ elim (c (simp t)) [ ]
    ]
