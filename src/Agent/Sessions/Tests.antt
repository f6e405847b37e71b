-- ===== src/Agent/Sessions/Tests.antt =====
-- Two sessions.
use open_feishu.Common.{◌≡◌, refl, String, some, List, [], ◌∷◌, string_eq}
use open_feishu.Dict
use open_feishu.Agent.Sessions.{init, get, append, set, clear, updated_at}
use open_feishu.Agent.Sessions.History.{
  Call, appends, clears, step, perform_all, steps, perform_all-steps,
}

sessions : Unit {0}
unfolding Dict.get Dict.put Dict.del Dict.modify Dict.setdefault get append set clear updated_at
    step perform_all steps
sessions = tt

abbrev calls : List (Call String)
calls =
    appends "oc_1" ("hello" ∷ []) 10
    ∷ appends "oc_2" ("other" ∷ []) 11
    ∷ clears "oc_2"
    ∷ appends "oc_1" ("again" ∷ []) 12
    ∷ []

cleared : get "oc_2" (perform_all calls init) ≡ []
unfolding sessions
cleared = refl

perform_all-steps_example :
    (get "oc_1" (perform_all calls init) ≡ "hello" ∷ "again" ∷ [])
    × (updated_at "oc_1" (perform_all calls init) ≡ some 12)
unfolding sessions
perform_all-steps_example = perform_all-steps "oc_1" calls
