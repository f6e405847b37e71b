-- ===== src/Agent/Tools/Registry.antt =====
-- feishu/agent/tools.py: `Tool` and `ToolRegistry`. What a handler does is an argument of `dispatch`.
use open_feishu.Common.{
  ◌≡◌, ◌↔◌, refl, sym, ap, ◌∙◌, subst, String, Bool, true, false, Option-cases, Option, none, some,
  ◌⊎◌, inl, inr, List, [], ◌∷◌, Outcome, ok, err, ◌==◌, string_eq, if◌then◌else◌, ◌||◌,
}
use open_feishu.Dict
use open_feishu.Dict.{Dict}
use open_feishu.Json.{Json}
use open_feishu.Agent.Approvals.{
  completed, ToolResult, DispatchAnswer, refuses, tool_raises, dispatch_cancelled, gives,
}
use open_feishu.Agent.Tools.Validate.{ToolError, type_error, Verdict, validate}
use open_feishu.Agent.Tools.Accepts.{Accepts}
use open_feishu.Agent.Tools.Schema.{validate-Accepts}

pub record Tool : Type 0 where
  pub name : String
  pub description : String
  pub input_schema : Json
  pub requires_approval : Bool
  pub auth_scopes : List String
  pub scheduled_effect : Option String

-- ValueError.
pub data RegistryError : Type 0 where
  value_error : RegistryError

abbrev pub is_effect : Option String → Bool
is_effect none = true
is_effect (some t) = (t == "read") || (t == "write")

-- `Tool(…)`, with `__post_init__`.
unfoldable pub made : Tool → Outcome RegistryError Tool
made tool = if is_effect tool.scheduled_effect then ok tool else err value_error

abbrev pub Registry : Type 0
Registry = Dict String Tool

unfoldable pub add : Tool → Registry → Outcome RegistryError (Registry × Tool)
add tool r = if Dict.has tool.name r then err value_error else ok (Dict.put tool.name tool r, tool)

-- `name or getattr(fn, "__name__", None)`.
abbrev pub named : Option String → Option String → Option String
named none fn_name = fn_name
named (some t) fn_name = if t == "" then fn_name else some t

abbrev pub registers : Tool → Registry → Option String → Outcome RegistryError Registry
registers tool r none = err value_error
registers tool r (some t) =
    if t == ""
    then err value_error
    else if Dict.has t r
    then err value_error
    else elim (made (record tool { name = t })) [ err e ↦ err e | ok u ↦ ok (Dict.put t u r) ]

unfoldable pub register :
    Option String → Option String → Tool → Registry → Outcome RegistryError Registry
register name fn_name tool r = registers tool r (named name fn_name)

pub record ToolSpec : Type 0 where
  pub name : String
  pub description : String
  pub input_schema : Json

unfoldable pub specs : Registry → List ToolSpec
specs [] = []
specs ((k, tool) ∷ r) =
    record { name = tool.name; description = tool.description; input_schema = tool.input_schema }
    ∷ specs r

-- How a handler ends: a ToolResult, another value, a KeyError, a ToolValidationError or another
-- exception with its text, or the cancellation of the task.
pub data HandlerAnswer : Type 0 where
  returns_result : ToolResult → HandlerAnswer
  returns_value : Json → HandlerAnswer
  raises_key_error raises_validation_error raises_other : String → HandlerAnswer
  is_cancelled : HandlerAnswer

-- The texts of a KeyError for a name and of a validation error.
pub record Texts : Type 0 where
  pub of_key : String → String
  pub of_error : String → ToolError → String

-- What `dispatch` answers its caller, and whether the handler was called.
pub record DispatchRun : Type 0 where
  pub answer : DispatchAnswer
  pub called : Bool

abbrev pub normalized : HandlerAnswer → DispatchAnswer
normalized (returns_result result) = gives result
normalized (returns_value v) = gives (record {
  outcome = completed;
  content = v;
  authorize_url = none;
  auth_scopes = [];
  is_error = false;
})
normalized (raises_key_error t) = refuses t
normalized (raises_validation_error t) = refuses t
normalized (raises_other t) = tool_raises t
normalized is_cancelled = dispatch_cancelled

-- A TypeError is not among the exceptions that the callers tell apart.
abbrev pub raised : Texts → String → ToolError → DispatchAnswer
raised texts name type_error = tool_raises (texts.of_error name type_error)
raised texts name e = refuses (texts.of_error name e)

abbrev pub validated : Texts → String → HandlerAnswer → Verdict → DispatchRun
validated texts name handler (ok x) = record { answer = normalized handler; called = true }
validated texts name handler (err e) = record { answer = raised texts name e; called = false }

unfoldable pub dispatch : Texts → String → Json → HandlerAnswer → Registry → DispatchRun
dispatch texts name arguments handler r = elim (Dict.get name r) [
  | none ↦ record { answer = refuses (texts.of_key name); called = false }
  | some tool ↦ validated texts name handler (validate tool.input_schema arguments)
]

Verdict-cases : (v : Verdict) → (v ≡ ok tt) ⊎ ((e : ToolError) × (v ≡ err e))
Verdict-cases (ok x) = inl refl
Verdict-cases (err e) = inr (e, refl)

validated-called :
    (texts : Texts) (name : String) (handler : HandlerAnswer) (v : Verdict)
    → ((validated texts name handler v).called ≡ true) ↔ (v ≡ ok tt)
validated-called texts name handler (ok x) = (λ h. refl, λ h. refl)
validated-called texts name handler (err e) = (λ h. cc, λ h. cc)

-- `dispatch` calls the handler just where the tool is registered and its schema accepts the arguments.
pub dispatch-called :
    (texts : Texts) (name : String) (arguments : Json) (handler : HandlerAnswer) (r : Registry)
    → ((dispatch texts name arguments handler r).called ≡ true)
      ↔ ((tool : Tool) × (Dict.get name r ≡ some tool) × Accepts tool.input_schema arguments)
unfolding dispatch
dispatch-called texts name arguments handler r = elim (Option-cases (Dict.get name r)) [
  | inl p ↦ rw (dispatch, p) (λ h. cc, λ h. let q = h.1 in cc)
  | inr (tool, p) ↦
      let i = validated-called texts name handler (validate tool.input_schema arguments) in
      let j = validate-Accepts tool.input_schema arguments in
      rw (dispatch, p)
        (
          λ h. (tool, refl, j.0 (i.0 h)),
          λ (other, q, a). i.1 (
              j.1 (
                subst (λ (t : Tool). Accepts t.input_schema arguments)
                  (let t : other ≡ tool = cc in t) a)),
        )
]

normalized-refuses :
    (handler : HandlerAnswer) (t : String)
    → normalized handler ≡ refuses t
    → (handler ≡ raises_key_error t) ⊎ (handler ≡ raises_validation_error t)
normalized-refuses (raises_key_error u) t h = inl cc
normalized-refuses (raises_validation_error u) t h = inr cc
normalized-refuses (returns_result u) t h = cc
normalized-refuses (returns_value u) t h = cc
normalized-refuses (raises_other u) t h = cc
normalized-refuses is_cancelled t h = cc

-- A dispatch that a caller takes for a refusal before the tool runs has not called the handler, or the
-- handler has run and has raised a KeyError or a ToolValidationError itself.
pub dispatch-refuses :
    (texts : Texts) (name : String) (arguments : Json) (handler : HandlerAnswer) (r : Registry)
    (t : String)
    → (dispatch texts name arguments handler r).answer ≡ refuses t
    → ((dispatch texts name arguments handler r).called ≡ false)
      ⊎ (((dispatch texts name arguments handler r).called ≡ true)
          × ((handler ≡ raises_key_error t) ⊎ (handler ≡ raises_validation_error t)))
unfolding dispatch
dispatch-refuses texts name arguments handler r t h = elim (Option-cases (Dict.get name r)) [
  | inl p ↦ rw (dispatch, p) (inl refl)
  | inr (tool, p) ↦ elim (Verdict-cases (validate tool.input_schema arguments)) [
    | inr (e, q) ↦ rw (dispatch, p, q) (inl refl)
    | inl q ↦
        let ran : dispatch texts name arguments handler r
            ≡ record { answer = normalized handler; called = true } =
          rw (dispatch, p, q) refl in
        inr (
          ap (λ (d : DispatchRun). d.called) ran,
          normalized-refuses handler t (sym (ap (λ (d : DispatchRun). d.answer) ran) ∙ h),
        )
  ]
]
