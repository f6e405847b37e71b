-- ===== src/Agent/Turns/Marked.antt =====
-- A turn that is suspended leaves a history in which each call has a result.
use mathlib.Core.List.{append_assoc}
use open_feishu.Common.{
  ◌≡◌, refl, sym, ap, ◌∙◌, subst, String, Bool, true, false, ◌||◌, some, List, [], ◌∷◌, ◌++◌, ◌==◌,
  string_eq, mem, mem-append, arith, All,
}
use open_feishu.Agent.Turns.{
  Role, user, assistant, tool, ContentPart, Message, ToolCall, uses, answers, difference,
  placeholders, tool_message,
}
use open_feishu.Agent.Turns.Answered.{
  answered_at, answered_next, Covers, calls_of, IsAnswered, answers-placeholders, mem-difference,
}
use open_feishu.Agent.Turns.Suspend.{
  tools_next, begins, batch_of, originating, answers_of, answered_in, call_ids, mark_ids,
  mark_awaiting,
}

-- More messages at the end answer no less.
answered_at-more :
    (role : Role) (parts : List ContentPart) (a b : List String)
    → Covers a b
    → Covers (answered_at role parts a) (answered_at role parts b)
answered_at-more tool parts a b c x h =
    mem-append x (answers parts) b ∙ ground (arith, mem-append x (answers parts) a, h, c x)
answered_at-more user parts a b c x h = cc
answered_at-more assistant parts a b c x h = cc

answered_next-append : (a b : List Message) → Covers (answered_next a) (answered_next (a ++ b))
unfolding answered_next
answered_next-append [] b x h = cc
answered_next-append (m ∷ a) b x h =
    answered_at-more m.role m.content (answered_next a) (answered_next (a ++ b))
      (answered_next-append a b) x h

IsAnswered-append : (a b : List Message) → IsAnswered a → IsAnswered b → IsAnswered (a ++ b)
IsAnswered-append [] b v w = w
IsAnswered-append (m ∷ a) b (c, v) w =
    ((λ x h. answered_next-append a b x (c x h)), IsAnswered-append a b v w)

abbrev pub AreTools : List Message → Type 0
AreTools = All (λ m. m.role ≡ tool)

AreTools-IsAnswered : (tools : List Message) → AreTools tools → IsAnswered tools
AreTools-IsAnswered [] t = tt
AreTools-IsAnswered (m ∷ tools) (e, t) = (
  subst (λ r. Covers (calls_of r m.content) (answered_next tools)) (sym e) (λ x h. cc),
  AreTools-IsAnswered tools t,
)

tools_next-all : (tools : List Message) → AreTools tools → tools_next tools ≡ tools
unfolding tools_next
tools_next-all [] t = refl
tools_next-all (m ∷ tools) (e, t) = rw (e, tools_next-all tools t) refl

answered_in-next : (tools : List Message) → AreTools tools → answered_in tools ≡ answered_next tools
unfolding answered_in answered_next
answered_in-next [] t = refl
answered_in-next (m ∷ tools) (e, t) = rw (e, answered_in-next tools t) refl

-- The tools of the batch, and the placeholders after them.
tools-append :
    (x : String) (tools : List Message) (parts : List ContentPart)
    → AreTools tools
    → mem x (answered_next (tools ++ tool_message parts ∷ []))
      ≡ (mem x (answered_next tools) || mem x (answers parts))
unfolding answered_next
tools-append x [] parts t = mem-append x (answers parts) [] ∙ ground arith
tools-append x (m ∷ tools) parts (e, t) =
    let ih = tools-append x tools parts t in
    rw
      (
        e,
        mem-append x (answers m.content) (answered_next (tools ++ tool_message parts ∷ [])),
        mem-append x (answers m.content) (answered_next tools),
        ih,
      )
      (ground arith)

batch_of-append :
    (origin : String) (before : List Message) (m : Message) (tools : List Message)
    → All (λ q. begins origin q ≡ false) before
    → begins origin m ≡ true
    → AreTools tools
    → batch_of origin (before ++ m ∷ tools) ≡ m ∷ tools
unfolding batch_of
batch_of-append origin [] m tools n b t = rw (b, tools_next-all tools t) refl
batch_of-append origin (q ∷ before) m tools (n, ns) b t =
    rw n (batch_of-append origin before m tools ns b t)

AreTools-append :
    (tools : List Message) (parts : List ContentPart)
    → AreTools tools
    → AreTools (tools ++ tool_message parts ∷ [])
AreTools-append [] parts t = (refl, tt)
AreTools-append (m ∷ tools) parts (e, t) = (e, AreTools-append tools parts t)

-- A history that ends with a batch of calls and the results so far.
module _ (before : List Message) (m : Message) (v : IsAnswered before)
    (e : m.role ≡ assistant) where
  batch-IsAnswered :
      (tools : List Message)
      → AreTools tools
      → Covers (uses m.content) (answered_next tools)
      → IsAnswered (before ++ m ∷ tools)
  batch-IsAnswered tools t c = IsAnswered-append before (m ∷ tools) v (
    subst (λ r. Covers (calls_of r m.content) (answered_next tools)) (sym e) c,
    AreTools-IsAnswered tools t,
  )

  mark_ids-IsAnswered :
      (note : String) (is_error : Bool) (ids : List String) (tools : List Message)
      → AreTools tools
      → Covers (uses m.content) (ids ++ answered_next tools)
      → IsAnswered (mark_ids note is_error ids (before ++ m ∷ tools)).0
  mark_ids-IsAnswered note is_error [] tools t c = batch-IsAnswered tools t c
  mark_ids-IsAnswered note is_error (id ∷ ids) tools t c =
      let parts = placeholders note is_error (id ∷ ids) in
      subst IsAnswered (sym (append_assoc before (m ∷ tools) (tool_message parts ∷ []))) (
        batch-IsAnswered (tools ++ tool_message parts ∷ []) (AreTools-append tools parts t) (λ x h.
          let some_answer : mem x (id ∷ ids ++ answered_next tools) ≡ true = c x h in
          tools-append x tools parts t
          ∙ rw (answers-placeholders note is_error (id ∷ ids))
              (ground (arith, some_answer, mem-append x (id ∷ ids) (answered_next tools)))))

  missing-Covers :
      (ids : List String) (tools : List Message)
      → Covers (uses m.content) ids
      → Covers (uses m.content) (difference ids (answered_next tools) ++ answered_next tools)
  missing-Covers ids tools c x h =
      let asked = c x h in
      mem-append x (difference ids (answered_next tools)) (answered_next tools)
      ∙ ground (arith, asked, mem-difference x ids (answered_next tools))

  batch-answered_in :
      (tools : List Message) → AreTools tools → answered_in (m ∷ tools) ≡ answered_next tools
  unfolding answered_in
  batch-answered_in tools t =
      ap (λ r. answers_of r m.content (answered_in tools)) e ∙ answered_in-next tools t

  -- When a turn is suspended or interrupted, and the history is whole up to the message that began the
  -- turn, no earlier message began it, only messages of tools follow it, and the calls given include
  -- all that it asked for, then every call of a tool in the history afterwards has a result among
  -- the messages of tools right after it.
  pub mark_awaiting-IsAnswered :
      (origin note : String) (is_error : Bool) (calls : List ToolCall) (tools : List Message)
      → (origin == "") ≡ false
      → begins origin m ≡ true
      → All (λ q. begins origin q ≡ false) before
      → AreTools tools
      → Covers (uses m.content) (call_ids calls)
      → IsAnswered (mark_awaiting (some origin) note is_error calls (before ++ m ∷ tools)).0
  unfolding mark_awaiting originating
  mark_awaiting-IsAnswered origin note is_error calls tools o b n t c =
      rw (o, batch_of-append origin before m tools n b t, batch-answered_in tools t)
        (mark_ids-IsAnswered note is_error (difference (call_ids calls) (answered_next tools)) tools
          t (missing-Covers (call_ids calls) tools c))
