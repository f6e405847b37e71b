-- ===== src/Agent/Turns/Answered.antt =====
-- The protocol of tools: each call has a result among the messages of tools right after it.
use open_feishu.Common.{
  ◌≡◌, refl, String, Bool, true, ◌||◌, ◌&&◌, not, List, [], ◌∷◌, ◌++◌, ◌==◌, string_eq, eq_iff, mem,
  arith, Bool-cases, inl, inr,
}
use open_feishu.Texts.{insert, sorted_set}
use open_feishu.Agent.Turns.{
  Role, user, assistant, tool, ContentPart, Message, uses, answers, difference, placeholders,
}

abbrev pub answered_at : Role → List ContentPart → List String → List String
answered_at tool parts later = answers parts ++ later
answered_at user parts later = []
answered_at assistant parts later = []

-- What the messages of tools at the front answer.
unfoldable pub answered_next : List Message → List String
answered_next [] = []
answered_next (m ∷ history) = answered_at m.role m.content (answered_next history)

abbrev pub Covers : List String → List String → Type 0
Covers ids answered = (id : String) → mem id ids ≡ true → mem id answered ≡ true

abbrev pub calls_of : Role → List ContentPart → List String
calls_of assistant parts = uses parts
calls_of user parts = []
calls_of tool parts = []

abbrev pub IsAnswered : List Message → Type 0
IsAnswered [] = Unit
IsAnswered (m ∷ history) =
    Covers (calls_of m.role m.content) (answered_next history) × IsAnswered history

pub mem-insert : (x s : String) (ss : List String) → mem x (insert s ss) ≡ ((s == x) || mem x ss)
unfolding insert
mem-insert x s [] = refl
mem-insert x s (t ∷ ts) = ground (arith, mem-insert x s ts)

pub mem-sorted_set : (x : String) (ss : List String) → mem x (sorted_set ss) ≡ mem x ss
unfolding sorted_set
mem-sorted_set x [] = refl
mem-sorted_set x (s ∷ ss) = elim (Bool-cases (mem s ss)) [
  | inl h ↦ rw (h, mem-sorted_set x ss) (ground (arith, eq_iff s x))
  | inr h ↦ rw (h, mem-insert x s (sorted_set ss), mem-sorted_set x ss) refl
]

pub answers-placeholders :
    (note : String) (is_error : Bool) (ids : List String)
    → answers (placeholders note is_error ids) ≡ ids
unfolding answers placeholders
answers-placeholders note is_error [] = refl
answers-placeholders note is_error (id ∷ ids) = rw (answers-placeholders note is_error ids) refl

pub mem-difference :
    (x : String) (ids answered : List String)
    → mem x (difference ids answered) ≡ (mem x ids && not (mem x answered))
unfolding difference
mem-difference x [] answered = refl
mem-difference x (id ∷ ids) answered = ground (arith, eq_iff id x, mem-difference x ids answered)
