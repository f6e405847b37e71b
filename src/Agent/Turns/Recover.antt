-- ===== src/Agent/Turns/Recover.antt =====
-- A history that was interrupted is repaired, and a whole one is left alone.
use open_feishu.Common.{
  ◌≡◌, refl, sym, ap, ◌∙◌, subst, String, Bool, true, false, none, List, [], ◌∷◌, ◌++◌, string_eq,
  eq_iff, mem, mem-append, arith, Bool-cases, inl, inr,
}
use open_feishu.Texts.{sorted_set}
use open_feishu.Agent.Turns.{
  Role, user, assistant, tool, ContentPart, Message, uses, answers, difference, placeholders,
  tool_message, unknown_note, close_pending, is_pending, repair_at, repair, changed_at, is_changed,
  recover_interrupted,
}
use open_feishu.Agent.Turns.Answered.{
  answered_at, answered_next, Covers, calls_of, IsAnswered, mem-sorted_set, answers-placeholders,
  mem-difference,
}

-- A batch that is closed has its results in front, and the rest stays whole.
module _ (rest : List Message) (v : IsAnswered rest) where
  close_pending-IsAnswered : (pending : List String) → IsAnswered (close_pending pending rest)
  unfolding close_pending
  close_pending-IsAnswered [] = v
  close_pending-IsAnswered (id ∷ ids) = ((λ x h. cc), v)

close_pending-Covers :
    (pending : List String) (rest : List Message)
    → Covers pending (answered_next (close_pending pending rest))
unfolding close_pending answered_next
close_pending-Covers [] rest x h = cc
close_pending-Covers (id ∷ ids) rest x h =
    let found : mem x (sorted_set (id ∷ ids)) ≡ true = mem-sorted_set x (id ∷ ids) ∙ h in
    rw (answers-placeholders unknown_note true (sorted_set (id ∷ ids)))
      (mem-append x (sorted_set (id ∷ ids)) (answered_next rest) ∙ ground (arith, found))

tool-Covers :
    (pending : List String) (parts : List ContentPart) (answered : List String)
    → Covers (difference pending (answers parts)) answered
    → Covers pending (answers parts ++ answered)
tool-Covers pending parts answered c x h = elim (Bool-cases (mem x (answers parts))) [
  | inl m ↦ mem-append x (answers parts) answered ∙ ground (arith, m)
  | inr m ↦
      let left : mem x (difference pending (answers parts)) ≡ true =
        mem-difference x pending (answers parts) ∙ ground (arith, m, h) in
      let covered = c x left in mem-append x (answers parts) answered ∙ ground (arith, covered)
]

Repaired : List String → List Message → Type 0
Repaired pending repaired = Covers pending (answered_next repaired) × IsAnswered repaired

-- A message before messages that are whole.
whole :
    (role : Role) (m : Message) (rest : List Message)
    → m.role ≡ role
    → Covers (calls_of role m.content) (answered_next rest)
    → IsAnswered rest
    → IsAnswered (m ∷ rest)
whole role m rest e c v =
    (subst (λ r. Covers (calls_of r m.content) (answered_next rest)) (sym e) c, v)

closed :
    (pending : List String) (rest : List Message)
    → IsAnswered rest
    → Repaired pending (close_pending pending rest)
unfolding Repaired
closed pending rest v = (close_pending-Covers pending rest, close_pending-IsAnswered rest v pending)

repair_at-Repaired :
    (pending : List String) (role : Role) (m : Message) (later : List String → List Message)
    → m.role ≡ role
    → ((p : List String) → Repaired p (later p))
    → Repaired pending (repair_at role pending m later)
unfolding Repaired answered_next
repair_at-Repaired pending assistant m later e ih =
    let (c, v) = ih (uses m.content) in
    closed pending (m ∷ later (uses m.content)) (whole assistant m _ e c v)
repair_at-Repaired pending user m later e ih =
    let (c, v) = ih [] in closed pending (m ∷ later []) (whole user m _ e c v)
repair_at-Repaired pending tool m later e ih =
    let p = difference pending (answers m.content) in
    let (c, v) = ih p in
    (
      subst (λ r. Covers pending (answered_at r m.content (answered_next (later p)))) (sym e)
          (tool-Covers pending m.content (answered_next (later p)) c),
      whole tool m (later p) e (λ x h. cc) v,
    )

repair-Repaired :
    (history : List Message) (pending : List String) → Repaired pending (repair pending history)
unfolding repair
repair-Repaired [] pending = closed pending [] tt
repair-Repaired (m ∷ history) pending =
    repair_at-Repaired pending m.role m (λ p. repair p history) refl (repair-Repaired history)

-- Nothing is pending at a message that no result can precede.
nothing_pending : (pending : List String) → Covers pending [] → is_pending pending ≡ false
nothing_pending [] c = refl
nothing_pending (id ∷ ids) c = let x : false ≡ true = c id (ground (arith, eq_iff id id)) in cc

left-Covers :
    (pending : List String) (parts : List ContentPart) (answered : List String)
    → Covers pending (answers parts ++ answered)
    → Covers (difference pending (answers parts)) answered
left-Covers pending parts answered c x h =
    let d = mem-difference x pending (answers parts) in
    let all : mem x (answers parts ++ answered) ≡ true = c x (ground (arith, d, h)) in
    ground (arith, d, h, all, mem-append x (answers parts) answered)

changed_at-false :
    (pending : List String) (role : Role) (m : Message) (history : List Message)
    (later : List String → Bool)
    → m.role ≡ role
    → Covers pending (answered_at role m.content (answered_next history))
    → Covers (calls_of role m.content) (answered_next history)
    → ((p : List String) → Covers p (answered_next history) → later p ≡ false)
    → changed_at role pending m later ≡ false
changed_at-false pending assistant m history later e c d ih =
    rw (nothing_pending pending c) (ih (uses m.content) d)
changed_at-false pending user m history later e c d ih =
    rw (nothing_pending pending c) (ih [] (λ x h. cc))
changed_at-false pending tool m history later e c d ih =
    ih (difference pending (answers m.content))
      (left-Covers pending m.content (answered_next history) c)

-- A whole history needs no repair.
is_changed-IsAnswered :
    (history : List Message) (pending : List String)
    → IsAnswered history
    → Covers pending (answered_next history)
    → is_changed pending history ≡ false
unfolding is_changed answered_next
is_changed-IsAnswered [] pending v c = nothing_pending pending c
is_changed-IsAnswered (m ∷ history) pending (d, v) c =
    changed_at-false pending m.role m history (λ p. is_changed p history) refl c d
      (λ p. is_changed-IsAnswered history p v)

-- The messages of one history stand in the other in their order, with messages of tools between them.
pub data Extends : List Message → List Message → Type 0 where
  ends : Extends [] []
  keeps : {a b : List Message} (m : Message) → Extends a b → Extends (m ∷ a) (m ∷ b)
  adds :
      {a b : List Message} (parts : List ContentPart)
      → Extends a b
      → Extends a (tool_message parts ∷ b)

close_pending-Extends :
    (pending : List String) (a b : List Message) → Extends a b → Extends a (close_pending pending b)
unfolding close_pending
close_pending-Extends [] a b x = x
close_pending-Extends (id ∷ ids) a b x =
    adds (placeholders unknown_note true (sorted_set (id ∷ ids))) x

repair_at-Extends :
    (pending : List String) (role : Role) (m : Message) (history : List Message)
    (later : List String → List Message)
    → ((p : List String) → Extends history (later p))
    → Extends (m ∷ history) (repair_at role pending m later)
repair_at-Extends pending assistant m history later ih =
    close_pending-Extends pending _ _ (keeps m (ih (uses m.content)))
repair_at-Extends pending user m history later ih =
    close_pending-Extends pending _ _ (keeps m (ih []))
repair_at-Extends pending tool m history later ih =
    keeps m (ih (difference pending (answers m.content)))

repair-Extends :
    (history : List Message) (pending : List String) → Extends history (repair pending history)
unfolding repair
repair-Extends [] pending = close_pending-Extends pending [] [] ends
repair-Extends (m ∷ history) pending =
    repair_at-Extends pending m.role m history (λ p. repair p history) (repair-Extends history)

close_pending-none :
    (pending : List String) (rest : List Message)
    → is_pending pending ≡ false
    → close_pending pending rest ≡ rest
unfolding close_pending
close_pending-none [] rest h = refl
close_pending-none (id ∷ ids) rest h = cc

repair_at-unchanged :
    (pending : List String) (role : Role) (m : Message) (history : List Message)
    (later : List String → List Message) (changed : List String → Bool)
    → ((p : List String) → changed p ≡ false → later p ≡ history)
    → changed_at role pending m changed ≡ false
    → repair_at role pending m later ≡ m ∷ history
repair_at-unchanged pending assistant m history later changed ih h =
    close_pending-none pending (m ∷ later (uses m.content)) (ground (arith, h))
    ∙ ap (◌∷◌ m) (ih (uses m.content) (ground (arith, h)))
repair_at-unchanged pending user m history later changed ih h =
    close_pending-none pending (m ∷ later []) (ground (arith, h))
    ∙ ap (◌∷◌ m) (ih [] (ground (arith, h)))
repair_at-unchanged pending tool m history later changed ih h =
    ap (◌∷◌ m) (ih (difference pending (answers m.content)) h)

repair-unchanged :
    (history : List Message) (pending : List String)
    → is_changed pending history ≡ false
    → repair pending history ≡ history
unfolding repair is_changed
repair-unchanged [] pending h = close_pending-none pending [] h
repair-unchanged (m ∷ history) pending h =
    repair_at-unchanged pending m.role m history (λ p. repair p history) (λ p. is_changed p history)
      (repair-unchanged history) h

recovered : (history : List Message) → (recover_interrupted history).0 ≡ repair [] history
unfolding recover_interrupted
recovered history = elim (Bool-cases (is_changed [] history)) [
  | inl e ↦ rw e refl
  | inr e ↦ rw e (sym (repair-unchanged history [] e))
]

recovered_whole :
    (history : List Message) → IsAnswered history → recover_interrupted history ≡ (history, none)
unfolding recover_interrupted
recovered_whole history v = rw (is_changed-IsAnswered history [] v (λ x h. cc)) refl

-- After the recovery every call of a tool has a result among the messages of tools right after it;
-- the messages that were there stand in their order; and to recover once more changes and writes
-- nothing.
pub recover_interrupted-IsAnswered :
    (history : List Message)
    → IsAnswered (recover_interrupted history).0
      × Extends history (recover_interrupted history).0
      × (recover_interrupted (recover_interrupted history).0
          ≡ ((recover_interrupted history).0, none))
unfolding Repaired
recover_interrupted-IsAnswered history =
    let same = recovered history in
    let v : IsAnswered (recover_interrupted history).0 =
      subst IsAnswered (sym same) (repair-Repaired history []).1 in
    (
      v,
      subst (Extends history) (sym same) (repair-Extends history []),
      recovered_whole (recover_interrupted history).0 v,
    )
