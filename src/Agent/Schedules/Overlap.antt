-- ===== src/Agent/Schedules/Overlap.antt =====
-- The runs of one task do not overlap.
use open_feishu.Common.{
  ◌≡◌, refl, sym, ap, ◌∙◌, subst, String, true, false, Option, none, some, List, [], ◌∷◌, inl, inr,
  ◌==◌, string_eq, eq_iff, arith, Bool-cases,
}
use open_feishu.Dict
use open_feishu.Dict.{Dict, get-put, beq_self}
use open_feishu.Agent.Schedules.Calendar.{Zones}
use open_feishu.Agent.Schedules.Rows.{Payload, RunRow, is_open, Store}
use open_feishu.Agent.Schedules.Calls.{Call, perform, perform_all}
use open_feishu.Agent.Schedules.Lifecycle.{
  Move, stays, ends, resumes, settles, notifies, notified, Moves, Row, absent, present, IsAlone,
  Change, moves, inserts,
}
use open_feishu.Agent.Schedules.Lifecycle.Calls.{perform-Change}

-- Of each task at most one run is open: running, waiting, or with an outcome that is not known.
abbrev pub AtMostOneOpen : Dict String RunRow → Type 0
AtMostOneOpen a =
    (i j : String) (q r : RunRow)
    → Dict.get i a ≡ some q
    → Dict.get j a ≡ some r
    → q.task_id ≡ r.task_id
    → is_open q.status ≡ true
    → is_open r.status ≡ true
    → i ≡ j

Move-open : (r q : RunRow) → Move r q → is_open q.status ≡ true → is_open r.status ≡ true
Move-open r q (stays s d) h = rw s at h
Move-open r q (ends c f d) h = ground arith
Move-open r q (resumes w s d) h = ground arith
Move-open r q (settles s f d) h = ground arith
Move-open r q (notifies n s d e) h = rw s at h
Move-open r q (notified s d e) h = rw s at h

pub Row-back :
    (o p : Option RunRow) (q : RunRow)
    → Row o p
    → p ≡ some q
    → (r : RunRow) × (o ≡ some r) × Moves r q
Row-back none none q absent e = cc
Row-back none (some p) q x e = elim x [ ]
Row-back (some r) none q x e = elim x [ ]
Row-back (some r) (some p) q (present m) e = let same : p ≡ q = cc in (r, refl, rw same at m)

-- A run that is open after a change was there before, open and of the same task, or is the new one.
module _ (a : Dict String RunRow) (v : AtMostOneOpen a) where
  moves-AtMostOneOpen :
      (b : Dict String RunRow)
      → ((id : String) → Row (Dict.get id a) (Dict.get id b))
      → AtMostOneOpen b
  moves-AtMostOneOpen b h i j q r e f t oq or =
      let (q', e', m) = Row-back _ _ q (h i) e in
      let (r', f', n) = Row-back _ _ r (h j) f in
      v i j q' r' e' f' (sym (ap (λ x. x.1.0) m.same) ∙ t ∙ ap (λ x. x.1.0) n.same)
        (Move-open q' q m.move oq) (Move-open r' r n.move or)

  module _ (n : RunRow) (alone : is_open n.status ≡ true → IsAlone n a) where
    -- The new run and another one.
    clash :
        (i j : String) (q r : RunRow)
        → (n.run_id == i) ≡ true
        → (n.run_id == j) ≡ false
        → Dict.get i (Dict.put n.run_id n a) ≡ some q
        → Dict.get j (Dict.put n.run_id n a) ≡ some r
        → q.task_id ≡ r.task_id
        → is_open q.status ≡ true
        → is_open r.status ≡ true
        → ⊥
    clash i j q r k l e f t oq or =
        let same : n ≡ q = (let x = rw (get-put n.run_id i n a, k) at e in cc) in
        let old : Dict.get j a ≡ some r = rw (get-put n.run_id j n a, l) at f in
        let shut : is_open r.status ≡ false =
          alone (rw same oq) j r old (sym t ∙ ap (λ x. x.task_id) (sym same)) in
        cc

    inserts-AtMostOneOpen : AtMostOneOpen (Dict.put n.run_id n a)
    inserts-AtMostOneOpen i j q r e f t oq or = elim (Bool-cases (n.run_id == i)) [
      | inl k ↦ elim (Bool-cases (n.run_id == j)) [
        | inl l ↦ ground (arith, eq_iff n.run_id i, eq_iff n.run_id j)
        | inr l ↦ absurd (clash i j q r k l e f t oq or)
      ]
      | inr k ↦ elim (Bool-cases (n.run_id == j)) [
        | inl l ↦ absurd (clash j i r q l k f e (sym t) or oq)
        | inr l ↦
            v i j q r (rw (get-put n.run_id i n a, k) at e) (rw (get-put n.run_id j n a, l) at f) t
              oq or
      ]
    ]

pub Change-AtMostOneOpen :
    (a b : Dict String RunRow) → Change a b → AtMostOneOpen a → AtMostOneOpen b
Change-AtMostOneOpen a b (moves h) v = moves-AtMostOneOpen a v b h
Change-AtMostOneOpen a b (inserts n new k d alone e) v =
    subst AtMostOneOpen (sym e) (inserts-AtMostOneOpen a v n alone)

-- No sequence of calls makes two runs of one task open at the same time, whatever its times,
-- identifiers and tokens are, and whoever makes the calls, if that was so before.
pub perform_all-AtMostOneOpen :
    (zones : Zones) (digest : Payload → String) (calls : List Call) (s : Store)
    → AtMostOneOpen s.runs
    → AtMostOneOpen (perform_all zones digest calls s).runs
unfolding perform_all
perform_all-AtMostOneOpen zones digest [] s v = v
perform_all-AtMostOneOpen zones digest (c ∷ calls) s v =
    perform_all-AtMostOneOpen zones digest calls (perform zones digest c s)
      (Change-AtMostOneOpen s.runs _ (perform-Change zones digest c s) v)
