-- ===== src/Http/Permission/Subjects.antt =====
-- The subjects of an error are those that its texts name, each once.
use open_feishu.Common.{
  ◌≡◌, refl, sym, ◌∙◌, arith, ◌&&◌, not, Bool-cases, inl, inr, true, false, String, ◌==◌, string_eq,
  eq_iff, List, [], ◌∷◌, ◌++◌, mem, Unique,
}
use open_feishu.Dict.{beq_self}
use open_feishu.Http.Errors.{FeishuError}
use open_feishu.Http.Permission.{collect, from_keys, permission_subjects}

mem-from_keys :
    (s : String) (seen xs : List String)
    → mem s (from_keys seen xs) ≡ (mem s xs && not (mem s seen))
unfolding from_keys
mem-from_keys s seen [] = refl
mem-from_keys s seen (x ∷ xs) = elim (Bool-cases (mem x seen)) [
  | inl e ↦ elim (Bool-cases (x == s)) [
    | inl q ↦
        let there : mem s seen ≡ true = rw (sym ((eq_iff x s).0 q)) e in
        rw (e, q, mem-from_keys s seen xs, there) (ground arith)
    | inr q ↦ rw (e, q, mem-from_keys s seen xs) (ground arith)
  ]
  | inr e ↦ elim (Bool-cases (x == s)) [
    | inl q ↦
        let new : mem s seen ≡ false = rw (sym ((eq_iff x s).0 q)) e in
        rw (e, q, new) (ground arith)
    | inr q ↦ rw (e, q, mem-from_keys s (x ∷ seen) xs, q) (ground arith)
  ]
]

from_keys-Unique : (seen xs : List String) → Unique (from_keys seen xs)
unfolding from_keys
from_keys-Unique seen [] = tt
from_keys-Unique seen (x ∷ xs) = elim (Bool-cases (mem x seen)) [
  | inl e ↦ rw e (from_keys-Unique seen xs)
  | inr e ↦ rw e (
    mem-from_keys x (x ∷ seen) xs ∙ rw (beq_self x) (ground arith),
    from_keys-Unique (x ∷ seen) xs,
  )
]

-- The subjects of an error have no duplicates, and a text is one of them just if it is collected from the
-- message or the body.
permission_subjects-Unique :
    (error : FeishuError) (s : String)
    → Unique (permission_subjects error)
      × (mem s (permission_subjects error) ≡ mem s (collect error.message ++ collect error.raw))
unfolding permission_subjects
permission_subjects-Unique error s = (
  from_keys-Unique [] _,
  mem-from_keys s [] (collect error.message ++ collect error.raw) ∙ ground arith,
)
