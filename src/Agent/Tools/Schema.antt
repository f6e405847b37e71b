-- ===== src/Agent/Tools/Schema.antt =====
-- The validation of arguments decides what their schema accepts.
use open_feishu.Common.{
  ◌≡◌, ◌↔◌, refl, sym, ap, ◌∙◌, subst, String, false, some, inl, inr, List, [], ok, ◌>>=◌,
  string_eq,
}
use open_feishu.Json.{
  Json, null, boolean, number, text, array, object, Items, no_items, item, Fields, no_fields, field,
  find, get_or,
}
use open_feishu.Agent.Tools.{is_object, is_array, iterated, is_false, properties_of, declared}
use open_feishu.Agent.Tools.Validate.{
  Step, Parts, leaf, elements, members, check_enum, check_type, check_required, check_closed,
  check_properties, check_additional, check_object, check_parts, by_schema, parts_of, checks_of,
  checks, validate,
}
use open_feishu.Agent.Tools.Accepts.{
  ItemOf, FieldOf, Enumerated, Typed, HasRequired, HasAllowed, Accepts, accepts_any, accepts_scalar,
  accepts_array, accepts_object,
}
use open_feishu.Agent.Tools.Names.{
  bind_iff, check_enum_iff, check_type_iff, check_required_iff, check_closed_iff,
}
use open_feishu.Agent.Tools.Loops.{
  Correct, check_properties_iff, check_additional_iff, check_items_iff,
}

object_eq : (d e : Fields) → object d ≡ object e → d ≡ e
object_eq d e h = cc

-- What a value that a schema accepts satisfies.
Accepts-value :
    {schema v : Json} (d : Fields)
    → schema ≡ object d
    → Accepts schema v
    → Enumerated d v × Typed d v
Accepts-value d p (accepts_any q) = let t = ap is_object p in cc
Accepts-value {v = v} d p (accepts_scalar e q a o en ty) =
    subst (λ d. Enumerated d v × Typed d v) (object_eq e d (sym q ∙ p)) (en, ty)
Accepts-value {v = v} d p (accepts_array e xs q r en ty is) =
    subst (λ d. Enumerated d v × Typed d v) (object_eq e d (sym q ∙ p)) (en, ty)
Accepts-value {v = v} d p (accepts_object e fs q r en ty re al pr ad) =
    subst (λ d. Enumerated d v × Typed d v) (object_eq e d (sym q ∙ p)) (en, ty)

abbrev AcceptsItems : Fields → Items → Type 0
AcceptsItems d xs =
    (sub : Fields) (x : Json)
    → get_or null "items" d ≡ object sub
    → ItemOf x xs
    → Accepts (object sub) x

array_eq : (xs ys : Items) → array xs ≡ array ys → xs ≡ ys
array_eq xs ys h = cc

Accepts-items :
    {schema v : Json} (d : Fields) (xs : Items)
    → schema ≡ object d
    → v ≡ array xs
    → Accepts schema v
    → AcceptsItems d xs
Accepts-items d xs p r (accepts_any q) = let t = ap is_object p in cc
Accepts-items d xs p r (accepts_scalar e q a o en ty) = let t = ap is_array r in cc
Accepts-items d xs p r (accepts_array e ys q u en ty is) =
    subst (λ d. AcceptsItems d xs) (object_eq e d (sym q ∙ p))
      (subst (AcceptsItems e) (array_eq ys xs (sym u ∙ r)) is)
Accepts-items d xs p r (accepts_object e fs q u en ty re al pr ad) = cc

abbrev AcceptsMembers : Fields → Fields → Type 0
AcceptsMembers d e =
    HasRequired d e
    × HasAllowed d e
    × ((ps sub : Fields) (k : String) (w : Json)
        → properties_of d ≡ object ps
        → FieldOf k (object sub) ps
        → find k e ≡ some w
        → Accepts (object sub) w)
    × ((sub : Fields) (k : String) (w : Json)
        → get_or null "additionalProperties" d ≡ object sub
        → FieldOf k w e
        → declared k (properties_of d) ≡ false
        → Accepts (object sub) w)

Accepts-members :
    {schema v : Json} (d e : Fields)
    → schema ≡ object d
    → v ≡ object e
    → Accepts schema v
    → AcceptsMembers d e
Accepts-members d e p r (accepts_any q) = let t = ap is_object p in cc
Accepts-members d e p r (accepts_scalar d' q a o en ty) = let t = ap is_object r in cc
Accepts-members d e p r (accepts_array d' xs q u en ty is) = cc
Accepts-members d e p r (accepts_object d' e' q u en ty re al pr ad) =
    subst (λ d. AcceptsMembers d e) (object_eq d' d (sym q ∙ p))
      (subst (AcceptsMembers d') (object_eq e' e (sym u ∙ r)) (re, al, pr, ad))

-- A schema that is an object asks what its parts ask.
by_schema_iff :
    (v : Json) (parts : Parts) (path : List Step) (d : Fields)
    → (by_schema v parts path (object d) ≡ ok tt)
      ↔ (Enumerated d v × Typed d v × (check_parts path d parts ≡ ok tt))
unfolding by_schema
by_schema_iff v parts path d =
    let en = check_enum_iff path v (find "enum" d) in
    let ty = check_type_iff path v (get_or null "type" d) in
    let b2 = bind_iff (check_type path v (get_or null "type" d)) (check_parts path d parts) in
    let b1 =
      bind_iff (check_enum path v (find "enum" d))
        (check_type path v (get_or null "type" d) >>= (λ _. check_parts path d parts)) in
    (
      λ h. (en.0 (b1.0 h).0, ty.0 (b2.0 (b1.0 h).1).0, (b2.0 (b1.0 h).1).1),
      λ (p, q, r). b1.1 (en.1 p, b2.1 (ty.1 q, r)),
    )

check_object_iff :
    (path : List Step) (d e : Fields)
    → ((j : String) (w : Json) → FieldOf j w e → Correct w)
    → (check_object path d (checks e) ≡ ok tt) ↔ AcceptsMembers d e
unfolding check_object
check_object_iff path d e c =
    let props = properties_of d in
    let more = get_or null "additionalProperties" d in
    let i1 = check_required_iff e (iterated (get_or (array no_items) "required" d)) in
    let i2 = check_closed_iff (is_false more) (iterated props) e in
    let i3 = check_properties_iff e c path props in
    let i4 = check_additional_iff path props more e c in
    let c3 = check_properties path props (checks e) in
    let c4 = check_additional path props more (checks e) in
    let c2 = check_closed (is_false more) (iterated props) (checks e) in
    let b3 = bind_iff c3 c4 in
    let b2 = bind_iff c2 (c3 >>= (λ _. c4)) in
    let b1 =
      bind_iff (check_required (checks e) (iterated (get_or (array no_items) "required" d)))
        (c2 >>= (λ _. c3 >>= (λ _. c4))) in
    (
      λ h.
          let (h1, t1) = b1.0 h in
          let (h2, t2) = b2.0 t1 in let (h3, h4) = b3.0 t2 in (i1.0 h1, i2.0 h2, i3.0 h3, i4.0 h4),
      λ (h1, h2, h3, h4). b1.1 (i1.1 h1, b2.1 (i2.1 h2, b3.1 (i3.1 h3, i4.1 h4))),
    )

-- A schema that is no object.
any-Correct :
    (v schema : Json) (path : List Step)
    → is_object schema ≡ false
    → (by_schema v (parts_of v) path schema ≡ ok tt) ↔ Accepts schema v
unfolding by_schema
any-Correct v null path h = (λ x. accepts_any refl, λ x. refl)
any-Correct v (boolean b) path h = (λ x. accepts_any refl, λ x. refl)
any-Correct v (number n) path h = (λ x. accepts_any refl, λ x. refl)
any-Correct v (text t) path h = (λ x. accepts_any refl, λ x. refl)
any-Correct v (array xs) path h = (λ x. accepts_any refl, λ x. refl)
any-Correct v (object d) path h = cc

by_schema-Correct :
    (v : Json)
    → ((path : List Step) (d : Fields)
        → (by_schema v (parts_of v) path (object d) ≡ ok tt) ↔ Accepts (object d) v)
    → Correct v
by_schema-Correct v c path (object d) = c path d
by_schema-Correct v c path null = any-Correct v null path refl
by_schema-Correct v c path (boolean b) = any-Correct v (boolean b) path refl
by_schema-Correct v c path (number n) = any-Correct v (number n) path refl
by_schema-Correct v c path (text t) = any-Correct v (text t) path refl
by_schema-Correct v c path (array xs) = any-Correct v (array xs) path refl

scalar-Correct :
    (v : Json) → parts_of v ≡ leaf → is_array v ≡ false → is_object v ≡ false → Correct v
unfolding check_parts
scalar-Correct v l a o = by_schema-Correct v (λ path d.
    let i = by_schema_iff v (parts_of v) path d in
    (
      λ h. let (en, ty, _) = i.0 h in accepts_scalar d refl a o en ty,
      λ h. let (en, ty) = Accepts-value d refl h in i.1 (en, ty, rw l refl),
    ))

mutual
  unfolding parts_of check_parts

  parts_of-Correct : (v : Json) → Correct v
  parts_of-Correct null = scalar-Correct null refl refl refl
  parts_of-Correct (boolean b) = scalar-Correct (boolean b) refl refl refl
  parts_of-Correct (number n) = scalar-Correct (number n) refl refl refl
  parts_of-Correct (text t) = scalar-Correct (text t) refl refl refl
  parts_of-Correct (array xs) = by_schema-Correct (array xs) (λ path d.
      let i = by_schema_iff (array xs) (elements (checks_of xs)) path d in
      let j = check_items_iff path (get_or null "items" d) xs (items-Correct xs) in
      (
        λ h. let (en, ty, r) = i.0 h in accepts_array d xs refl refl en ty (j.0 r),
        λ h.
            let (en, ty) = Accepts-value d refl h in
            i.1 (en, ty, j.1 (Accepts-items d xs refl refl h)),
      ))
  parts_of-Correct (object e) = by_schema-Correct (object e) (λ path d.
      let i = by_schema_iff (object e) (members (checks e)) path d in
      let j = check_object_iff path d e (fields-Correct e) in
      (
        λ h.
            let (en, ty, r) = i.0 h in
            let (re, al, pr, ad) = j.0 r in accepts_object d e refl refl en ty re al pr ad,
        λ h.
            let (en, ty) = Accepts-value d refl h in
            i.1 (en, ty, j.1 (Accepts-members d e refl refl h)),
      ))

  items-Correct : (xs : Items) (x : Json) → ItemOf x xs → Correct x
  items-Correct no_items x y = elim y [ ]
  items-Correct (item v xs) x (inl p) = subst Correct (sym p) (parts_of-Correct v)
  items-Correct (item v xs) x (inr y) = items-Correct xs x y

  fields-Correct : (e : Fields) (k : String) (w : Json) → FieldOf k w e → Correct w
  fields-Correct no_fields k w y = elim y [ ]
  fields-Correct (field j v e) k w (inl (p, q)) = subst Correct (sym q) (parts_of-Correct v)
  fields-Correct (field j v e) k w (inr y) = fields-Correct e k w y

-- `_validate` returns without an error just where the schema accepts the arguments.
pub validate-Accepts :
    (schema arguments : Json) → (validate schema arguments ≡ ok tt) ↔ Accepts schema arguments
unfolding validate
validate-Accepts schema arguments = parts_of-Correct arguments [] schema
