-- ===== src/Agent/Tools/Loops.antt =====
-- The loops over the items and the fields of a value.
use open_feishu.Common.{
  ℕ, ◌+◌, ◌≡◌, ◌↔◌, refl, sym, ap, ◌∙◌, subst, arith, String, false, Bool-cases, Option, none, some,
  inl, inr, List, [], ◌∷◌, ◌++◌, ok, ◌==◌, string_eq, eq_iff, if◌then◌else◌,
}
use open_feishu.Dict
use open_feishu.Dict.{Dict}
use open_feishu.Json.{
  Json, null, boolean, number, text, array, object, Items, no_items, item, Fields, no_fields, field,
  find,
}
use open_feishu.Agent.Tools.{declared}
use open_feishu.Agent.Tools.Validate.{
  Step, key, index, Check, each_additional, check_at, each_property, check_properties,
  check_additional, each_index, check_items, by_schema, parts_of, checks_of, checks,
}
use open_feishu.Agent.Tools.Accepts.{ItemOf, FieldOf, Accepts}
use open_feishu.Agent.Tools.Names.{bind_iff}

-- The validation accepts what the schema accepts.
abbrev pub Correct : Json → Type 0
Correct v =
    (path : List Step) (schema : Json)
    → (by_schema v (parts_of v) path schema ≡ ok tt) ↔ Accepts schema v

pub each_index_iff :
    (path : List Step) (i : ℕ) (schema : Json) (xs : Items)
    → ((x : Json) → ItemOf x xs → Correct x)
    → (each_index path i schema (checks_of xs) ≡ ok tt)
      ↔ ((x : Json) → ItemOf x xs → Accepts schema x)
unfolding checks_of
each_index_iff path i schema no_items c = (λ h x y. elim y [ ], λ h. refl)
each_index_iff path i schema (item v xs) c =
    let here = c v (inl refl) (path ++ index i ∷ []) schema in
    let rest = each_index_iff path (i + 1) schema xs (λ x y. c x (inr y)) in
    let b = bind_iff (by_schema v (parts_of v) (path ++ index i ∷ []) schema) _ in
    (
      λ h x y. elim y [
        | inl t ↦ subst (Accepts schema) (sym t) (here.0 (b.0 h).0)
        | inr t ↦ rest.0 (b.0 h).1 x t
      ],
      λ h. b.1 (here.1 (h v (inl refl)), rest.1 (λ x y. h x (inr y))),
    )

pub find-FieldOf : (k : String) (e : Fields) (w : Json) → find k e ≡ some w → FieldOf k w e
unfolding find
find-FieldOf k no_fields w h = cc
find-FieldOf k (field j v d) w h = elim (Bool-cases (j == k)) [
  | inl t ↦ let u = simp t at h in inl (sym ((eq_iff j k).0 t), cc)
  | inr t ↦ inr (find-FieldOf k d w (simp t at h))
]

unfoldable pub check_of : Option Json → Option Check
check_of none = none
check_of (some w) = some (by_schema w (parts_of w))

pub check_of_iff :
    (path : List Step) (k : String) (sub : Json) (o : Option Json)
    → ((w : Json) → o ≡ some w → Correct w)
    → (check_at path k sub (check_of o) ≡ ok tt)
      ↔ ((s : Fields) (w : Json) → sub ≡ object s → o ≡ some w → Accepts sub w)
unfolding check_of
check_of_iff path k (object s) (some w) c =
    let i = c w refl (path ++ key k ∷ []) (object s) in
    (
      λ h s' w' p q. subst (Accepts (object s)) (let x : w ≡ w' = cc in x) (i.0 h),
      λ h. i.1 (h s w refl refl),
    )
check_of_iff path k (object s) none c = (λ h s w p q. cc, λ h. refl)
check_of_iff path k null o c = (λ h s w p q. cc, λ h. refl)
check_of_iff path k (boolean b) o c = (λ h s w p q. cc, λ h. refl)
check_of_iff path k (number n) o c = (λ h s w p q. cc, λ h. refl)
check_of_iff path k (text t) o c = (λ h s w p q. cc, λ h. refl)
check_of_iff path k (array xs) o c = (λ h s w p q. cc, λ h. refl)

pub get-checks : (k : String) (e : Fields) → Dict.get k (checks e) ≡ check_of (find k e)
unfolding checks Dict.get find check_of
get-checks k no_fields = refl
get-checks k (field j w d) = ground (arith, get-checks k d)

module _ (e : Fields) (c : (j : String) (w : Json) → FieldOf j w e → Correct w) where
  pub check_at_iff :
      (path : List Step) (k : String) (sub : Json)
      → (check_at path k sub (Dict.get k (checks e)) ≡ ok tt)
        ↔ ((s : Fields) (w : Json) → sub ≡ object s → find k e ≡ some w → Accepts sub w)
  check_at_iff path k sub =
      rw (get-checks k e) (check_of_iff path k sub (find k e) (λ w h. c k w (find-FieldOf k e w h)))

  pub each_property_iff :
      (path : List Step) (ps : Fields)
      → (each_property path ps (checks e) ≡ ok tt) ↔ (
          (sub : Fields) (k : String) (w : Json)
          → FieldOf k (object sub) ps
          → find k e ≡ some w
          → Accepts (object sub) w)
  each_property_iff path no_fields = (λ h s k w x g. elim x [ ], λ h. refl)
  each_property_iff path (field j sub ps) =
      let here = check_at_iff path j sub in
      let rest = each_property_iff path ps in
      let b =
        bind_iff (check_at path j sub (Dict.get j (checks e))) (each_property path ps (checks e)) in
      (
        λ h s k w x g. elim x [
          | inl (p, q) ↦
              subst (λ t. Accepts t w) (sym q)
                (here.0 (b.0 h).0 s w (sym q) (ap (λ i. find i e) (sym p) ∙ g))
          | inr y ↦ rest.0 (b.0 h).1 s k w y g
        ],
        λ h. b.1 (
          here.1 (λ s w p g. subst (λ t. Accepts t w) (sym p) (h s j w (inl (refl, sym p)) g)),
          rest.1 (λ s k w x g. h s k w (inr x) g),
        ),
      )

  pub check_properties_iff :
      (path : List Step) (props : Json)
      → (check_properties path props (checks e) ≡ ok tt) ↔ (
          (ps sub : Fields) (k : String) (w : Json)
          → props ≡ object ps
          → FieldOf k (object sub) ps
          → find k e ≡ some w
          → Accepts (object sub) w)
  check_properties_iff path (object ps) =
      let i = each_property_iff path ps in
      (
        λ h qs s k w p x g.
            i.0 h s k w (subst (FieldOf k (object s)) (let t : qs ≡ ps = cc in t) x) g,
        λ h. i.1 (λ s k w x g. h ps s k w refl x g),
      )
  check_properties_iff path null = (λ h qs s k w p x g. cc, λ h. refl)
  check_properties_iff path (boolean b) = (λ h qs s k w p x g. cc, λ h. refl)
  check_properties_iff path (number n) = (λ h qs s k w p x g. cc, λ h. refl)
  check_properties_iff path (text t) = (λ h qs s k w p x g. cc, λ h. refl)
  check_properties_iff path (array xs) = (λ h qs s k w p x g. cc, λ h. refl)

pub additional_iff :
    (path : List Step) (props sub : Json) (e : Fields)
    → ((j : String) (w : Json) → FieldOf j w e → Correct w)
    → (each_additional path props sub (checks e) ≡ ok tt)
      ↔ ((k : String) (w : Json) → FieldOf k w e → declared k props ≡ false → Accepts sub w)
unfolding checks
additional_iff path props sub no_fields c = (λ h k w x d. elim x [ ], λ h. refl)
additional_iff path props sub (field j v e) c =
    let rest = additional_iff path props sub e (λ k w x. c k w (inr x)) in
    let here = c j v (inl (refl, refl)) (path ++ key j ∷ []) sub in
    let b =
      bind_iff
        (if declared j props then ok tt else by_schema v (parts_of v) (path ++ key j ∷ []) sub)
        (each_additional path props sub (checks e)) in
    (
      λ h k w x d. elim x [
        | inl (p, q) ↦
            let t : declared j props ≡ false = ap (λ i. declared i props) (sym p) ∙ d in
            subst (Accepts sub) (sym q) (here.0 (simp t at (b.0 h).0))
        | inr y ↦ rest.0 (b.0 h).1 k w y d
      ],
      λ h. b.1 (
        elim (Bool-cases (declared j props)) [
          | inl t ↦ simp t
          | inr t ↦ simp t (here.1 (h j v (inl (refl, refl)) t))
        ],
        rest.1 (λ k w x d. h k w (inr x) d),
      ),
    )

pub check_additional_iff :
    (path : List Step) (props extra_ : Json) (e : Fields)
    → ((j : String) (w : Json) → FieldOf j w e → Correct w)
    → (check_additional path props extra_ (checks e) ≡ ok tt) ↔ (
        (sub : Fields) (k : String) (w : Json)
        → extra_ ≡ object sub
        → FieldOf k w e
        → declared k props ≡ false
        → Accepts (object sub) w)
check_additional_iff path props (object s) e c =
    let i = additional_iff path props (object s) e c in
    (
      λ h s' k w p x d. subst (λ t. Accepts t w) p (i.0 h k w x d),
      λ h. i.1 (λ k w x d. h s k w refl x d),
    )
check_additional_iff path props null e c = (λ h s k w p x d. cc, λ h. refl)
check_additional_iff path props (boolean b) e c = (λ h s k w p x d. cc, λ h. refl)
check_additional_iff path props (number n) e c = (λ h s k w p x d. cc, λ h. refl)
check_additional_iff path props (text t) e c = (λ h s k w p x d. cc, λ h. refl)
check_additional_iff path props (array xs) e c = (λ h s k w p x d. cc, λ h. refl)

pub check_items_iff :
    (path : List Step) (sub : Json) (xs : Items)
    → ((x : Json) → ItemOf x xs → Correct x)
    → (check_items path sub (checks_of xs) ≡ ok tt)
      ↔ ((s : Fields) (x : Json) → sub ≡ object s → ItemOf x xs → Accepts (object s) x)
check_items_iff path (object s) xs c =
    let i = each_index_iff path 0 (object s) xs c in
    (λ h s' x p y. subst (λ t. Accepts t x) p (i.0 h x y), λ h. i.1 (λ x y. h s x refl y))
check_items_iff path null xs c = (λ h s x p y. cc, λ h. refl)
check_items_iff path (boolean b) xs c = (λ h s x p y. cc, λ h. refl)
check_items_iff path (number n) xs c = (λ h s x p y. cc, λ h. refl)
check_items_iff path (text t) xs c = (λ h s x p y. cc, λ h. refl)
check_items_iff path (array ts) xs c = (λ h s x p y. cc, λ h. refl)
