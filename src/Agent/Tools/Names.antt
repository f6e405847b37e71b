-- ===== src/Agent/Tools/Names.antt =====
-- The tests on a value itself and on the names of its fields.
use open_feishu.Common.{
  ◌≡◌, ◌↔◌, refl, sym, ◌∙◌, subst, arith, String, Bool, true, false, Bool-cases, Option, none, some,
  ◌⊎◌, inl, inr, List, [], ◌∷◌, ok, err, ◌>>=◌, string_eq, if◌then◌else◌,
}
use open_feishu.Dict
use open_feishu.Dict.{Dict}
use open_feishu.Json.{
  Json, null, boolean, number, text, array, object, Fields, no_fields, field, find, contains,
}
use open_feishu.Agent.Tools.{is_in, is_array, is_text, matches, is_key, mentions, all_hashable}
use open_feishu.Agent.Tools.Validate.{
  Step, missing_required, expects, enumerated, ToolError, Verdict, check_enum, check_type, each,
  present, check_required, check_allowed, extra, no_extra, check_closed, checks,
}
use open_feishu.Agent.Tools.Accepts.{FieldOf, EntryOf}

pub bind_iff : (a b : Verdict) → ((a >>= (λ _. b)) ≡ ok tt) ↔ ((a ≡ ok tt) × (b ≡ ok tt))
bind_iff (ok tt) b = (λ h. (refl, h), λ h. h.1)
bind_iff (err e) b = (λ h. cc, λ h. h.0)

pub if_iff :
    (b : Bool) (e : ToolError)
    → (◌≡◌ {A = Verdict} (if b then ok tt else err e) (ok tt)) ↔ (b ≡ true)
if_iff true e = (λ h. refl, λ h. refl)
if_iff false e = (λ h. cc, λ h. cc)

pub enumerated_iff :
    (path : List Step) (e : Json) (o : Option Bool)
    → (enumerated path e o ≡ ok tt) ↔ (o ≡ some true)
enumerated_iff path e none = (λ h. cc, λ h. cc)
enumerated_iff path e (some true) = (λ h. refl, λ h. refl)
enumerated_iff path e (some false) = (λ h. cc, λ h. cc)

pub check_enum_iff :
    (path : List Step) (v : Json) (o : Option Json)
    → (check_enum path v o ≡ ok tt) ↔ ((e : Json) → o ≡ some e → is_in v e ≡ some true)
check_enum_iff path v none = (λ h e q. cc, λ h. refl)
check_enum_iff path v (some e) = (
  λ h x q.
      let r = (enumerated_iff path e (is_in v e)).0 h in
      subst (λ x. is_in v x ≡ some true) (let t : e ≡ x = cc in t) r,
  λ h. (enumerated_iff path e (is_in v e)).1 (h e refl),
)

pub check_type_iff :
    (path : List Step) (v t : Json)
    → (check_type path v t ≡ ok tt)
      ↔ (((is_text t ≡ true) ⊎ (is_array t ≡ true)) → matches v t ≡ true)
check_type_iff path v (text t) =
    let i = if_iff (matches v (text t)) (expects path (text t)) in
    (λ h x. i.0 h, λ h. i.1 (h (inl refl)))
check_type_iff path v (array ts) =
    let i = if_iff (matches v (array ts)) (expects path (array ts)) in
    (λ h x. i.0 h, λ h. i.1 (h (inr refl)))
check_type_iff path v null = (λ h x. elim x [ inl e ↦ cc | inr e ↦ cc ], λ h. refl)
check_type_iff path v (boolean b) = (λ h x. elim x [ inl e ↦ cc | inr e ↦ cc ], λ h. refl)
check_type_iff path v (number n) = (λ h x. elim x [ inl e ↦ cc | inr e ↦ cc ], λ h. refl)
check_type_iff path v (object d) = (λ h x. elim x [ inl e ↦ cc | inr e ↦ cc ], λ h. refl)

-- The names of the fields, as the keys of what was made of them.
pub has-checks : (k : String) (e : Fields) → Dict.has k (checks e) ≡ contains k e
unfolding checks Dict.has find
has-checks k no_fields = refl
has-checks k (field j w d) = ground (arith, has-checks k d)

pub present_iff : (e : Fields) (r : Json) → (present (checks e) r ≡ ok tt) ↔ (is_key r e ≡ true)
present_iff e (text s) =
    let i = if_iff (Dict.has s (checks e)) (missing_required (text s)) in
    (λ h. sym (has-checks s e) ∙ i.0 h, λ h. i.1 (has-checks s e ∙ h))
present_iff e null = (λ h. cc, λ h. cc)
present_iff e (boolean b) = (λ h. cc, λ h. cc)
present_iff e (number n) = (λ h. cc, λ h. cc)
present_iff e (array xs) = (λ h. cc, λ h. cc)
present_iff e (object d) = (λ h. cc, λ h. cc)

pub required_iff :
    (e : Fields) (rs : List Json)
    → (each (present (checks e)) rs ≡ ok tt) ↔ ((r : Json) → EntryOf r rs → is_key r e ≡ true)
required_iff e [] = (λ h r x. elim x [ ], λ h. refl)
required_iff e (r ∷ rs) =
    let b = bind_iff (present (checks e) r) (each (present (checks e)) rs) in
    let i = required_iff e rs in
    (
      λ h q x. elim x [
        | inl t ↦ subst (λ q. is_key q e ≡ true) (sym t) ((present_iff e r).0 (b.0 h).0)
        | inr t ↦ i.0 (b.0 h).1 q t
      ],
      λ h. b.1 ((present_iff e r).1 (h r (inl refl)), i.1 (λ q t. h q (inr t))),
    )

pub check_required_iff :
    (e : Fields) (o : Option (List Json))
    → (check_required (checks e) o ≡ ok tt)
      ↔ ((rs : List Json) × (o ≡ some rs) × ((r : Json) → EntryOf r rs → is_key r e ≡ true))
check_required_iff e none = (λ h. cc, λ h. cc (h.1))
check_required_iff e (some rs) = (
  λ h. (rs, refl, (required_iff e rs).0 h),
  λ (qs, p, h).
      (required_iff e rs).1
        (subst (λ rs. (r : Json) → EntryOf r rs → is_key r e ≡ true) (let t : qs ≡ rs = cc in t) h),
)

pub no_extra_iff : (ks : List String) → (no_extra ks ≡ ok tt) ↔ (ks ≡ [])
no_extra_iff [] = (λ h. refl, λ h. refl)
no_extra_iff (k ∷ ks) = (λ h. cc, λ h. cc)

pub extra_iff :
    (allowed : List Json) (e : Fields)
    → (extra allowed (checks e) ≡ [])
      ↔ ((k : String) (w : Json) → FieldOf k w e → mentions k allowed ≡ true)
unfolding checks
extra_iff allowed no_fields = (λ h k w x. elim x [ ], λ h. refl)
extra_iff allowed (field j v d) = elim (Bool-cases (mentions j allowed)) [
  | inl t ↦
      let i = extra_iff allowed d in
      (
        λ h k w x. elim x [
          | inl (p, q) ↦ subst (λ k. mentions k allowed ≡ true) (sym p) t
          | inr y ↦ i.0 (simp t at h) k w y
        ],
        λ h. simp t (i.1 (λ k w x. h k w (inr x))),
      )
  | inr t ↦ (λ h. let u = simp t at h in cc, λ h. let u = h j v (inl (refl, refl)) in cc)
]

pub check_allowed_iff :
    (e : Fields) (o : Option (List Json))
    → (check_allowed (checks e) o ≡ ok tt) ↔ (
        (allowed : List Json) × (o ≡ some allowed)
        × (all_hashable allowed ≡ true)
        × ((k : String) (w : Json) → FieldOf k w e → mentions k allowed ≡ true))
check_allowed_iff e none = (λ h. cc, λ h. cc (h.1))
check_allowed_iff e (some allowed) = elim (Bool-cases (all_hashable allowed)) [
  | inl t ↦ (
    λ h. (allowed, refl, t, (extra_iff allowed e).0 ((no_extra_iff _).0 (simp t at h))),
    λ (other_, p, q, h). simp t (
        (no_extra_iff _).1 (
          (extra_iff allowed e).1 (
            subst (λ a. (k : String) (w : Json) → FieldOf k w e → mentions k a ≡ true)
              (let x : other_ ≡ allowed = cc in x) h))),
  )
  | inr t ↦
      (λ h. let u = simp t at h in cc, λ (other_, p, q, h). let x : other_ ≡ allowed = cc in cc)
]

pub check_closed_iff :
    (b : Bool) (o : Option (List Json)) (e : Fields)
    → (check_closed b o (checks e) ≡ ok tt) ↔ (
        b ≡ true
        → (allowed : List Json) × (o ≡ some allowed)
          × (all_hashable allowed ≡ true)
          × ((k : String) (w : Json) → FieldOf k w e → mentions k allowed ≡ true))
check_closed_iff true o e =
    (λ h x. (check_allowed_iff e o).0 h, λ h. (check_allowed_iff e o).1 (h refl))
check_closed_iff false o e = (λ h x. cc, λ h. refl)
