-- ===== src/Auth/UserTokens/Consistent.antt =====
-- The aliases of a stored token agree, after whatever calls.
use open_feishu.Common.{
  ℕ, ◌≡◌, refl, sym, ◌∙◌, subst, String, true, false, Option, none, some, inl, inr, List, [], ◌∷◌,
  Eq, ◌==◌, string_eq, eq_iff, arith, mem, Bool-cases, Outcome, ok, err,
}
use open_feishu.Dict
use open_feishu.Dict.{Dict, get-put, get-del}
use open_feishu.Auth.UserTokens.{TokenRecord, TokenData, from_token_data}
use open_feishu.Auth.UserTokens.Replace.{aliases, previous, replace}
use open_feishu.Auth.UserTokens.Aliases.{get-replace, aliases-of, aliases-from, get-replace_other}
use open_feishu.Auth.UserTokens.Store.{
  pair_eq, Tokens, init, TokenError, itself, in_tenant, keys_for_save, save_keys, save, agree,
  is_expected, scoped_keys, save_scoped, save_for_tenant,
}

-- What is stored under a key names that key, and stands under each key that it names.
abbrev pub IsConsistent : {K : Type 0} ⦃e : Eq K⦄ (wrap : String → K) → Dict K TokenRecord → Type 0
IsConsistent wrap d =
    (k : String) (r : TokenRecord)
    → Dict.get (wrap k) d ≡ some r
    → (mem k r.user_keys ≡ true)
      × ((j : String) → mem j r.user_keys ≡ true → Dict.get (wrap j) d ≡ some r)

module _ {K : Type 0} ⦃e : Eq K⦄ (wrap : String → K)
    (inj : (a b : String) → (wrap a == wrap b) ≡ (a == b)) (keys : List String) (r : TokenRecord)
    (d : Dict K TokenRecord) where
  abbrev stale : List String
  stale = aliases (previous wrap keys d)

  get-new : (k : String) → mem k keys ≡ true → Dict.get (wrap k) (replace wrap keys r d) ≡ some r
  get-new k m = rw (get-replace wrap inj k keys r d, m) refl

  get-old :
      (k : String)
      → mem k keys ≡ false
      → mem k stale ≡ false
      → Dict.get (wrap k) (replace wrap keys r d) ≡ Dict.get (wrap k) d
  get-old k m n = rw (get-replace wrap inj k keys r d, m, n) refl

  get-stale :
      (k : String)
      → mem k keys ≡ false
      → mem k stale ≡ true
      → Dict.get (wrap k) (replace wrap keys r d) ≡ none
  get-stale k m n = rw (get-replace wrap inj k keys r d, m, n) refl

  module _ (v : IsConsistent wrap d) where
    -- A key that keeps its record keeps it at each alias.
    kept :
        (k : String) (q : TokenRecord)
        → mem k stale ≡ false
        → Dict.get (wrap k) d ≡ some q
        → (j : String) → mem j q.user_keys ≡ true
        → Dict.get (wrap j) (replace wrap keys r d) ≡ some q
    kept k q n g j m = elim (Bool-cases (mem j keys)) [
      | inl i ↦
          let x : mem k stale ≡ true =
            aliases-of wrap inj k j keys q d i ((v k q g).1 j m) (v k q g).0 in
          cc
      | inr i ↦ elim (Bool-cases (mem j stale)) [
        | inr l ↦ get-old j i l ∙ (v k q g).1 j m
        | inl l ↦
            let (h, p, a, b, c) = aliases-from wrap inj j keys d l in
            let x : some p ≡ some q = sym ((v h p b).1 j c) ∙ (v k q g).1 j m in
            let same : q ≡ p = cc in
            let y : mem k stale ≡ true =
              aliases-of wrap inj k h keys p d a b
                (subst (λ z. mem k z.user_keys ≡ true) same (v k q g).0) in
            cc
      ]
    ]

    pub replace-IsConsistent : r.user_keys ≡ keys → IsConsistent wrap (replace wrap keys r d)
    replace-IsConsistent u k q g = elim (Bool-cases (mem k keys)) [
      | inl m ↦
          let x : some r ≡ some q = sym (get-new k m) ∙ g in
          let same : r ≡ q = cc in
          subst
            (λ z.
              (mem k z.user_keys ≡ true)
              × ((j : String)
                  → mem j z.user_keys ≡ true
                  → Dict.get (wrap j) (replace wrap keys r d) ≡ some z))
            same (rw (sym u) at m, λ j n. get-new j (rw u at n))
      | inr m ↦ elim (Bool-cases (mem k stale)) [
        | inl n ↦ let x : none ≡ some q = sym (get-stale k m n) ∙ g in absurd (cc)
        | inr n ↦
            let h : Dict.get (wrap k) d ≡ some q = sym (get-old k m n) ∙ g in
            ((v k q h).0, kept k q n h)
      ]
    ]

in_tenant-injective : (t a b : String) → (in_tenant t a == in_tenant t b) ≡ (a == b)
in_tenant-injective t a b = ground (arith, eq_iff t t)

-- The aliases agree, also within each tenant.
pub record AreConsistent (s : Tokens) : Type 0 where
  pub users : IsConsistent itself s.by_key
  pub tenants : (t : String) → IsConsistent (in_tenant t) s.by_tenant

-- The calls of the store that write.
pub data Save : Type 0 where
  saves :
      (token_data : TokenData) (user_info : Option (Dict String String)) (user_keys : List String)
      (now : ℕ)
      → Save
  saves_for :
      (tenant_key : String) (token_data : TokenData) (user_info : Option (Dict String String))
      (user_keys : List String) (expected_refresh expected_access : Option String) (now : ℕ)
      → Save

abbrev pub after : Outcome TokenError (Tokens × List String) → Tokens → Tokens
after (err x) s = s
after (ok (s', keys)) s = s'

unfoldable pub perform : Save → Tokens → Tokens
perform (saves token_data user_info user_keys now) s =
    after (save token_data user_info user_keys now s) s
perform (saves_for tenant_key token_data user_info user_keys refresh access now) s =
    after (save_for_tenant tenant_key token_data user_info user_keys refresh access now s) s

unfoldable pub perform_all : List Save → Tokens → Tokens
perform_all [] s = s
perform_all (c ∷ calls) s = perform_all calls (perform c s)

from_token_data-keys :
    (token_data : TokenData) (keys : List String) (now : ℕ)
    → (from_token_data token_data keys now).user_keys ≡ keys
unfolding from_token_data
from_token_data-keys token_data keys now = refl

save_keys-AreConsistent :
    (token_data : TokenData) (now : ℕ) (s : Tokens) (o : Outcome TokenError (List String))
    → AreConsistent s
    → AreConsistent (after (save_keys token_data now s o) s)
save_keys-AreConsistent token_data now s (err x) v = v
save_keys-AreConsistent token_data now s (ok keys) v = record {
  users =
      replace-IsConsistent itself (λ a b. refl) keys (from_token_data token_data keys now) s.by_key
        v.users (from_token_data-keys token_data keys now);
  tenants = v.tenants;
}

-- The records of the other tenants stay as they are.
replace-tenants :
    (t : String) (keys : List String) (r : TokenRecord) (d : Dict (String × String) TokenRecord)
    → r.user_keys ≡ keys
    → ((u : String) → IsConsistent (in_tenant u) d)
    → (u : String) → IsConsistent (in_tenant u) (replace (in_tenant t) keys r d)
replace-tenants t keys r d k v u = elim (Bool-cases (t == u)) [
  | inl e ↦
      let same : t ≡ u = (eq_iff t u).0 e in
      subst (λ x. IsConsistent (in_tenant x) (replace (in_tenant t) keys r d)) same
        (replace-IsConsistent (in_tenant t) (in_tenant-injective t) keys r d (v t) k)
  | inr e ↦
      let other =
        λ (j : String). get-replace_other (in_tenant t) (u, j) (λ i. ground (arith, e)) keys r d in
      λ j q g. let (m, w) = v u j q (sym (other j) ∙ g) in (m, λ i n. other i ∙ w i n)
]

save_scoped-AreConsistent :
    (t : String) (token_data : TokenData) (refresh access : Option String) (now : ℕ) (s : Tokens)
    (o : Outcome TokenError (List String))
    → AreConsistent s
    → AreConsistent (after (save_scoped t token_data refresh access now s o) s)
unfolding save_scoped
save_scoped-AreConsistent t token_data refresh access now s (err x) v = v
save_scoped-AreConsistent t token_data refresh access now s (ok keys) v =
    elim (Bool-cases (agree (previous (in_tenant t) keys s.by_tenant))) [
      | inr e ↦ rw e v
      | inl e ↦
          elim (Bool-cases (is_expected refresh access (previous (in_tenant t) keys s.by_tenant))) [
            | inr f ↦ rw (e, f) v
            | inl f ↦
                rw (e, f)
                  (record {
                    users = v.users;
                    tenants =
                        replace-tenants t keys (from_token_data token_data keys now) s.by_tenant
                          (from_token_data-keys token_data keys now) v.tenants;
                  })
          ]
    ]

perform-AreConsistent : (c : Save) (s : Tokens) → AreConsistent s → AreConsistent (perform c s)
unfolding perform save save_for_tenant
perform-AreConsistent (saves token_data user_info user_keys now) s v =
    save_keys-AreConsistent token_data now s (keys_for_save user_info user_keys) v
perform-AreConsistent (saves_for t token_data user_info user_keys refresh access now) s v =
    save_scoped-AreConsistent t token_data refresh access now s (scoped_keys t user_info user_keys)
      v

perform_all-keeps :
    (calls : List Save) (s : Tokens) → AreConsistent s → AreConsistent (perform_all calls s)
unfolding perform_all
perform_all-keeps [] s v = v
perform_all-keeps (c ∷ calls) s v =
    perform_all-keeps calls (perform c s) (perform-AreConsistent c s v)

init-AreConsistent : AreConsistent init
unfolding Dict.get
init-AreConsistent = record { users = λ k r g. cc; tenants = λ t k r g. cc }

-- After any calls of a new store, a record that a key finds names that key, and every key that it
-- names finds the same record, among the users and within each tenant: no alias finds an older token
-- of the same user.
pub perform_all-AreConsistent : (calls : List Save) → AreConsistent (perform_all calls init)
perform_all-AreConsistent calls = perform_all-keeps calls init init-AreConsistent
