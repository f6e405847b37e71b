-- ===== src/Auth/UserTokens/Aliases.antt =====
-- What a lookup finds after the records of an identity are replaced.
use open_feishu.Common.{
  ◌≡◌, refl, ◌∙◌, String, true, false, ◌&&◌, not, Option, none, some, ◌⊎◌, inl, inr, List, [], ◌∷◌,
  Eq, ◌==◌, string_eq, eq_iff, arith, mem, mem-append, if◌then◌else◌, Bool-cases,
}
use open_feishu.Dict
use open_feishu.Dict.{Dict, get-put, get-del}
use open_feishu.Auth.UserTokens.{TokenRecord}
use open_feishu.Auth.UserTokens.Replace.{
  with_found, previous, aliases, drop_stale, put_all, replace,
}

with_found-right :
    (k : String) (o : Option TokenRecord) (records : List TokenRecord)
    → mem k (aliases records) ≡ true
    → mem k (aliases (with_found o records)) ≡ true
unfolding aliases
with_found-right k none records h = h
with_found-right k (some r) records h = mem-append k r.user_keys (aliases records) ∙ ground arith

with_found-or :
    (k : String) (o : Option TokenRecord) (records : List TokenRecord)
    → mem k (aliases (with_found o records)) ≡ true
    → ((r : TokenRecord) × (o ≡ some r) × (mem k r.user_keys ≡ true))
      ⊎ (mem k (aliases records) ≡ true)
unfolding aliases
with_found-or k none records h = inr h
with_found-or k (some r) records h = elim (Bool-cases (mem k r.user_keys)) [
  | inl m ↦ inl (r, refl, m)
  | inr m ↦ inr (ground (arith, mem-append k r.user_keys (aliases records)))
]

module _ {K : Type 0} ⦃e : Eq K⦄ (wrap : String → K)
    (inj : (a b : String) → (wrap a == wrap b) ≡ (a == b)) where
  get-put_all :
      (k : String) (keys : List String) (r : TokenRecord) (d : Dict K TokenRecord)
      → Dict.get (wrap k) (put_all wrap keys r d)
        ≡ (if mem k keys then some r else Dict.get (wrap k) d)
  unfolding put_all
  get-put_all k [] r d = refl
  get-put_all k (j ∷ keys) r d =
      rw (get-put_all k keys r (Dict.put (wrap j) r d), get-put (wrap j) (wrap k) r d, inj j k)
        (elim (Bool-cases (j == k)) [
          | inl h ↦ rw h (elim (Bool-cases (mem k keys)) [ inl g ↦ rw g refl | inr g ↦ rw g refl ])
          | inr h ↦ rw h refl
        ])

  get-drop_stale :
      (k : String) (stale keys : List String) (d : Dict K TokenRecord)
      → Dict.get (wrap k) (drop_stale wrap stale keys d)
        ≡ (if mem k stale && not (mem k keys) then none else Dict.get (wrap k) d)
  unfolding drop_stale
  get-drop_stale k [] keys d = refl
  get-drop_stale k (j ∷ stale) keys d = elim (Bool-cases (mem j keys)) [
    | inl m ↦
        rw (m, get-drop_stale k stale keys d)
          (elim (Bool-cases (j == k)) [
            | inl h ↦
                let same : j ≡ k = (eq_iff j k).0 h in
                let there : mem k keys ≡ true = rw same at m in rw (h, there) (ground arith)
            | inr h ↦ rw h refl
          ])
    | inr m ↦
        rw
          (
            m,
            get-del (wrap j) (wrap k) (drop_stale wrap stale keys d),
            inj j k,
            get-drop_stale k stale keys d,
          )
          (elim (Bool-cases (j == k)) [
            | inl h ↦
                let same : j ≡ k = (eq_iff j k).0 h in
                let away : mem k keys ≡ false = rw same at m in rw (h, away) refl
            | inr h ↦ rw h refl
          ])
  ]

  -- The new record under the keys, nothing under the other aliases of the old ones, and elsewhere
  -- what was there.
  pub get-replace :
      (k : String) (keys : List String) (r : TokenRecord) (d : Dict K TokenRecord)
      → Dict.get (wrap k) (replace wrap keys r d) ≡ (
          if mem k keys
          then some r
          else if mem k (aliases (previous wrap keys d))
          then none
          else Dict.get (wrap k) d)
  unfolding replace
  get-replace k keys r d =
      rw
        (
          get-put_all k keys r (drop_stale wrap (aliases (previous wrap keys d)) keys d),
          get-drop_stale k (aliases (previous wrap keys d)) keys d,
        )
        (elim (Bool-cases (mem k keys)) [ inl g ↦ rw g refl | inr g ↦ rw g (ground arith) ])

  -- An alias of a record under one of the keys is stale.
  pub aliases-of :
      (k j : String) (keys : List String) (r : TokenRecord) (d : Dict K TokenRecord)
      → mem j keys ≡ true
      → Dict.get (wrap j) d ≡ some r
      → mem k r.user_keys ≡ true
      → mem k (aliases (previous wrap keys d)) ≡ true
  unfolding aliases previous
  aliases-of k j [] r d h g m = cc
  aliases-of k j (i ∷ keys) r d h g m = elim (Bool-cases (i == j)) [
    | inl f ↦
        let same : i ≡ j = (eq_iff i j).0 f in
        rw (same, g) (mem-append k r.user_keys (aliases (previous wrap keys d)) ∙ ground arith)
    | inr f ↦
        with_found-right k (Dict.get (wrap i) d) (previous wrap keys d)
          (aliases-of k j keys r d (rw f at h) g m)
  ]

  -- And a stale alias is one of such a record.
  pub aliases-from :
      (k : String) (keys : List String) (d : Dict K TokenRecord)
      → mem k (aliases (previous wrap keys d)) ≡ true
      → (j : String) × (r : TokenRecord) × (mem j keys ≡ true)
        × (Dict.get (wrap j) d ≡ some r)
        × (mem k r.user_keys ≡ true)
  unfolding aliases previous
  aliases-from k [] d h = cc
  aliases-from k (i ∷ keys) d h =
      elim (with_found-or k (Dict.get (wrap i) d) (previous wrap keys d) h) [
        | inl (r, g, m) ↦ (i, r, ground (arith, eq_iff i i), g, m)
        | inr m ↦ let (j, r, n, g, l) = aliases-from k keys d m in (j, r, ground (arith, n), g, l)
      ]

module _ {K : Type 0} ⦃e : Eq K⦄ (wrap : String → K) (x : K)
    (away : (k : String) → (wrap k == x) ≡ false) where
  get-put_all_other :
      (keys : List String) (r : TokenRecord) (d : Dict K TokenRecord)
      → Dict.get x (put_all wrap keys r d) ≡ Dict.get x d
  unfolding put_all
  get-put_all_other [] r d = refl
  get-put_all_other (k ∷ keys) r d =
      rw (get-put_all_other keys r (Dict.put (wrap k) r d), get-put (wrap k) x r d, away k) refl

  get-drop_stale_other :
      (stale keys : List String) (d : Dict K TokenRecord)
      → Dict.get x (drop_stale wrap stale keys d) ≡ Dict.get x d
  unfolding drop_stale
  get-drop_stale_other [] keys d = refl
  get-drop_stale_other (k ∷ stale) keys d = elim (Bool-cases (mem k keys)) [
    | inl m ↦ rw m (get-drop_stale_other stale keys d)
    | inr m ↦
        rw (m, get-del (wrap k) x (drop_stale wrap stale keys d), away k)
          (get-drop_stale_other stale keys d)
  ]

  -- Keys that are not wrapped so are left alone.
  pub get-replace_other :
      (keys : List String) (r : TokenRecord) (d : Dict K TokenRecord)
      → Dict.get x (replace wrap keys r d) ≡ Dict.get x d
  unfolding replace
  get-replace_other keys r d =
      get-put_all_other keys r (drop_stale wrap (aliases (previous wrap keys d)) keys d)
      ∙ get-drop_stale_other (aliases (previous wrap keys d)) keys d
