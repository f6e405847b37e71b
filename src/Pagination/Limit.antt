-- ===== src/Pagination/Limit.antt =====
-- What `max_items` bounds: the items, and the pages where each page that goes on has items.
use open_feishu.Common.{
  ℕ, zero, suc, ◌+◌, ◌-◌, ◌≤◌, ◌<◌, max, ◌≡◌, refl, arith, String, Bool-cases, true, inl, inr,
  Option, none, some, List, [], ◌∷◌, length, leb, leb_false→lt,
}
use open_feishu.Pagination.{
  Request, Progress, Yielded, stops, counted, page_items, next_token, go_on, iterate_from, iterate,
}
use open_feishu.Pagination.Pages.{all_items, iterate-page_items}

still_below :
    {c limit : ℕ} (c' l : ℕ) → c ≡ c' + 1 + l → c' + 1 < limit → (0 < l → c < limit) → c < limit
still_below c' zero e h below = omega (arith, e, h)
still_below c' (suc l) e h below = below (omega arith)

-- A page that goes on has items.
abbrev pub Fed : {A : Type 0} → Request A → Type 0
Fed r =
    (n : ℕ) (token : Option String) (t : String)
    → next_token token (r.fetch n token) ≡ some t
    → 0 < length (r.fetch n token).items

module _ {A : Type 0} (r : Request A) (limit : ℕ) (limited : r.max_items ≡ some limit) where
  -- As many items as are left of the limit at most, though one where none is left.
  page_items-limit :
      (p : Progress A) (xs : List A) → length (page_items r p xs).0 ≤ max 1 (limit - p.collected)
  unfolding page_items
  page_items-limit p [] = omega arith
  page_items-limit p (x ∷ xs) = elim (Bool-cases (stops r.early_stop p.acc x)) [
    | inl e ↦ rw e (omega arith)
    | inr e ↦ elim (Bool-cases (leb limit (p.collected + 1))) [
      | inl f ↦ rw (e, limited, f) (omega arith)
      | inr f ↦
          rw (e, limited, f)
            (omega
              (arith, leb_false→lt limit (p.collected + 1) f, page_items-limit (counted r p x) xs))
    ]
  ]

  -- A page after which the generator goes on is counted, and leaves it below the limit.
  page_items-below :
      (p q : Progress A) (xs : List A)
      → (page_items r p xs).1 ≡ some q
      → (q.collected ≡ p.collected + length xs) × (0 < length xs → q.collected < limit)
  unfolding page_items
  page_items-below p q [] h = ground arith
  page_items-below p q (x ∷ xs) h = elim (Bool-cases (stops r.early_stop p.acc x)) [
    | inl e ↦ cc (rw e at h)
    | inr e ↦ elim (Bool-cases (leb limit (p.collected + 1))) [
      | inl f ↦ cc (rw (e, limited, f) at h)
      | inr f ↦
          let (same, below) = page_items-below (counted r p x) q xs (rw (e, limited, f) at h) in
          (
            omega (arith, same),
            λ _.
                still_below p.collected (length xs) same (leb_false→lt limit (p.collected + 1) f)
                  below,
          )
    ]
  ]

  go_on-returned :
      (xs : List A) (more : Option (Progress A)) (token : Option String)
      (k : String → Progress A → Yielded A)
      → ((t : String) (q : Progress A) → more ≡ some q → token ≡ some t → (k t q).returned ≡ true)
      → (go_on xs more token k).returned ≡ true
  go_on-returned xs none token k h = refl
  go_on-returned xs (some q) none k h = refl
  go_on-returned xs (some q) (some t) k h = h t q refl refl

  iterate_from-returned :
      Fed r
      → (fuel n : ℕ) (token : Option String) (p : Progress A) → 0 < fuel
      → limit - p.collected ≤ fuel
      → (iterate_from r fuel n token p).returned ≡ true
  unfolding iterate_from
  iterate_from-returned fed zero n token p h enough = ground arith
  iterate_from-returned fed (suc fuel) n token p h enough =
      let page = r.fetch n token in
      go_on-returned (page_items r p page.items).0 (page_items r p page.items).1
        (next_token token page) (λ t q. iterate_from r fuel (suc n) (some t) q)
        (λ t q more next.
          let (same, below) = page_items-below p q page.items more in
          let items = fed n token t next in
          let less = below items in
          iterate_from-returned fed fuel (suc n) (some t) q (omega (arith, same, less, items))
            (omega (arith, same, less, items)))

-- With `max_items`, `iterate` yields so many items at most, or one where it is 0.
iterate-limit :
    {A : Type 0} (r : Request A) (limit fuel : ℕ)
    → r.max_items ≡ some limit
    → length (iterate r fuel).yielded ≤ max 1 limit
iterate-limit r limit fuel h = rw (iterate-page_items r fuel) (
    omega (
      arith,
      page_items-limit r limit h (record { collected = 0; acc = [] }) (all_items r fuel 0 none),
    ))

-- With `max_items`, and where each page that goes on has items, `iterate` yields so many items at most
-- within any fuel, and returns within so many pages, both one where it is 0.
pub iterate-returned :
    {A : Type 0} (r : Request A) (limit fuel : ℕ)
    → r.max_items ≡ some limit
    → Fed r
    → (length (iterate r fuel).yielded ≤ max 1 limit) × ((iterate r (max 1 limit)).returned ≡ true)
unfolding iterate
iterate-returned r limit fuel h fed = (
  iterate-limit r limit fuel h,
  iterate_from-returned r limit h fed (max 1 limit) 0 none _ (omega arith) (omega arith),
)
