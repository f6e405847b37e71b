-- ===== src/Pagination/Pages.antt =====
-- The items that `iterate` yields do not depend on how they are cut into pages.
use open_feishu.Common.{
  ℕ, zero, suc, ◌+◌, ◌≡◌, refl, sym, ◌∙◌, ap, String, Bool-cases, inl, inr, Option, none, some,
  List, [], ◌∷◌, ◌++◌,
}
use open_feishu.Pagination.{
  Request, Progress, Yielded, reached, stops, page_items, next_token, counted, go_on, iterate_from,
  iterate,
}

module _ {A : Type 0} (r : Request A) where
  abbrev followed : List A → Option String → (String → List A) → List A
  followed xs none rest = xs
  followed xs (some t) rest = xs ++ rest t

  -- The items of the pages one after the other, as many pages as there is fuel.
  unfoldable pub all_items : ℕ → ℕ → Option String → List A
  all_items zero n token = []
  all_items (suc fuel) n token =
      followed (r.fetch n token).items (next_token token (r.fetch n token))
        (λ t. all_items fuel (suc n) (some t))

  abbrev resume : List A → Option (Progress A) → List A → List A
  resume xs none ys = xs
  resume xs (some q) ys = xs ++ (page_items r q ys).0

  resume-cons :
      (x : A) (xs : List A) (more : Option (Progress A)) (ys : List A)
      → resume (x ∷ xs) more ys ≡ x ∷ resume xs more ys
  resume-cons x xs none ys = refl
  resume-cons x xs (some q) ys = refl

  page_items-append :
      (p : Progress A) (xs ys : List A)
      → (page_items r p (xs ++ ys)).0 ≡ resume (page_items r p xs).0 (page_items r p xs).1 ys
  unfolding page_items
  page_items-append p [] ys = refl
  page_items-append p (x ∷ xs) ys = elim (Bool-cases (stops r.early_stop p.acc x)) [
    | inl e ↦ rw e refl
    | inr e ↦ elim (Bool-cases (reached r.max_items (p.collected + 1))) [
      | inl f ↦ rw (e, f) refl
      | inr f ↦
          rw (e, f)
            (ap (◌∷◌ x) (page_items-append (counted r p x) xs ys)
              ∙ sym (
                  resume-cons x (page_items r (counted r p x) xs).0
                    (page_items r (counted r p x) xs).1 ys))
    ]
  ]

  abbrev resume_at : List A → Option (Progress A) → Option String → (String → List A) → List A
  resume_at xs more none rest = xs
  resume_at xs more (some t) rest = resume xs more (rest t)

  page_items-followed :
      (p : Progress A) (xs : List A) (token : Option String) (rest : String → List A)
      → (page_items r p (followed xs token rest)).0
        ≡ resume_at (page_items r p xs).0 (page_items r p xs).1 token rest
  page_items-followed p xs none rest = refl
  page_items-followed p xs (some t) rest = page_items-append p xs (rest t)

  go_on-resume_at :
      (xs : List A) (more : Option (Progress A)) (token : Option String)
      (k : String → Progress A → Yielded A) (rest : String → List A)
      → ((t : String) (q : Progress A) → (k t q).yielded ≡ (page_items r q (rest t)).0)
      → (go_on xs more token k).yielded ≡ resume_at xs more token rest
  go_on-resume_at xs none none k rest h = refl
  go_on-resume_at xs none (some t) k rest h = refl
  go_on-resume_at xs (some q) none k rest h = refl
  go_on-resume_at xs (some q) (some t) k rest h = ap (λ zs. xs ++ zs) (h t q)

  -- Whatever the fuel, what `iterate` yields is what one page with all the items yields.
  iterate_from-page_items :
      (fuel n : ℕ) (token : Option String) (p : Progress A)
      → (iterate_from r fuel n token p).yielded ≡ (page_items r p (all_items fuel n token)).0
  unfolding iterate_from all_items page_items
  iterate_from-page_items zero n token p = refl
  iterate_from-page_items (suc fuel) n token p =
      let page = r.fetch n token in
      go_on-resume_at (page_items r p page.items).0 (page_items r p page.items).1
        (next_token token page) (λ t q. iterate_from r fuel (suc n) (some t) q)
        (λ t. all_items fuel (suc n) (some t))
        (λ t q. iterate_from-page_items fuel (suc n) (some t) q)
      ∙ sym (
          page_items-followed p page.items (next_token token page)
            (λ t. all_items fuel (suc n) (some t)))

-- What `iterate` yields within any fuel is what the loop over items yields of one page that holds the
-- items of all the pages in their order: the cut into pages does not matter.
pub iterate-page_items :
    {A : Type 0} (r : Request A) (fuel : ℕ)
    → (iterate r fuel).yielded
      ≡ (page_items r (record { collected = 0; acc = [] }) (all_items r fuel 0 none)).0
unfolding iterate
iterate-page_items r fuel =
    iterate_from-page_items r fuel 0 none (record { collected = 0; acc = [] })
