-- ===== src/Pagination.antt =====
-- feishu/pagination.py: `iterate` and `paginate`, which go through the pages of a list.
pub mod Pages
pub mod Limit
pub mod Tests
use open_feishu.Common.{
  ℕ, zero, suc, ◌+◌, String, Bool, true, false, ◌||◌, ◌==◌, string_eq, Option, none, some, List, [],
  ◌∷◌, ◌++◌, leb, if◌then◌else◌,
}

-- The fields of `data` that are read. A page without items has none.
pub record Page (A : Type 0) : Type 0 where
  pub items : List A
  pub has_more : Bool
  pub page_token : Option String

-- What `iterate` is called with. `fetch n token` is what the call number n of `fetch` gives.
pub record Request (A : Type 0) : Type 0 where
  pub fetch : ℕ → Option String → Page A
  pub max_items : Option ℕ
  pub early_stop : Option (List A → A → Bool)

-- `collected` and `acc`.
pub record Progress (A : Type 0) : Type 0 where
  pub collected : ℕ
  pub acc : List A

-- The items that were yielded, and whether the generator returned within the fuel.
pub record Yielded (A : Type 0) : Type 0 where
  pub yielded : List A
  pub returned : Bool

-- `max_items is not None and collected >= max_items`.
abbrev pub reached : Option ℕ → ℕ → Bool
reached none collected = false
reached (some n) collected = leb n collected

-- `next_token == page_token`.
abbrev pub is_token : String → Option String → Bool
is_token t none = false
is_token t (some s) = t == s

module _ {A : Type 0} where
  abbrev pub stops : Option (List A → A → Bool) → List A → A → Bool
  stops none acc x = false
  stops (some stop) acc x = stop acc x

  abbrev pub remember : Option (List A → A → Bool) → List A → A → List A
  remember none acc x = acc
  remember (some _) acc x = acc ++ (x ∷ [])

  abbrev pub counted : Request A → Progress A → A → Progress A
  counted r p x = record { collected = p.collected + 1; acc = remember r.early_stop p.acc x }

  -- The loop over the items of a page, and where it leaves off unless it returns.
  unfoldable pub page_items : Request A → Progress A → List A → List A × Option (Progress A)
  page_items r p [] = ([], some p)
  page_items r p (x ∷ xs) =
      let rest = page_items r (counted r p x) xs in
      if stops r.early_stop p.acc x
      then ([], none)
      else if reached r.max_items (p.collected + 1)
      then (x ∷ [], none)
      else (x ∷ rest.0, rest.1)

  -- The token of the next page, unless `iterate` returns.
  unfoldable pub next_token : Option String → Page A → Option String
  next_token token page =
      if page.has_more
      then elim page.page_token [
        | none ↦ none
        | some t ↦ if (t == "") || is_token t token then none else some t
      ]
      else none

  abbrev pub in_front : List A → Yielded A → Yielded A
  in_front xs rest = record { yielded = xs ++ rest.yielded; returned = rest.returned }

  abbrev pub done : List A → Yielded A
  done xs = record { yielded = xs; returned = true }

  -- The tests after the loop over a page: return, or go on with a token.
  abbrev pub go_on :
      List A → Option (Progress A) → Option String → (String → Progress A → Yielded A) → Yielded A
  go_on xs none token k = done xs
  go_on xs (some q) none k = done xs
  go_on xs (some q) (some t) k = in_front xs (k t q)

  -- `while True`, with fuel for the pages.
  unfoldable pub iterate_from : Request A → ℕ → ℕ → Option String → Progress A → Yielded A
  iterate_from r zero n token p = record { yielded = []; returned = false }
  iterate_from r (suc fuel) n token p =
      let page = r.fetch n token in
      go_on (page_items r p page.items).0 (page_items r p page.items).1 (next_token token page)
        (λ t q. iterate_from r fuel (suc n) (some t) q)

  unfoldable pub iterate : Request A → ℕ → Yielded A
  iterate r fuel = iterate_from r fuel 0 none (record { collected = 0; acc = [] })

  -- The list that `paginate` makes of it, if there is fuel enough.
  unfoldable pub paginate : Request A → ℕ → Option (List A)
  paginate r fuel = if (iterate r fuel).returned then some (iterate r fuel).yielded else none
