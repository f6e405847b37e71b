-- ===== src/Pagination/Tests.antt =====
-- A list of three items on two pages.
use open_feishu.Common.{
  ℕ, ◌≤◌, ◌≡◌, refl, arith, String, true, false, Option, none, some, [], ◌∷◌, length,
}
use open_feishu.Pagination.{Page, Request, page_items, next_token, iterate_from, iterate, paginate}
use open_feishu.Pagination.Pages.{all_items, iterate-page_items}
use open_feishu.Pagination.Limit.{Fed, iterate-returned}

pages : Unit {0}
unfolding page_items next_token iterate_from iterate paginate all_items
pages = tt

abbrev two_pages : ℕ → Option String → Page ℕ
two_pages n none = record { items = 1 ∷ 2 ∷ []; has_more = true; page_token = some "p2" }
two_pages n (some _) = record { items = 3 ∷ []; has_more = false; page_token = none }

abbrev all : Request ℕ
all = record { fetch = two_pages; max_items = none; early_stop = none }

abbrev capped : ℕ → Request ℕ
capped n = record all { max_items = some n }

all_of_them : paginate all 2 ≡ some (1 ∷ 2 ∷ 3 ∷ [])
unfolding pages
all_of_them = refl

two_of_them : paginate (capped 2) 2 ≡ some (1 ∷ 2 ∷ [])
unfolding pages
two_of_them = refl

-- A limit of none still yields one.
one_of_none : paginate (capped 0) 2 ≡ some (1 ∷ [])
unfolding pages
one_of_none = refl

iterate-page_items_example : (iterate all 2).yielded ≡ 1 ∷ 2 ∷ 3 ∷ []
unfolding pages
iterate-page_items_example = iterate-page_items all 2

fed : Fed (capped 2)
unfolding next_token
fed n none t h = omega arith
fed n (some s) t h = cc

iterate-returned_example :
    (length (iterate (capped 2) 5).yielded ≤ 2) × ((iterate (capped 2) 2).returned ≡ true)
iterate-returned_example = iterate-returned (capped 2) 2 5 refl fed
