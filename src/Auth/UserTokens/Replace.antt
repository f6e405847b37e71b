-- ===== src/Auth/UserTokens/Replace.antt =====
-- feishu/auth/user_tokens.py: how `save` and `save_for_tenant` replace the records of an identity, in
-- a dict whose keys are made of the identity keys.
use open_feishu.Common.{String, Option, none, some, List, [], ◌∷◌, ◌++◌, Eq, mem, if◌then◌else◌}
use open_feishu.Dict
use open_feishu.Dict.{Dict}
use open_feishu.Auth.UserTokens.{TokenRecord}

abbrev pub with_found : Option TokenRecord → List TokenRecord → List TokenRecord
with_found none records = records
with_found (some r) records = r ∷ records

-- The aliases that records name.
unfoldable pub aliases : List TokenRecord → List String
aliases [] = []
aliases (r ∷ records) = r.user_keys ++ aliases records

module _ {K : Type 0} ⦃e : Eq K⦄ (wrap : String → K) where
  -- What is stored under the keys.
  unfoldable pub previous : List String → Dict K TokenRecord → List TokenRecord
  previous [] d = []
  previous (key ∷ keys) d = with_found (Dict.get (wrap key) d) (previous keys d)

  -- `for alias in stale - set(keys): pop(alias)`
  unfoldable pub drop_stale : List String → List String → Dict K TokenRecord → Dict K TokenRecord
  drop_stale [] keys d = d
  drop_stale (alias ∷ stale) keys d =
      let rest = drop_stale stale keys d in
      if mem alias keys then rest else Dict.del (wrap alias) rest

  unfoldable pub put_all : List String → TokenRecord → Dict K TokenRecord → Dict K TokenRecord
  put_all [] r d = d
  put_all (key ∷ keys) r d = put_all keys r (Dict.put (wrap key) r d)

  unfoldable pub replace : List String → TokenRecord → Dict K TokenRecord → Dict K TokenRecord
  replace keys r d = put_all keys r (drop_stale (aliases (previous keys d)) keys d)
