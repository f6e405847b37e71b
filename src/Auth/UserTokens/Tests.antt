-- ===== src/Auth/UserTokens/Tests.antt =====
-- A user who is known by two identifiers, and refreshes of one token.
use open_feishu.Common.{◌≡◌, refl, String, true, none, some, List, [], ◌∷◌, string_eq}
use open_feishu.Dict
use open_feishu.Dict.{Dict}
use open_feishu.Auth.Identity.{keys_of, user_identity_keys}
use open_feishu.Auth.UserTokens.{TokenData, from_token_data}
use open_feishu.Auth.UserTokens.Replace.{aliases, previous, drop_stale, put_all, replace}
use open_feishu.Auth.UserTokens.Store.{pair_eq, Tokens, init, get, keys_for_save, save}
use open_feishu.Auth.UserTokens.Consistent.{
  AreConsistent, saves, saves_for, perform, perform_all, perform_all-AreConsistent,
}
use open_feishu.Auth.UserTokens.Guard.{
  Key, Move, tries, returns, raises, holds, try_enter, leave, fail, drop_holder, play, play_all,
  at_rest, busy, enter,
}
use open_feishu.Auth.UserTokens.Exclusive.{holders_of, entries, play_all-holders_of}

user_tokens : Unit {0}
unfolding keys_of user_identity_keys from_token_data aliases previous drop_stale put_all replace get
    keys_for_save save perform perform_all try_enter leave fail drop_holder play play_all enter
    holders_of entries Dict.get Dict.put Dict.del Dict.has
user_tokens = tt

abbrev answer : String → TokenData
answer token = record {
  access_token = some token;
  refresh_token = some "r";
  expires_in = some 7200;
  refresh_token_expires_in = none;
  scope = none;
}

abbrev both : Dict String String
both = ("open_id", "ou_1") ∷ ("union_id", "on_1") ∷ []

abbrev one : Dict String String
one = ("open_id", "ou_1") ∷ []

abbrev other_name : Dict String String
other_name = ("union_id", "on_1") ∷ []

-- The second login names one identifier: the other one finds no older token.
abbrev twice : Tokens
unfolding user_tokens
twice =
    perform_all (saves (answer "a1") (some both) [] 10 ∷ saves (answer "a2") (some one) [] 20 ∷ [])
      init

finds_new : get one twice ≡ some (from_token_data (answer "a2") ("open_id:ou_1" ∷ []) 20)
unfolding user_tokens
finds_new = refl

no_stale_alias : get other_name twice ≡ none
unfolding user_tokens
no_stale_alias = refl

perform_all-AreConsistent_example : AreConsistent (
    perform_all
      (saves (answer "a1") (some both) [] 10
        ∷ saves_for "t_1" (answer "a2") none ("open_id:ou_1" ∷ []) none none 20
        ∷ [])
      init)
perform_all-AreConsistent_example = perform_all-AreConsistent (
    saves (answer "a1") (some both) [] 10
    ∷ saves_for "t_1" (answer "a2") none ("open_id:ou_1" ∷ []) none none 20
    ∷ [])

abbrev token_key : Key
token_key = ("t_1", "sha")

abbrev attempts : List Move
attempts = tries token_key ∷ tries token_key ∷ returns token_key ∷ tries token_key ∷ []

held : holds token_key (play_all attempts at_rest).holders ≡ true
unfolding user_tokens
held = refl

no_entry : (enter (λ n s. s) 2 token_key (play_all attempts at_rest).refreshes).1 ≡ busy
unfolding user_tokens
no_entry = refl

play_all-holders_of_example :
    (holders_of token_key (play_all attempts at_rest).holders ≡ 1)
    × (entries token_key
          (tries token_key ∷ tries token_key ∷ [])
          (play (raises token_key) (play_all attempts at_rest))
        ≡ 0)
play_all-holders_of_example =
    play_all-holders_of token_key attempts (tries token_key ∷ tries token_key ∷ []) held
