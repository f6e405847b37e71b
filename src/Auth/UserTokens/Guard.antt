-- ===== src/Auth/UserTokens/Guard.antt =====
-- feishu/auth/user_tokens.py: `InMemoryOAuthTokenStore.refresh_guard_for_tenant`, which lets one task
-- at a time refresh a token. A key is the tenant and the fingerprint of the refresh token.
use open_feishu.Common.{
  ℕ, zero, suc, String, Bool, true, false, Option, none, some, List, [], ◌∷◌, ◌==◌, if◌then◌else◌,
}
use open_feishu.Dict
use open_feishu.Dict.{Dict}
use open_feishu.Auth.UserTokens.Store.{pair_eq}

abbrev pub Key : Type 0
Key = String × String

pub data RefreshState : Type 0 where
  active frozen : RefreshState

abbrev pub Refreshes : Type 0
Refreshes = Dict Key RefreshState

-- What one round of the loop finds: the guard is free and now held, a refresh has an unknown outcome,
-- or another task holds it.
pub data Entry : Type 0 where
  entered outcome_unknown busy : Entry

abbrev pub entry_of : Option RefreshState → Entry
entry_of none = entered
entry_of (some frozen) = outcome_unknown
entry_of (some active) = busy

abbrev pub hold : Key → Entry → Refreshes → Refreshes
hold key entered s = Dict.put key active s
hold key _ s = s

unfoldable pub try_enter : Key → Refreshes → Refreshes × Entry
try_enter key s = let entry = entry_of (Dict.get key s) in (hold key entry s, entry)

-- The body of the guard has ended, or it has raised.
unfoldable pub leave : Key → Refreshes → Refreshes
leave key s = Dict.del key s

unfoldable pub fail : Key → Refreshes → Refreshes
fail key s = Dict.put key frozen s

-- The loop with some rounds to go; `others` is what other tasks do while a round sleeps.
unfoldable pub enter : (ℕ → Refreshes → Refreshes) → ℕ → Key → Refreshes → Refreshes × Entry
enter others zero key s = (s, busy)
enter others (suc rounds) key s =
    let (s', entry) = try_enter key s in
    let later = enter others rounds key (others rounds s') in
    elim entry [ busy ↦ later | entered ↦ (s', entered) | outcome_unknown ↦ (s', outcome_unknown) ]

abbrev pub rounds : ℕ
rounds = 101

-- The tasks that hold a guard, and what a task does next.
pub record World : Type 0 where
  pub refreshes : Refreshes
  pub holders : List Key

pub data Move : Type 0 where
  tries returns raises : Key → Move

abbrev pub holds : Key → List Key → Bool
holds key [] = false
holds key (k ∷ ks) = if k == key then true else holds key ks

unfoldable pub drop_holder : Key → List Key → List Key
drop_holder key [] = []
drop_holder key (k ∷ ks) = let rest = drop_holder key ks in if k == key then ks else k ∷ rest

abbrev pub add_holder : Key → Entry → List Key → List Key
add_holder key entered ks = key ∷ ks
add_holder key _ ks = ks

-- A task returns or raises only where it holds the guard.
unfoldable pub play : Move → World → World
play (tries key) w = record {
  refreshes = (try_enter key w.refreshes).0;
  holders = add_holder key (try_enter key w.refreshes).1 w.holders;
}
play (returns key) w =
    if holds key w.holders
    then record { refreshes = leave key w.refreshes; holders = drop_holder key w.holders }
    else w
play (raises key) w =
    if holds key w.holders
    then record { refreshes = fail key w.refreshes; holders = drop_holder key w.holders }
    else w

unfoldable pub play_all : List Move → World → World
play_all [] w = w
play_all (m ∷ moves) w = play_all moves (play m w)

abbrev pub at_rest : World
at_rest = record { refreshes = []; holders = [] }
