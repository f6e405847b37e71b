-- ===== src/Auth/Tokens.antt =====
-- feishu/auth/tokens.py: `InMemoryTokenCache`, and `TokenManager.token` in its two parts: the read before the
-- lock, and what the lock of a key covers. Each reading of the clock is an argument.
pub mod Reuse
pub mod Tests
use open_feishu.Common.{
  ℕ, ◌+◌, ◌-◌, max, String, Bool, true, false, Option, none, some, ltb, string_eq, if◌then◌else◌,
  Outcome, ok, err,
}
use open_feishu.Dict
use open_feishu.Dict.{Dict}

pub record CachedToken : Type 0 where
  pub value : String
  pub expires_at : ℕ

abbrev pub Cache : Type 0
Cache = Dict String CachedToken

pub record TokenManager : Type 0 where
  pub refresh_offset : ℕ
  pub min_ttl : ℕ

-- `cached is not None and cached.expires_at > now`, and then its value.
unfoldable pub fresh : ℕ → Option CachedToken → Option String
fresh now none = none
fresh now (some token) = if ltb now token.expires_at then some token.value else none

-- The read before the lock.
unfoldable pub cached : String → ℕ → Cache → Option String
cached key now cache = fresh now (Dict.get key cache)

-- What a call gives, and whether it fetched a token.
pub record Answered (E : Type 0) : Type 0 where
  pub cache : Cache
  pub token : Outcome E String
  pub fetched : Bool

-- How long a token is kept.
unfoldable pub ttl : TokenManager → ℕ → ℕ
ttl manager expire = max (expire - manager.refresh_offset) manager.min_ttl

module _ {E : Type 0} where
  -- The answer of `fetch` is a token and its lifetime, or an exception.
  unfoldable pub refetch : TokenManager → String → ℕ → Outcome E (String × ℕ) → Cache → Answered E
  refetch manager key now (err e) cache = record { cache = cache; token = err e; fetched = true }
  refetch manager key now (ok (value, expire)) cache = record {
    cache = Dict.put key (record { value = value; expires_at = now + ttl manager expire }) cache;
    token = ok value;
    fetched = true;
  }

  -- `async with self._lock_for(key)`: the second read, and the fetch. `checked` and `now` are the readings.
  unfoldable pub locked :
      TokenManager → String → ℕ → ℕ → Outcome E (String × ℕ) → Cache → Answered E
  locked manager key checked now answer cache = elim (cached key checked cache) [
    | some value ↦ record { cache = cache; token = ok value; fetched = false }
    | none ↦ refetch manager key now answer cache
  ]

  -- `token` when no other call comes in between.
  unfoldable pub token_of :
      TokenManager → String → ℕ → ℕ → ℕ → Outcome E (String × ℕ) → Cache → Answered E
  token_of manager key first checked now answer cache = elim (cached key first cache) [
    | some value ↦ record { cache = cache; token = ok value; fetched = false }
    | none ↦ locked manager key checked now answer cache
  ]
