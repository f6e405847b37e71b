-- ===== src/Auth/Tokens/Reuse.antt =====
-- A fetched token serves all calls of its key until it is refreshed, however they interleave.
use open_feishu.Common.{
  ℕ, ◌+◌, ◌<◌, ◌≡◌, ◌≢◌, ◌⊎◌, inl, inr, refl, ◌∙◌, ap, String, Bool-cases, Option-cases, false,
  none, some, List, [], ◌∷◌, All, Outcome, ok, err, lt→ltb, string_eq, eq_iff, ◌==◌,
}
use open_feishu.Dict
use open_feishu.Dict.{get-put}
use open_feishu.Auth.Tokens.{
  CachedToken, Cache, TokenManager, Answered, fresh, cached, ttl, refetch, locked,
}

-- The call of a task that has the lock of its key: the lock keeps these apart for a key, and the reads before the lock
-- change nothing.
pub record Call (E : Type 0) : Type 0 where
  pub key : String
  pub checked : ℕ
  pub now : ℕ
  pub answer : Outcome E (String × ℕ)

cached-fresh :
    (key : String) (now : ℕ) (token : CachedToken) (cache : Cache)
    → Dict.get key cache ≡ some token
    → now < token.expires_at
    → cached key now cache ≡ some token.value
unfolding cached fresh
cached-fresh key now token cache g h = rw (g, lt→ltb now token.expires_at h) refl

module _ {E : Type 0} (manager : TokenManager) where
  abbrev pub perform : Call E → Cache → Answered E
  perform c cache = locked manager c.key c.checked c.now c.answer cache

  -- The cache after calls in the order in which they had the lock.
  unfoldable pub run : List (Call E) → Cache → Cache
  run [] cache = cache
  run (c ∷ cs) cache = run cs (perform c cache).cache

  -- Calls of the key read the clock before a time.
  abbrev pub Before : String → ℕ → Call E → Type 0
  Before key until c = (c.key ≢ key) ⊎ (c.checked < until)

  -- A call answers the token without a fetch.
  abbrev pub Reuses : String → Answered E → Type 0
  Reuses value a = (a.token ≡ ok value) × (a.fetched ≡ false)

  refetch-other :
      (key other : String) (now : ℕ) (answer : Outcome E (String × ℕ)) (cache : Cache)
      → other ≢ key
      → Dict.get key (refetch manager other now answer cache).cache ≡ Dict.get key cache
  unfolding refetch
  refetch-other key other now (err e) cache h = refl
  refetch-other key other now (ok (value, expire)) cache h = elim (Bool-cases (other == key)) [
    | inl e ↦ elim (h ((eq_iff other key).0 e)) [ ]
    | inr e ↦ get-put other key _ cache ∙ rw e refl
  ]

  locked-hit :
      (key value : String) (checked now : ℕ) (answer : Outcome E (String × ℕ)) (cache : Cache)
      → cached key checked cache ≡ some value
      → locked manager key checked now answer cache
        ≡ record { cache = cache; token = ok value; fetched = false }
  unfolding locked
  locked-hit key value checked now answer cache h = rw (h, locked) refl

  locked-miss :
      (key : String) (checked now : ℕ) (answer : Outcome E (String × ℕ)) (cache : Cache)
      → cached key checked cache ≡ none
      → locked manager key checked now answer cache ≡ refetch manager key now answer cache
  unfolding locked
  locked-miss key checked now answer cache h = rw (h, locked) refl

  locked-other :
      (key other : String) (checked now : ℕ) (answer : Outcome E (String × ℕ)) (cache : Cache)
      → other ≢ key
      → Dict.get key (locked manager other checked now answer cache).cache ≡ Dict.get key cache
  locked-other key other checked now answer cache h =
      elim (Option-cases (cached other checked cache)) [
        | inl e ↦
            ap (λ (a : Answered E). Dict.get key a.cache)
              (locked-miss other checked now answer cache e)
            ∙ refetch-other key other now answer cache h
        | inr (value, e) ↦
            ap (λ (a : Answered E). Dict.get key a.cache)
              (locked-hit other value checked now answer cache e)
      ]

  perform-keeps :
      (key : String) (token : CachedToken) (c : Call E) (cache : Cache)
      → Before key token.expires_at c
      → Dict.get key cache ≡ some token
      → Dict.get key (perform c cache).cache ≡ some token
  perform-keeps key token c cache (inl other) g =
      locked-other key c.key c.checked c.now c.answer cache other ∙ g
  perform-keeps key token c cache (inr h) g = elim (Bool-cases (c.key == key)) [
    | inl e ↦
        let same : c.key ≡ key = (eq_iff c.key key).0 e in
        ap (λ (a : Answered E). Dict.get key a.cache)
          (locked-hit c.key token.value c.checked c.now c.answer cache
            (cached-fresh c.key c.checked token cache (ap (λ k. Dict.get k cache) same ∙ g) h))
        ∙ g
    | inr e ↦
        locked-other key c.key c.checked c.now c.answer cache (λ q. cc (e, (eq_iff c.key key).1 q))
        ∙ g
  ]

  run-keeps :
      (key : String) (token : CachedToken) (cs : List (Call E)) (cache : Cache)
      → All (Before key token.expires_at) cs
      → Dict.get key cache ≡ some token
      → Dict.get key (run cs cache) ≡ some token
  unfolding run
  run-keeps key token [] cache h g = g
  run-keeps key token (c ∷ cs) cache h g =
      run-keeps key token cs (perform c cache).cache h.1 (perform-keeps key token c cache h.0 g)

locked-stores :
    (E : Type 0) (manager : TokenManager) (key value : String) (checked now expire : ℕ)
    (cache : Cache)
    → cached key checked cache ≡ none
    → Dict.get key (locked {E = E} manager key checked now (ok (value, expire)) cache).cache
      ≡ some (record { value = value; expires_at = now + ttl manager expire })
unfolding refetch
locked-stores E manager key value checked now expire cache h =
    ap (λ (a : Answered E). Dict.get key a.cache)
      (locked-miss manager key checked now (ok (value, expire)) cache h)
    ∙ Dict.get-put_self key _ cache

-- Once a call has fetched a token under the lock, and whatever calls follow, those of its key reading the clock before
-- the token is to be refreshed, the next such call gives the token and fetches none: a batch of concurrent
-- calls fetches once.
pub locked-reuse :
    {E : Type 0} (manager : TokenManager) (key value : String) (checked now expire : ℕ)
    (cs : List (Call E)) (checked' now' : ℕ) (answer : Outcome E (String × ℕ)) (cache : Cache)
    → cached key checked cache ≡ none
    → All (Before manager key (now + ttl manager expire)) cs
    → checked' < now + ttl manager expire
    → Reuses manager value (
        locked manager key checked' now' answer (
          run manager cs (locked {E = E} manager key checked now (ok (value, expire)) cache).cache))
locked-reuse manager key value checked now expire cs checked' now' answer cache miss h before =
    let kept =
      run-keeps manager key _ cs _ h
        (locked-stores _ manager key value checked now expire cache miss) in
    let hit =
      locked-hit manager key value checked' now' answer _
        (cached-fresh key checked' _ _ kept before) in
    (ap (λ (a : Answered _). a.token) hit, ap (λ (a : Answered _). a.fetched) hit)
