-- ===== src/Events/Seen.antt =====
-- feishu/events/idempotency.py: `InMemorySeenStore`, and `claim` over any store. A call gets what the clock reads
-- each time the source asks: at the purge, and at the entry.
pub mod Once
use open_feishu.Common.{
  ℕ, ◌+◌, String, Bool, true, false, Option, none, some, List, [], ◌∷◌, leb, string_eq,
  if◌then◌else◌,
}
use open_feishu.Dict
use open_feishu.Dict.{Dict}

-- When each event expires.
abbrev pub Entries : Type 0
Entries = Dict String ℕ

-- `_purge`: the entries that stay.
unfoldable pub purge : ℕ → Entries → Entries
purge now [] = []
purge now ((k, exp) ∷ d) = let rest = purge now d in if leb exp now then rest else (k, exp) ∷ rest

unfoldable pub claim : ℕ → String → ℕ → ℕ → Entries → Entries × Bool
claim ttl event_id purged now d =
    let live = purge purged d in
    if Dict.has event_id live then (live, false) else (Dict.put event_id (now + ttl) live, true)

unfoldable pub seen : String → ℕ → Entries → Entries × Bool
seen event_id purged d = (purge purged d, Dict.has event_id (purge purged d))

unfoldable pub mark : ℕ → String → ℕ → ℕ → Entries → Entries
mark ttl event_id purged now d = Dict.put event_id (now + ttl) (purge purged d)

-- The protocol `SeenStore`, with the `claim` that a store may have.
pub record SeenStore (S : Type 0) : Type 0 where
  pub store_seen : String → S → S × Bool
  pub store_mark : String → S → S
  pub store_claim : Option (String → S → S × Bool)

-- The function `claim` of the module.
unfoldable pub claim_event : {S : Type 0} → SeenStore S → String → S → S × Bool
claim_event store event_id s = elim store.store_claim [
  | some c ↦ c event_id s
  | none ↦
      if (store.store_seen event_id s).1
      then ((store.store_seen event_id s).0, false)
      else (store.store_mark event_id (store.store_seen event_id s).0, true)
]
