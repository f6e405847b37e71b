-- ===== src/Auth/Tokens/Tests.antt =====
-- Two tasks ask for a token at once.
use open_feishu.Common.{◌≡◌, refl, arith, inl, inr, String, List, [], ◌∷◌, ok, err}
use open_feishu.Dict
use open_feishu.Auth.Tokens.{TokenManager, fresh, cached, ttl, refetch, locked, token_of}
use open_feishu.Auth.Tokens.Reuse.{Call, run, Reuses, locked-reuse}

tokens : Unit {0}
unfolding Dict.get Dict.put fresh cached ttl refetch locked token_of run
tokens = tt

abbrev manager : TokenManager
manager = record { refresh_offset = 1800; min_ttl = 60 }

abbrev Failure : Type 0
Failure = String

-- A lifetime below the offset is kept for the shortest time.
short_lived :
    (token_of {E = Failure} manager "tenant" 10 10 11 (ok ("t-1", 600)) []).cache
    ≡ ("tenant", record { value = "t-1"; expires_at = 71 }) ∷ []
unfolding tokens
short_lived = refl

abbrev others : List (Call Failure)
others =
    record { key = "app"; checked = 500; now = 501; answer = err "down" }
    ∷ record { key = "tenant"; checked = 20; now = 20; answer = ok ("t-2", 7200) }
    ∷ []

locked-reuse_example : Reuses manager "t-1" (
    locked {E = Failure} manager "tenant" 30 30
      (ok ("t-3", 7200))
      (run manager others (locked {E = Failure} manager "tenant" 10 11 (ok ("t-1", 600)) []).cache))
unfolding tokens
locked-reuse_example =
    locked-reuse manager "tenant" "t-1" 10 11 600 others 30 30 (ok ("t-3", 7200)) [] refl
      (inl (λ h. cc), (inr (omega arith), tt)) (omega arith)
