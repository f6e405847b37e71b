-- ===== src/Events/Seen/Once.antt =====
-- An event is claimed once while its entry lasts, and the two ways to claim agree.
use open_feishu.Common.{
  ℕ, ◌+◌, ◌≤◌, ◌<◌, ◌≡◌, refl, sym, subst, ◌∙◌, arith, String, Bool, true, false, Bool-cases, inl,
  inr, Option, none, some, List, [], ◌∷◌, ◌==◌, string_eq,
}
use open_feishu.Dict
use open_feishu.Dict.{get-put}
use open_feishu.Events.Seen.{Entries, purge, claim, seen, mark, SeenStore, claim_event}

-- The calls of the store, with the two readings of the clock.
pub data Call : Type 0 where
  claims seens marks : (event_id : String) (purged now : ℕ) → Call

unfoldable pub perform : ℕ → Call → Entries → Entries
perform ttl (claims id purged now) d = (claim ttl id purged now d).0
perform ttl (seens id purged now) d = (seen id purged d).0
perform ttl (marks id purged now) d = mark ttl id purged now d

unfoldable pub perform_all : ℕ → List Call → Entries → Entries
perform_all ttl [] d = d
perform_all ttl (c ∷ cs) d = perform_all ttl cs (perform ttl c d)

-- A call between a time and the end of an entry made at it.
abbrev pub Between : ℕ → ℕ → Call → Type 0
Between from until (claims _ purged now) = (purged < until) × (from ≤ now)
Between from until (seens _ purged now) = (purged < until) × (from ≤ now)
Between from until (marks _ purged now) = (purged < until) × (from ≤ now)

abbrev pub AllBetween : ℕ → ℕ → List Call → Type 0
AllBetween from until [] = Unit
AllBetween from until (c ∷ cs) = Between from until c × AllBetween from until cs

-- The event has an entry that lasts to a time.
abbrev Held : String → ℕ → Entries → Type 0
Held id until d = (exp : ℕ) × (Dict.get id d ≡ some exp) × (until ≤ exp)

get-purge :
    (id : String) (exp now : ℕ) (d : Entries)
    → now < exp
    → Dict.get id d ≡ some exp
    → Dict.get id (purge now d) ≡ some exp
unfolding purge Dict.get
get-purge id exp now [] h g = cc
get-purge id exp now ((k, x) ∷ d) h g = ground (arith, get-purge id exp now d h)

Held-purge :
    (id : String) (until now : ℕ) (d : Entries)
    → now < until
    → Held id until d
    → Held id until (purge now d)
Held-purge id until now d h (exp, g, u) = (exp, get-purge id exp now d (omega (arith, h, u)) g, u)

Held-put :
    (id key : String) (until exp : ℕ) (d : Entries)
    → until ≤ exp
    → Held id until d
    → Held id until (Dict.put key exp d)
Held-put id key until exp d h (x, g, u) = elim (Bool-cases (key == id)) [
  | inl e ↦ (exp, get-put key id exp d ∙ rw e refl, h)
  | inr e ↦ (x, get-put key id exp d ∙ rw e g, u)
]

has-get : (id : String) (exp : ℕ) (d : Entries) → Dict.get id d ≡ some exp → Dict.has id d ≡ true
unfolding Dict.get Dict.has
has-get id exp [] h = cc
has-get id exp ((k, x) ∷ d) h = ground (arith, has-get id exp d)

claim-hit :
    (ttl : ℕ) (id : String) (purged now : ℕ) (d : Entries)
    → Dict.has id (purge purged d) ≡ true
    → claim ttl id purged now d ≡ (purge purged d, false)
unfolding claim
claim-hit ttl id purged now d e = rw e refl

claim-miss :
    (ttl : ℕ) (id : String) (purged now : ℕ) (d : Entries)
    → Dict.has id (purge purged d) ≡ false
    → claim ttl id purged now d ≡ (Dict.put id (now + ttl) (purge purged d), true)
unfolding claim
claim-miss ttl id purged now d e = rw e refl

Held-perform :
    (ttl from : ℕ) (id : String) (c : Call) (d : Entries)
    → Between from (from + ttl) c
    → Held id (from + ttl) d
    → Held id (from + ttl) (perform ttl c d)
unfolding perform seen mark
Held-perform ttl from id (claims key purged now) d (p, q) h =
    let live = Held-purge id (from + ttl) purged d p h in
    elim (Bool-cases (Dict.has key (purge purged d))) [
      | inl e ↦ subst (λ r. Held id (from + ttl) r.0) (sym (claim-hit ttl key purged now d e)) live
      | inr e ↦
          subst (λ r. Held id (from + ttl) r.0) (sym (claim-miss ttl key purged now d e))
            (Held-put id key (from + ttl) (now + ttl) _ (omega (arith, q)) live)
    ]
Held-perform ttl from id (seens key purged now) d (p, q) h = Held-purge id (from + ttl) purged d p h
Held-perform ttl from id (marks key purged now) d (p, q) h =
    Held-put id key (from + ttl) (now + ttl) _ (omega (arith, q))
      (Held-purge id (from + ttl) purged d p h)

Held-perform_all :
    (ttl from : ℕ) (id : String) (cs : List Call) (d : Entries)
    → AllBetween from (from + ttl) cs
    → Held id (from + ttl) d
    → Held id (from + ttl) (perform_all ttl cs d)
unfolding perform_all
Held-perform_all ttl from id [] d b h = h
Held-perform_all ttl from id (c ∷ cs) d b h =
    Held-perform_all ttl from id cs (perform ttl c d) b.1 (Held-perform ttl from id c d b.0 h)

claim-Held :
    (ttl : ℕ) (id : String) (purged now : ℕ) (d : Entries)
    → (claim ttl id purged now d).1 ≡ true
    → Held id (now + ttl) (claim ttl id purged now d).0
claim-Held ttl id purged now d h = elim (Bool-cases (Dict.has id (purge purged d))) [
  | inl e ↦ cc (rw (claim-hit ttl id purged now d e) at h)
  | inr e ↦
      subst (λ r. Held id (now + ttl) r.0) (sym (claim-miss ttl id purged now d e))
        (now + ttl, Dict.get-put_self id (now + ttl) (purge purged d), omega arith)
]

-- After a claim that succeeds at a time, and calls with readings of the clock from that time and
-- before the entry's end, another claim of the event before that end fails.
pub claim-once :
    (ttl : ℕ) (id : String) (purged now : ℕ) (calls : List Call) (purged' now' : ℕ) (d : Entries)
    → (claim ttl id purged now d).1 ≡ true
    → AllBetween now (now + ttl) calls
    → purged' < now + ttl
    → (claim ttl id purged' now' (perform_all ttl calls (claim ttl id purged now d).0)).1 ≡ false
claim-once ttl id purged now calls purged' now' d h between before =
    let (exp, g, u) =
      Held-purge id (now + ttl) purged' (perform_all ttl calls (claim ttl id purged now d).0) before
        (Held-perform_all ttl now id calls (claim ttl id purged now d).0 between
          (claim-Held ttl id purged now d h)) in
    rw (claim-hit ttl id purged' now' _ (has-get id exp _ g)) refl

purge-purge : (now : ℕ) (d : Entries) → purge now (purge now d) ≡ purge now d
unfolding purge
purge-purge now [] = refl
purge-purge now ((k, x) ∷ d) = ground (arith, purge-purge now d)

-- The store of the memory behind the protocol, with the clock stopped.
abbrev pub stopped : ℕ → ℕ → Option (String → Entries → Entries × Bool) → SeenStore Entries
stopped ttl now claim? = record {
  store_seen = λ id d. seen id now d;
  store_mark = λ id d. mark ttl id now now d;
  store_claim = claim?;
}

-- While the clock stands, `claim` over a store without a `claim` of its own, by `seen` and `mark`, does and
-- answers what `InMemorySeenStore.claim` does.
claim_event-claim :
    (ttl now : ℕ) (id : String) (d : Entries)
    → claim_event (stopped ttl now none) id d ≡ claim ttl id now now d
unfolding claim_event claim seen mark
claim_event-claim ttl now id d = elim (Bool-cases (Dict.has id (purge now d))) [
  | inl e ↦ rw e refl
  | inr e ↦ rw (e, purge-purge now d) refl
]
