-- ===== src/Agent/Sessions/History.antt =====
-- The store of sessions is the history of each, with the time of its last change.
use open_feishu.Common.{
  ℕ, ◌≡◌, refl, ◌∙◌, String, Bool-cases, inl, inr, Option, none, some, List, [], ◌∷◌, ◌++◌, ◌==◌,
  string_eq, if◌then◌else◌,
}
use open_feishu.Dict
use open_feishu.Dict.{Dict, or_else, get-put, get-del, get-modify, get-setdefault}
use open_feishu.Agent.Sessions.{SessionStore, init, get, append, set, clear, updated_at}

pub data Call (M : Type 0) : Type 0 where
  appends sets : String → List M → ℕ → Call M
  clears : String → Call M

-- A session: its messages and when they changed last, or nothing.
abbrev pub Session : Type 0 → Type 0
Session M = Option (List M × ℕ)

module _ {M : Type 0} where
  abbrev pub perform : Call M → SessionStore M → SessionStore M
  perform (appends id messages now) s = append id messages now s
  perform (sets id messages now) s = set id messages now s
  perform (clears id) s = clear id s

  -- What a call does to one session.
  abbrev pub messages_of : Session M → List M
  messages_of none = []
  messages_of (some (ms, t)) = ms

  unfoldable pub step : String → Call M → Session M → Session M
  step id (appends k ms now) h = if k == id then some (messages_of h ++ ms, now) else h
  step id (sets k ms now) h = if k == id then some (ms, now) else h
  step id (clears k) h = if k == id then none else h

  unfoldable pub perform_all : List (Call M) → SessionStore M → SessionStore M
  perform_all [] s = s
  perform_all (c ∷ cs) s = perform_all cs (perform c s)

  unfoldable pub steps : String → List (Call M) → Session M → Session M
  steps id [] h = h
  steps id (c ∷ cs) h = steps id cs (step id c h)

  -- The store holds the session.
  abbrev pub Shows : String → Session M → SessionStore M → Type 0
  Shows id none s = (Dict.get id s.store ≡ none) × (Dict.get id s.times ≡ none)
  Shows id (some (ms, t)) s = (Dict.get id s.store ≡ some ms) × (Dict.get id s.times ≡ some t)

  Shows-messages :
      (id : String) (h : Session M) (s : SessionStore M)
      → Shows id h s
      → or_else (Dict.get id s.store) [] ≡ messages_of h
  Shows-messages id none s (p, q) = rw p refl
  Shows-messages id (some (ms, t)) s (p, q) = rw p refl

  -- Where both dicts are as before at the session, so is what they show.
  Shows-same :
      (id : String) (h : Session M) (s s' : SessionStore M)
      → Dict.get id s'.store ≡ Dict.get id s.store
      → Dict.get id s'.times ≡ Dict.get id s.times
      → Shows id h s
      → Shows id h s'
  Shows-same id none s s' e f (p, q) = (e ∙ p, f ∙ q)
  Shows-same id (some (ms, t)) s s' e f (p, q) = (e ∙ p, f ∙ q)

  append-get :
      (id : String) (ms : List M) (d : Dict String (List M))
      → Dict.get id (Dict.modify id (λ b. b ++ ms) (Dict.setdefault id [] d))
        ≡ some (or_else (Dict.get id d) [] ++ ms)
  append-get id ms d =
      get-modify id id (λ b. b ++ ms) (Dict.setdefault id [] d)
      ∙ simp (Dict.beq_self id, get-setdefault id id [] d)

  perform-Shows :
      (id : String) (c : Call M) (h : Session M) (s : SessionStore M)
      → Shows id h s
      → Shows id (step id c h) (perform c s)
  unfolding step append set clear
  perform-Shows id (appends k ms now) h s v = elim (Bool-cases (k == id)) [
    | inr t ↦ simp t (
        Shows-same id h s _
          (get-modify k id (λ b. b ++ ms) (Dict.setdefault k [] s.store)
            ∙ simp (t, get-setdefault k id [] s.store))
          (get-put k id now s.times ∙ simp t) v)
    | inl t ↦ simp t (
      get-modify k id (λ b. b ++ ms) (Dict.setdefault k [] s.store)
          ∙ simp (t, get-setdefault k id [] s.store, Shows-messages id h s v),
      get-put k id now s.times ∙ simp t,
    )
  ]
  perform-Shows id (sets k ms now) h s v = elim (Bool-cases (k == id)) [
    | inr t ↦ simp t (
        Shows-same id h s _ (get-put k id ms s.store ∙ simp t) (get-put k id now s.times ∙ simp t)
          v)
    | inl t ↦ simp t (get-put k id ms s.store ∙ simp t, get-put k id now s.times ∙ simp t)
  ]
  perform-Shows id (clears k) h s v = elim (Bool-cases (k == id)) [
    | inr t ↦
        simp t
          (Shows-same id h s _ (get-del k id s.store ∙ simp t) (get-del k id s.times ∙ simp t) v)
    | inl t ↦ simp t (get-del k id s.store ∙ simp t, get-del k id s.times ∙ simp t)
  ]

  perform_all-Shows :
      (id : String) (cs : List (Call M)) (h : Session M) (s : SessionStore M)
      → Shows id h s
      → Shows id (steps id cs h) (perform_all cs s)
  unfolding perform_all steps
  perform_all-Shows id [] h s v = v
  perform_all-Shows id (c ∷ cs) h s v = perform_all-Shows id cs _ _ (perform-Shows id c h s v)

  abbrev pub time_of : Session M → Option ℕ
  time_of none = none
  time_of (some (ms, t)) = some t

  shown :
      (id : String) (h : Session M) (s : SessionStore M)
      → Shows id h s
      → (get id s ≡ messages_of h) × (updated_at id s ≡ time_of h)
  unfolding get updated_at
  shown id none s (p, q) = (rw p refl, q)
  shown id (some (ms, t)) s (p, q) = (rw p refl, q)

  -- After any calls of a new store `get` and `updated_at` of a session answer what the calls for this
  -- session have made of it, one after the other, and calls for other sessions do not matter.
  pub perform_all-steps :
      (id : String) (cs : List (Call M))
      → (get id (perform_all cs init) ≡ messages_of (steps id cs none))
        × (updated_at id (perform_all cs init) ≡ time_of (steps id cs none))
  unfolding Dict.get
  perform_all-steps id cs =
      shown id (steps id cs none) (perform_all cs init)
        (perform_all-Shows id cs none init (refl, refl))
