-- ===== src/Ws/Reconnect/Ends.antt =====
-- With a limit on reconnections, `start` ends.
use open_feishu.Common.{
  ℕ, zero, suc, ◌+◌, ◌≡◌, ◌≢◌, ◌⊎◌, inl, inr, refl, sym, subst, ◌<◌, leb_false→lt, ◌∙◌, arith, ℤ,
  pos, Bool, Bool-cases, true, false, not, ◌||◌,
}
use open_feishu.Ws.Reconnect.{
  ClientConfig, default_config, Handshake, inactive, connected, handshake_failed, handshake_raised,
  Service, closed, lost, service_raised, Round, Ending, no_fuel, Next, stop, again, exhausted, wait,
  after_handshake, after_service, served, shaken, play, start_from, start,
}

-- A round ends the loop, or it goes on with a limit that is not used up.
abbrev Limited : ℤ → ℕ → Next → Type 0
Limited count attempts (stop ending) = ending ≢ no_fuel
Limited count attempts (again config) =
    (config.reconnect_count ≡ count) × (exhausted count attempts ≡ false)

wait-Limited :
    (waited : Bool) (config : ClientConfig) (attempts : ℕ)
    → exhausted config.reconnect_count attempts ≡ false
    → Limited config.reconnect_count attempts (wait waited config)
wait-Limited true config attempts h = (refl, h)
wait-Limited false config attempts h = λ e. cc

after_handshake-Limited :
    (auto : Bool) (r : Round) (attempts : ℕ) (config : ClientConfig)
    → Limited config.reconnect_count attempts (after_handshake auto r attempts config)
unfolding after_handshake
after_handshake-Limited auto r attempts config =
    elim (Bool-cases (r.stopped_in_handshake || not auto)) [
      | inl e ↦ rw e (λ q. cc)
      | inr e ↦ elim (Bool-cases (exhausted config.reconnect_count attempts)) [
        | inl f ↦ rw (e, f) (λ q. cc)
        | inr f ↦ rw (e, f) (wait-Limited r.waited config attempts f)
      ]
    ]

after_service-Limited :
    (auto : Bool) (r : Round) (attempts : ℕ) (config : ClientConfig)
    → Limited config.reconnect_count attempts (after_service auto r attempts config)
unfolding after_service
after_service-Limited auto r attempts config = elim (Bool-cases (r.stopped_after || not auto)) [
  | inl e ↦ rw e (λ q. cc)
  | inr e ↦ elim (Bool-cases (exhausted config.reconnect_count attempts)) [
    | inl f ↦ rw (e, f) (λ q. cc)
    | inr f ↦ rw (e, f) (wait-Limited r.waited config attempts f)
  ]
]

served-Limited :
    (auto : Bool) (r : Round) (attempts : ℕ) (config : ClientConfig) (s : Service)
    → Limited config.reconnect_count attempts (served auto r attempts config s)
unfolding served
served-Limited auto r attempts config service_raised = λ q. cc
served-Limited auto r attempts config closed = after_service-Limited auto r attempts config
served-Limited auto r attempts config lost = elim (Bool-cases (r.stopped_in_service || not auto)) [
  | inl f ↦ rw f (λ q. cc)
  | inr f ↦ rw f (after_service-Limited auto r attempts config)
]

-- A handshake that gives a configuration gives one with the count.
abbrev pub Offers : ℤ → Handshake → Type 0
Offers count (connected config) = config.reconnect_count ≡ count
Offers count _ = Unit

shaken-Limited :
    (auto : Bool) (r : Round) (attempts : ℕ) (count : ℤ) (config : ClientConfig) (h : Handshake)
    → Offers count h
    → (config.reconnect_count ≡ count) ⊎ ((config' : ClientConfig) × (h ≡ connected config'))
    → Limited count attempts (shaken auto r attempts config h)
unfolding shaken
shaken-Limited auto r attempts count config inactive o c = λ q. cc
shaken-Limited auto r attempts count config handshake_raised o c = λ q. cc
shaken-Limited auto r attempts count config handshake_failed o (inl c) =
    subst (λ n. Limited n attempts (after_handshake auto r attempts config)) c
      (after_handshake-Limited auto r attempts config)
shaken-Limited auto r attempts count config handshake_failed o (inr (config', e)) = cc
shaken-Limited auto r attempts count config (connected config') o c =
    subst (λ n. Limited n attempts (served auto r attempts config' r.service)) o
      (served-Limited auto r attempts config' r.service)

play-Limited :
    (auto : Bool) (r : Round) (attempts : ℕ) (count : ℤ) (config : ClientConfig)
    → Offers count r.handshake
    → (config.reconnect_count ≡ count)
      ⊎ ((config' : ClientConfig) × (r.handshake ≡ connected config'))
    → Limited count attempts (play auto r attempts config)
unfolding play
play-Limited auto r attempts count config o c = elim (Bool-cases r.stopped) [
  | inl e ↦ rw e (λ q. cc)
  | inr e ↦ simp e (shaken-Limited auto r attempts count config r.handshake o c)
]

abbrev go : Bool → (ℕ → Round) → ℕ → ℕ → Next → Ending
go auto rounds fuel attempts (stop ending) = ending
go auto rounds fuel attempts (again config) = start_from auto rounds fuel (suc attempts) config

go-ends :
    (auto : Bool) (rounds : ℕ → Round) (fuel attempts limit : ℕ) (next : Next)
    → limit ≡ attempts + fuel
    → Limited (pos limit) attempts next
    → ((config : ClientConfig)
        → config.reconnect_count ≡ pos limit
        → 0 < fuel
        → start_from auto rounds fuel (suc attempts) config ≢ no_fuel)
    → go auto rounds fuel attempts next ≢ no_fuel
go-ends auto rounds fuel attempts limit (stop ending) e l h = l
go-ends auto rounds fuel attempts limit (again config) e (c, below) h =
    h config c (omega (arith, e, leb_false→lt limit attempts below))

start_from-go :
    (auto : Bool) (rounds : ℕ → Round) (fuel attempts : ℕ) (config : ClientConfig)
    → start_from auto rounds (suc fuel) attempts config
      ≡ go auto rounds fuel attempts (play auto (rounds attempts) attempts config)
unfolding start_from
start_from-go auto rounds fuel attempts config = refl

start_from-ends :
    (auto : Bool) (rounds : ℕ → Round) (fuel attempts limit : ℕ) (config : ClientConfig)
    → ((k : ℕ) → Offers (pos limit) (rounds k).handshake)
    → (config.reconnect_count ≡ pos limit)
      ⊎ ((config' : ClientConfig) × ((rounds attempts).handshake ≡ connected config'))
    → limit ≡ attempts + fuel
    → start_from auto rounds (suc fuel) attempts config ≢ no_fuel
start_from-ends auto rounds zero attempts limit config o c e = λ q.
    go-ends auto rounds zero attempts limit (play auto (rounds attempts) attempts config) e
      (play-Limited auto (rounds attempts) attempts (pos limit) config (o attempts) c)
      (λ config' c' h. ground arith) (sym (start_from-go auto rounds zero attempts config) ∙ q)
start_from-ends auto rounds (suc fuel) attempts limit config o c e = λ q.
    go-ends auto rounds (suc fuel) attempts limit (play auto (rounds attempts) attempts config) e
      (play-Limited auto (rounds attempts) attempts (pos limit) config (o attempts) c)
      (λ config' c' h.
        start_from-ends auto rounds fuel (suc attempts) limit config' o (inl c') (omega (arith, e)))
      (sym (start_from-go auto rounds (suc fuel) attempts config) ∙ q)

-- Where the first handshake gives a configuration, and every one that does allows the same number of
-- reconnections, `start` ends after so many rounds and one more.
pub start-ends :
    (auto : Bool) (rounds : ℕ → Round) (limit : ℕ) (config : ClientConfig)
    → (rounds 0).handshake ≡ connected config
    → ((k : ℕ) → Offers (pos limit) (rounds k).handshake)
    → start auto rounds (suc limit) ≢ no_fuel
unfolding start
start-ends auto rounds limit config first o =
    start_from-ends auto rounds limit 0 limit default_config o (inr (config, first)) (omega arith)
