-- ===== src/Auth/UserTokens/Exclusive.antt =====
-- A refresh token is refreshed by one task at a time, and never again after an unknown outcome.
use open_feishu.Common.{
  ℕ, suc, ◌+◌, ◌≤◌, ◌≡◌, refl, sym, ◌∙◌, true, false, Option, none, some, inl, inr, List, [], ◌∷◌,
  ◌==◌, arith, if◌then◌else◌, Bool-cases,
}
use open_feishu.Dict
use open_feishu.Dict.{Dict, get-put, get-del, beq_self}
use open_feishu.Auth.UserTokens.Store.{pair_eq, pair_eqb_iff}
use open_feishu.Auth.UserTokens.Guard.{
  Key, RefreshState, active, frozen, Refreshes, Entry, entered, entry_of, hold, try_enter, leave,
  fail, World, Move, tries, returns, raises, holds, drop_holder, add_holder, play, play_all,
  at_rest,
}

-- How many tasks hold the guard of a key.
unfoldable pub holders_of : Key → List Key → ℕ
holders_of key [] = 0
holders_of key (k ∷ ks) = let rest = holders_of key ks in if k == key then suc rest else rest

-- The entries into the guard of a key that a move makes.
abbrev entered_as : Key → Key → Entry → ℕ
entered_as key k entered = if k == key then 1 else 0
entered_as key k _ = 0

abbrev entries_now : Key → Move → World → ℕ
entries_now key (tries k) w = entered_as key k (try_enter k w.refreshes).1
entries_now key _ w = 0

unfoldable pub entries : Key → List Move → World → ℕ
entries key [] w = 0
entries key (m ∷ moves) w = entries_now key m w + entries key moves (play m w)

-- A key is free and held by no task, in use and held by one, or frozen and held by none.
abbrev Agrees : Option RefreshState → ℕ → Type 0
Agrees none n = n ≡ 0
Agrees (some active) n = n ≡ 1
Agrees (some frozen) n = n ≡ 0

abbrev IsGuarded : World → Type 0
IsGuarded w = (key : Key) → Agrees (Dict.get key w.refreshes) (holders_of key w.holders)

holds-holders_of :
    (key : Key) (ks : List Key) → holds key ks ≡ true → (n : ℕ) × (holders_of key ks ≡ suc n)
unfolding holders_of
holds-holders_of key [] h = cc
holds-holders_of key (k ∷ ks) h = elim (Bool-cases (k == key)) [
  | inl e ↦ (holders_of key ks, rw e refl)
  | inr e ↦ let (n, f) = holds-holders_of key ks (rw e at h) in (n, rw e f)
]

holders_of-drop :
    (key other : Key) (ks : List Key)
    → holds key ks ≡ true
    → holders_of other (drop_holder key ks) + (if key == other then 1 else 0) ≡ holders_of other ks
unfolding holders_of drop_holder
holders_of-drop key other [] h = cc
holders_of-drop key other (k ∷ ks) h = elim (Bool-cases (k == key)) [
  | inl e ↦ let same : k ≡ key = (pair_eqb_iff k key).0 e in rw (e, same) (ground arith)
  | inr e ↦ let ih = holders_of-drop key other ks (rw e at h) in rw e (ground (arith, ih))
]

Agrees-le : (o : Option RefreshState) (n : ℕ) → Agrees o n → n ≤ 1
Agrees-le none n a = omega (arith, a)
Agrees-le (some active) n a = omega (arith, a)
Agrees-le (some frozen) n a = omega (arith, a)

-- The count of the holders of a key after one has left.
rest_of :
    (key other : Key) (w : World)
    → IsGuarded w
    → holds key w.holders ≡ true
    → (key == other) ≡ true
    → holders_of other (drop_holder key w.holders) ≡ 0
rest_of key other w v h e =
    let d = holders_of-drop key other w.holders h in
    let a = Agrees-le (Dict.get other w.refreshes) (holders_of other w.holders) (v other) in
    let f : holders_of other (drop_holder key w.holders) + 1 ≡ holders_of other w.holders =
      rw e at d in
    omega (arith, f, a)

others_of :
    (key other : Key) (w : World)
    → holds key w.holders ≡ true
    → (key == other) ≡ false
    → holders_of other (drop_holder key w.holders) ≡ holders_of other w.holders
others_of key other w h e =
    let d = holders_of-drop key other w.holders h in
    let f : holders_of other (drop_holder key w.holders) + 0 ≡ holders_of other w.holders =
      rw e at d in
    omega (arith, f)

-- A holder leaves, and the key is free or frozen.
left-IsGuarded :
    (key : Key) (w : World) (s : Refreshes) (o : Option RefreshState)
    → IsGuarded w
    → holds key w.holders ≡ true
    → ((other : Key) → Dict.get other s ≡ (if key == other then o else Dict.get other w.refreshes))
    → Agrees o 0
    → IsGuarded (record { refreshes = s; holders = drop_holder key w.holders })
left-IsGuarded key w s o v h g a other = elim (Bool-cases (key == other)) [
  | inl e ↦ rw (g other, e, rest_of key other w v h e) a
  | inr e ↦ rw (g other, e, others_of key other w h e) (v other)
]

entered-IsGuarded :
    (key : Key) (w : World) (o : Option RefreshState)
    → IsGuarded w
    → Dict.get key w.refreshes ≡ o
    → IsGuarded (record {
      refreshes = hold key (entry_of o) w.refreshes;
      holders = add_holder key (entry_of o) w.holders;
    })
unfolding holders_of
entered-IsGuarded key w none v g other = elim (Bool-cases (key == other)) [
  | inl e ↦
      let same : key ≡ other = (pair_eqb_iff key other).0 e in
      let a : holders_of key w.holders ≡ 0 = rw g at (v key) in
      rw (get-put key other active w.refreshes, e)
        (let b : holders_of other w.holders ≡ 0 = rw same at a in omega (arith, b))
  | inr e ↦ rw (get-put key other active w.refreshes, e) (v other)
]
entered-IsGuarded key w (some active) v g other = v other
entered-IsGuarded key w (some frozen) v g other = v other

play-IsGuarded : (m : Move) (w : World) → IsGuarded w → IsGuarded (play m w)
unfolding play try_enter leave fail
play-IsGuarded (tries key) w v = entered-IsGuarded key w (Dict.get key w.refreshes) v refl
play-IsGuarded (returns key) w v = elim (Bool-cases (holds key w.holders)) [
  | inr h ↦ rw h v
  | inl h ↦ rw h (
      left-IsGuarded key w (Dict.del key w.refreshes) none v h
        (λ other. get-del key other w.refreshes) refl)
]
play-IsGuarded (raises key) w v = elim (Bool-cases (holds key w.holders)) [
  | inr h ↦ rw h v
  | inl h ↦ rw h (
      left-IsGuarded key w (Dict.put key frozen w.refreshes) (some frozen) v h
        (λ other. get-put key other frozen w.refreshes) refl)
]

play_all-IsGuarded : (moves : List Move) (w : World) → IsGuarded w → IsGuarded (play_all moves w)
unfolding play_all
play_all-IsGuarded [] w v = v
play_all-IsGuarded (m ∷ moves) w v = play_all-IsGuarded moves (play m w) (play-IsGuarded m w v)

-- A frozen key.
abbrev IsFrozen : Key → World → Type 0
IsFrozen key w = Dict.get key w.refreshes ≡ some frozen

tries-IsFrozen :
    (key k : Key) (w : World) (o : Option RefreshState)
    → Dict.get k w.refreshes ≡ o
    → IsFrozen key w
    → (Dict.get key (hold k (entry_of o) w.refreshes) ≡ some frozen)
      × (entered_as key k (entry_of o) ≡ 0)
tries-IsFrozen key k w none g f = elim (Bool-cases (k == key)) [
  | inl e ↦
      let same : k ≡ key = (pair_eqb_iff k key).0 e in
      let h : Dict.get key w.refreshes ≡ none = rw same at g in
      absurd (let x : none ≡ some frozen = sym h ∙ f in cc)
  | inr e ↦ (rw (get-put k key active w.refreshes, e) f, rw e refl)
]
tries-IsFrozen key k w (some active) g f = (f, refl)
tries-IsFrozen key k w (some frozen) g f = (f, refl)

play-IsFrozen :
    (key : Key) (m : Move) (w : World)
    → IsGuarded w
    → IsFrozen key w
    → IsFrozen key (play m w) × (entries_now key m w ≡ 0)
unfolding play try_enter leave fail
play-IsFrozen key (tries k) w v f = tries-IsFrozen key k w (Dict.get k w.refreshes) refl f
play-IsFrozen key (returns k) w v f = elim (Bool-cases (holds k w.holders)) [
  | inr h ↦ rw h (f, refl)
  | inl h ↦ elim (Bool-cases (k == key)) [
    | inr e ↦ rw h (rw (get-del k key w.refreshes, e) f, refl)
    | inl e ↦
        let same : k ≡ key = (pair_eqb_iff k key).0 e in
        let (n, c) = holds-holders_of key w.holders (rw same at h) in
        let a : holders_of key w.holders ≡ 0 = rw f at (v key) in absurd (omega (arith, a, c))
  ]
]
play-IsFrozen key (raises k) w v f = elim (Bool-cases (holds k w.holders)) [
  | inr h ↦ rw h (f, refl)
  | inl h ↦ elim (Bool-cases (k == key)) [
    | inr e ↦ rw h (rw (get-put k key frozen w.refreshes, e) f, refl)
    | inl e ↦ rw h (rw (get-put k key frozen w.refreshes, e) refl, refl)
  ]
]

entries-IsFrozen :
    (key : Key) (moves : List Move) (w : World)
    → IsGuarded w
    → IsFrozen key w
    → entries key moves w ≡ 0
unfolding entries
entries-IsFrozen key [] w v f = refl
entries-IsFrozen key (m ∷ moves) w v f =
    let (g, n) = play-IsFrozen key m w v f in
    let rest = entries-IsFrozen key moves (play m w) (play-IsGuarded m w v) g in
    omega (arith, n, rest)

at_rest-IsGuarded : IsGuarded at_rest
unfolding Dict.get holders_of
at_rest-IsGuarded key = refl

held-once :
    (key : Key) (w : World)
    → IsGuarded w
    → holds key w.holders ≡ true
    → holders_of key w.holders ≡ 1
held-once key w v h =
    let (n, c) = holds-holders_of key w.holders h in
    omega (arith, c, Agrees-le (Dict.get key w.refreshes) (holders_of key w.holders) (v key))

raises-IsFrozen :
    (key : Key) (w : World) → holds key w.holders ≡ true → IsFrozen key (play (raises key) w)
unfolding play fail
raises-IsFrozen key w h = rw (h, get-put key key frozen w.refreshes, beq_self key) refl

-- Whatever tasks try to refresh tokens, and however their refreshes end: a task that holds the guard
-- of a refresh token is the only one, and if its refresh raises, so that the outcome is not known, no
-- task ever gets the guard of this token again.
pub play_all-holders_of :
    (key : Key) (moves later : List Move)
    → holds key (play_all moves at_rest).holders ≡ true
    → (holders_of key (play_all moves at_rest).holders ≡ 1)
      × (entries key later (play (raises key) (play_all moves at_rest)) ≡ 0)
play_all-holders_of key moves later h =
    let w = play_all moves at_rest in
    let v = play_all-IsGuarded moves at_rest at_rest-IsGuarded in
    (
      held-once key w v h,
      entries-IsFrozen key later (play (raises key) w) (play-IsGuarded (raises key) w v)
          (raises-IsFrozen key w h),
    )
