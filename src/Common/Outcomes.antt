-- ===== src/Common/Outcomes.antt =====
-- What a call that may raise gives: a value, or the exception. Chains of calls stop at the first
-- exception.
use mathlib.Core.Path.{◌≡◌, refl}
use mathlib.Core.Logic.{◌⊎◌, inl, inr}
use mathlib.Core.Option.{Option, none, some}

pub data Outcome {ℓ} (E : Type 0) (A : Type ℓ) : Type ℓ where
  err : E → Outcome E A
  ok : A → Outcome E A

module _ {ℓ κ} {E : Type 0} {A : Type ℓ} {B : Type κ} where
  infixl 5 ◌>>=◌
  abbrev pub ◌>>=◌ : Outcome E A → (A → Outcome E B) → Outcome E B
  ◌>>=◌ (err x) k = err x
  ◌>>=◌ (ok v) k = k v

  -- A chain that gives a value gives one at each call.
  pub bind-ok :
      (call : Outcome E A) (k : A → Outcome E B) {w : B}
      → (call >>= k) ≡ ok w
      → (v : A) × (call ≡ ok v) × (k v ≡ ok w)
  bind-ok (err x) k h = cc
  bind-ok (ok v) k h = (v, refl, h)

  pub ok_fst :
      (v v' : A) (w w' : B) → ◌≡◌ {A = Outcome E (A × B)} (ok (v, w)) (ok (v', w')) → v ≡ v'
  ok_fst v v' w w' h = cc

  pub ok_snd :
      (v v' : A) (w w' : B) → ◌≡◌ {A = Outcome E (A × B)} (ok (v, w)) (ok (v', w')) → w ≡ w'
  ok_snd v v' w w' h = cc

module _ {ℓ} {E : Type 0} {A : Type ℓ} where
  -- The value of an option, or an exception where there is none.
  abbrev pub or_raise : Option A → E → Outcome E A
  or_raise (some v) x = ok v
  or_raise none x = err x

  pub Outcome-cases : (r : Outcome E A) → ((v : A) × (r ≡ ok v)) ⊎ ((x : E) × (r ≡ err x))
  Outcome-cases (err x) = inr (x, refl)
  Outcome-cases (ok v) = inl (v, refl)

  pub ok-injective : (v w : A) → ◌≡◌ {A = Outcome E A} (ok v) (ok w) → v ≡ w
  ok-injective v w h = cc
