-- ===== src/Dict.antt =====
-- Python's `dict`: an association list in insertion order. Assignment to a present key keeps its
-- place, and a new key goes to the end. A method of this module has the dict as its last argument.
use mathlib.Core.Option
use open_feishu.Common.{
  ◌+◌, ◌≤◌, ◌≡◌, refl, List, [], ◌∷◌, Option, none, some, Bool, true, false, arith, Eq, ◌==◌,
  if◌then◌else◌, length,
}

abbrev pub Dict {ℓ κ} : Type ℓ → Type κ → Type (ℓ ⊔ κ)
Dict K V = List (K × V)

pub beq_self {ℓ} : {K : Type ℓ} ⦃e : Eq K⦄ (k : K) → (k == k) ≡ true
beq_self ⦃e⦄ k = (e.eqb_iff k k).1 refl

abbrev pub or_else {ℓ} : {A : Type ℓ} → Option A → A → A
or_else none v = v
or_else (some w) v = w

module _ {ℓ κ} {K : Type ℓ} {V : Type κ} ⦃e : Eq K⦄ where
  -- d.get(k)
  unfoldable pub get : K → Dict K V → Option V
  get k [] = none
  get k ((j, v) ∷ d) = if j == k then some v else get k d

  -- d[k] = v
  unfoldable pub put : K → V → Dict K V → Dict K V
  put k v [] = (k, v) ∷ []
  put k v ((j, w) ∷ d) = if j == k then (j, v) ∷ d else (j, w) ∷ put k v d

  -- del d[k], d.pop(k, None)
  unfoldable pub del : K → Dict K V → Dict K V
  del k [] = []
  del k ((j, w) ∷ d) = let rest = del k d in if j == k then rest else (j, w) ∷ rest

  -- A change of the object at a key, which stays where it is.
  unfoldable pub modify : K → (V → V) → Dict K V → Dict K V
  modify k f [] = []
  modify k f ((j, w) ∷ d) = if j == k then (j, f w) ∷ d else (j, w) ∷ modify k f d

  -- d.setdefault(k, v)
  unfoldable pub setdefault : K → V → Dict K V → Dict K V
  setdefault k v [] = (k, v) ∷ []
  setdefault k v ((j, w) ∷ d) = if j == k then (j, w) ∷ d else (j, w) ∷ setdefault k v d

  -- k in d
  unfoldable pub has : K → Dict K V → Bool
  has k [] = false
  has k ((j, v) ∷ d) = if j == k then true else has k d

  pub get-put :
      (k j : K) (v : V) (d : Dict K V) → get j (put k v d) ≡ (if k == j then some v else get j d)
  unfolding get put
  get-put k j v [] = refl
  get-put k j v ((i, w) ∷ d) =
      ground (arith, e.eqb_iff k j, e.eqb_iff i k, e.eqb_iff i j, get-put k j v d)

  pub get-put_self : (k : K) (v : V) (d : Dict K V) → get k (put k v d) ≡ some v
  get-put_self k v d = rw (get-put k k v d, beq_self k)

  pub length-put-le : (k : K) (v : V) (d : Dict K V) → length (put k v d) ≤ length d + 1
  unfolding put
  length-put-le k v [] = omega arith
  length-put-le k v ((j, w) ∷ d) = ground (arith, length-put-le k v d)

  -- A present key keeps the length, and a new one is one more.
  pub length-put_present :
      (k : K) (v w : V) (d : Dict K V) → get k d ≡ some w → length (put k v d) ≡ length d
  unfolding get put
  length-put_present k v w [] h = cc
  length-put_present k v w ((j, x) ∷ d) h = ground (arith, length-put_present k v w d)

  pub length-put_new :
      (k : K) (v : V) (d : Dict K V) → get k d ≡ none → length (put k v d) ≡ length d + 1
  unfolding get put
  length-put_new k v [] h = omega arith
  length-put_new k v ((j, x) ∷ d) h = ground (arith, length-put_new k v d)

  pub get-del : (k j : K) (d : Dict K V) → get j (del k d) ≡ (if k == j then none else get j d)
  unfolding get del
  get-del k j [] = ground arith
  get-del k j ((i, w) ∷ d) =
      ground (arith, e.eqb_iff k j, e.eqb_iff i k, e.eqb_iff i j, get-del k j d)

  pub length-del-le : (k : K) (d : Dict K V) → length (del k d) ≤ length d
  unfolding del
  length-del-le k [] = omega arith
  length-del-le k ((j, w) ∷ d) = ground (arith, length-del-le k d)

  pub get-modify :
      (k j : K) (f : V → V) (d : Dict K V)
      → get j (modify k f d) ≡ (if k == j then Option.map f (get j d) else get j d)
  unfolding get modify
  get-modify k j f [] = ground arith
  get-modify k j f ((i, w) ∷ d) =
      ground (arith, e.eqb_iff k j, e.eqb_iff i k, e.eqb_iff i j, get-modify k j f d)

  pub get-setdefault :
      (k j : K) (v : V) (d : Dict K V)
      → get j (setdefault k v d) ≡ (if k == j then some (or_else (get j d) v) else get j d)
  unfolding get setdefault
  get-setdefault k j v [] = ground arith
  get-setdefault k j v ((i, w) ∷ d) =
      ground (arith, e.eqb_iff k j, e.eqb_iff i k, e.eqb_iff i j, get-setdefault k j v d)
