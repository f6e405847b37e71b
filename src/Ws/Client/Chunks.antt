-- ===== src/Ws/Client/Chunks.antt =====
-- The fragments of one message: how many of them are there, and what they join to.
use open_feishu.Common.{
  ℕ, zero, suc, ◌+◌, ◌≤◌, ◌<◌, ◌≡◌, ◌≢◌, refl, sym, ◌∙◌, ap, arith, pos, int_eq, [], ◌++◌,
  Bool-cases, inl, inr, Option, none, some, length, nat_beq, nat_beq_iff,
}
use open_feishu.Dict
use open_feishu.Dict.{get-put}
use open_feishu.Utf8.{Bytes}
use open_feishu.Ws.Client.{Chunks, join_chunks}

abbrev pub count : Option Bytes → ℕ
count none = 0
count (some _) = 1

-- How many of the numbers below n have a fragment.
unfoldable pub present : ℕ → Chunks → ℕ
present zero d = 0
present (suc n) d = count (Dict.get (pos n) d) + present n d

-- The fragments 0 to n - 1 one after the other.
unfoldable pub joined : ℕ → (ℕ → Bytes) → Bytes
joined zero p = []
joined (suc n) p = joined n p ++ p n

count-le : (o : Option Bytes) → count o ≤ 1
count-le none = omega arith
count-le (some _) = omega arith

pub present-le : (n : ℕ) (d : Chunks) → present n d ≤ n
unfolding present
present-le zero d = omega arith
present-le (suc n) d = omega (arith, count-le (Dict.get (pos n) d), present-le n d)

count-full : (o : Option Bytes) → 1 ≤ count o → (v : Bytes) × (o ≡ some v)
count-full none h = ground arith
count-full (some v) h = (v, refl)

pub present-full :
    (n k : ℕ) (d : Chunks) → n ≤ present n d → k < n → (v : Bytes) × (Dict.get (pos k) d ≡ some v)
unfolding present
present-full zero k d h l = ground arith
present-full (suc n) k d h l = elim (Bool-cases (nat_beq k n)) [
  | inl e ↦
      rw ((nat_beq_iff k n).0 e)
        (count-full (Dict.get (pos n) d) (omega (arith, h, present-le n d)))
  | inr e ↦
      present-full n k d (omega (arith, h, count-le (Dict.get (pos n) d)))
        (ground (arith, nat_beq_iff k n))
]

pub get-put_other :
    (s k : ℕ) (v : Bytes) (d : Chunks)
    → s ≢ k
    → Dict.get (pos k) (Dict.put (pos s) v d) ≡ Dict.get (pos k) d
get-put_other s k v d h = elim (Bool-cases (nat_beq s k)) [
  | inl e ↦ elim (h ((nat_beq_iff s k).0 e)) [ ]
  | inr e ↦ get-put (pos s) (pos k) v d ∙ rw e refl
]

present-put_above :
    (n s : ℕ) (v : Bytes) (d : Chunks) → n ≤ s → present n (Dict.put (pos s) v d) ≡ present n d
unfolding present
present-put_above zero s v d h = refl
present-put_above (suc n) s v d h =
    rw (get-put_other s n v d (λ e. ground arith), present-put_above n s v d (omega (arith, h)))
      refl

present-put_new :
    (n s : ℕ) (v : Bytes) (d : Chunks)
    → s < n
    → Dict.get (pos s) d ≡ none
    → present n (Dict.put (pos s) v d) ≡ present n d + 1
unfolding present
present-put_new zero s v d h g = ground arith
present-put_new (suc n) s v d h g = elim (Bool-cases (nat_beq s n)) [
  | inl e ↦
      let same : s ≡ n = (nat_beq_iff s n).0 e in
      let stored : Dict.get (pos n) (Dict.put (pos s) v d) ≡ some v =
        get-put (pos s) (pos n) v d ∙ rw e refl in
      omega (
        arith,
        ap count stored,
        ap count (rw same at g),
        present-put_above n s v d (omega (arith, same)),
      )
  | inr e ↦ omega (
    arith,
    ap count (get-put_other s n v d (λ q. ground (arith, nat_beq_iff s n))),
    present-put_new n s v d (ground (arith, nat_beq_iff s n)) g,
  )
]

some-injective : (v w : Bytes) → some v ≡ some w → v ≡ w
some-injective v w h = cc

-- The counts of a message whose fragments hold what was sent.
abbrev pub Holds : ℕ → (ℕ → Bytes) → Chunks → Type 0
Holds n p d =
    (length d ≡ present n d) × ((k : ℕ) (v : Bytes) → Dict.get (pos k) d ≡ some v → v ≡ p k)

pub Holds-put :
    (n s : ℕ) (p : ℕ → Bytes) (d : Chunks)
    → s < n
    → Dict.get (pos s) d ≡ none
    → Holds n p d
    → Holds n p (Dict.put (pos s) (p s) d)
Holds-put n s p d h g (c, q) = (
  omega (arith, Dict.length-put_new (pos s) (p s) d g, present-put_new n s (p s) d h g, c),
  λ k v e. elim (Bool-cases (nat_beq s k)) [
    | inl t ↦
        let same : s ≡ k = (nat_beq_iff s k).0 t in
        some-injective v (p k)
          (sym e ∙ get-put (pos s) (pos k) (p s) d ∙ rw t (ap (λ x. some (p x)) same))
    | inr t ↦ q k v (sym (get-put (pos s) (pos k) (p s) d ∙ rw t refl) ∙ e)
  ],
)

join_chunks-joined :
    (n : ℕ) (p : ℕ → Bytes) (d : Chunks)
    → ((k : ℕ) → k < n → Dict.get (pos k) d ≡ some (p k))
    → join_chunks n d ≡ some (joined n p)
unfolding join_chunks joined
join_chunks-joined zero p d h = refl
join_chunks-joined (suc n) p d h =
    rw (join_chunks-joined n p d (λ k l. h k (omega (arith, l))), h n (omega arith)) refl

present-nil : (n : ℕ) → present n [] ≡ 0
unfolding present Dict.get
present-nil zero = refl
present-nil (suc n) = omega (arith, present-nil n)

pub Holds-nil : (n : ℕ) (p : ℕ → Bytes) → Holds n p []
unfolding Dict.get
Holds-nil n p = (sym (present-nil n), λ k v h. cc)

-- As many fragments as the message has are all of them.
pub join_chunks-Holds :
    (n : ℕ) (p : ℕ → Bytes) (d : Chunks)
    → Holds n p d
    → n ≤ length d
    → join_chunks n d ≡ some (joined n p)
join_chunks-Holds n p d (c, q) h =
    join_chunks-joined n p d
      (λ k l. let (v, e) = present-full n k d (omega (arith, c, h)) l in rw (sym (q k v e)) e)
