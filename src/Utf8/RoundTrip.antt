-- ===== src/Utf8/RoundTrip.antt =====
-- What is encoded decodes to itself.
use open_feishu.Common.{
  ℕ, ◌+◌, ◌*◌, ◌/◌, ◌%◌, ◌≤◌, ◌<◌, ◌≡◌, refl, ap, ◌∙◌, ◌⊎◌, [], ◌∷◌, ◌++◌, Option, none, some,
  arith, inl, inr, ltb, leb, if◌then◌else◌, false, ◌&&◌,
}
use open_feishu.Utf8.{
  State, Str, Bytes, encode_char, join, encode, start, inside, step, emit, decode_from, decode,
}

decode_from-cons :
    (s s' : State) (c : Option ℕ) (b : ℕ) (bs : Bytes)
    → step s b ≡ some (s', c)
    → decode_from s (b ∷ bs) ≡ emit c (decode_from s' bs)
unfolding decode_from
decode_from-cons s s' c b bs h = rw (h, decode_from)

-- A continuation byte inside its range.
step-more :
    (left acc lo hi x : ℕ)
    → lo ≤ 0x80 + x
    → 0x80 + x ≤ hi
    → step (inside (left + 1) acc lo hi) (0x80 + x)
      ≡ some (inside left (acc * 64 + x) 0x80 0xbf, none)
unfolding step
step-more left acc lo hi x p q = ground arith

step-last :
    (acc lo hi x : ℕ)
    → lo ≤ 0x80 + x
    → 0x80 + x ≤ hi
    → step (inside 0 acc lo hi) (0x80 + x) ≡ some (start, some (acc * 64 + x))
unfolding step
step-last acc lo hi x p q = ground arith

step-one : (c : ℕ) → c < 0x80 → step start c ≡ some (start, some c)
unfolding step
step-one c h = ground arith

step-two : (a : ℕ) → 2 ≤ a → a < 32 → step start (0xc0 + a) ≡ some (inside 0 a 0x80 0xbf, none)
unfolding step
step-two a p q = ground arith

-- The least and the greatest second byte after the lead byte of three or of four bytes.
lo_three : ℕ → ℕ
lo_three a = if ltb a 1 then 0xa0 else 0x80

hi_three : ℕ → ℕ
hi_three a = if ltb a 13 then 0xbf else if ltb a 14 then 0x9f else 0xbf

lo_four : ℕ → ℕ
lo_four a = if ltb a 1 then 0x90 else 0x80

hi_four : ℕ → ℕ
hi_four a = if ltb a 4 then 0xbf else 0x8f

step-three :
    (a : ℕ) → a < 16 → step start (0xe0 + a) ≡ some (inside 1 a (lo_three a) (hi_three a), none)
unfolding step lo_three hi_three
step-three a q = ground arith

step-four :
    (a : ℕ) → a < 5 → step start (0xf0 + a) ≡ some (inside 2 a (lo_four a) (hi_four a), none)
unfolding step lo_four hi_four
step-four a q = ground arith

-- The four lengths of an encoded character.
encode_char_cases :
    (c : ℕ) (bs : Bytes)
    → encode_char c ≡ some bs
    → ((c < 0x80) × (bs ≡ c ∷ []))
      ⊎ (((0x80 ≤ c) × (c < 0x800) × (bs ≡ (0xc0 + c / 64) ∷ (0x80 + c % 64) ∷ []))
          ⊎ (((0x800 ≤ c)
                × (c < 0x10000)
                × ((leb 0xd800 c && ltb c 0xe000) ≡ false)
                × (bs ≡ (0xe0 + c / 4096) ∷ (0x80 + c / 64 % 64) ∷ (0x80 + c % 64) ∷ []))
              ⊎ ((0x10000 ≤ c)
                  × (c < 0x110000)
                  × (bs
                      ≡ (0xf0 + c / 262144)
                        ∷ (0x80 + c / 4096 % 64)
                        ∷ (0x80 + c / 64 % 64)
                        ∷ (0x80 + c % 64)
                        ∷ []))))
unfolding encode_char
encode_char_cases c bs h = ground arith

-- The continuation bytes of one character, and the character that they give.
module _ (rest : Bytes) where
  decode_from-two :
      (acc lo hi x : ℕ)
      → x < 64
      → lo ≤ 0x80 + x
      → 0x80 + x ≤ hi
      → decode_from (inside 0 acc lo hi) ((0x80 + x) ∷ rest)
        ≡ emit (some (acc * 64 + x)) (decode_from start rest)
  decode_from-two acc lo hi x h p q = decode_from-cons _ _ _ _ _ (step-last acc lo hi x p q)

  decode_from-three :
      (acc lo hi x y : ℕ)
      → x < 64
      → y < 64
      → lo ≤ 0x80 + x
      → 0x80 + x ≤ hi
      → decode_from (inside 1 acc lo hi) ((0x80 + x) ∷ (0x80 + y) ∷ rest)
        ≡ emit (some ((acc * 64 + x) * 64 + y)) (decode_from start rest)
  decode_from-three acc lo hi x y hx hy p q =
      decode_from-cons _ _ _ _ _ (step-more 0 acc lo hi x p q)
      ∙ decode_from-two (acc * 64 + x) 0x80 0xbf y hy (omega arith) (omega arith)

  decode_from-four :
      (acc lo hi x y z : ℕ)
      → x < 64
      → y < 64
      → z < 64
      → lo ≤ 0x80 + x
      → 0x80 + x ≤ hi
      → decode_from (inside 2 acc lo hi) ((0x80 + x) ∷ (0x80 + y) ∷ (0x80 + z) ∷ rest)
        ≡ emit (some (((acc * 64 + x) * 64 + y) * 64 + z)) (decode_from start rest)
  decode_from-four acc lo hi x y z hx hy hz p q =
      decode_from-cons _ _ _ _ _ (step-more 1 acc lo hi x p q)
      ∙ decode_from-three (acc * 64 + x) 0x80 0xbf y z hy hz (omega arith) (omega arith)

  Reads : ℕ → Bytes → Type 0
  Reads c bs = decode_from start (bs ++ rest) ≡ emit (some c) (decode_from start rest)

  Reads-two : (c : ℕ) → 0x80 ≤ c → c < 0x800 → Reads c ((0xc0 + c / 64) ∷ (0x80 + c % 64) ∷ [])
  unfolding Reads
  Reads-two c p q =
      decode_from-cons _ _ _ _ _ (step-two (c / 64) (omega arith) (omega arith))
      ∙ decode_from-two (c / 64) 0x80 0xbf (c % 64) (omega arith) (omega arith) (omega arith)
      ∙ ap (λ n. emit (some n) (decode_from start rest)) (omega arith)

  Reads-three :
      (c : ℕ)
      → 0x800 ≤ c
      → c < 0x10000
      → (leb 0xd800 c && ltb c 0xe000) ≡ false
      → Reads c ((0xe0 + c / 4096) ∷ (0x80 + c / 64 % 64) ∷ (0x80 + c % 64) ∷ [])
  unfolding Reads lo_three hi_three
  Reads-three c p q s =
      decode_from-cons _ _ _ _ _ (step-three (c / 4096) (omega arith))
      ∙ decode_from-three (c / 4096) (lo_three (c / 4096)) (hi_three (c / 4096)) (c / 64 % 64)
          (c % 64) (omega arith) (omega arith) (ground arith) (ground arith)
      ∙ ap (λ n. emit (some n) (decode_from start rest)) (omega arith)

  Reads-four :
      (c : ℕ)
      → 0x10000 ≤ c
      → c < 0x110000
      → Reads c (
          (0xf0 + c / 262144)
          ∷ (0x80 + c / 4096 % 64)
          ∷ (0x80 + c / 64 % 64)
          ∷ (0x80 + c % 64)
          ∷ [])
  unfolding Reads lo_four hi_four
  Reads-four c p q =
      decode_from-cons _ _ _ _ _ (step-four (c / 262144) (omega arith))
      ∙ decode_from-four (c / 262144) (lo_four (c / 262144)) (hi_four (c / 262144)) (c / 4096 % 64)
          (c / 64 % 64) (c % 64) (omega arith) (omega arith) (omega arith) (ground arith)
          (ground arith)
      ∙ ap (λ n. emit (some n) (decode_from start rest)) (omega arith)

  Reads-encode_char : (c : ℕ) (bs : Bytes) → encode_char c ≡ some bs → Reads c bs
  unfolding Reads
  Reads-encode_char c bs h = elim (encode_char_cases c bs h) [
    | inl (p, e) ↦ rw e (decode_from-cons start start (some c) c rest (step-one c p))
    | inr (inl (p, q, e)) ↦ rw e (Reads-two c p q)
    | inr (inr (inl (p, q, s, e))) ↦ rw e (Reads-three c p q s)
    | inr (inr (inr (p, q, e))) ↦ rw e (Reads-four c p q)
  ]

-- A text is encoded character by character.
encode-cons :
    (c : ℕ) (s : Str) (bs : Bytes)
    → encode (c ∷ s) ≡ some bs
    → (xs ys : Bytes) × (encode_char c ≡ some xs) × (encode s ≡ some ys) × (bs ≡ xs ++ ys)
unfolding encode
encode-cons c s bs h = joined (encode_char c) (encode s) h
  where
    joined :
        (a b : Option Bytes)
        → join a b ≡ some bs
        → (xs ys : Bytes) × (a ≡ some xs) × (b ≡ some ys) × (bs ≡ xs ++ ys)
    joined none b h = cc
    joined (some xs) none h = cc
    joined (some xs) (some ys) h = (xs, ys, refl, refl, cc)

-- Whatever encodes, decodes to itself.
pub decode-encode : (s : Str) (bs : Bytes) → encode s ≡ some bs → decode bs ≡ some s
unfolding encode decode_from decode Reads
decode-encode [] bs h = ground arith
decode-encode (c ∷ s) bs h =
    let (xs, ys, e, f, j) = encode-cons c s bs h in
    let ih : decode_from start ys ≡ some s = unfold decode in decode-encode s ys f in
    rw j (Reads-encode_char ys c xs e ∙ ap (emit (some c)) ih)
