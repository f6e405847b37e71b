-- ===== src/Utf8.antt =====
-- Python's strict `str.encode("utf-8")` and `bytes.decode("utf-8")`, over the code points of a
-- text and over bytes. The decoder reads one byte at a time and knows which bytes may come next.
pub mod RoundTrip
use open_feishu.Common.{
  ℕ, ◌+◌, ◌-◌, ◌*◌, ◌/◌, ◌%◌, List, [], ◌∷◌, ◌++◌, Option, none, some, Bool, ◌&&◌, ltb, leb,
  if◌then◌else◌,
}
use mathlib.Core.Option

-- The code points of a `str`, and the bytes of a `bytes`.
abbrev pub Str : Type 0
Str = List ℕ

abbrev pub Bytes : Type 0
Bytes = List ℕ

-- `none` is a UnicodeEncodeError: surrogates have no encoding.
unfoldable pub encode_char : ℕ → Option Bytes
encode_char c =
    if ltb c 0x80
    then some (c ∷ [])
    else if ltb c 0x800
    then some ((0xc0 + c / 64) ∷ (0x80 + c % 64) ∷ [])
    else if ltb c 0x10000
    then (if leb 0xd800 c && ltb c 0xe000
        then none
        else some ((0xe0 + c / 4096) ∷ (0x80 + c / 64 % 64) ∷ (0x80 + c % 64) ∷ []))
    else if ltb c 0x110000
    then some
        ((0xf0 + c / 262144) ∷ (0x80 + c / 4096 % 64) ∷ (0x80 + c / 64 % 64) ∷ (0x80 + c % 64) ∷ [])
    else none

abbrev pub join : Option Bytes → Option Bytes → Option Bytes
join (some xs) (some ys) = some (xs ++ ys)
join _ _ = none

unfoldable pub encode : Str → Option Bytes
encode [] = some []
encode (c ∷ s) = join (encode_char c) (encode s)

-- Between two characters, or inside one: the continuation bytes left after the next, the bits so
-- far, and the range of the next byte.
pub data State : Type 0 where
  start : State
  inside : ℕ → ℕ → ℕ → ℕ → State

abbrev pub between : ℕ → ℕ → ℕ → Bool
between lo hi b = leb lo b && leb b hi

-- One byte: the next state, and the character that it ends, if any.
unfoldable pub step : State → ℕ → Option (State × Option ℕ)
step start b =
    if ltb b 0x80
    then some (start, some b)
    else if between 0xc2 0xdf b
    then some (inside 0 (b - 0xc0) 0x80 0xbf, none)
    else if between 0xe0 0xe0 b
    then some (inside 1 0 0xa0 0xbf, none)
    else if between 0xed 0xed b
    then some (inside 1 0xd 0x80 0x9f, none)
    else if between 0xe1 0xef b
    then some (inside 1 (b - 0xe0) 0x80 0xbf, none)
    else if between 0xf0 0xf0 b
    then some (inside 2 0 0x90 0xbf, none)
    else if between 0xf4 0xf4 b
    then some (inside 2 4 0x80 0x8f, none)
    else if between 0xf1 0xf3 b
    then some (inside 2 (b - 0xf0) 0x80 0xbf, none)
    else none
step (inside left acc lo hi) b =
    if between lo hi b
    then (if leb left 0
        then some (start, some (acc * 64 + (b - 0x80)))
        else some (inside (left - 1) (acc * 64 + (b - 0x80)) 0x80 0xbf, none))
    else none

abbrev pub emit : Option ℕ → Option Str → Option Str
emit none s = s
emit (some c) s = Option.map (λ t. c ∷ t) s

-- The bytes may end only between two characters.
abbrev pub finish : State → Option Str
finish start = some []
finish (inside _ _ _ _) = none

unfoldable pub decode_from : State → Bytes → Option Str
decode_from s [] = finish s
decode_from s (b ∷ bs) = elim (step s b) [ none ↦ none | some (s', c) ↦ emit c (decode_from s' bs) ]

-- `none` is a UnicodeDecodeError.
unfoldable pub decode : Bytes → Option Str
decode bs = decode_from start bs
