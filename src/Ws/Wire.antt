-- ===== src/Ws/Wire.antt =====
-- feishu/ws/_frame.py: varints, tags, length-delimited fields and unknown fields. A read position
-- is the bytes that are left. A byte is a number below 256, and bits that do not overlap are added.
pub mod Varint
pub mod Laws
use mathlib.Core.Logic.{dite}
use mathlib.Core.WellFounded.{Acc, WellFounded}
use native.Mathlib.Decide.{dec_lt}
use open_feishu.Common.{
  ℕ, zero, suc, ◌+◌, ◌*◌, ◌/◌, ◌%◌, ◌^◌, ◌<◌, List, [], ◌∷◌, ◌++◌, arith, ◌==◌, nat_eq, ltb,
  if◌then◌else◌, length, drop, take, Option, none, some, ok, ◌>>=◌, err, Outcome,
}
use open_feishu.Utf8.{Bytes, Str}
use open_feishu.Utf8

-- The ValueErrors of the decoder, and the UnicodeEncodeError of the encoder. `no_fuel` is the
-- model's own and is shown not to occur.
pub data Error : Type 0 where
  truncated_varint bad_utf8 no_fuel : Error
  unsupported_wire_type : ℕ → Error

abbrev pub Result {ℓ} : Type ℓ → Type ℓ
Result A = Outcome Error A

Acc-below : (k n : ℕ) → n < k → Acc ◌<◌ n
Acc-below zero n h = elim h [ ]
Acc-below (suc k) n h = Acc.intro n (λ m hm. Acc-below k m (omega arith))

-- The loop of `_encode_varint`: seven bits of `n` to a byte, and a high bit if more follow.
unfoldable pub varint_loop : (n : ℕ) → Acc ◌<◌ n → Bytes
varint_loop n (Acc.intro _ smaller) =
    dite (dec_lt 0 (n / 128))
      (λ h. (n % 128 + 128) ∷ varint_loop (n / 128) (smaller (n / 128) (omega arith)))
      (λ _. n % 128 ∷ [])

unfoldable pub encode_varint : ℕ → Bytes
unfolding varint_loop Acc-below dec_lt
encode_varint value = varint_loop value (Acc-below (suc value) value (omega arith))

-- The loop of `_decode_varint`.
unfoldable pub varint_from : ℕ → ℕ → Bytes → Result (ℕ × Bytes)
varint_from result shift [] = err truncated_varint
varint_from result shift (byte ∷ rest) =
    let more = varint_from (result + byte % 128 * 2 ^ shift) (shift + 7) rest in
    if ltb byte 128 then ok (result + byte % 128 * 2 ^ shift, rest) else more

unfoldable pub decode_varint : Bytes → Result (ℕ × Bytes)
unfolding varint_from
decode_varint bytes = varint_from 0 0 bytes

unfoldable pub tag : ℕ → ℕ → Bytes
tag field_number wire_type = encode_varint (field_number * 8 + wire_type)

unfoldable pub length_delimited : ℕ → Bytes → Bytes
length_delimited field_number bytes = tag field_number 2 ++ (encode_varint (length bytes) ++ bytes)

-- The bytes after an unknown field. A length past the end leaves nothing.
unfoldable pub skip_field : Bytes → ℕ → Result Bytes
skip_field bytes wire_type =
    if wire_type == 0
    then (do (_, rest) ← decode_varint bytes; ok rest)
    else if wire_type == 2
    then (do (n, rest) ← decode_varint bytes; ok (drop n rest))
    else if wire_type == 1
    then ok (drop 8 bytes)
    else if wire_type == 5
    then ok (drop 4 bytes)
    else err (unsupported_wire_type wire_type)

-- `while index < len(data)`: one field after another.
unfoldable pub scan {ℓ} : {S : Type ℓ} → (S → Bytes → Result (S × Bytes)) → ℕ → S → Bytes → Result S
scan field fuel s [] = ok s
scan field zero s (b ∷ bytes) = err no_fuel
scan field (suc fuel) s (b ∷ bytes) = do (s', rest) ← field s (b ∷ bytes); scan field fuel s' rest
