-- ===== src/Ws/Wire/Varint.antt =====
-- Varints decode to the number that was encoded, and reading one consumes bytes.
use mathlib.Core.Logic.{dif_pos, dif_neg}
use mathlib.Core.WellFounded.{Acc}
use native.Mathlib.Bridge.{le_prop}
use native.Mathlib.Decide.{dec_lt}
use native.Mathlib.Numerals.{towards_suc}
use open_feishu.Common.{
  ℕ, suc, ◌+◌, ◌*◌, ◌/◌, ◌%◌, ◌^◌, ◌<◌, ◌≡◌, ap, ◌∙◌, [], ◌∷◌, ◌++◌, arith, ltb, lt→ltb, false,
  length, ok,
}
use open_feishu.Utf8.{Bytes}
use open_feishu.Ws.Wire.{Acc-below, varint_loop, encode_varint, varint_from, decode_varint}

varint_from-more :
    (result shift x : ℕ) (bytes : Bytes)
    → x < 128
    → varint_from result shift ((x + 128) ∷ bytes)
      ≡ varint_from (result + x * 2 ^ shift) (shift + 7) bytes
unfolding varint_from
varint_from-more result shift x bytes h =
    let e : ltb (x + 128) 128 ≡ false = ground arith in
    let m : (x + 128) % 128 ≡ x = omega arith in rw (e, m)

varint_from-last :
    (result shift x : ℕ) (bytes : Bytes)
    → x < 128
    → varint_from result shift (x ∷ bytes) ≡ ok (result + x * 2 ^ shift, bytes)
unfolding varint_from
varint_from-last result shift x bytes h =
    let m : x % 128 ≡ x = omega arith in rw (lt→ltb x 128 h, m)

pow-seven : (s : ℕ) → 2 ^ (s + 7) ≡ 128 * 2 ^ s
pow-seven s = simp towards_suc (omega arith)

-- The low digit and the rest of a number, at any scale.
digits : (n p : ℕ) → n % 128 * p + n / 128 * (128 * p) ≡ n * p
digits n p =
    let e : n ≡ n / 128 * 128 + n % 128 = omega arith in omega (arith, ap (λ (t : ℕ). t * p) e)

varint_from-varint_loop :
    (n : ℕ) (w : Acc ◌<◌ n) (result shift : ℕ) (rest : Bytes)
    → varint_from result shift (varint_loop n w ++ rest) ≡ ok (result + n * 2 ^ shift, rest)
unfolding varint_loop
varint_from-varint_loop n (Acc.intro _ smaller) result shift rest = elim (dec_lt 0 (n / 128)) [
  | yes p ↦ rw (dif_pos _ le_prop p) (
      varint_from-more result shift (n % 128) _ (omega arith)
      ∙ varint_from-varint_loop (n / 128) (smaller (n / 128) (omega arith))
          (result + n % 128 * 2 ^ shift) (shift + 7) rest
      ∙ ap (λ v. ok (v, rest))
          (omega (
            arith,
            pow-seven shift,
            ap (λ (t : ℕ). n / 128 * t) (pow-seven shift),
            digits n (2 ^ shift),
          )))
  | no p ↦ rw (dif_neg _ p) (
      varint_from-last result shift (n % 128) rest (omega arith)
      ∙ ap (λ v. ok (result + v * 2 ^ shift, rest)) (omega arith))
]

pub decode_varint-encode_varint :
    (n : ℕ) (rest : Bytes) → decode_varint (encode_varint n ++ rest) ≡ ok (n, rest)
unfolding encode_varint decode_varint
decode_varint-encode_varint n rest =
    varint_from-varint_loop n (Acc-below (suc n) n (omega arith)) 0 0 rest
    ∙ ap (λ v. ok (v, rest)) (omega arith)

-- A read takes at least one byte.
varint_from-length :
    (result shift : ℕ) (bytes : Bytes) (v : ℕ) (rest : Bytes)
    → varint_from result shift bytes ≡ ok (v, rest)
    → length rest < length bytes
unfolding varint_from
varint_from-length result shift [] v rest h = cc
varint_from-length result shift (byte ∷ bytes) v rest h =
    ground (arith, varint_from-length (result + byte % 128 * 2 ^ shift) (shift + 7) bytes v rest)

pub decode_varint-length :
    (bytes : Bytes) {v : ℕ} {rest : Bytes}
    → decode_varint bytes ≡ ok (v, rest)
    → length rest < length bytes
unfolding decode_varint
decode_varint-length bytes h = varint_from-length 0 0 bytes _ _ h
