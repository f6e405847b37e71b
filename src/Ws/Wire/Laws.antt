-- ===== src/Ws/Wire/Laws.antt =====
-- Unknown fields and loops over fields: what they consume, and that the fuel is enough.
use open_feishu.Common.{
  ℕ, zero, suc, ◌<◌, ◌≤◌, ◌≡◌, ◌≢◌, ◌+◌, ◌*◌, ◌%◌, ◌^◌, refl, [], ◌∷◌, arith, length, drop, inl,
  inr, ok, Outcome-cases, err,
}
use open_feishu.Utf8.{Bytes}
use open_feishu.Ws.Wire.{Result, no_fuel, decode_varint, varint_from, skip_field, scan}
use open_feishu.Ws.Wire.Varint.{decode_varint-length}

pub length-drop-le : (n : ℕ) (xs : Bytes) → length (drop n xs) ≤ length xs
length-drop-le zero xs = omega arith
length-drop-le (suc n) [] = omega arith
length-drop-le (suc n) (x ∷ xs) = omega (arith, length-drop-le n xs)

varint_from-ne-no_fuel : (r s : ℕ) (bytes : Bytes) → varint_from r s bytes ≢ err no_fuel
unfolding varint_from
varint_from-ne-no_fuel r s [] = λ h. cc
varint_from-ne-no_fuel r s (b ∷ bytes) =
    λ h. ground (arith, varint_from-ne-no_fuel (r + b % 128 * 2 ^ s) (s + 7) bytes)

pub decode_varint-ne-no_fuel : (bytes : Bytes) → decode_varint bytes ≢ err no_fuel
unfolding decode_varint
decode_varint-ne-no_fuel bytes = varint_from-ne-no_fuel 0 0 bytes

pub skip_field-length :
    (bytes : Bytes) (w : ℕ) (rest : Bytes)
    → skip_field bytes w ≡ ok rest
    → length rest ≤ length bytes
unfolding skip_field
skip_field-length bytes w rest h = elim (Outcome-cases (decode_varint bytes)) [
  | inl ((n, more), e) ↦ ground (
    arith,
    decode_varint-length bytes e,
    length-drop-le n more,
    length-drop-le 8 bytes,
    length-drop-le 4 bytes,
  )
  | inr (x, e) ↦ ground (arith, length-drop-le 8 bytes, length-drop-le 4 bytes)
]

pub skip_field-ne-no_fuel : (bytes : Bytes) (w : ℕ) → skip_field bytes w ≢ err no_fuel
unfolding skip_field
skip_field-ne-no_fuel bytes w = λ h. ground (arith, decode_varint-ne-no_fuel bytes)

module _ {ℓ} {S : Type ℓ} (field : S → Bytes → Result (S × Bytes)) where
  -- From `s` the loop over `bytes` ends in `t`, whatever fuel it has from the length on.
  abbrev pub Scans : S → Bytes → S → Type ℓ
  Scans s bytes t = (fuel : ℕ) → length bytes ≤ fuel → scan field fuel s bytes ≡ ok t

  pub Scans-nil : (s : S) → Scans s [] s
  unfolding scan
  Scans-nil s zero h = refl
  Scans-nil s (suc fuel) h = refl

  pub Scans-cons :
      (s s' t : S) (bytes rest : Bytes)
      → field s bytes ≡ ok (s', rest)
      → length rest < length bytes
      → Scans s' rest t
      → Scans s bytes t
  unfolding scan
  Scans-cons s s' t [] rest e l next fuel h = elim l [ ]
  Scans-cons s s' t (b ∷ bytes) rest e l next zero h = elim h [ ]
  Scans-cons s s' t (b ∷ bytes) rest e l next (suc fuel) h = rw (e, scan) (next fuel (omega arith))

  -- A field that consumes bytes leaves the loop enough fuel.
  pub scan-ne-no_fuel :
      ((s s' : S) (bytes rest : Bytes) → field s bytes ≡ ok (s', rest) → length rest < length bytes)
      → ((s : S) (bytes : Bytes) → field s bytes ≢ err no_fuel)
      → (fuel : ℕ) (s : S) (bytes : Bytes) → length bytes ≤ fuel
      → scan field fuel s bytes ≢ err no_fuel
  unfolding scan
  scan-ne-no_fuel progress safe zero s [] h = λ e. cc
  scan-ne-no_fuel progress safe (suc fuel) s [] h = λ e. cc
  scan-ne-no_fuel progress safe zero s (b ∷ bytes) h = elim h [ ]
  scan-ne-no_fuel progress safe (suc fuel) s (b ∷ bytes) h =
      elim (Outcome-cases (field s (b ∷ bytes))) [
        | inl ((s', rest), e) ↦
            rw (e, scan)
              (scan-ne-no_fuel progress safe fuel s' rest
                (omega (arith, progress s s' (b ∷ bytes) rest e)))
        | inr (no_fuel, e) ↦ absurd (safe s (b ∷ bytes) e)
        | inr (_, e) ↦ rw (e, scan) (λ q. cc)
      ]
