-- ===== src/Ws/Frame/Total.antt =====
-- Each round of the decoders consumes bytes, so their fuel, the number of bytes, is enough.
use open_feishu.Common.{
  ℕ, ◌/◌, ◌%◌, ◌<◌, ◌≡◌, ◌≢◌, arith, length, take, inl, inr, ok, Outcome-cases, err,
}
use open_feishu.Utf8.{Bytes}
use open_feishu.Ws.Wire.{no_fuel, decode_varint}
use open_feishu.Ws.Wire.Varint.{decode_varint-length}
use open_feishu.Ws.Wire.Laws.{
  length-drop-le, decode_varint-ne-no_fuel, skip_field-length, skip_field-ne-no_fuel,
  scan-ne-no_fuel,
}
use open_feishu.Ws.Frame.{
  Header, Frame, empty, decode_text, header_field, decode_header, store_chunk, frame_field,
  decode_frame,
}

decode_text-ne-no_fuel : (bytes : Bytes) → decode_text bytes ≢ err no_fuel
unfolding decode_text
decode_text-ne-no_fuel bytes = λ h. ground arith

pub header_field-length :
    (h h' : Header) (bytes rest : Bytes)
    → header_field h bytes ≡ ok (h', rest)
    → length rest < length bytes
unfolding header_field
header_field-length h h' bytes rest e = elim (Outcome-cases (decode_varint bytes)) [
  | inl ((t, body), p) ↦ elim (Outcome-cases (decode_varint body)) [
    | inl ((size, more), q) ↦ ground (
      arith,
      decode_varint-length bytes p,
      decode_varint-length body q,
      length-drop-le size more,
      skip_field-length body (t % 8) rest,
    )
    | inr (x, q) ↦ ground (arith, decode_varint-length bytes p, skip_field-length body (t % 8) rest)
  ]
  | inr (x, p) ↦ ground arith
]

header_field-ne-no_fuel : (h : Header) (bytes : Bytes) → header_field h bytes ≢ err no_fuel
unfolding header_field
header_field-ne-no_fuel h bytes = λ e. elim (Outcome-cases (decode_varint bytes)) [
  | inl ((t, body), p) ↦ elim (Outcome-cases (decode_varint body)) [
    | inl ((size, more), q) ↦
        ground (arith, decode_text-ne-no_fuel (take size more), skip_field-ne-no_fuel body (t % 8))
    | inr (x, q) ↦ ground (arith, decode_varint-ne-no_fuel body, skip_field-ne-no_fuel body (t % 8))
  ]
  | inr (x, p) ↦ ground (arith, decode_varint-ne-no_fuel bytes)
]

-- The decoder of a header ends with a header or with one of the errors of the source.
pub decode_header-ne-no_fuel : (bytes : Bytes) → decode_header bytes ≢ err no_fuel
unfolding decode_header
decode_header-ne-no_fuel bytes =
    scan-ne-no_fuel header_field header_field-length header_field-ne-no_fuel (length bytes) _ bytes
      (omega arith)

store_chunk-ne-no_fuel :
    (n : ℕ) (chunk : Bytes) (frame : Frame) → store_chunk n chunk frame ≢ err no_fuel
unfolding store_chunk
store_chunk-ne-no_fuel n chunk frame =
    λ e. ground (arith, decode_header-ne-no_fuel chunk, decode_text-ne-no_fuel chunk)

pub frame_field-length :
    (f f' : Frame) (bytes rest : Bytes)
    → frame_field f bytes ≡ ok (f', rest)
    → length rest < length bytes
unfolding frame_field
frame_field-length f f' bytes rest e = elim (Outcome-cases (decode_varint bytes)) [
  | inl ((t, body), p) ↦ elim (Outcome-cases (decode_varint body)) [
    | inl ((size, more), q) ↦ ground (
      arith,
      decode_varint-length bytes p,
      decode_varint-length body q,
      length-drop-le size more,
      skip_field-length body (t % 8) rest,
    )
    | inr (x, q) ↦ ground (arith, decode_varint-length bytes p, skip_field-length body (t % 8) rest)
  ]
  | inr (x, p) ↦ ground arith
]

frame_field-ne-no_fuel : (f : Frame) (bytes : Bytes) → frame_field f bytes ≢ err no_fuel
unfolding frame_field
frame_field-ne-no_fuel f bytes = λ e. elim (Outcome-cases (decode_varint bytes)) [
  | inl ((t, body), p) ↦ elim (Outcome-cases (decode_varint body)) [
    | inl ((size, more), q) ↦ ground (
      arith,
      store_chunk-ne-no_fuel (t / 8) (take size more) f,
      skip_field-ne-no_fuel body (t % 8),
    )
    | inr (x, q) ↦ ground (arith, decode_varint-ne-no_fuel body, skip_field-ne-no_fuel body (t % 8))
  ]
  | inr (x, p) ↦ ground (arith, decode_varint-ne-no_fuel bytes)
]

-- The decoder ends on every input, with a frame or with one of the errors of the source.
pub decode_frame-ne-no_fuel : (bytes : Bytes) → decode_frame bytes ≢ err no_fuel
unfolding decode_frame
decode_frame-ne-no_fuel bytes =
    scan-ne-no_fuel frame_field frame_field-length frame_field-ne-no_fuel (length bytes) empty bytes
      (omega arith)
