-- ===== src/Ws/Frame.antt =====
-- feishu/ws/_frame.py: `Header`, `Frame`, `encode_frame` and `decode_frame`.
pub mod RoundTrip
pub mod Total
use open_feishu.Common.{
  ℕ, ◌+◌, ◌/◌, ◌%◌, ◌≡◌, List, [], ◌∷◌, ◌++◌, Option, none, some, Bool, ◌||◌, ◌&&◌, Eq, ◌==◌,
  nat_eq, nats_eq, if◌then◌else◌, length, take, drop, ok, ◌>>=◌, or_raise,
}
use open_feishu.Utf8
use open_feishu.Utf8.{Str, Bytes}
use open_feishu.Ws.Wire.{
  Error, Result, bad_utf8, encode_varint, decode_varint, tag, length_delimited, skip_field, scan,
}

pub record Header : Type 0 where
  pub key : Str
  pub value : Str

pub record Frame : Type 0 where
  pub seq_id : ℕ
  pub log_id : ℕ
  pub service : ℕ
  pub method : ℕ
  pub headers : List Header
  pub payload_encoding : Option Str
  pub payload_type : Option Str
  pub payload : Option Bytes
  pub log_id_new : Option Str

-- `Frame()`: the defaults of the fields.
abbrev pub empty : Frame
empty = record {
  seq_id = 0;
  log_id = 0;
  service = 0;
  method = 0;
  headers = [];
  payload_encoding = none;
  payload_type = none;
  payload = none;
  log_id_new = none;
}

-- The value of the first header with the key.
unfoldable pub find_header : Str → List Header → Option Str
find_header key [] = none
find_header key (h ∷ hs) = if h.key == key then some h.value else find_header key hs

unfoldable pub header : Frame → Str → Option Str
header frame key = find_header key frame.headers

encode_text : Str → Result Bytes
encode_text s = or_raise (Utf8.encode s) bad_utf8

decode_text : Bytes → Result Str
decode_text bytes = or_raise (Utf8.decode bytes) bad_utf8

unfoldable pub encode_header : Header → Result Bytes
unfolding encode_text
encode_header h = do
  key ← encode_text h.key
  value ← encode_text h.value
  ok (length_delimited 1 key ++ length_delimited 2 value)

-- `for header in frame.headers`.
unfoldable pub encode_headers : List Header → Result Bytes
encode_headers [] = ok []
encode_headers (h ∷ hs) = do
  one ← encode_header h
  rest ← encode_headers hs
  ok (length_delimited 5 one ++ rest)

-- An optional text field, written only if it is there.
unfoldable pub encode_optional : ℕ → Option Str → Result Bytes
unfolding encode_text
encode_optional field_number none = ok []
encode_optional field_number (some s) = do
  bytes ← encode_text s
  ok (length_delimited field_number bytes)

unfoldable pub encode_payload : Option Bytes → Bytes
encode_payload none = []
encode_payload (some bytes) = length_delimited 8 bytes

unfoldable pub varint_field : ℕ → ℕ → Bytes
varint_field field_number value = tag field_number 0 ++ encode_varint value

-- The bytes of a frame from those of its headers and of its optional texts.
unfoldable pub assemble : Frame → Bytes → Bytes → Bytes → Bytes → Bytes
assemble frame headers encoding kind log =
    varint_field 1 frame.seq_id
    ++ (varint_field 2 frame.log_id
        ++ (varint_field 3 frame.service
            ++ (varint_field 4 frame.method
                ++ (headers ++ (encoding ++ (kind ++ (encode_payload frame.payload ++ log)))))))

unfoldable pub encode_frame : Frame → Result Bytes
encode_frame frame = do
  headers ← encode_headers frame.headers
  encoding ← encode_optional 6 frame.payload_encoding
  kind ← encode_optional 7 frame.payload_type
  log ← encode_optional 9 frame.log_id_new
  ok (assemble frame headers encoding kind log)

-- One round of the loop of `_decode_header`.
unfoldable pub header_field : Header → Bytes → Result (Header × Bytes)
unfolding decode_text
header_field h bytes = do
  (t, body) ← decode_varint bytes
  if t % 8 == 2 && (t / 8 == 1 || t / 8 == 2)
      then (do
        (size, rest) ← decode_varint body
        text ← decode_text (take size rest)
        ok (
          if t / 8 == 1 then record h { key = text } else record h { value = text },
          drop size rest,
        ))
      else do rest ← skip_field body (t % 8); ok (h, rest)

unfoldable pub decode_header : Bytes → Result Header
decode_header bytes = scan header_field (length bytes) (record { key = []; value = [] }) bytes

-- The effect of a varint field.
unfoldable pub store_number : ℕ → ℕ → Frame → Frame
store_number field_number value frame =
    if field_number == 1
    then record frame { seq_id = value }
    else if field_number == 2
    then record frame { log_id = value }
    else if field_number == 3
    then record frame { service = value }
    else if field_number == 4
    then record frame { method = value }
    else frame

-- The effect of a length-delimited field.
unfoldable pub store_chunk : ℕ → Bytes → Frame → Result Frame
unfolding decode_text
store_chunk field_number chunk frame =
    if field_number == 5
    then (do h ← decode_header chunk; ok (record frame { headers = frame.headers ++ h ∷ [] }))
    else if field_number == 6
    then (do s ← decode_text chunk; ok (record frame { payload_encoding = some s }))
    else if field_number == 7
    then (do s ← decode_text chunk; ok (record frame { payload_type = some s }))
    else if field_number == 8
    then ok (record frame { payload = some chunk })
    else if field_number == 9
    then (do s ← decode_text chunk; ok (record frame { log_id_new = some s }))
    else ok frame

-- One round of the loop of `decode_frame`.
unfoldable pub frame_field : Frame → Bytes → Result (Frame × Bytes)
frame_field frame bytes = do
  (t, body) ← decode_varint bytes
  if t % 8 == 0
      then (do (value, rest) ← decode_varint body; ok (store_number (t / 8) value frame, rest))
      else if t % 8 == 2
      then (do
        (size, rest) ← decode_varint body
        frame' ← store_chunk (t / 8) (take size rest) frame
        ok (frame', drop size rest))
      else do rest ← skip_field body (t % 8); ok (frame, rest)

unfoldable pub decode_frame : Bytes → Result Frame
decode_frame bytes = scan frame_field (length bytes) empty bytes
