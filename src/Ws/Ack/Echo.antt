-- ===== src/Ws/Ack/Echo.antt =====
-- The peer reads from an answer the frame that it answers.
use open_feishu.Common.{◌≡◌, refl, List, [], ◌∷◌, ◌++◌, Option, none, some, ok, nats_eq, nats_eqb}
use open_feishu.Utf8.{Str, Bytes}
use open_feishu.Ws.Frame.{Frame, Header, find_header, header, encode_frame, decode_frame}
use open_feishu.Ws.Frame.RoundTrip.{decode_frame-encode_frame}
use open_feishu.Ws.Client.{message_id_key}
use open_feishu.Ws.Ack.{type_key, biz_rt_key, copied, ack_headers, build_ack}

-- The headers of an answer, from those of the frame.
abbrev echoed : Option Str → Option Str → List Header
echoed kind message =
    copied type_key kind
    ++ (copied message_id_key message ++ record { key = biz_rt_key; value = 48 ∷ [] } ∷ [])

find_header-type : (kind message : Option Str) → find_header type_key (echoed kind message) ≡ kind
unfolding find_header nats_eqb
find_header-type none none = refl
find_header-type none (some m) = refl
find_header-type (some t) m = refl

find_header-message_id :
    (kind message : Option Str) → find_header message_id_key (echoed kind message) ≡ message
unfolding find_header nats_eqb
find_header-message_id none none = refl
find_header-message_id none (some m) = refl
find_header-message_id (some t) none = refl
find_header-message_id (some t) (some m) = refl

header-ack_type :
    (response : Bytes) (frame : Frame)
    → header (build_ack response frame) type_key ≡ header frame type_key
unfolding build_ack ack_headers header
header-ack_type response frame =
    find_header-type (find_header type_key frame.headers) (find_header message_id_key frame.headers)

header-ack_message_id :
    (response : Bytes) (frame : Frame)
    → header (build_ack response frame) message_id_key ≡ header frame message_id_key
unfolding build_ack ack_headers header
header-ack_message_id response frame =
    find_header-message_id (find_header type_key frame.headers)
      (find_header message_id_key frame.headers)

-- What an answer encodes to decodes to a frame with the identifiers of the frame that is answered, its type, its
-- message and the response.
decode_frame-build_ack :
    (response bytes : Bytes) (frame : Frame)
    → encode_frame (build_ack response frame) ≡ ok bytes
    → (ack : Frame) × (decode_frame bytes ≡ ok ack)
      × (ack.seq_id ≡ frame.seq_id)
      × (ack.log_id ≡ frame.log_id)
      × (header ack type_key ≡ header frame type_key)
      × (header ack message_id_key ≡ header frame message_id_key)
      × (ack.payload ≡ some response)
unfolding build_ack
decode_frame-build_ack response bytes frame h = (
  build_ack response frame,
  decode_frame-encode_frame (build_ack response frame) bytes h,
  refl,
  refl,
  header-ack_type response frame,
  header-ack_message_id response frame,
  refl,
)
