-- ===== src/Ws/Ack.antt =====
-- feishu/ws/client.py: `_build_ack`, the frame that answers a frame. The bytes of the answer, which
-- `json` and `base64` write, are an argument.
pub mod Echo
use open_feishu.Common.{List, [], ◌∷◌, ◌++◌, Option, none, some}
use open_feishu.Utf8.{Str, Bytes}
use open_feishu.Ws.Client.{message_id_key}
use open_feishu.Ws.Frame.{Frame, Header, empty, header}

-- The headers "type" and "biz_rt".
abbrev pub type_key : Str
type_key = 116 ∷ 121 ∷ 112 ∷ 101 ∷ []

abbrev pub biz_rt_key : Str
biz_rt_key = 98 ∷ 105 ∷ 122 ∷ 95 ∷ 114 ∷ 116 ∷ []

-- A header of the frame, if it has it.
abbrev pub copied : Str → Option Str → List Header
copied key none = []
copied key (some value) = record { key = key; value = value } ∷ []

unfoldable pub ack_headers : Frame → List Header
ack_headers frame =
    copied type_key (header frame type_key)
    ++ (copied message_id_key (header frame message_id_key)
        ++ record { key = biz_rt_key; value = 48 ∷ [] } ∷ [])

unfoldable pub build_ack : Bytes → Frame → Frame
build_ack response frame = record empty {
  seq_id = frame.seq_id;
  log_id = frame.log_id;
  service = frame.service;
  method = frame.method;
  headers = ack_headers frame;
  payload = some response;
}
