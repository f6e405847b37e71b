-- ===== src/Ws/Tests.antt =====
-- The long connection on concrete frames.
use Prim.Native.Char.{code}
use open_feishu.Common.{
  nats_eqb, pos, ℕ, true, false, ◌≢◌, ◌≡◌, ◌≢◌, refl, [], ◌∷◌, some, String, ok, err,
}
use open_feishu.Ws.Ack.{ack_headers, build_ack}
use open_feishu.Ws.Reconnect.{ClientConfig, default_config, Round, connected, lost, no_fuel, start}
use open_feishu.Ws.Reconnect.Ends.{start-ends}
use open_feishu.Utf8.{Str, Bytes, step, decode_from}
use open_feishu.Utf8
use open_feishu.Ws.Wire.{
  Result, no_fuel, truncated_varint, encode_varint, decode_varint, tag, length_delimited,
  skip_field, scan,
}
use open_feishu.Ws.Frame.{
  header, find_header, Frame, empty, encode_header, encode_headers, encode_optional, encode_payload,
  varint_field, assemble, encode_frame, header_field, decode_header, store_number, store_chunk,
  frame_field, decode_frame,
}
use open_feishu.Ws.Frame.RoundTrip.{decode_frame-encode_frame}
use open_feishu.Ws.Frame.Total.{decode_frame-ne-no_fuel}

abbrev codes : String → Str
codes String.[] = []
codes (String.◌∷◌ c s) = code c ∷ codes s

-- The encoder and the decoder with all that they call.
codec : Unit {0}
unfolding Utf8.encode_char Utf8.encode Utf8.decode Utf8.step Utf8.decode_from encode_varint
    decode_varint tag length_delimited skip_field scan encode_header encode_headers encode_optional
    encode_payload varint_field assemble encode_frame header_field decode_header store_number
    store_chunk frame_field decode_frame
codec = tt

abbrev ping : Frame
ping = record empty {
  service = 5;
  headers = (record { key = codes "type"; value = codes "ping" }) ∷ [];
}

abbrev ping_bytes : Bytes
ping_bytes =
    0x08 ∷ 0x00 ∷ 0x10 ∷ 0x00 ∷ 0x18 ∷ 0x05 ∷ 0x20 ∷ 0x00 ∷ 0x2a ∷ 0x0c ∷ 0x0a ∷ 0x04 ∷ 0x74 ∷ 0x79
    ∷ 0x70 ∷ 0x65 ∷ 0x12 ∷ 0x04 ∷ 0x70 ∷ 0x69 ∷ 0x6e ∷ 0x67 ∷ []

-- The example of the docstring of `encode_frame`.
encode_ping : encode_frame ping ≡ ok ping_bytes
unfolding codec
encode_ping = refl

varint_300 : encode_varint 300 ≡ 0xac ∷ 0x02 ∷ []
unfolding codec
varint_300 = refl

-- A payload shorter than its length is taken as it is.
short_payload :
    decode_frame (0x42 ∷ 0x09 ∷ 0x7b ∷ []) ≡ ok (record empty { payload = some (0x7b ∷ []) })
unfolding codec
short_payload = refl

truncated : decode_frame (0x08 ∷ 0x80 ∷ []) ≡ err truncated_varint
unfolding codec
truncated = refl

decode_frame-encode_frame_example : decode_frame ping_bytes ≡ ok ping
decode_frame-encode_frame_example = decode_frame-encode_frame ping ping_bytes encode_ping

decode_frame-ne-no_fuel_example : decode_frame ping_bytes ≢ err no_fuel
decode_frame-ne-no_fuel_example = decode_frame-ne-no_fuel ping_bytes

-- A connection that is lost at once, with one reconnection allowed.
abbrev once : ClientConfig
once = record default_config { reconnect_count = pos 1 }

abbrev lost_again : ℕ → Round
lost_again k = record {
  stopped = false;
  handshake = connected once;
  stopped_in_handshake = false;
  service = lost;
  stopped_in_service = false;
  stopped_after = false;
  waited = true;
}

start-ends_example : start true lost_again 2 ≢ no_fuel
start-ends_example = start-ends true lost_again 1 once refl (λ k. refl)

-- The answer to the frame.
abbrev ack : Frame
ack = build_ack (0x7b ∷ 0x7d ∷ []) ping

abbrev bytes_of : Result Bytes → Bytes
bytes_of (ok bytes) = bytes
bytes_of (err _) = []

encode_ack : encode_frame ack ≡ ok (bytes_of (encode_frame ack))
unfolding codec build_ack ack_headers header find_header nats_eqb
encode_ack = refl
