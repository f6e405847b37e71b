-- ===== src/Ws/Frame/RoundTrip.antt =====
-- A frame that encodes decodes to itself.
use mathlib.Core.List.{append_assoc, append-nil}
use open_feishu.Common.{
  ℕ, ◌+◌, ◌*◌, ◌/◌, ◌%◌, ◌≡◌, refl, ◌∙◌, List, [], ◌∷◌, ◌++◌, Option, none, some, arith, inl, inr,
  take-append_self, drop-append_self, Option-cases, ok, bind-ok, ◌>>=◌, ok-injective,
}
use open_feishu.Utf8
use open_feishu.Utf8.{Str, Bytes}
use open_feishu.Utf8.RoundTrip.{decode-encode}
use open_feishu.Ws.Wire.{tag, length_delimited}
use open_feishu.Ws.Wire.Varint.{decode_varint-encode_varint}
use open_feishu.Ws.Wire.Laws.{Scans, Scans-nil, Scans-cons}
use open_feishu.Ws.Frame.{
  Header, Frame, empty, encode_text, decode_text, encode_header, encode_headers, encode_optional,
  encode_payload, varint_field, assemble, encode_frame, header_field, decode_header, store_number,
  store_chunk, frame_field, decode_frame,
}
use open_feishu.Ws.Frame.Total.{header_field-length, frame_field-length}

decode_text-encode_text :
    (s : Str) (bytes : Bytes) → encode_text s ≡ ok bytes → decode_text bytes ≡ ok s
unfolding encode_text decode_text
decode_text-encode_text s bytes h = elim (Option-cases (Utf8.encode s)) [
  | inl e ↦ cc (e, h)
  | inr (xs, e) ↦ ground (arith, decode-encode s xs e)
]

frame_field-varint_field :
    (n v : ℕ) (f : Frame) (rest : Bytes)
    → frame_field f (varint_field n v ++ rest) ≡ ok (store_number n v f, rest)
unfolding frame_field varint_field tag
frame_field-varint_field n v f rest =
    let low : (n * 8 + 0) % 8 ≡ 0 = omega arith in
    let high : (n * 8 + 0) / 8 ≡ n = omega arith in
    rw (append_assoc, decode_varint-encode_varint, low, decode_varint-encode_varint, high)

frame_field-length_delimited :
    (n : ℕ) (chunk : Bytes) (f : Frame) (rest : Bytes)
    → frame_field f (length_delimited n chunk ++ rest)
      ≡ (store_chunk n chunk f >>= λ f'. ok (f', rest))
unfolding frame_field length_delimited tag
frame_field-length_delimited n chunk f rest =
    let low : (n * 8 + 2) % 8 ≡ 2 = omega arith in
    let high : (n * 8 + 2) / 8 ≡ n = omega arith in
    rw (
      append_assoc, append_assoc, decode_varint-encode_varint, low, decode_varint-encode_varint,
      high, take-append_self, drop-append_self,
    )

header_field-length_delimited_key :
    (s : Str) (chunk : Bytes) (h : Header) (rest : Bytes)
    → decode_text chunk ≡ ok s
    → header_field h (length_delimited 1 chunk ++ rest) ≡ ok (record h { key = s }, rest)
unfolding header_field length_delimited tag
header_field-length_delimited_key s chunk h rest e = rw (
  append_assoc, append_assoc, decode_varint-encode_varint, decode_varint-encode_varint,
  take-append_self, drop-append_self, e,
)

header_field-length_delimited_value :
    (s : Str) (chunk : Bytes) (h : Header) (rest : Bytes)
    → decode_text chunk ≡ ok s
    → header_field h (length_delimited 2 chunk ++ rest) ≡ ok (record h { value = s }, rest)
unfolding header_field length_delimited tag
header_field-length_delimited_value s chunk h rest e = rw (
  append_assoc, append_assoc, decode_varint-encode_varint, decode_varint-encode_varint,
  take-append_self, drop-append_self, e,
)

decode_header-encode_header :
    (h : Header) (bytes : Bytes) → encode_header h ≡ ok bytes → decode_header bytes ≡ ok h
unfolding encode_header decode_header
decode_header-encode_header h bytes e =
    let (key, k, e') = bind-ok (encode_text h.key) _ e in
    let (value, v, e'') = bind-ok (encode_text h.value) _ e' in
    let step_key =
      header_field-length_delimited_key h.key key (record { key = []; value = [] })
        (length_delimited 2 value) (decode_text-encode_text h.key key k) in
    let step_value =
      header_field-length_delimited_value h.value value (record { key = h.key; value = [] }) []
        (decode_text-encode_text h.value value v) in
    rw (← ok-injective _ _ e'') (
      Scans-cons header_field _ _ h _ _ step_key (header_field-length _ _ _ _ step_key)
        (rw (← append-nil (length_delimited 2 value)) (
          Scans-cons header_field _ _ h _ _ step_value (header_field-length _ _ _ _ step_value)
            (Scans-nil header_field h)))
        _ (omega arith))

-- Reading on from a frame, over one field after another.
module _ {t : Frame} where
  Scans-number :
      (n v : ℕ) (f : Frame) (rest : Bytes)
      → Scans frame_field (store_number n v f) rest t
      → Scans frame_field f (varint_field n v ++ rest) t
  Scans-number n v f rest =
      Scans-cons frame_field _ _ _ _ rest (frame_field-varint_field n v f rest)
        (frame_field-length _ _ _ _ (frame_field-varint_field n v f rest))

  Scans-chunk :
      (n : ℕ) (chunk : Bytes) (f f' : Frame) (rest : Bytes)
      → store_chunk n chunk f ≡ ok f'
      → Scans frame_field f' rest t
      → Scans frame_field f (length_delimited n chunk ++ rest) t
  Scans-chunk n chunk f f' rest e =
      let step : frame_field f (length_delimited n chunk ++ rest) ≡ ok (f', rest) =
        frame_field-length_delimited n chunk f rest ∙ rw e in
      Scans-cons frame_field _ _ _ _ rest step (frame_field-length _ _ _ _ step)

  Scans-headers :
      (hs : List Header) (bytes : Bytes) (f : Frame) (rest : Bytes)
      → encode_headers hs ≡ ok bytes
      → Scans frame_field (record f { headers = f.headers ++ hs }) rest t
      → Scans frame_field f (bytes ++ rest) t
  unfolding encode_headers
  Scans-headers [] bytes f rest e next = rw (← ok-injective _ _ e) (rw append-nil at next)
  Scans-headers (h ∷ hs) bytes f rest e next =
      let (one, o, e') = bind-ok (encode_header h) _ e in
      let (more, m, e'') = bind-ok (encode_headers hs) _ e' in
      let stored : store_chunk 5 one f ≡ ok (record f { headers = f.headers ++ h ∷ [] }) =
        unfold store_chunk in rw (decode_header-encode_header h one o) in
      rw (← ok-injective _ _ e'', append_assoc)
        (Scans-chunk 5 one f _ (more ++ rest) stored
          (Scans-headers hs more _ rest m (rw append_assoc next)))

  Scans-optional :
      (n : ℕ) (put : Option Str → Frame) (o : Option Str) (bytes rest : Bytes)
      → ((chunk : Bytes) (s : Str)
          → decode_text chunk ≡ ok s
          → store_chunk n chunk (put none) ≡ ok (put (some s)))
      → encode_optional n o ≡ ok bytes
      → Scans frame_field (put o) rest t
      → Scans frame_field (put none) (bytes ++ rest) t
  unfolding encode_optional
  Scans-optional n put none bytes rest store e next = rw (← ok-injective _ _ e) next
  Scans-optional n put (some s) bytes rest store e next =
      let (chunk, c, e') = bind-ok (encode_text s) _ e in
      rw (← ok-injective _ _ e')
        (Scans-chunk n chunk _ _ rest (store chunk s (decode_text-encode_text s chunk c)) next)

  Scans-payload :
      (o : Option Bytes) (f : Frame) (rest : Bytes)
      → Scans frame_field (record f { payload = o }) rest t
      → Scans frame_field (record f { payload = none }) (encode_payload o ++ rest) t
  unfolding encode_payload
  Scans-payload none f rest next = next
  Scans-payload (some bytes) f rest next =
      Scans-chunk 8 bytes (record f { payload = none }) (record f { payload = some bytes }) rest
        (unfold store_chunk in refl) next

-- The decoder on the parts of a frame, the last part first.
Scans-assemble :
    (frame : Frame) (headers encoding kind log : Bytes)
    → encode_headers frame.headers ≡ ok headers
    → encode_optional 6 frame.payload_encoding ≡ ok encoding
    → encode_optional 7 frame.payload_type ≡ ok kind
    → encode_optional 9 frame.log_id_new ≡ ok log
    → Scans frame_field empty (assemble frame headers encoding kind log) frame
unfolding assemble
Scans-assemble frame headers encoding kind log h c k l = Scans-number 1 _ _ _ (
    unfold store_number in
    Scans-number 2 _ _ _ (
      Scans-number 3 _ _ _ (
        Scans-number 4 _ _ _ (
          Scans-headers frame.headers headers _ _ h (
            Scans-optional 6
              (λ o. record frame {
                payload_encoding = o;
                payload_type = none;
                payload = none;
                log_id_new = none;
              })
              frame.payload_encoding encoding _ (λ chunk s e. unfold store_chunk in rw e) c
              (Scans-optional 7
                (λ o. record frame { payload_type = o; payload = none; log_id_new = none })
                frame.payload_type kind _ (λ chunk s e. unfold store_chunk in rw e) k
                (Scans-payload frame.payload (record frame { log_id_new = none }) log
                  (rw (← append-nil log) (
                    Scans-optional 9 (λ o. record frame { log_id_new = o }) frame.log_id_new log []
                      (λ chunk s e. unfold store_chunk in rw e) l
                      (Scans-nil frame_field frame))))))))))

-- Whatever frame encodes, decodes to itself: numbers, headers in order, and the optional fields
-- that are there and those that are not.
pub decode_frame-encode_frame :
    (frame : Frame) (bytes : Bytes) → encode_frame frame ≡ ok bytes → decode_frame bytes ≡ ok frame
unfolding encode_frame decode_frame
decode_frame-encode_frame frame bytes e =
    let (headers, h, e1) = bind-ok (encode_headers frame.headers) _ e in
    let (encoding, c, e2) = bind-ok (encode_optional 6 frame.payload_encoding) _ e1 in
    let (kind, k, e3) = bind-ok (encode_optional 7 frame.payload_type) _ e2 in
    let (log, l, e4) = bind-ok (encode_optional 9 frame.log_id_new) _ e3 in
    rw (← ok-injective _ _ e4)
      (Scans-assemble frame headers encoding kind log h c k l _ (omega arith))
