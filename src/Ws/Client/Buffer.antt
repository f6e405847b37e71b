-- ===== src/Ws/Client/Buffer.antt =====
-- The buffer of fragments does not outgrow its bound.
use open_feishu.Common.{
  ℕ, ◌≤◌, ◌<◌, arith, ℤ, int_eq, nats_eq, [], ◌∷◌, Bool-cases, Option-cases, inl, inr, Option, none,
  some, length, ltb,
}
use open_feishu.Dict
use open_feishu.Utf8.{Str, Bytes}
use open_feishu.Ws.Frame.{Frame}
use open_feishu.Ws.Client.{
  Buffer, Chunks, header_or, sum_key, seq_key, payload_of, join_chunks, make_room, open_chunks,
  joined_or, add_chunk, several, reassemble,
}

length-make_room : (m : ℕ) (b : Buffer) → 0 < m → length b ≤ m → length (make_room m b) < m
unfolding make_room
length-make_room m [] h l = ground arith
length-make_room m (x ∷ b) h l = ground arith

length-opened :
    (m : ℕ) (id : Str) (c : Chunks) (b : Buffer)
    → 0 < m
    → length b ≤ m
    → length (Dict.put id c (open_chunks m id b).0) ≤ m
unfolding open_chunks
length-opened m id c b h l = elim (Option-cases (Dict.get id b)) [
  | inl e ↦
      rw (e, open_chunks)
        (omega (arith, length-make_room m b h l, Dict.length-put-le id c (make_room m b)))
  | inr (x, e) ↦ rw (e, open_chunks) (omega (arith, Dict.length-put_present id c x b e, l))
]

length-joined_or :
    (m : ℕ) (id : Str) (b : Buffer) (bytes : Option Bytes)
    → length b ≤ m
    → length (joined_or b id bytes).0 ≤ m
length-joined_or m id b none h = h
length-joined_or m id b (some bytes) h = omega (arith, h, Dict.length-del-le id b)

length-add_chunk :
    (m total : ℕ) (id : Str) (seq : ℤ) (payload : Bytes) (b : Buffer)
    → 0 < m
    → length b ≤ m
    → length (add_chunk m total id seq payload b).0 ≤ m
unfolding add_chunk
length-add_chunk m total id seq payload b h l =
    let chunks = Dict.put seq payload (open_chunks m id b).1 in
    elim (Bool-cases (ltb (length chunks) total)) [
      | inl e ↦ rw e (length-opened m id chunks b h l)
      | inr e ↦
          rw e
            (length-joined_or m id _ (join_chunks total chunks) (length-opened m id chunks b h l))
    ]

-- A frame leaves the buffer within its bound, also where it raises.
pub length-reassemble :
    (int : Str → Option ℤ) (m : ℕ) (frame : Frame) (b : Buffer)
    → 0 < m
    → length b ≤ m
    → length (reassemble int m frame b).0 ≤ m
unfolding reassemble
length-reassemble int m frame b h l =
    elim (Option-cases (int (header_or frame sum_key (49 ∷ [])))) [
      | inl e ↦ rw (e, reassemble) l
      | inr (sum, e) ↦ elim (Option-cases (several sum)) [
        | inl f ↦ rw (e, f, reassemble) l
        | inr (total, f) ↦ elim (Option-cases (int (header_or frame seq_key (48 ∷ [])))) [
          | inl g ↦ rw (e, f, g, reassemble) l
          | inr (seq, g) ↦
              rw (e, f, g, reassemble) (length-add_chunk m total _ seq (payload_of frame) b h l)
        ]
      ]
    ]
