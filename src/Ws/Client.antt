-- ===== src/Ws/Client.antt =====
-- feishu/ws/client.py: `_reassemble`, which puts the fragments of a message together.
pub mod Buffer
pub mod Chunks
pub mod Fragments
pub mod Tests
use open_feishu.Common.{
  ℕ, zero, suc, ◌+◌, ◌≤◌, ℤ, pos, negsuc, int_eq, List, [], ◌∷◌, ◌++◌, Bool, true, false, ltb, leb,
  Option, none, some, Outcome, ok, err, nats_eq, ◌==◌, if◌then◌else◌, length, drop,
}
use open_feishu.Dict
use open_feishu.Dict.{Dict, or_else}
use open_feishu.Utf8.{Str, Bytes}
use open_feishu.Ws.Frame.{Frame, header}

-- `_fragments`: the fragments of each message by their numbers.
abbrev pub Chunks : Type 0
Chunks = Dict ℤ Bytes

abbrev pub Buffer : Type 0
Buffer = Dict Str Chunks

-- ValueError of `int`, and KeyError of a number that is missing.
pub data ReassembleError : Type 0 where
  value_error key_error : ReassembleError

-- The headers "sum", "message_id" and "seq".
abbrev pub sum_key : Str
sum_key = 115 ∷ 117 ∷ 109 ∷ []

abbrev pub message_id_key : Str
message_id_key = 109 ∷ 101 ∷ 115 ∷ 115 ∷ 97 ∷ 103 ∷ 101 ∷ 95 ∷ 105 ∷ 100 ∷ []

abbrev pub seq_key : Str
seq_key = 115 ∷ 101 ∷ 113 ∷ []

-- `frame.header(key) or default`.
unfoldable pub header_or : Frame → Str → Str → Str
header_or frame key default = elim (header frame key) [
  | none ↦ default
  | some [] ↦ default
  | some (c ∷ s) ↦ c ∷ s
]

abbrev pub payload_of : Frame → Bytes
payload_of frame = or_else frame.payload []

-- `b"".join(chunks[i] for i in range(total))`, absent for a KeyError.
unfoldable pub join_chunks : ℕ → Chunks → Option Bytes
join_chunks zero chunks = some []
join_chunks (suc n) chunks = elim (join_chunks n chunks) [
  | none ↦ none
  | some bytes ↦ elim (Dict.get (pos n) chunks) [ none ↦ none | some c ↦ some (bytes ++ c) ]
]

-- Room for a new message: the oldest one goes where the buffer is full.
unfoldable pub make_room : ℕ → Buffer → Buffer
make_room max_partial buffer = if leb max_partial (length buffer) then drop 1 buffer else buffer

-- The buffer and the fragments that the frame's are put with.
unfoldable pub open_chunks : ℕ → Str → Buffer → Buffer × Chunks
open_chunks max_partial message_id buffer = elim (Dict.get message_id buffer) [
  | some chunks ↦ (buffer, chunks)
  | none ↦ (make_room max_partial buffer, [])
]

abbrev pub joined_or : Buffer → Str → Option Bytes → Buffer × Outcome ReassembleError (Option Bytes)
joined_or kept message_id none = (kept, err key_error)
joined_or kept message_id (some bytes) = (Dict.del message_id kept, ok (some bytes))

-- `_reassemble` for a message of `total` fragments, from the creation of `chunks`. What is stored under the
-- message is the changed `chunks`.
unfoldable pub add_chunk :
    ℕ → ℕ → Str → ℤ → Bytes → Buffer → Buffer × Outcome ReassembleError (Option Bytes)
add_chunk max_partial total message_id seq payload buffer =
    let (room, chunks) = open_chunks max_partial message_id buffer in
    let chunks' = Dict.put seq payload chunks in
    let kept = Dict.put message_id chunks' room in
    if ltb (length chunks') total
    then (kept, ok none)
    else joined_or kept message_id (join_chunks total chunks')

-- Negative or at most one: the frame is the whole message.
abbrev pub several : ℤ → Option ℕ
several (negsuc _) = none
several (pos n) = if leb n 1 then none else some n

-- `_reassemble`, with `int` for the function `int` on texts, absent for its ValueError.
unfoldable pub reassemble :
    (Str → Option ℤ) → ℕ → Frame → Buffer → Buffer × Outcome ReassembleError (Option Bytes)
reassemble int max_partial frame buffer = elim (int (header_or frame sum_key (49 ∷ []))) [
  | none ↦ (buffer, err value_error)
  | some sum ↦ elim (several sum) [
    | none ↦ (buffer, ok (some (payload_of frame)))
    | some total ↦ elim (int (header_or frame seq_key (48 ∷ []))) [
      | none ↦ (buffer, err value_error)
      | some seq ↦
          add_chunk max_partial total (header_or frame message_id_key []) seq (payload_of frame)
            buffer
    ]
  ]
]
