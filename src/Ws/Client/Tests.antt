-- ===== src/Ws/Client/Tests.antt =====
-- A message of two fragments.
use open_feishu.Common.{
  ℕ, zero, suc, ◌+◌, ◌-◌, ◌≤◌, ◌<◌, ◌≡◌, refl, arith, ℤ, pos, nats_eqb, [], ◌∷◌, map, Option, none,
  some, ok, length,
}
use open_feishu.Dict
use open_feishu.Utf8.{Str, Bytes}
use open_feishu.Ws.Frame.{Frame, empty, find_header, header}
use open_feishu.Ws.Client.{
  header_or, sum_key, seq_key, message_id_key, join_chunks, make_room, open_chunks, add_chunk,
  reassemble,
}
use open_feishu.Ws.Client.Chunks.{joined}
use open_feishu.Ws.Client.Fragments.{IsFragment, receive, Delivered, receive-fragments}
use open_feishu.Ws.Client.Buffer.{length-reassemble}

fragments : Unit {0}
unfolding nats_eqb Dict.get Dict.put Dict.del find_header header header_or join_chunks make_room
    open_chunks add_chunk reassemble receive joined
fragments = tt

-- `int` on texts of one digit.
abbrev digit : Str → Option ℤ
digit (c ∷ []) = some (pos (c - 48))
digit _ = none

abbrev part : ℕ → Bytes
part zero = 104 ∷ 101 ∷ []
part (suc _) = 121 ∷ []

abbrev frame_of : ℕ → Frame
frame_of s = record empty {
  headers =
      record { key = message_id_key; value = 109 ∷ [] }
      ∷ record { key = sum_key; value = 50 ∷ [] }
      ∷ record { key = seq_key; value = (s + 48) ∷ [] }
      ∷ [];
  payload = some (part s);
}

in_any_order :
    receive digit 4 (map frame_of (1 ∷ 0 ∷ [])) [] ≡ ok none ∷ ok (some (104 ∷ 101 ∷ 121 ∷ [])) ∷ []
unfolding fragments
in_any_order = refl

frame_of-IsFragment : (s : ℕ) → s < 2 → IsFragment digit (109 ∷ []) 2 part s (frame_of s)
unfolding fragments
frame_of-IsFragment zero h = (refl, refl, refl, refl)
frame_of-IsFragment (suc zero) h = (refl, refl, refl, refl)
frame_of-IsFragment (suc (suc s)) h = ground arith

receive-fragments_example :
    Delivered (joined 2 part) (receive digit 4 (map frame_of (1 ∷ 0 ∷ [])) [])
unfolding Dict.get
receive-fragments_example =
    receive-fragments digit 4 2 (109 ∷ []) part frame_of (1 ∷ 0 ∷ []) [] (omega arith)
      frame_of-IsFragment (((λ e. ground arith), tt), (tt, tt)) (omega arith, (omega arith, tt))
      refl refl

length-reassemble_example : length (reassemble digit 1 (frame_of 1) (((110 ∷ []), []) ∷ [])).0 ≤ 1
length-reassemble_example =
    length-reassemble digit 1 (frame_of 1) (((110 ∷ []), []) ∷ []) (omega arith) (omega arith)
