-- ===== src/Ws/Client/Fragments.antt =====
-- The fragments of a message, in whatever order they come, are put together to the message.
use open_feishu.Common.{
  ℕ, ◌+◌, ◌<◌, ◌≡◌, ◌≢◌, refl, sym, subst, ◌∙◌, ap, arith, ℤ, pos, int_eq, nats_eq, List, [], ◌∷◌,
  map, All, true, false, Option, none, some, Outcome, ok, length, ltb, leb,
}
use open_feishu.Dict
use open_feishu.Utf8.{Str, Bytes}
use open_feishu.Ws.Frame.{Frame}
use open_feishu.Ws.Client.{
  Buffer, Chunks, ReassembleError, header_or, sum_key, seq_key, message_id_key, payload_of,
  join_chunks, open_chunks, add_chunk, reassemble,
}
use open_feishu.Ws.Client.Chunks.{
  joined, Holds, Holds-nil, Holds-put, get-put_other, join_chunks-Holds,
}

abbrev pub Answer : Type 0
Answer = Outcome ReassembleError (Option Bytes)

-- Frames one after the other, with the answers of `_reassemble`.
unfoldable pub receive : (Str → Option ℤ) → ℕ → List Frame → Buffer → List Answer
receive int m [] b = []
receive int m (f ∷ fs) b = (reassemble int m f b).1 ∷ receive int m fs (reassemble int m f b).0

-- The last answer is the message, and the others say that it is not complete.
abbrev pub Delivered : Bytes → List Answer → Type 0
Delivered bytes [] = ⊥
Delivered bytes (r ∷ []) = r ≡ ok (some bytes)
Delivered bytes (r ∷ r' ∷ rs) = (r ≡ ok none) × Delivered bytes (r' ∷ rs)

abbrev pub Distinct : List ℕ → Type 0
Distinct [] = Unit
Distinct (s ∷ ss) = All (λ t. s ≢ t) ss × Distinct ss

-- The frame carries the fragment number s of n of a message.
abbrev pub IsFragment : (Str → Option ℤ) → Str → ℕ → (ℕ → Bytes) → ℕ → Frame → Type 0
IsFragment int id n p s f =
    (int (header_or f sum_key (49 ∷ [])) ≡ some (pos n))
    × (int (header_or f seq_key (48 ∷ [])) ≡ some (pos s))
    × (header_or f message_id_key [] ≡ id)
    × (payload_of f ≡ p s)

abbrev answer : Buffer × Answer → Answer
answer r = r.1

abbrev buffer_after : Buffer × Answer → Buffer
buffer_after r = r.0

add_chunk-more :
    (m n : ℕ) (id : Str) (s : ℤ) (v : Bytes) (b : Buffer)
    → ltb (length (Dict.put s v (open_chunks m id b).1)) n ≡ true
    → add_chunk m n id s v b
      ≡ (Dict.put id (Dict.put s v (open_chunks m id b).1) (open_chunks m id b).0, ok none)
unfolding add_chunk
add_chunk-more m n id s v b h = rw h refl

add_chunk-last :
    (m n : ℕ) (id : Str) (s : ℤ) (v bytes : Bytes) (b : Buffer)
    → ltb (length (Dict.put s v (open_chunks m id b).1)) n ≡ false
    → join_chunks n (Dict.put s v (open_chunks m id b).1) ≡ some bytes
    → (add_chunk m n id s v b).1 ≡ ok (some bytes)
unfolding add_chunk
add_chunk-last m n id s v bytes b h j = rw (h, j) refl

reassemble-add_chunk :
    (int : Str → Option ℤ) (m n s : ℕ) (id : Str) (p : ℕ → Bytes) (f : Frame) (b : Buffer)
    → 1 < n
    → IsFragment int id n p s f
    → reassemble int m f b ≡ add_chunk m n id (pos s) (p s) b
unfolding reassemble
reassemble-add_chunk int m n s id p f b h (sum, seq, message, payload) =
    let many : leb n 1 ≡ false = ground arith in
    rw (sum, many, seq, message, payload, reassemble) refl

open_chunks-kept :
    (m : ℕ) (id : Str) (c : Chunks) (b : Buffer) → (open_chunks m id (Dict.put id c b)).1 ≡ c
unfolding open_chunks
open_chunks-kept m id c b = rw (Dict.get-put_self id c b, open_chunks) refl

open_chunks-new :
    (m : ℕ) (id : Str) (b : Buffer) → Dict.get id b ≡ none → (open_chunks m id b).1 ≡ []
unfolding open_chunks
open_chunks-new m id b h = rw (h, open_chunks) refl

none_there :
    (n : ℕ) (todo : List ℕ)
    → All (λ s. s < n) todo
    → All (λ s. (s < n) × (Dict.get {K = ℤ} {V = Bytes} (pos s) [] ≡ none)) todo
unfolding Dict.get
none_there n [] h = tt
none_there n (s ∷ todo) h = ((h.0, refl), none_there n todo h.1)

module _ (int : Str → Option ℤ) (m n : ℕ) (id : Str) (p : ℕ → Bytes) (frame_of : ℕ → Frame) where
  -- What of the message is there, before the fragments that are to come.
  abbrev Waits : List ℕ → Chunks → Type 0
  Waits todo c =
      Holds n p c
      × (length c + length todo ≡ n)
      × All (λ s. (s < n) × (Dict.get (pos s) c ≡ none)) todo

  nothing_there : (todo : List ℕ) → All (λ s. s < n) todo → length todo ≡ n → Waits todo []
  nothing_there todo a l = (Holds-nil n p, omega (arith, l), none_there n todo a)

  still_missing :
      (s : ℕ) (v : Bytes) (c : Chunks) (todo : List ℕ)
      → All (λ t. s ≢ t) todo
      → All (λ t. (t < n) × (Dict.get (pos t) c ≡ none)) todo
      → All (λ t. (t < n) × (Dict.get (pos t) (Dict.put (pos s) v c) ≡ none)) todo
  still_missing s v c [] d h = tt
  still_missing s v c (t ∷ todo) d h =
      ((h.0.0, get-put_other s t v c d.0 ∙ h.0.1), still_missing s v c todo d.1 h.1)

  Waits-put :
      (s : ℕ) (todo : List ℕ) (c : Chunks)
      → Distinct (s ∷ todo)
      → Waits (s ∷ todo) c
      → Waits todo (Dict.put (pos s) (p s) c)
  Waits-put s todo c d (h, l, a) = (
    Holds-put n s p c a.0.0 a.0.1 h,
    omega (arith, l, Dict.length-put_new (pos s) (p s) c a.0.1),
    still_missing s (p s) c todo d.0 a.1,
  )

  receive-Delivered :
      1 < n
      → ((s : ℕ) → s < n → IsFragment int id n p s (frame_of s))
      → (s : ℕ) (todo : List ℕ) (b : Buffer) → Distinct (s ∷ todo)
      → Waits (s ∷ todo) (open_chunks m id b).1
      → Delivered (joined n p) (receive int m (map frame_of (s ∷ todo)) b)
  unfolding receive
  receive-Delivered h frames s [] b d w =
      let (holds, l, _) = Waits-put s [] (open_chunks m id b).1 d w in
      ap answer (reassemble-add_chunk int m n s id p (frame_of s) b h (frames s w.2.0.0))
      ∙ add_chunk-last m n id (pos s) (p s) (joined n p) b (ground (arith, l))
          (join_chunks-Holds n p _ holds (omega (arith, l)))
  receive-Delivered h frames s (t ∷ todo) b d w =
      let after = Waits-put s (t ∷ todo) (open_chunks m id b).1 d w in
      let step =
        reassemble-add_chunk int m n s id p (frame_of s) b h (frames s w.2.0.0)
        ∙ add_chunk-more m n id (pos s) (p s) b (ground (arith, after.1)) in
      (
        ap answer step,
        subst (λ x. Delivered (joined n p) (receive int m (map frame_of (t ∷ todo)) x))
            (sym (ap buffer_after step))
            (receive-Delivered h frames t todo _ d.1 (
              subst (Waits (t ∷ todo)) (sym (open_chunks-kept m id _ (open_chunks m id b).0))
                after)),
      )

-- The frames of a message of n > 1 fragments, each once and in whatever order, from a buffer without a fragment
-- of it: the last frame gives the fragments in the order of their numbers, and each before it nothing.
pub receive-fragments :
    (int : Str → Option ℤ) (m n : ℕ) (id : Str) (p : ℕ → Bytes) (frame_of : ℕ → Frame)
    (order : List ℕ) (b : Buffer)
    → 1 < n
    → ((s : ℕ) → s < n → IsFragment int id n p s (frame_of s))
    → Distinct order
    → All (λ s. s < n) order
    → length order ≡ n
    → Dict.get id b ≡ none
    → Delivered (joined n p) (receive int m (map frame_of order) b)
receive-fragments int m n id p frame_of [] b h frames d a l g = ground arith
receive-fragments int m n id p frame_of (s ∷ todo) b h frames d a l g =
    receive-Delivered int m n id p frame_of h frames s todo b d (
      subst (Waits int m n id p frame_of (s ∷ todo)) (sym (open_chunks-new m id b g))
        (nothing_there int m n id p frame_of (s ∷ todo) a l))
