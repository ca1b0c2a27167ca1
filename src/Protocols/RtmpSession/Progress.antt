-- ===== src/Protocols/RtmpSession/Progress.antt =====
-- The loops of server/src/protocols/ozRtmpSession.cpp that read a request come to an end.
use ozonebase.Prelude.{
  ℕ, zero, suc, ◌/◌, ◌%◌, ◌^◌, ◌≤◌, ◌<◌, ◌≢◌, List, [], ◌∷◌, ◌++◌, arith, length, ltb, ◌==◌,
}
use ozonebase.Libgen.Outcome.{Outcome, ok, panic, fault, thrown, spent, ◌>>=◌}
use ozonebase.Libgen.Bytes.{read_be, read_le, split_bytes}
use ozonebase.Libgen.Buffer.{int_of, sub_size}
use ozonebase.Libgen.Progress.{
  Ends, Ends->>=, Ends-mono, read_be-Ends, read_le-Ends, split_bytes-Ends, Ends-pass, Ends-if,
}
use ozonebase.Protocols.RtmpRequest.{RtmpRequest, add_payload, build}
use ozonebase.Protocols.RtmpSession.{
  RequestMap, chunk_stream_id, second_byte, both_bytes, load, request_of, recv_chunk, recv_chunks,
}

add_payload-Ends :
    (q : RtmpRequest) (n : ℕ) (bytes : List ℕ) → Ends (length bytes) (add_payload q n bytes)
unfolding add_payload
add_payload-Ends q n bytes =
    Ends->>= (length bytes) (length bytes) (split_bytes (n % 2 ^ 32) bytes) _
      (split_bytes-Ends (n % 2 ^ 32) bytes)
      λ r h. Ends-if (length bytes) (ltb q.message_length (length (q.payload ++ r.0))) panic _ tt h

load-Ends : (rx : ℕ) (q : RtmpRequest) (bytes : List ℕ) → Ends (length bytes) (load rx q bytes)
unfolding load
load-Ends rx q bytes =
    Ends-if (length bytes) (int_of (sub_size q.message_length (length q.payload)) == 0)
      (ok (q, bytes)) _ (omega arith) (add_payload-Ends q _ bytes)

-- A chain in which each reader leaves no more than the one before.
Ends-then :
    {A B : Type 0} (n : ℕ) (m : Outcome (A × List ℕ)) (f : A × List ℕ → Outcome (B × List ℕ))
    → Ends n m
    → ((r : A × List ℕ) → Ends (length (r.1)) (f r))
    → Ends n (m >>= f)
Ends-then n m f h g = Ends->>= n n m f h λ r l. Ends-mono (f r) (length (r.1)) n l (g r)

build-Ends :
    (format : ℕ) (q : RtmpRequest) (bytes : List ℕ) → Ends (length bytes) (build format q bytes)
unfolding build
build-Ends format q bytes =
    let n : ℕ = length bytes in
    Ends-if n (format == 0) _ _
      (Ends-then n (read_be 3 0 bytes) _ (read_be-Ends 3 0 bytes) λ time.
        Ends-then (length (time.1)) (read_be 3 0 time.1) _ (read_be-Ends 3 0 time.1) λ size.
          Ends-then (length (size.1)) (read_be 1 0 size.1) _ (read_be-Ends 1 0 size.1) λ kind.
            Ends-pass (length (kind.1)) (length (kind.1)) (read_le 4 kind.1) _ (omega arith)
              (read_le-Ends 4 kind.1))
      (Ends-if n (format == 1) _ _
        (Ends-then n (read_be 3 0 bytes) _ (read_be-Ends 3 0 bytes) λ delta.
          Ends-then (length (delta.1)) (read_be 3 0 delta.1) _ (read_be-Ends 3 0 delta.1) λ size.
            Ends-pass (length (size.1)) (length (size.1)) (read_be 1 0 size.1) _ (omega arith)
              (read_be-Ends 1 0 size.1))
        (Ends-if n (format == 2) _ _
          (Ends-pass n n (read_be 3 0 bytes) _ (omega arith) (read_be-Ends 3 0 bytes))
          (Ends-if n (format == 3) (ok (q, bytes)) panic (omega arith) tt)))

second_byte-Ends : (bytes : List ℕ) → Ends (length bytes) (second_byte bytes)
second_byte-Ends [] = tt
second_byte-Ends (b ∷ bytes) = omega arith

both_bytes-Ends : (bytes : List ℕ) → Ends (length bytes) (both_bytes bytes)
both_bytes-Ends [] = tt
both_bytes-Ends (b ∷ []) = tt
both_bytes-Ends (b ∷ c ∷ bytes) = omega arith

chunk_stream_id-Ends : (low : ℕ) (bytes : List ℕ) → Ends (length bytes) (chunk_stream_id low bytes)
unfolding chunk_stream_id
chunk_stream_id-Ends low bytes = Ends-if (length bytes) (low == 0) _ _ (second_byte-Ends bytes) (
    Ends-if (length bytes) (low == 1) (both_bytes bytes) (ok (low, bytes)) (both_bytes-Ends bytes)
      (omega arith))

recv_chunk-Ends :
    (rx : ℕ) (requests : RequestMap) (b : ℕ) (bytes : List ℕ)
    → Ends (length bytes) (recv_chunk rx requests b bytes)
unfolding recv_chunk
recv_chunk-Ends rx requests b bytes =
    Ends-then (length bytes) (chunk_stream_id (b % 64) bytes) _
      (chunk_stream_id-Ends (b % 64) bytes)
      λ id.
        Ends-then (length (id.1)) (build (b / 64) (request_of id.0 requests) id.1) _
          (build-Ends (b / 64) (request_of id.0 requests) id.1)
          λ q.
            Ends-pass (length (q.1)) (length (q.1)) (load rx q.0 q.1) _ (omega arith)
              (load-Ends rx q.0 q.1)

bind-ne-spent :
    {A B : Type 0} (n : ℕ) (m : Outcome (A × List ℕ)) (f : A × List ℕ → Outcome B)
    → Ends n m
    → ((r : A × List ℕ) → length (r.1) ≤ n → f r ≢ spent)
    → (m >>= f) ≢ spent
bind-ne-spent n (ok r) f h g = g r h
bind-ne-spent n panic f h g = λ e. cc
bind-ne-spent n fault f h g = λ e. cc
bind-ne-spent n thrown f h g = λ e. cc
bind-ne-spent n spent f h g = absurd h

-- Whatever the bytes of a request and the messages that have begun are, the loop over its chunks ends
-- within a fuel above the number of bytes.
pub recv_chunks-ne-spent :
    (fuel rx : ℕ) (requests : RequestMap) (bytes : List ℕ)
    → length bytes < fuel
    → recv_chunks fuel rx requests bytes ≢ spent
unfolding recv_chunks
recv_chunks-ne-spent zero rx requests bytes h = absurd (omega arith)
recv_chunks-ne-spent (suc fuel) rx requests [] h = λ e. cc
recv_chunks-ne-spent (suc fuel) rx requests (b ∷ bytes) h =
    bind-ne-spent (length bytes) (recv_chunk rx requests b bytes) _
      (recv_chunk-Ends rx requests b bytes)
      λ r l. recv_chunks-ne-spent fuel rx r.0 r.1 (omega arith)
