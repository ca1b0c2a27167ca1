-- ===== src/Protocols/RtmpSession/Loading.antt =====
-- The loop of RtmpSession::recvRequest (server/src/protocols/ozRtmpSession.cpp), one chunk at a time.
use ozonebase.Prelude.{
  ℕ, zero, suc, ◌+◌, ◌/◌, ◌%◌, ◌^◌, ◌<◌, ◌≤◌, min, bit_or, ◌≡◌, refl, ap, Bool, true, false, List,
  [], ◌∷◌, ◌++◌, arith, ◌==◌, ==_iff, Bool-cases, inl, inr, if◌then◌else◌, length, take, drop,
  length-append,
}
use ozonebase.Libgen.Outcome.{ok, ◌>>=◌, >>=-ok}
use ozonebase.Libgen.Bytes.{split_bytes, split_bytes-append}
use ozonebase.Libgen.Buffer.{int_of, sub_size}
use ozonebase.Protocols.RtmpRequest.{RtmpRequest, add_payload, build}
use ozonebase.Protocols.RtmpSession.{
  RequestMap, int_min, chunk_stream_id, load, request_of, put_request, recv_chunk, recv_chunks,
}

-- Whether two functions have the same values at all bytes less than a bound.
agree : (ℕ → ℕ) → (ℕ → ℕ) → ℕ → Bool
agree f g zero = true
agree f g (suc bound) = let rest = agree f g bound in if f bound == g bound then rest else false

agree_lem : (f g : ℕ → ℕ) (bound id : ℕ) → id < bound → agree f g bound ≡ true → f id ≡ g id
unfolding agree
agree_lem f g zero id h e = absurd (omega arith)
agree_lem f g (suc bound) id h e = elim (Bool-cases (f bound == g bound)) [
  | inl same ↦ elim (Bool-cases (id == bound)) [
    | inl last ↦ rw ((==_iff id bound).0 last) ((==_iff (f bound) (g bound)).0 same)
    | inr other ↦ agree_lem f g bound id (ground arith) (ground arith)
  ]
  | inr differ ↦ absurd (ground arith)
]

-- The byte between two chunks, for a chunk stream whose number fits in it.
pub resumes : (id : ℕ) → id < 64 → bit_or 0xc0 id ≡ 192 + id
unfolding agree
resumes id h = agree_lem (λ i. bit_or 0xc0 i) (λ i. 192 + i) 64 id h refl

pub continues : (id : ℕ) → id < 64 → bit_or 0xc0 id % 256 ≡ 192 + id
unfolding agree
continues id h = agree_lem (λ i. bit_or 0xc0 i % 256) (λ i. 192 + i) 64 id h refl

pub int_min_lem : (a b : ℕ) → a < 2 ^ 31 → b < 2 ^ 31 → int_min a b ≡ min a b
unfolding int_min
int_min_lem a b h k = ground arith

pub split_bytes-take :
    (n : ℕ) (bytes : List ℕ)
    → n ≤ length bytes
    → split_bytes n bytes ≡ ok (take n bytes, drop n bytes)
unfolding split_bytes
split_bytes-take zero bytes h = refl
split_bytes-take (suc n) [] h = absurd (omega arith)
split_bytes-take (suc n) (b ∷ bytes) h = ground (arith, split_bytes-take n bytes)

pub request_of-put_request :
    (id : ℕ) (q : RtmpRequest) (requests : RequestMap)
    → request_of id (put_request id q requests) ≡ q
unfolding request_of put_request
request_of-put_request id q [] = ground arith
request_of-put_request id q (entry ∷ requests) =
    ground (arith, request_of-put_request id q requests)

pub request_of-put_request_ne :
    (id other : ℕ) (q : RtmpRequest) (requests : RequestMap)
    → (id == other) ≡ false
    → request_of other (put_request id q requests) ≡ request_of other requests
unfolding request_of put_request
request_of-put_request_ne id other q [] h = ground arith
request_of-put_request_ne id other q (entry ∷ requests) h =
    ground (arith, request_of-put_request_ne id other q requests)

pub put_request-put_request :
    (id : ℕ) (q r : RtmpRequest) (requests : RequestMap)
    → put_request id r (put_request id q requests) ≡ put_request id r requests
unfolding put_request
put_request-put_request id q r [] = ground arith
put_request-put_request id q r (entry ∷ requests) =
    ground (arith, put_request-put_request id q r requests)

pub to_load : (a b left : ℕ) → a ≡ b + left → a < 2 ^ 24 → int_of (sub_size a b) ≡ left
unfolding int_of
to_load a b left e h = ground arith

-- How much is taken.
to_take :
    (n left total : ℕ)
    → n < 2 ^ 31
    → left < 2 ^ 24
    → left ≤ total
    → total < 2 ^ 31
    → int_min left (int_min n total) % 2 ^ 32 ≡ min n left
to_take n left total hn hl le ht =
    rw (int_min_lem n total hn ht, int_min_lem left (min n total) (omega arith) (omega arith))
      (omega arith)

add_chunk :
    (q : RtmpRequest) (n : ℕ) (chunk rest : List ℕ)
    → n % 2 ^ 32 ≡ length chunk
    → length q.payload + length chunk ≤ q.message_length
    → add_payload q n (chunk ++ rest) ≡ ok (record q { payload = q.payload ++ chunk }, rest)
unfolding add_payload
add_chunk q n chunk rest e le =
    rw (e, split_bytes-append chunk rest) (ground (arith, length-append q.payload chunk))

-- One chunk, of a message of which `left` bytes are missing.
pub load_chunk :
    (n : ℕ) (q : RtmpRequest) (chunk rest : List ℕ) (left : ℕ)
    → n < 2 ^ 31
    → q.message_length ≡ length q.payload + left
    → 0 < left
    → q.message_length < 2 ^ 24
    → length chunk ≡ min n left
    → left ≤ length (chunk ++ rest)
    → length (chunk ++ rest) < 2 ^ 31
    → load n q (chunk ++ rest) ≡ ok (record q { payload = q.payload ++ chunk }, rest)
unfolding load
load_chunk n q chunk rest left hn e pos small ec enough total = ground (
  arith,
  to_load q.message_length (length q.payload) left e small,
  to_take n left (length (chunk ++ rest)) hn (omega arith) enough total,
  add_chunk q (int_min left (int_min n (length (chunk ++ rest)))) chunk rest,
)

pub small_id : (low : ℕ) (bytes : List ℕ) → 2 ≤ low → chunk_stream_id low bytes ≡ ok (low, bytes)
unfolding chunk_stream_id
small_id low bytes h = ground arith

no_header : (q : RtmpRequest) (bytes : List ℕ) → build 3 q bytes ≡ ok (q, bytes)
unfolding build
no_header q bytes = refl

-- A chunk of a message that goes on: its request is the one that was kept.
next_chunk :
    (n id : ℕ) (q : RtmpRequest) (requests : RequestMap) (bytes : List ℕ)
    → 2 ≤ id
    → id < 64
    → recv_chunk n (put_request id q requests) (bit_or 0xc0 id % 256) bytes
      ≡ (load n q bytes >>= λ r. ok (put_request id r.0 requests, r.1))
unfolding recv_chunk
next_chunk n id q requests bytes h k = rw (continues id k) (
    rw (the_id, the_format, small_id id bytes h, request_of-put_request id q requests)
      (rw (no_header q bytes) (
        ap (λ f. load n q bytes >>= f)
          λ i r. ok (put_request-put_request id q r.0 requests i, r.1))))
  where
    the_id : (192 + id) % 64 ≡ id
    the_id = omega arith

    the_format : (192 + id) / 64 ≡ 3
    the_format = omega arith

-- From the byte after a chunk on.
pub resumed :
    (n id rounds more : ℕ) (q : RtmpRequest) (requests : RequestMap) (bytes : List ℕ)
    → 2 ≤ id
    → id < 64
    → recv_chunks (suc rounds + more) n (put_request id q requests) (bit_or 0xc0 id % 256 ∷ bytes)
      ≡ (load n q bytes >>= λ r. recv_chunks (rounds + more) n (put_request id r.0 requests) r.1)
unfolding recv_chunks
resumed n id rounds more q requests bytes h k = rw one_more (
    rw (next_chunk n id q requests bytes h k) (
      >>=-ok (load n q bytes) (λ r. (put_request id r.0 requests, r.1))
        λ r. recv_chunks (rounds + more) n r.0 r.1))
  where
    one_more : suc rounds + more ≡ suc (rounds + more)
    one_more = omega arith
