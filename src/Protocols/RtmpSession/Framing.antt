-- ===== src/Protocols/RtmpSession/Framing.antt =====
-- A message in chunks, as buildResponse0 of server/src/protocols/ozRtmpSession.cpp sends it and as the
-- loop of recvRequest puts it together again.
use ozonebase.Prelude.{
  ℕ, zero, suc, ◌+◌, ◌-◌, ◌*◌, ◌%◌, ◌^◌, ◌<◌, ◌≤◌, bit_or, ◌≡◌, refl, sym, subst, ◌⊎◌, inl, inr, ap,
  ◌∙◌, List, [], ◌∷◌, ◌++◌, append-nil, append_assoc, arith, length, take, drop, length-append,
  length-take, length-drop, take-append-drop, take_all, drop_all,
}
use ozonebase.Libgen.Outcome.{ok, ◌>>=◌}
use ozonebase.Libgen.Bytes.{split_bytes-append}
use ozonebase.Protocols.RtmpRequest.{RtmpRequest}
use ozonebase.Protocols.RtmpSession.{
  RequestMap, int_min, add_response_payload, load, put_request, recv_chunks,
}
use ozonebase.Protocols.RtmpSession.Loading.{int_min_lem, split_bytes-take, load_chunk, resumed}

-- A payload in chunks: what is sent, how long that is, and how it is received, for a request that has
-- the bytes before the payload, with whatever follows and in a number of rounds.
pub record Chunked (fuel n id : ℕ) (p out : List ℕ) (rounds : ℕ) : Type 0 where
  pub sent : add_response_payload fuel n id p ≡ ok out
  pub at_least : length p ≤ length out
  pub at_most : length out < 2 * length p
  pub few : rounds < length out
  pub received :
      (q : RtmpRequest) (requests : RequestMap) (rest : List ℕ) (more : ℕ)
      → q.message_length ≡ length q.payload + length p
      → q.message_length < 2 ^ 24
      → length out + length rest < 2 ^ 31
      → (load n q (out ++ rest) >>= λ r.
          recv_chunks (rounds + more) n (put_request id r.0 requests) r.1)
        ≡ recv_chunks more n (put_request id (record q { payload = q.payload ++ p }) requests) rest

-- The last chunk.
last_chunk :
    (fuel n id b : ℕ) (p : List ℕ)
    → n < 2 ^ 31
    → 2 ≤ id
    → id < 64
    → length (b ∷ p) < 2 ^ 24
    → length (b ∷ p) ≤ n
    → Chunked (suc (suc fuel)) n id (b ∷ p) (b ∷ p) 0
unfolding add_response_payload
last_chunk fuel n id b p hn h k small fits = record {
  sent = rw (int_min_lem n (length (b ∷ p)) hn (omega arith)) (
      ground (
        arith,
        split_bytes-take (length (b ∷ p)) (b ∷ p),
        take_all (length (b ∷ p)) (b ∷ p),
        drop_all (length (b ∷ p)) (b ∷ p),
        append-nil (b ∷ p),
      ));
  at_least = omega arith;
  at_most = omega arith;
  few = omega arith;
  received = λ q requests rest more e small' total.
      rw
        (load_chunk n q (b ∷ p) rest (length (b ∷ p)) hn e (omega arith) small' (omega arith)
          (omega (arith, length-append (b ∷ p) rest)) (omega (arith, length-append (b ∷ p) rest)))
        (ap
          (λ m.
            recv_chunks m n (put_request id (record q { payload = q.payload ++ (b ∷ p) }) requests)
              rest)
          (omega arith));
}

-- A chunk with others behind it.
first_chunk :
    (fuel n id b c : ℕ) (chunk later out : List ℕ) (rounds : ℕ)
    → n < 2 ^ 31
    → length (b ∷ chunk) ≡ n
    → 2 ≤ id
    → id < 64
    → length (b ∷ chunk) + length (c ∷ later) < 2 ^ 24
    → Chunked fuel n id (c ∷ later) out rounds
    → Chunked
        (suc fuel)
        n
        id
        ((b ∷ chunk) ++ (c ∷ later))
        ((b ∷ chunk) ++ (bit_or 0xc0 id % 256 ∷ out))
        (suc rounds)
unfolding add_response_payload recv_chunks
first_chunk fuel n id b c chunk later out rounds hn full h k small t = record {
  sent = rw taken (rw (split_bytes-append (b ∷ chunk) (c ∷ later)) (rw t.sent refl));
  at_least = omega (arith, sizes, t.at_least);
  at_most = omega (arith, sizes, t.at_most);
  few = omega (arith, sizes, t.few);
  received = λ q requests rest extra el small' total.
      let cs : List ℕ = b ∷ chunk in
      let q₁ : RtmpRequest = record q { payload = q.payload ++ cs } in
      rw (append_assoc cs (bit_or 0xc0 id % 256 ∷ out) rest) (
        rw
          (load_chunk n q cs (bit_or 0xc0 id % 256 ∷ out ++ rest) (length (cs ++ (c ∷ later))) hn el
            (omega (arith, sizes)) small' (omega (arith, sizes))
            (omega (arith, sizes, whole rest, t.at_least)) (omega (arith, sizes, whole rest)))
          (rw (resumed n id rounds extra q₁ requests (out ++ rest) h k) (
            t.received q₁ requests rest extra (omega (arith, sizes, el, length-append q.payload cs))
              small' (omega (arith, sizes))
            ∙ ap
                (λ p. recv_chunks extra n (put_request id (record q { payload = p }) requests) rest)
                (append_assoc q.payload cs (c ∷ later)))));
}
  where
    sizes :
        (length ((b ∷ chunk) ++ (c ∷ later)) ≡ length (b ∷ chunk) + length (c ∷ later))
        × (length ((b ∷ chunk) ++ (bit_or 0xc0 id % 256 ∷ out))
            ≡ length (b ∷ chunk) + suc (length out))
    sizes = (
      length-append (b ∷ chunk) (c ∷ later),
      length-append (b ∷ chunk) (bit_or 0xc0 id % 256 ∷ out),
    )

    whole :
        (rest : List ℕ)
        → length ((b ∷ chunk) ++ (bit_or 0xc0 id % 256 ∷ (out ++ rest)))
          ≡ length (b ∷ chunk) + suc (length out + length rest)
    whole rest = omega (
      arith,
      length-append (b ∷ chunk) (bit_or 0xc0 id % 256 ∷ (out ++ rest)),
      length-append out rest,
    )

    taken : int_min n (length ((b ∷ chunk) ++ (c ∷ later))) ≡ length (b ∷ chunk)
    taken = omega (
      arith,
      int_min_lem n (length ((b ∷ chunk) ++ (c ∷ later))) hn (omega (arith, sizes)),
      sizes,
    )

List-cases : (xs : List ℕ) → (xs ≡ []) ⊎ ((c : ℕ) × (later : List ℕ) × (xs ≡ c ∷ later))
List-cases [] = inl refl
List-cases (c ∷ later) = inr (c, later, refl)

pub chunked :
    (fuel n id : ℕ) (p : List ℕ)
    → 0 < n
    → n < 2 ^ 31
    → 2 ≤ id
    → id < 64
    → length p < 2 ^ 24
    → 0 < length p
    → length p < fuel
    → (out : List ℕ) × (rounds : ℕ) × Chunked fuel n id p out rounds
chunked zero n id p pos hn h k small full enough = absurd (omega arith)
chunked (suc zero) n id p pos hn h k small full enough = absurd (omega arith)
chunked (suc (suc fuel)) n id [] pos hn h k small full enough = absurd (omega arith)
chunked (suc (suc fuel)) zero id (b ∷ p) pos hn h k small full enough = absurd (omega arith)
chunked (suc (suc fuel)) (suc n) id (b ∷ p) pos hn h k small full enough =
    elim (List-cases (drop n p)) [
      | inl e ↦ (
        b ∷ p,
        0,
        last_chunk fuel (suc n) id b p hn h k small (omega (arith, length-drop n p, ap length e)),
      )
      | inr (c, later, e) ↦
          let left : length (c ∷ later) ≡ length p - n =
            omega (arith, length-drop n p, ap length e) in
          let taken : length (take n p) ≡ n = omega (arith, left, length-take n p) in
          let (out, rounds, t) =
            chunked (suc fuel) (suc n) id (c ∷ later) pos hn h k (omega (arith, left)) (omega arith)
              (omega (arith, left)) in
          let whole : b ∷ (take n p ++ (c ∷ later)) ≡ b ∷ p =
            ap (λ l. b ∷ (take n p ++ l)) (sym e) ∙ ap (◌∷◌ b) (take-append-drop n p) in
          (
            b ∷ (take n p ++ (bit_or 0xc0 id % 256 ∷ out)),
            suc rounds,
            subst
                (λ l.
                  Chunked (suc (suc fuel)) (suc n) id l
                    (b ∷ (take n p ++ (bit_or 0xc0 id % 256 ∷ out))) (suc rounds))
                whole
                (first_chunk (suc fuel) (suc n) id b c (take n p) later out rounds hn
                  (omega (arith, taken)) h k (omega (arith, taken, left)) t),
          )
    ]
