-- ===== src/Protocols/RtmpConnection.antt =====
-- server/src/protocols/ozRtmpConnection.h and .cpp: the handshake, and the requests behind it. What the
-- connection sends is the list of the blocks in their order; the requests are the contents of their
-- ByteBuffers (Libgen/Buffer). What only a warning tells is left out.
pub mod Digest
pub mod Signing
pub mod Sending
pub mod Handshake
use ozonebase.Prelude.{
  ℕ, ◌+◌, ◌-◌, ◌%◌, ◌^◌, Bool, true, false, not, List, [], ◌∷◌, ◌++◌, Option, none, some, ltb, ◌==◌,
  if◌then◌else◌, length, take, drop, replicate, get_or,
}
use ozonebase.Libgen.Outcome.{Outcome, ok, panic, fault, ◌>>=◌}
use ozonebase.Libgen.Bytes.{to_be}
use ozonebase.Libgen.Buffer.{write_at, read_at}
use ozonebase.Protocols.RtmpSession.Commands.{Host}
use ozonebase.Protocols.RtmpSession.Session.{RtmpSession, new_session}
use ozonebase.Protocols.RtmpSession.Handling.{recv_request}
use ozonebase.Protocols.RtmpConnection.Digest.{
  sig_size, digest_length, genuine_fms_key, genuine_fp_key, calculate_digest_offset, hmac_sha256,
  verify_digest, sign,
}

pub data State : Type 0 where
  unitialized got_c0 sent_s2 handshake_done : State

-- The connection, with the session that its controller has for it.
pub record RtmpConnection : Type 0 where
  pub state : State
  pub fp9 : Bool
  pub request : List ℕ
  pub c1 : List ℕ
  pub s1 : List ℕ
  pub c2 : List ℕ
  pub server_digest_position : ℕ
  pub session : Option RtmpSession

abbrev pub cs0 : ℕ
cs0 = 3

abbrev pub version_fp9 : ℕ
version_fp9 = 0x03050101

-- A new connection; its session is made with it.
unfoldable pub new_connection : List ℕ → RtmpConnection
new_connection client_id = record {
  state = unitialized;
  fp9 = false;
  request = [];
  c1 = replicate sig_size 0;
  s1 = replicate sig_size 0;
  c2 = replicate sig_size 0;
  server_digest_position = 0;
  session = some (new_session client_id);
}

-- Whether to go on, the connection, and what was sent.
abbrev pub Received : Type 0
Received = Outcome (Bool × RtmpConnection × List (List ℕ))

-- What is around a connection: its HMAC, the time of the server and what its sessions ask, the
-- identity of a session that is made anew, and whether the socket takes an answer.
pub record Surroundings : Type 0 where
  pub hmac : List ℕ → List ℕ → List ℕ
  pub time : ℕ
  pub host : Host
  pub client_id : List ℕ
  pub is_sent : List ℕ → Bool

module _ (around : Surroundings) where
  -- S1 before it is signed.
  unfoldable pub plain_s1 : Bool → List ℕ
  plain_s1 fp9 =
      to_be 4 around.time
      ++ (to_be 4 (if fp9 then version_fp9 else 0) ++ replicate (sig_size - 8) 0)

  -- Where the client's digest is, if either place has it.
  unfoldable pub client_digest : List ℕ → Outcome (Option ℕ)
  client_digest c1 = calculate_digest_offset c1 1 >>= λ first.
      verify_digest around.hmac first c1 (take 30 genuine_fp_key) >>= λ found.
      if found
      then ok (some first)
      else (calculate_digest_offset c1 2 >>= λ second.
          verify_digest around.hmac second c1 (take 30 genuine_fp_key) >>= λ found'.
          ok (if found' then some second else none))

  -- The client's block with the server's signature in place of its last bytes.
  unfoldable pub signed_c1 : List ℕ → ℕ → Outcome (List ℕ)
  signed_c1 c1 position = read_at c1 position digest_length >>= λ digest.
      hmac_sha256 around.hmac digest genuine_fms_key >>= λ key.
      read_at c1 0 (sig_size - digest_length) >>= λ front.
      hmac_sha256 around.hmac front key >>= λ signature.
      write_at c1 (sig_size - digest_length) signature

  -- The answer to the client's block, by whether the client asks for digests.
  unfoldable pub answer_plain : RtmpConnection → List ℕ → Received
  answer_plain c c1 =
      let s1 : List ℕ = plain_s1 false in
      ok (true, record c { c1 = c1; s1 = s1; state = sent_s2 }, (cs0 ∷ []) ∷ s1 ∷ c1 ∷ [])

  abbrev finish_fp9 : RtmpConnection → List ℕ → List ℕ → Option ℕ → Received
  finish_fp9 c c1 s1 none = ok (false, c, (cs0 ∷ []) ∷ s1 ∷ [])
  finish_fp9 c c1 s1 (some position) = signed_c1 c1 position >>= λ answer.
      ok (true, record c { c1 = answer; state = sent_s2 }, (cs0 ∷ []) ∷ s1 ∷ answer ∷ [])

  unfoldable pub answer_fp9 : RtmpConnection → List ℕ → Received
  answer_fp9 c c1 = calculate_digest_offset (plain_s1 true) 1 >>= λ position.
      sign around.hmac position (plain_s1 true) (take 36 genuine_fms_key) >>= λ s1.
      client_digest c1 >>= λ found.
      finish_fp9 (record c { fp9 = true; c1 = c1; s1 = s1; server_digest_position = position }) c1
        s1 found

  unfoldable pub recv_c1 : RtmpConnection → List ℕ → Received
  recv_c1 c request =
      let c1 : List ℕ = take sig_size request in
      if ltb (length request) sig_size
      then ok (true, record c { request = request; state = got_c0 }, [])
      else if (if c.fp9 then true else not (get_or c1 7 0 == 0))
      then answer_fp9 c c1
      else answer_plain c c1

  unfoldable pub recv_c0 : RtmpConnection → List ℕ → Received
  recv_c0 c [] = fault
  recv_c0 c (b ∷ request) =
      let next = recv_c1 c request in if b == cs0 then next else ok (false, c, [])

  -- A request behind the handshake.
  abbrev session_of : RtmpConnection → RtmpSession
  session_of c = elim c.session [ some s ↦ s | none ↦ new_session around.client_id ]

  abbrev respond : RtmpConnection → List ℕ → Received
  respond c [] = ok (true, c, [])
  respond c (b ∷ response) = ok (around.is_sent (b ∷ response), c, (b ∷ response) ∷ [])

  unfoldable pub recv_done : RtmpConnection → List ℕ → Received
  recv_done c request = recv_request around.host (session_of c) request >>= λ r.
      respond (record c { session = some r.0 }) (r.1)

  unfoldable pub recv_c2 : RtmpConnection → List ℕ → Received
  recv_c2 c request =
      let next =
        recv_done (record c { c2 = take sig_size request; state = handshake_done })
          (drop sig_size request) in
      if ltb (length request) sig_size then ok (true, record c { request = request }, []) else next

  -- `RtmpConnection::recvRequest`; what was kept of an earlier request comes first.
  unfoldable pub recv : RtmpConnection → List ℕ → Received
  recv c₀ bytes =
      let request : List ℕ = c₀.request ++ bytes in
      let c : RtmpConnection = record c₀ { request = [] } in
      elim c₀.state [
        | unitialized ↦ recv_c0 c request
        | got_c0 ↦ recv_c1 c request
        | sent_s2 ↦ recv_c2 c request
        | handshake_done ↦ recv_done c request
      ]
