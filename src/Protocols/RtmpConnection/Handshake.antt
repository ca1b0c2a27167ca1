-- ===== src/Protocols/RtmpConnection/Handshake.antt =====
-- The handshake of a client that asks for no digests (server/src/protocols/ozRtmpConnection.cpp).
use ozonebase.Prelude.{
  ℕ, ◌≤◌, ◌<◌, ◌≡◌, refl, sym, ap, ◌∙◌, true, false, List, [], ◌∷◌, ◌++◌, arith, ltb, length, take,
  drop, get_or, length-append, take-append_self, drop-append_self, take_all, Option, lt→ltb, ltb→lt,
  Bool-cases, inl, inr,
}
use ozonebase.Libgen.Outcome.{ok}
use ozonebase.Protocols.RtmpSession.Session.{RtmpSession}
use ozonebase.Protocols.RtmpConnection.Digest.{sig_size}
use ozonebase.Protocols.RtmpConnection.{
  unitialized, got_c0, sent_s2, handshake_done, RtmpConnection, Surroundings, cs0, plain_s1,
  answer_plain, recv_c1, recv_c0, recv_c2, recv_done, recv,
}

-- A connection that waits for its first byte.
abbrev pub waiting : List ℕ → List ℕ → List ℕ → ℕ → Option RtmpSession → RtmpConnection
waiting c1 s1 c2 position session = record {
  state = unitialized;
  fp9 = false;
  request = [];
  c1 = c1;
  s1 = s1;
  c2 = c2;
  server_digest_position = position;
  session = session;
}

not_less : (a b : ℕ) → b ≤ a → ltb a b ≡ false
not_less a b h = ground arith

module _ (around : Surroundings) where
  recv_c1_plain :
      (c : RtmpConnection) (request : List ℕ)
      → c.fp9 ≡ false
      → sig_size ≤ length request
      → get_or (take sig_size request) 7 0 ≡ 0
      → recv_c1 around c request ≡ answer_plain around c (take sig_size request)
  unfolding recv_c1
  recv_c1_plain c request p h z = rw (not_less (length request) sig_size h) (rw p (rw z refl))

  recv_c1_short :
      (c : RtmpConnection) (request : List ℕ)
      → length request < sig_size
      → recv_c1 around c request ≡ ok (true, record c { request = request; state = got_c0 }, [])
  unfolding recv_c1
  recv_c1_short c request h = rw (lt→ltb (length request) sig_size h) refl

  -- A client that asks for no digests sends its version and its first block, and then its second one
  -- with whatever follows: the server answers with its version, its own first block and a copy of the
  -- client's first one, and then takes what follows the second one as the first request of the
  -- session.
  pub recv_handshake :
      (b₁ b₂ b₃ : List ℕ) (position : ℕ) (session : Option RtmpSession) (c1 c2 rest : List ℕ)
      → length c1 ≡ sig_size
      → get_or c1 7 0 ≡ 0
      → length c2 ≡ sig_size
      → (c : RtmpConnection) × (recv around (waiting b₁ b₂ b₃ position session) (cs0 ∷ c1)
          ≡ ok (true, c, (cs0 ∷ []) ∷ plain_s1 around false ∷ c1 ∷ []))
        × (c.state ≡ sent_s2)
        × (c.session ≡ session)
        × (recv around c (c2 ++ rest)
            ≡ recv_done around (record c { c2 = c2; state = handshake_done }) rest)
  unfolding recv recv_c0 answer_plain recv_c2
  recv_handshake b₁ b₂ b₃ position session c1 c2 rest h z k =
      let c : RtmpConnection = waiting b₁ b₂ b₃ position session in
      let whole : take sig_size c1 ≡ c1 = take_all sig_size c1 (omega arith) in
      let long : ltb (length (c2 ++ rest)) sig_size ≡ false =
        not_less (length (c2 ++ rest)) sig_size (omega (arith, length-append c2 rest)) in
      let front : take sig_size (c2 ++ rest) ≡ c2 =
        take-append_self sig_size c2 rest (omega arith) in
      let back : drop sig_size (c2 ++ rest) ≡ rest =
        drop-append_self sig_size c2 rest (omega arith) in
      (
        record c { c1 = c1; s1 = plain_s1 around false; state = sent_s2 },
        recv_c1_plain c c1 refl (omega arith) (ap (λ b. get_or b 7 0) whole ∙ z)
            ∙ ap (λ b. answer_plain around c b) whole,
        refl,
        refl,
        rw long (rw (front, back) refl),
      )

  -- Cutting the version and the client's first block in two makes no difference for a client that
  -- asks for no digests: of the first part, in which the block is not complete, only the version is
  -- taken and nothing is sent, and with the second part the connection does what it does with both at
  -- once, though the block may still be incomplete or more may follow.
  pub recv_split :
      (b₁ b₂ b₃ : List ℕ) (position : ℕ) (session : Option RtmpSession) (front back : List ℕ)
      → length front < sig_size
      → get_or (take sig_size (front ++ back)) 7 0 ≡ 0
      → (c : RtmpConnection) × (recv around (waiting b₁ b₂ b₃ position session) (cs0 ∷ front)
          ≡ ok (true, c, []))
        × (recv around c back
            ≡ recv around (waiting b₁ b₂ b₃ position session) (cs0 ∷ (front ++ back)))
  unfolding recv recv_c0 answer_plain
  recv_split b₁ b₂ b₃ position session front back h z =
      let c : RtmpConnection = waiting b₁ b₂ b₃ position session in
      let c' : RtmpConnection = record c { state = got_c0 } in
      (
        record c { request = front; state = got_c0 },
        recv_c1_short c front h,
        elim (Bool-cases (ltb (length (front ++ back)) sig_size)) [
          | inl e ↦
              let short : length (front ++ back) < sig_size =
                ltb→lt (length (front ++ back)) sig_size e in
              recv_c1_short c' (front ++ back) short ∙ sym (recv_c1_short c (front ++ back) short)
          | inr e ↦
              let long : sig_size ≤ length (front ++ back) = ground arith in
              recv_c1_plain c' (front ++ back) refl long z
              ∙ sym (recv_c1_plain c (front ++ back) refl long z)
        ],
      )
