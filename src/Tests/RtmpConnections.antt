-- ===== src/Tests/RtmpConnections.antt =====
-- The handshake of RTMP connections, AMF objects and controllers at work.
use ozonebase.Prelude.{
  ℕ, ◌≡◌, refl, inl, true, false, List, [], ◌∷◌, ◌++◌, none, arith, length, replicate,
  length-replicate, length-take, length-append, take,
}
use ozonebase.Libgen.Outcome.{ok}
use ozonebase.Libgen.Text.{codes}
use ozonebase.Base.Controller.{Controller}
use ozonebase.Protocols.RtmpConnection.{
  sent_s2, handshake_done, RtmpConnection, Surroundings, cs0, plain_s1, recv, recv_done,
}
use ozonebase.Protocols.RtmpConnection.Digest.{
  sig_size, digest_length, calculate_digest_offset, verify_digest, sign,
}
use ozonebase.Protocols.RtmpConnection.Signing.{verify_digest-sign}
use ozonebase.Protocols.RtmpConnection.Handshake.{waiting, recv_handshake, recv_split}

abbrev ones : List ℕ
ones = replicate sig_size 1

abbrev zeros : List ℕ
zeros = replicate sig_size 0

-- A digest that depends on its key only.
abbrev hmac : List ℕ → List ℕ → List ℕ
hmac key message = take 32 (key ++ replicate 32 7)

hmac_length : (key : List ℕ) → length (take 32 (key ++ replicate 32 7)) ≡ digest_length
hmac_length key = omega (
  arith,
  length-take 32 (key ++ replicate 32 7),
  length-append key (replicate 32 7),
  length-replicate {A = ℕ} 32 7,
)

verify_digest-sign_example :
    (position : ℕ) × (out : List ℕ) × (calculate_digest_offset ones 1 ≡ ok position)
    × (sign hmac position ones (codes "key") ≡ ok out)
    × (length out ≡ sig_size)
    × (calculate_digest_offset out 1 ≡ ok position)
    × (verify_digest hmac position out (codes "key") ≡ ok true)
verify_digest-sign_example =
    verify_digest-sign hmac (λ key message. hmac_length key) ones (codes "key") 1
      (length-replicate {A = ℕ} sig_size 1) (inl refl)

abbrev around : Surroundings
around = record {
  hmac = hmac;
  time = 5;
  host = record {
    int_of_double = λ bits. 1;
    double_of_int = λ n. 2;
    controller = record { application_classes = []; application_instances = [] };
    providers = [];
  };
  client_id = codes "abcd1234";
  is_sent = λ bytes. true;
}

recv_handshake_example :
    (c : RtmpConnection) × (recv around (waiting zeros zeros zeros 0 none) (cs0 ∷ zeros)
      ≡ ok (true, c, (cs0 ∷ []) ∷ plain_s1 around false ∷ zeros ∷ []))
    × (c.state ≡ sent_s2)
    × (c.session ≡ none)
    × (recv around c (ones ++ (2 ∷ []))
        ≡ recv_done around (record c { c2 = ones; state = handshake_done }) (2 ∷ []))
recv_handshake_example =
    recv_handshake around zeros zeros zeros 0 none zeros ones (2 ∷ [])
      (length-replicate {A = ℕ} sig_size 0) refl (length-replicate {A = ℕ} sig_size 1)

recv_split_example :
    (c : RtmpConnection) × (recv around (waiting zeros zeros zeros 0 none) (cs0 ∷ 4 ∷ 5 ∷ [])
      ≡ ok (true, c, []))
    × (recv around c (6 ∷ [])
        ≡ recv around (waiting zeros zeros zeros 0 none) (cs0 ∷ 4 ∷ 5 ∷ 6 ∷ []))
recv_split_example =
    recv_split around zeros zeros zeros 0 none (4 ∷ 5 ∷ []) (6 ∷ []) (omega arith) refl

abbrev live : Controller
live = record {
  application_classes = (codes "cam", codes "NetworkAVInput") ∷ [];
  application_instances = [];
}
