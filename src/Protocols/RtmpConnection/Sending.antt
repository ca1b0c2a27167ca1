-- ===== src/Protocols/RtmpConnection/Sending.antt =====
-- server/src/protocols/ozRtmpConnection.cpp: the messages of sendResponse, which no code sends at present.
-- Their first byte has no format, and the fields of their headers are not all in the order of the
-- messages of RtmpSession.
use ozonebase.Prelude.{ℕ, suc, ◌%◌, List, ◌∷◌, ◌++◌, length}
use ozonebase.Libgen.Outcome.{Outcome, ok, ◌>>=◌}
use ozonebase.Libgen.Bytes.{to_be, to_le}
use ozonebase.Protocols.RtmpSession.{add_response_payload}

-- The bytes that go to the socket, for the header types 0 to 2; `txChunkSize` is below 2^31.
unfoldable pub send_response0 : ℕ → ℕ → ℕ → ℕ → List ℕ → Outcome (List ℕ)
send_response0 tx id message_type stream payload =
    add_response_payload (suc (length payload)) tx id payload >>= λ chunks. ok (
      id % 256 ∷ to_be 3 0
      ++ (to_be 3 (length payload) ++ (message_type % 256 ∷ to_be 4 stream ++ chunks)))

unfoldable pub send_response1 : ℕ → ℕ → ℕ → List ℕ → ℕ → Outcome (List ℕ)
send_response1 tx id message_type payload delta =
    add_response_payload (suc (length payload)) tx id payload >>= λ chunks.
    ok (id % 256 ∷ to_le 3 delta ++ (to_be 3 (length payload) ++ (message_type % 256 ∷ chunks)))

unfoldable pub send_response2 : ℕ → ℕ → List ℕ → ℕ → Outcome (List ℕ)
send_response2 tx id payload delta =
    add_response_payload (suc (length payload)) tx id payload >>= λ chunks.
    ok (id % 256 ∷ to_le 3 delta ++ chunks)
