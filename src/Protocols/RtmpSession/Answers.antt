-- ===== src/Protocols/RtmpSession/Answers.antt =====
-- What the other side reads of a command message that the session of
-- server/src/protocols/ozRtmpSession.cpp sends: the records of ozRtmpAmf.cpp in the chunks of
-- buildResponse0.
use ozonebase.Prelude.{
  ℕ, zero, suc, ◌+◌, ◌^◌, ◌<◌, ◌≤◌, ◌≡◌, refl, sym, ap, subst, ◌∙◌, List, [], ◌∷◌, ◌++◌, append-nil,
  arith, length, length-append,
}
use ozonebase.Libgen.Outcome.{ok, >>=-eq-ok, ok-injective}
use ozonebase.Libgen.Bytes.{to_be}
use ozonebase.Libgen.Text.{codes, same}
use ozonebase.Protocols.Amf.{
  Amf0Record, number, boolean, string, object, array, null, undefined, encode, decode,
}
use ozonebase.Protocols.Amf.Encode.{IsSound, weight, encode-Encoded}
use ozonebase.Protocols.Amf.RoundTrip.{decode-encode}
use ozonebase.Protocols.RtmpRequest.{RtmpRequest, new_request}
use ozonebase.Protocols.RtmpSession.{build_response0, request_of, put_request, recv_chunks}
use ozonebase.Protocols.RtmpSession.Commands.{
  Host, type_cmd_amf0, encode_all, send_command, send_stream_created,
}
use ozonebase.Protocols.RtmpSession.Session.{RtmpSession, stream_created, decode_all}
use ozonebase.Protocols.RtmpSession.Handling.{handle_create_stream}
use ozonebase.Protocols.RtmpSession.Messages.{Message, request_for}
use ozonebase.Protocols.RtmpSession.Sequences.{recv_chunks-send_all}

abbrev pub AllSound : List Amf0Record → Type 0
AllSound [] = Unit {0}
AllSound (r ∷ records) = IsSound r × AllSound records

weight_pos : (r : Amf0Record) → 0 < weight r
weight_pos (number bits) = omega arith
weight_pos (boolean b) = omega arith
weight_pos (string bytes) = omega arith
weight_pos (object o fields) = omega arith
weight_pos (array o fields) = omega arith
weight_pos null = omega arith
weight_pos undefined = omega arith

encode_pos : (r : Amf0Record) (bytes : List ℕ) → IsSound r → encode r ≡ ok bytes → 0 < length bytes
encode_pos r bytes s e =
    let (sent, x) = encode-Encoded r s in
    let same_bytes : sent ≡ bytes = ok-injective (sym x.sent ∙ e) in
    omega (arith, weight_pos r, x.enough, ap length same_bytes)

decode_all-cons :
    (fuel : ℕ) (r : Amf0Record) (records : List Amf0Record) (bytes rest : List ℕ)
    → 0 < length bytes
    → decode (suc (length bytes + length rest)) (bytes ++ rest) ≡ ok (r, rest)
    → decode_all fuel rest ≡ ok records
    → decode_all (suc fuel) (bytes ++ rest) ≡ ok (r ∷ records)
unfolding decode_all
decode_all-cons fuel r records [] rest h d e = absurd (omega arith)
decode_all-cons fuel r records (b ∷ bytes) rest h d e =
    rw (length-append (b ∷ bytes) rest) (rw d (rw e refl))

pub decode_all-encode_all :
    (records : List Amf0Record)
    → AllSound records
    → (bytes : List ℕ) × (encode_all records ≡ ok bytes)
      × ((fuel : ℕ) → length bytes < fuel → decode_all fuel bytes ≡ ok records)
unfolding encode_all decode_all
decode_all-encode_all [] s = ([], refl, last)
  where
    last : (fuel : ℕ) → 0 < fuel → decode_all fuel [] ≡ ok []
    last zero h = absurd (omega arith)
    last (suc fuel) h = refl
decode_all-encode_all (r ∷ records) s =
    let (rest, er, dr) = decode_all-encode_all records s.1 in
    let (bytes, eb, db) = decode-encode r rest (length rest) s.0 in
    let pos : 0 < length bytes = encode_pos r bytes s.0 eb in
    (bytes ++ rest, rw (eb, er) refl, whole rest dr bytes pos db)
  where
    whole :
        (rest : List ℕ)
        → ((fuel : ℕ) → length rest < fuel → decode_all fuel rest ≡ ok records)
        → (bytes : List ℕ) → 0 < length bytes
        → decode (suc (length bytes + length rest)) (bytes ++ rest) ≡ ok (r, rest)
        → (fuel : ℕ) → length (bytes ++ rest) < fuel
        → decode_all fuel (bytes ++ rest) ≡ ok (r ∷ records)
    whole rest dr bytes pos db zero h = absurd (omega arith)
    whole rest dr bytes pos db (suc fuel) h =
        decode_all-cons fuel r records bytes rest pos db
          (dr fuel (omega (arith, length-append bytes rest)))

-- A command message with its payload.
abbrev pub command_message : ℕ → ℕ → List ℕ → Message
command_message id stream payload = record {
  id = id;
  message_type = type_cmd_amf0;
  stream = stream;
  payload = payload;
}

-- A command message is received as one message of a fresh chunk stream, from whose payload its
-- records are read.
pub recv_chunks-send_command :
    (tx id stream : ℕ) (records : List Amf0Record) (payload : List ℕ)
    → (0 < tx) × (tx < 2 ^ 31)
    → (2 ≤ id) × (id < 64)
    → stream < 2 ^ 32
    → AllSound records
    → encode_all records ≡ ok payload
    → (0 < length payload) × (length payload < 2 ^ 24)
    → (answer : List ℕ) × (send_command tx id stream records ≡ ok answer)
      × (recv_chunks (suc (length answer)) tx [] answer
          ≡ ok ((id, request_for (command_message id stream payload)) ∷ []))
      × (decode_all (suc (length payload)) payload ≡ ok records)
unfolding send_command request_of put_request new_request
recv_chunks-send_command tx id stream records payload ht hid hs sound e hp =
    let (sent, es, d) = decode_all-encode_all records sound in
    let same_payload : sent ≡ payload = ok-injective (sym es ∙ e) in
    let (answer, ea, r) =
      recv_chunks-send_all tx (command_message id stream payload ∷ []) [] ht.0 ht.1
        ((
          record { has_id = hid; has_type = omega arith; has_stream = hs; has_payload = hp },
          refl,
          tt,
        ))
        (omega arith) in
    let (out, eo, e₂) = >>=-eq-ok (build_response0 tx id type_cmd_amf0 stream payload) _ ea in
    let whole : send_command tx id stream records ≡ ok answer =
      rw e (eo ∙ ap ok (sym (append-nil out) ∙ ok-injective e₂)) in
    (
      answer,
      whole,
      r,
      subst (λ p. decode_all (suc (length p)) p ≡ ok records) same_payload
          (d (suc (length sent)) (omega arith)),
    )

-- In the state CONNECTED, the command "createStream" is answered on its chunk stream with one message,
-- from which the other side, with the same chunk size, reads "_result", the number of the command as
-- an int, a null and the stream's number 1; the session goes to STREAM_CREATED. The doubles of ints
-- have 64 bits, and the chunk stream's number fits in one byte of a header.
pub handle_create_stream-answers :
    (host : Host) (s : RtmpSession) (id transaction : ℕ) (q : RtmpRequest)
    (records : List Amf0Record)
    → ((n : ℕ) → host.double_of_int n < 2 ^ 64)
    → (0 < s.tx_chunk_size) × (s.tx_chunk_size < 2 ^ 31)
    → (2 ≤ id) × (id < 64)
    → q.message_stream_id < 2 ^ 32
    → (answer : List ℕ) × (payload : List ℕ) × (handle_create_stream host s id q
          (string (codes "createStream") ∷ number transaction ∷ records)
        ≡ ok (record s { state = stream_created }, answer))
      × (recv_chunks (suc (length answer)) s.tx_chunk_size [] answer
          ≡ ok ((id, request_for (command_message id q.message_stream_id payload)) ∷ []))
      × (decode_all (suc (length payload)) payload
          ≡ ok (
              string (codes "_result")
              ∷ number (host.double_of_int (host.int_of_double transaction))
              ∷ null
              ∷ number (host.double_of_int 1)
              ∷ []))
unfolding handle_create_stream send_stream_created encode_all encode to_be same
handle_create_stream-answers host s id transaction q records hd ht hid hs =
    let (answer, ea, er, ed) =
      recv_chunks-send_command s.tx_chunk_size id q.message_stream_id
        (string (codes "_result")
          ∷ number (host.double_of_int (host.int_of_double transaction))
          ∷ null
          ∷ number (host.double_of_int 1)
          ∷ [])
        _ ht hid hs (omega arith, (hd (host.int_of_double transaction), (tt, (hd 1, tt)))) refl
        (omega arith, omega arith) in
    (answer, _, rw ea refl, er, ed)
