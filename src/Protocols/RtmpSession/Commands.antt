-- ===== src/Protocols/RtmpSession/Commands.antt =====
-- server/src/protocols/ozRtmpSession.cpp: the messages that RtmpSession::handleRequest sends, as what
-- they add to the response.
use ozonebase.Prelude.{ℕ, Bool, false, List, [], ◌∷◌, ◌++◌, if◌then◌else◌}
use ozonebase.Libgen.Outcome.{Outcome, ok, ◌>>=◌}
use ozonebase.Libgen.Bytes.{to_be}
use ozonebase.Libgen.Text.{codes}
use ozonebase.Protocols.Amf.{
  Amf0Record, number, string, object, array, null, Amf0Fields, end, field, encode,
}
use ozonebase.Base.Controller.{Controller, Providers}
use ozonebase.Protocols.RtmpSession.{build_response0}

-- Chunk streams and message types.
abbrev pub csid_low_level : ℕ
csid_low_level = 2

abbrev pub csid_high_level : ℕ
csid_high_level = 3

abbrev pub csid_control : ℕ
csid_control = 4

abbrev pub type_set_chunk_size : ℕ
type_set_chunk_size = 1

abbrev pub type_user_ctrl_message : ℕ
type_user_ctrl_message = 4

abbrev pub type_window_ack_size : ℕ
type_window_ack_size = 5

abbrev pub type_set_peer_bandwidth : ℕ
type_set_peer_bandwidth = 6

abbrev pub type_cmd_amf3 : ℕ
type_cmd_amf3 = 17

abbrev pub type_cmd_amf0 : ℕ
type_cmd_amf0 = 20

abbrev pub obj_encoding_amf3 : ℕ
obj_encoding_amf3 = 3

abbrev pub ack_window_size : ℕ
ack_window_size = 2500000

abbrev pub limit_type_dynamic : ℕ
limit_type_dynamic = 2

abbrev pub play_chunk_size : ℕ
play_chunk_size = 32768

-- What the session asks its surroundings: the conversions between int and double (an int as its 32
-- bits, a double as its 64), the connection's controller, and the providers that there are.
pub record Host : Type 0 where
  pub int_of_double : ℕ → ℕ
  pub double_of_int : ℕ → ℕ
  pub controller : Controller
  pub providers : Providers

-- `encode` of several records into one payload.
unfoldable pub encode_all : List Amf0Record → Outcome (List ℕ)
encode_all [] = ok []
encode_all (r ∷ records) = encode r >>= λ bytes. encode_all records >>= λ rest. ok (bytes ++ rest)

-- A command message, with the payload of its records.
unfoldable pub send_command : ℕ → ℕ → ℕ → List Amf0Record → Outcome (List ℕ)
send_command tx id stream records =
    encode_all records >>= λ payload. build_response0 tx id type_cmd_amf0 stream payload

-- The user control message "stream begin".
unfoldable pub send_stream_begin : ℕ → ℕ → Outcome (List ℕ)
send_stream_begin tx stream =
    build_response0 tx csid_low_level type_user_ctrl_message stream (to_be 2 0 ++ to_be 4 0)

unfoldable pub send_window_ack_size : ℕ → Outcome (List ℕ)
send_window_ack_size tx =
    build_response0 tx csid_low_level type_window_ack_size 0 (to_be 4 ack_window_size)

unfoldable pub send_peer_bandwidth : ℕ → Outcome (List ℕ)
send_peer_bandwidth tx =
    build_response0 tx csid_low_level type_set_peer_bandwidth 0
      (to_be 4 ack_window_size ++ (limit_type_dynamic ∷ []))

unfoldable pub send_chunk_size : ℕ → Outcome (List ℕ)
send_chunk_size tx =
    build_response0 tx csid_low_level type_set_chunk_size 0 (to_be 4 play_chunk_size)

module _ (host : Host) where
  abbrev int_record : ℕ → Amf0Record
  int_record n = number (host.double_of_int n)

  -- The `properties` and the `data` of each "_result".
  abbrev properties : Amf0Record
  properties = object false (
      field (codes "fmsVer") (string (codes "FMS/3,5,1,516"))
        (field (codes "capabilities") (int_record 31) (field (codes "mode") (int_record 1) end)))

  abbrev version : Amf0Fields
  version = field (codes "version") (string (codes "3,5,1,516")) end

  -- The records of a "_result", with the version as the object or array that it is sent in.
  unfoldable pub result_records : List ℕ → List ℕ → ℕ → Amf0Record → List Amf0Record
  result_records outcome description encoding data_record =
      string (codes "_result")
      ∷ int_record 1
      ∷ properties
      ∷ object false (
          field (codes "level") (string (codes "status")) (
            field (codes "code") (string outcome) (
              field (codes "description") (string description) (
                field (codes "objectEncoding") (int_record encoding)
                  (field (codes "data") data_record end)))))
      ∷ []

  -- The answer to "connect", by whether the stream's name is known.
  unfoldable pub send_connect_result : ℕ → Bool → ℕ → Outcome (List ℕ)
  send_connect_result tx known encoding = send_command tx csid_high_level 0 (
      result_records
        (if known
          then codes "NetConnection.Connect.Success"
          else codes "NetConnection.Connect.Failed")
        (if known then codes "Connection Succeeded." else codes "Connection Failed.") encoding
        (array false version))

  unfoldable pub send_connected : ℕ → Outcome (List ℕ)
  send_connected tx = send_command tx csid_high_level 0 (
      result_records (codes "NetConnection.Connect.Success") (codes "Connection Succeeded.")
        obj_encoding_amf3 (object false version))

  unfoldable pub send_closed : ℕ → Outcome (List ℕ)
  send_closed tx = send_command tx csid_high_level 0 (
      result_records (codes "NetConnection.Connect.Closed") (codes "Connection Closed.")
        obj_encoding_amf3 (array false version))

  -- The "_result" of "createStream".
  unfoldable pub send_stream_created : ℕ → ℕ → ℕ → ℕ → Outcome (List ℕ)
  send_stream_created tx id stream transaction =
      send_command tx id stream
        (string (codes "_result") ∷ int_record transaction ∷ null ∷ int_record 1 ∷ [])

  -- An "onStatus" about a stream; `last` are the fields behind the client's id.
  unfoldable pub send_status :
      ℕ → ℕ → ℕ → List ℕ → List ℕ → List ℕ → List ℕ → Amf0Fields → Outcome (List ℕ)
  send_status tx stream transaction outcome description details client_id last =
      send_command tx csid_control stream (
        string (codes "onStatus")
        ∷ int_record transaction
        ∷ null
        ∷ object false (
            field (codes "level") (string (codes "status")) (
              field (codes "code") (string outcome) (
                field (codes "description") (string description) (
                  field (codes "details") (string details)
                    (field (codes "clientid") (string client_id) last)))))
        ∷ [])
