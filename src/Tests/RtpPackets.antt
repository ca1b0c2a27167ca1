-- ===== src/Tests/RtpPackets.antt =====
-- An RTP packet that is sent.
use ozonebase.Prelude.{◌+◌, ◌%◌, ◌^◌, ◌≡◌, true, [], ◌∷◌, ◌++◌, arith}
use ozonebase.Libgen.Outcome.{ok}
use ozonebase.Libgen.Buffer.{Buffer, contents, sub_size}
use ozonebase.Protocols.RtpData.{RtpData, based_on, build_packet}
use ozonebase.Protocols.RtpData.Packet.{read_packet, read_packet-build_packet}

abbrev sender : RtpData
sender = record {
  payload_type = 96;
  source = 77;
  timestamp_base = 1000;
  seq = 65537;
  packet_queue = [];
}

read_packet-build_packet_example :
    let d' = based_on sender 4600 in
    (b : Buffer) × (build_packet sender (1 ∷ 2 ∷ []) 4600 true
      ≡ ok (record d' { seq = 65537 + 1; packet_queue = [] ++ (b ∷ []) }))
    × (read_packet (contents b)
        ≡ ok (record {
          version = 2;
          marker = true;
          payload_type = 96;
          seq = 1;
          timestamp = sub_size 4600 d'.timestamp_base % 2 ^ 32;
          source = 77;
          payload = 1 ∷ 2 ∷ [];
        }))
read_packet-build_packet_example =
    read_packet-build_packet sender (1 ∷ 2 ∷ []) 4600 true (omega arith) (omega arith)
