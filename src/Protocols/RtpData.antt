-- ===== src/Protocols/RtpData.antt =====
-- server/src/protocols/ozRtpData.cpp: the RTP packets that are sent, each a ByteBuffer (Libgen/Buffer)
-- of the header and the data. The bit fields are those of a little-endian machine.
pub mod Packet
use ozonebase.Prelude.{
  ℕ, ◌+◌, ◌*◌, ◌%◌, ◌^◌, Bool, List, [], ◌∷◌, ◌++◌, ◌==◌, if◌then◌else◌, length,
}
use ozonebase.Libgen.Outcome.{Outcome, ok, ◌>>=◌}
use ozonebase.Libgen.Bytes.{to_be}
use ozonebase.Libgen.Buffer.{Buffer, zeroed, assign, append, sub_size}

-- `source` is the number of the session.
pub record RtpData : Type 0 where
  pub payload_type : ℕ
  pub source : ℕ
  pub timestamp_base : ℕ
  pub seq : ℕ
  pub packet_queue : List Buffer

-- Version 2 without padding, extension or contributing sources.
pub rtp_header : RtpData → ℕ → Bool → List ℕ
rtp_header d timestamp last =
    128
    ∷ ((if last then 128 else 0) + d.payload_type % 128)
    ∷ (to_be 2 (d.seq % 2 ^ 16) ++ (to_be 4 timestamp ++ to_be 4 d.source))

-- The time code of the first packet is the base of the others.
pub based_on : RtpData → ℕ → RtpData
based_on d timecode = record d {
  timestamp_base = if d.timestamp_base == 0 then timecode else d.timestamp_base;
}

pub build_packet : RtpData → List ℕ → ℕ → Bool → Outcome RtpData
build_packet d bytes timecode last =
    let d' = based_on d timecode in
    let timestamp : ℕ = sub_size timecode d'.timestamp_base % 2 ^ 32 in
    assign (zeroed (12 + length bytes)) (rtp_header d' timestamp last) >>= λ headed.
    append (headed.1) bytes >>= λ packet.
    ok (record d' { seq = d.seq + 1; packet_queue = d.packet_queue ++ (packet.1 ∷ []) })
