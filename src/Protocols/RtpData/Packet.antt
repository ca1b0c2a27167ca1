-- ===== src/Protocols/RtpData/Packet.antt =====
-- The packets of server/src/protocols/ozRtpData.cpp as a receiver of RFC 3550 reads them.
use ozonebase.Prelude.{
  ℕ, ◌+◌, ◌-◌, ◌/◌, ◌%◌, ◌^◌, ◌<◌, ◌≡◌, ◌∙◌, refl, ap, Bool, List, [], ◌∷◌, ◌++◌, leb, arith,
  length,
}
use ozonebase.Libgen.Outcome.{Outcome, ok, ◌>>=◌}
use ozonebase.Libgen.Bytes.{to_be, read_be}
use ozonebase.Libgen.Buffer.{Buffer, contents, zeroed, sub_size}
use ozonebase.Libgen.Buffer.Append.{append_lem}
use ozonebase.Libgen.Buffer.Resize.{assign_lem, zeroed-IsValid}
use ozonebase.Protocols.RtpData.{RtpData, rtp_header, based_on, build_packet}

pub record Packet : Type 0 where
  pub version : ℕ
  pub marker : Bool
  pub payload_type : ℕ
  pub seq : ℕ
  pub timestamp : ℕ
  pub source : ℕ
  pub payload : List ℕ

-- A packet without contributing sources, field by field.
unfoldable pub read_packet : List ℕ → Outcome Packet
read_packet bytes = read_be 1 0 bytes >>= λ a. read_be 1 0 (a.1) >>= λ b. read_be 2 0 (b.1) >>= λ c.
    read_be 4 0 (c.1) >>= λ d. read_be 4 0 (d.1) >>= λ e. ok (record {
      version = a.0 / 64;
      marker = leb 128 (b.0);
      payload_type = b.0 % 128;
      seq = c.0;
      timestamp = d.0;
      source = e.0;
      payload = e.1;
    })

length-rtp_header :
    (d : RtpData) (timestamp : ℕ) (last : Bool) → length (rtp_header d timestamp last) ≡ 12
unfolding rtp_header to_be
length-rtp_header d timestamp last = refl

read_packet-rtp_header :
    (d : RtpData) (timestamp : ℕ) (last : Bool) (bytes : List ℕ)
    → timestamp < 2 ^ 32
    → d.source < 2 ^ 32
    → read_packet (rtp_header d timestamp last ++ bytes)
      ≡ ok (record {
        version = 2;
        marker = last;
        payload_type = d.payload_type % 128;
        seq = d.seq % 2 ^ 16;
        timestamp = timestamp;
        source = d.source;
        payload = bytes;
      })
unfolding read_packet rtp_header read_be to_be
read_packet-rtp_header d timestamp last bytes t s = ground arith

-- The packet that is built for some bytes and a time code, from a source number below 2 ^ 32 and with
-- fewer than 2 ^ 30 - 12 bytes: the next one has the next number, and a reader finds version 2, the
-- marker, the payload type, the number modulo 2 ^ 16, the time since the base modulo 2 ^ 32, the
-- source and exactly the bytes.
pub read_packet-build_packet :
    (d : RtpData) (bytes : List ℕ) (timecode : ℕ) (last : Bool)
    → d.source < 2 ^ 32
    → length bytes < 2 ^ 30 - 12
    → let d' = based_on d timecode in
      (b : Buffer) × (build_packet d bytes timecode last
        ≡ ok (record d' { seq = d.seq + 1; packet_queue = d.packet_queue ++ (b ∷ []) }))
      × (read_packet (contents b)
          ≡ ok (record {
            version = 2;
            marker = last;
            payload_type = d.payload_type % 128;
            seq = d.seq % 2 ^ 16;
            timestamp = sub_size timecode d'.timestamp_base % 2 ^ 32;
            source = d.source;
            payload = bytes;
          }))
unfolding build_packet based_on zeroed
read_packet-build_packet d bytes timecode last s n =
    let d' : RtpData = based_on d timecode in
    let header : List ℕ = rtp_header d' (sub_size timecode d'.timestamp_base % 2 ^ 32) last in
    let size : length header ≡ 12 =
      length-rtp_header d' (sub_size timecode d'.timestamp_base % 2 ^ 32) last in
    let (h, e, held, room) =
      assign_lem (zeroed (12 + length bytes)) header
        (zeroed-IsValid (12 + length bytes) (omega arith)) refl (omega (arith, size)) in
    let (b, e', held', _) = append_lem h bytes held.valid held.owned (omega (arith, room, size)) in
    (
      b,
      ground (arith, e, e'),
      ap read_packet (held'.shows ∙ ap (λ xs. xs ++ bytes) held.shows)
          ∙ read_packet-rtp_header d' (sub_size timecode d'.timestamp_base % 2 ^ 32) last bytes
              (omega arith) s,
    )
